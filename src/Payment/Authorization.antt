-- ===== src/Payment/Authorization.antt =====
-- authorization-decision.ts of .../payment/domain.
use jcool_ecommerce_backend.Base.{
  ℕ, Bool, true, false, not, ◌&&◌, ◌||◌, Option, none, some, Text, ℤ, eq_ℤ, text_eq, to_upper,
  if◌then◌else◌,
}
use jcool_ecommerce_backend.Payment.Status.{PaymentStatus}
use jcool_ecommerce_backend.Payment.Fence.{PaymentOrderStatus}
use jcool_ecommerce_backend.Payment.Entity.{Payment}

pub data AuthorizationDecision : Type 0 where
  record_hold record_late already_recorded stray amount_mismatch : AuthorizationDecision

-- `PaymentOrderHeader` of payment-order-repository.port.ts, less the order it is filed under.
pub record Header : Type 0 where
  pub status : PaymentOrderStatus
  pub amount_minor : Option ℤ
  pub currency : Option Text
  pub authorized_at : Option ℕ

-- `HeldCharge` of record-authorization.use-case.ts.
pub record HeldCharge : Type 0 where
  pub intent_id : Text
  pub amount_minor : Option ℤ
  pub currency : Option Text

abbrev pub is_recorded : PaymentStatus → Bool
is_recorded PaymentStatus.authorized = true
is_recorded PaymentStatus.succeeded = true
is_recorded PaymentStatus.voided = true
is_recorded _ = false

abbrev pub is_retired : PaymentStatus → Bool
is_retired PaymentStatus.expired = true
is_retired PaymentStatus.failed = true
is_retired _ = false

abbrev pub header_holds : PaymentOrderStatus → Bool
header_holds PaymentOrderStatus.authorized = true
header_holds PaymentOrderStatus.captured = true
header_holds _ = false

abbrev pub is_some : {A : Type 0} → Option A → Bool
is_some none = false
is_some (some _) = true

unfoldable pub charge_matches : Option ℤ → Option Text → HeldCharge → Bool
charge_matches (some amount) (some currency) charge =
    elim charge.amount_minor [ none ↦ false | some held ↦ eq_ℤ held amount ]
    && elim charge.currency [
      | none ↦ false
      | some held ↦ text_eq (to_upper held) (to_upper currency)
    ]
charge_matches _ _ charge = false

abbrev is_cancelled : PaymentOrderStatus → Bool
is_cancelled PaymentOrderStatus.cancelled = true
is_cancelled _ = false

unfoldable pub decide_authorization : Payment → Header → HeldCharge → AuthorizationDecision
unfolding charge_matches
decide_authorization payment header charge =
    if is_recorded payment.status
    then AuthorizationDecision.already_recorded
    else if is_retired payment.status || is_some header.authorized_at || header_holds header.status
    then AuthorizationDecision.stray
    else if not (charge_matches header.amount_minor header.currency charge)
        || not (charge_matches (some payment.amount_minor) (some payment.currency) charge)
    then AuthorizationDecision.amount_mismatch
    else if is_cancelled header.status
    then AuthorizationDecision.record_late
    else AuthorizationDecision.record_hold
