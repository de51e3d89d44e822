-- ===== src/Payment/Entity.antt =====
-- payment.entity.ts of .../payment/domain, and the errors that the payment commands throw.

use jcool_ecommerce_backend.Base.{ℕ, Option, none, some, Text, ℤ, if◌then◌else◌}
use jcool_ecommerce_backend.Kernel.{DomainError, ◌>>=◌, ◌>>◌}
use jcool_ecommerce_backend.Kernel
use jcool_ecommerce_backend.Kernel.Guard.{assert_non_empty, assert_positive}
use jcool_ecommerce_backend.Kernel.Money
use jcool_ecommerce_backend.Payment.Status.{PaymentStatus, status_eq, can_transition}

pub record Payment : Type 0 where
  pub id : Option ℕ
  pub order_id : Text
  pub provider : Text
  pub provider_session_id : Text
  pub provider_intent_id : Option Text
  pub amount_minor : ℤ
  pub currency : Text
  pub status : PaymentStatus
  pub stripe_key_gen : ℕ

-- `invariant_broken` is a plain `Error`, and `gateway_fault` one that the gateway raised.
pub data PaymentError : Type 0 where
  domain : DomainError → PaymentError
  payment_transition : PaymentStatus → PaymentStatus → PaymentError
  duplicate_active_payment : Text → PaymentError
  webhook_retry_later invariant_broken gateway_fault : PaymentError

pub data Result {ℓ} (A : Type ℓ) : Type ℓ where
  ok : A → Result A
  err : PaymentError → Result A

-- A `DomainError` of the kernel, among the errors of this service.
abbrev from_kernel : {A : Type 0} → Kernel.Result A → Result A
from_kernel (Kernel.ok a) = ok a
from_kernel (Kernel.err e) = err (domain e)

unfoldable pub checked : Text → Text → Text → ℤ → Text → Option Text → Kernel.Result Payment
unfolding assert_non_empty assert_positive Money.of
checked order_id provider provider_session_id amount_minor currency provider_intent_id = do
  assert_non_empty (some order_id)
  assert_non_empty (some provider)
  assert_non_empty (some provider_session_id)
  assert_positive amount_minor
  money ← Money.of amount_minor currency
  Kernel.ok (record {
    id = none;
    order_id = order_id;
    provider = provider;
    provider_session_id = provider_session_id;
    provider_intent_id = provider_intent_id;
    amount_minor = money.amount_minor;
    currency = money.currency;
    status = PaymentStatus.pending;
    stripe_key_gen = 0;
  })

-- `Payment.create`
unfoldable pub create : Text → Text → Text → ℤ → Text → Option Text → Result Payment
unfolding checked
create order_id provider provider_session_id amount_minor currency provider_intent_id =
    from_kernel
      (checked order_id provider provider_session_id amount_minor currency provider_intent_id)

-- `providerIntentId ?? this.providerIntentId`
abbrev pub or_else : Option Text → Option Text → Option Text
or_else (some intent) kept = some intent
or_else none kept = kept

unfoldable pub with_status : Payment → PaymentStatus → Option Text → Payment
with_status p status provider_intent_id = record p {
  status = status;
  provider_intent_id = or_else provider_intent_id p.provider_intent_id;
}

-- `assertTransition`, then `withStatus`.
unfoldable pub move_to : Payment → PaymentStatus → Option Text → Result Payment
unfolding can_transition with_status
move_to p to provider_intent_id =
    if can_transition p.status to
    then ok (with_status p to provider_intent_id)
    else err (payment_transition p.status to)

abbrev pub mark_succeeded : Payment → Option Text → Result Payment
mark_succeeded p provider_intent_id = move_to p PaymentStatus.succeeded provider_intent_id

abbrev pub mark_failed : Payment → Option Text → Result Payment
mark_failed p provider_intent_id = move_to p PaymentStatus.failed provider_intent_id

abbrev pub mark_expired : Payment → Result Payment
mark_expired p = move_to p PaymentStatus.expired none

abbrev pub mark_authorized : Payment → Text → Result Payment
mark_authorized p provider_intent_id = move_to p PaymentStatus.authorized (some provider_intent_id)

-- `markCaptured`
unfoldable pub mark_captured : Payment → Result Payment
unfolding status_eq with_status
mark_captured p =
    if status_eq p.status PaymentStatus.authorized
    then ok (with_status p PaymentStatus.succeeded none)
    else err (payment_transition p.status PaymentStatus.succeeded)

abbrev pub mark_voided : Payment → Option Text → Result Payment
mark_voided p provider_intent_id = move_to p PaymentStatus.voided provider_intent_id
