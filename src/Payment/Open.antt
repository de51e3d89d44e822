-- ===== src/Payment/Open.antt =====
-- open-payment-session.use-case.ts of .../payment/application/use-cases: its two transactions and
-- what it concludes from the current attempt.
use jcool_ecommerce_backend.Base.{
  ℕ, Bool, true, false, not, ◌||◌, ◌&&◌, Option, none, some, Text, text_eq, to_upper, ℤ, eq_ℤ,
  if◌then◌else◌, ◌+◌, ◌*◌, ltb,
}
use jcool_ecommerce_backend.Payment.Status.{PaymentStatus, status_eq}
use jcool_ecommerce_backend.Payment.Fence.{PaymentOrderStatus, OpenDecision, decide_open_session}
use jcool_ecommerce_backend.Payment.Authorization.{Header, HeldCharge}
use jcool_ecommerce_backend.Payment.Entity.{Payment, Result, ok, err, PaymentError}
use jcool_ecommerce_backend.Payment.Entity
use jcool_ecommerce_backend.Payment.Store.{
  Tx, pure, lift, ◌>>=◌, ◌>>◌, insert_open, find_for_update, find_active_by_order_id_for_update,
  same_id, create_payment, update_status,
}
use jcool_ecommerce_backend.Payment.Gateway.{SessionAuthorization, SessionStatus}
use jcool_ecommerce_backend.Payment.Record.{held_charge}

-- `minLeadMs`, and the early return of `execute` for a session that would close too soon.
unfoldable pub is_too_close : ℕ → ℕ → ℕ → ℕ → Bool
is_too_close min_ttl_sec margin_sec expires_at now =
    ltb expires_at (now + (min_ttl_sec + margin_sec) * 1000)

abbrev same_charge : Header → ℤ → Text → Bool
same_charge header amount_minor currency =
    elim header.amount_minor [ none ↦ false | some locked ↦ eq_ℤ locked amount_minor ]
    && elim header.currency [ none ↦ false | some locked ↦ text_eq (to_upper locked) currency ]

abbrev is_closed : OpenDecision → Bool
is_closed OpenDecision.closed = true
is_closed OpenDecision.may_open = false

-- The first transaction: `none` answers CLOSED; else the active attempt, if there is one. The caller
-- has put the currency in upper case.
unfoldable pub claim : Text → ℤ → Text → Tx (Option (Option Payment))
unfolding insert_open decide_open_session
claim order_id amount_minor currency = do
  insert_open order_id amount_minor currency
  found ← find_for_update order_id
  elim found [
    | none ↦ pure none
    | some header ↦
        if is_closed (decide_open_session (some header.status))
          || not (same_charge header amount_minor currency)
        then pure none
        else (do active ← find_active_by_order_id_for_update order_id; pure (some active))
  ]

-- `Probe`: what the current attempt leaves to do. `record_first` also answers CLOSED, once the hold
-- that the provider reports was recorded.
pub data Probe : Type 0 where
  retire : Option Payment → Probe
  reuse : Payment → Option Text → Probe
  answer_closed : Probe
  record_first : Payment → HeldCharge → Probe

abbrev completed_probe : Payment → Option HeldCharge → Probe
completed_probe active none = Probe.answer_closed
completed_probe active (some hold) = Probe.record_first active hold

-- `probe`, from the provider's answer for the attempt's session.
unfoldable pub probe : (Text → SessionAuthorization) → Option Payment → Probe
unfolding held_charge status_eq
probe retrieve_authorization none = Probe.retire none
probe retrieve_authorization (some active) =
    let authorization = retrieve_authorization active.provider_session_id in
    if not (status_eq active.status PaymentStatus.pending)
    then Probe.answer_closed
    else elim authorization.session_status [
      | SessionStatus.open_session ↦ Probe.reuse active authorization.redirect_url
      | SessionStatus.expired ↦ Probe.retire (some active)
      | SessionStatus.complete ↦ completed_probe active (held_charge authorization)
      | SessionStatus.unknown ↦ Probe.answer_closed
    ]

abbrev is_opened : PaymentOrderStatus → Bool
is_opened PaymentOrderStatus.opened = true
is_opened _ = false

unfoldable pub insert_payment : Text → ℤ → Text → Text → Text → ℕ → Tx (Option Payment)
unfolding Entity.create create_payment
insert_payment order_id amount_minor currency provider provider_session_id payment_id = do
  payment ← lift (Entity.create order_id provider provider_session_id amount_minor currency none)
  created ← create_payment payment payment_id
  pure (some created)

abbrev id_of : Option Payment → Option ℕ
id_of none = none
id_of (some p) = p.id

abbrev is_same_attempt : Payment → Option Payment → Bool
is_same_attempt active none = false
is_same_attempt active (some retiring) = same_id active.id retiring.id

-- The second transaction, `insertIfStillOpen`. The caller answers `none` where it throws
-- `duplicate_active_payment`, with nothing written.
unfoldable pub insert_if_still_open :
    Text → ℤ → Text → Text → Text → ℕ → Option Payment → Tx (Option Payment)
unfolding insert_payment update_status
insert_if_still_open order_id amount_minor currency provider provider_session_id payment_id
      retiring =
    do
      header ← find_for_update order_id
      elim header [
        | none ↦ pure none
        | some header ↦ if not (is_opened header.status) then pure none else (do
          found ← find_active_by_order_id_for_update order_id
          elim found [
            | none ↦
                insert_payment order_id amount_minor currency provider provider_session_id
                  payment_id
            | some active ↦ if not (is_same_attempt active retiring) then pure none else (do
              retired ←
                  update_status active.id PaymentStatus.expired none (some PaymentStatus.pending)
              elim retired [
                | none ↦ pure none
                | some _ ↦
                    insert_payment order_id amount_minor currency provider provider_session_id
                      payment_id
              ])
          ])
      ]
