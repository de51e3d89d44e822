-- ===== src/Payment/Gateway.antt =====
-- What payment-gateway.port.ts says of the payment provider, whose answers are parameters, and
-- `withIntentKey` of intent-idempotency-key.ts.
use jcool_ecommerce_backend.Base.{ℕ, Bool, Option, Text, ℤ, if◌then◌else◌}
use jcool_ecommerce_backend.Payment.Entity.{Payment, Result, ok, err, PaymentError}
use jcool_ecommerce_backend.Payment.Store.{Db, increment_key_gen, committed}

pub data IntentStatus : Type 0 where
  requires_capture succeeded canceled processing requires_payment_method other : IntentStatus

pub data SessionStatus : Type 0 where
  open_session complete expired unknown : SessionStatus

pub record SessionAuthorization : Type 0 where
  pub session_status : SessionStatus
  pub redirect_url : Option Text
  pub intent_id : Option Text
  pub intent_status : Option IntentStatus
  pub amount_capturable_minor : Option ℤ
  pub currency : Option Text

pub data CaptureIntentResult : Type 0 where
  captured : CaptureIntentResult
  not_capturable : IntentStatus → CaptureIntentResult

pub data VoidIntentOutcome : Type 0 where
  voided already_canceled already_captured : VoidIntentOutcome

pub data ExpireSessionOutcome : Type 0 where
  expired already_closed already_completed : ExpireSessionOutcome

-- A call's answer, or the error it throws; `retryWithFreshKey` is the field of PaymentGatewayError.
pub data Reply (A : Type 0) : Type 0 where
  answer : A → Reply A
  fault : Bool → Reply A

pub data IntentOp : Type 0 where
  capture void : IntentOp

-- `{op}:{paymentId}:{gen}`
pub record IntentKey : Type 0 where
  pub op : IntentOp
  pub payment_id : Option ℕ
  pub gen : ℕ

unfoldable pub with_intent_key :
    {A : Type 0} → Payment → IntentOp → (IntentKey → Reply A) → Db → Result A × Db
unfolding increment_key_gen
with_intent_key payment op call db =
    elim (call (record { op = op; payment_id = payment.id; gen = payment.stripe_key_gen })) [
      | answer a ↦ (ok a, db)
      | fault retry_with_fresh_key ↦ (
        err PaymentError.gateway_fault,
        if retry_with_fresh_key
            then committed db (increment_key_gen payment.id payment.stripe_key_gen db)
            else db,
      )
    ]
