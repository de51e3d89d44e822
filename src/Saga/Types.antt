-- ===== src/Saga/Types.antt =====
-- The types of checkout-saga.ts. A union of string literals is a data type; ids and instants are
-- only compared, so they are numbers.
use jcool_ecommerce_backend.Base.{ℕ, String, Option, List, Text}
use jcool_ecommerce_backend.Order.Status.{OrderStatus}

pub data CheckoutStep : Type 0 where
  reserving awaiting_auth committing_stock capturing completed compensating compensated :
      CheckoutStep

pub data CheckoutSagaMode : Type 0 where
  checkout late_authorization : CheckoutSagaMode

pub data ReserveOutcome : Type 0 where
  held out_of_stock contended conflict timeout error abandoned : ReserveOutcome

pub data ParticipantTryOutcome : Type 0 where
  reserved out_of_stock contended conflict : ParticipantTryOutcome

pub data CommitOutcome : Type 0 where
  applied idempotent conflict : CommitOutcome

pub data SettledCaptureOutcome : Type 0 where
  captured idempotent not_capturable : SettledCaptureOutcome

pub data AuthorizationVerdict : Type 0 where
  verified not_authorized payment_mismatch : AuthorizationVerdict

pub data AuthorizationIgnoredReason : Type 0 where
  amount_mismatch not_authorized payment_mismatch : AuthorizationIgnoredReason

pub data CancelBy : Type 0 where
  buyer admin : CancelBy

pub data CompensationReason : Type 0 where
  try_failed try_timeout abandoned expired cancelled commit_conflict capture_failed
        late_authorization :
      CompensationReason

-- The literals that the constructors stand for, where their text matters.
unfoldable pub reason_name : CompensationReason → String
reason_name CompensationReason.try_failed = "TRY_FAILED"
reason_name CompensationReason.try_timeout = "TRY_TIMEOUT"
reason_name CompensationReason.abandoned = "ABANDONED"
reason_name CompensationReason.expired = "EXPIRED"
reason_name CompensationReason.cancelled = "CANCELLED"
reason_name CompensationReason.commit_conflict = "COMMIT_CONFLICT"
reason_name CompensationReason.capture_failed = "CAPTURE_FAILED"
reason_name CompensationReason.late_authorization = "LATE_AUTHORIZATION"

pub record PaymentAuthorization : Type 0 where
  pub payment_id : ℕ
  pub amount_minor : ℕ
  pub currency : Text
  pub authorized_at : ℕ

-- A `paymentRef` that is absent or undefined is `none`.
pub record OrderChangeCommand : Type 0 where
  pub from : List OrderStatus
  pub to : OrderStatus
  pub reason : Option Text
  pub payment_ref : Option ℕ

pub data CompensationType : Type 0 where
  release_stock restock cancel_payment : CompensationType

pub record CompensationCommand : Type 0 where
  pub kind : CompensationType
  pub id : ℕ
  pub reason : CompensationReason

pub data SagaCommand : Type 0 where
  change_order : OrderChangeCommand → SagaCommand
  verify_authorization : PaymentAuthorization → SagaCommand
  commit_stock capture_payment : SagaCommand
  compensation : CompensationCommand → SagaCommand

pub record CheckoutSagaState : Type 0 where
  pub mode : CheckoutSagaMode
  pub step : CheckoutStep
  pub order_status : Option OrderStatus
  pub try_outcome : Option ReserveOutcome
  pub authorization : Option PaymentAuthorization
  pub verifying : List ℕ
  pub voided : List ℕ
  pub pending : List CompensationCommand
  pub next_command_id : ℕ

pub record Transition : Type 0 where
  pub state : CheckoutSagaState
  pub commands : List SagaCommand

pub record AuthorizationTransition : Type 0 where
  pub state : CheckoutSagaState
  pub commands : List SagaCommand
  pub ignored : Option AuthorizationIgnoredReason

pub record Expected : Type 0 where
  pub total_minor : ℕ
  pub currency : Text
