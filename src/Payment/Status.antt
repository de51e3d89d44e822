-- ===== src/Payment/Status.antt =====
-- payment-status.ts and payment-state-machine.ts of .../payment/domain.
use jcool_ecommerce_backend.Base.{Bool, true, false, List, [], ◌∷◌, any, ◌&&◌}

pub data PaymentStatus : Type 0 where
  pending succeeded failed expired authorized voided : PaymentStatus

unfoldable pub status_eq : PaymentStatus → PaymentStatus → Bool
status_eq PaymentStatus.pending PaymentStatus.pending = true
status_eq PaymentStatus.succeeded PaymentStatus.succeeded = true
status_eq PaymentStatus.failed PaymentStatus.failed = true
status_eq PaymentStatus.expired PaymentStatus.expired = true
status_eq PaymentStatus.authorized PaymentStatus.authorized = true
status_eq PaymentStatus.voided PaymentStatus.voided = true
status_eq _ _ = false

pub record Transition : Type 0 where
  pub from : PaymentStatus
  pub to : PaymentStatus
  pub wired : Bool

abbrev wire : PaymentStatus → PaymentStatus → Transition
wire a b = record { from = a; to = b; wired = true }

unfoldable pub transitions : List Transition
transitions =
    wire PaymentStatus.pending PaymentStatus.succeeded
    ∷ wire PaymentStatus.pending PaymentStatus.failed
    ∷ wire PaymentStatus.pending PaymentStatus.expired
    ∷ wire PaymentStatus.pending PaymentStatus.authorized
    ∷ wire PaymentStatus.pending PaymentStatus.voided
    ∷ wire PaymentStatus.authorized PaymentStatus.succeeded
    ∷ wire PaymentStatus.authorized PaymentStatus.voided
    ∷ wire PaymentStatus.authorized PaymentStatus.failed
    ∷ []

unfoldable pub can_transition : PaymentStatus → PaymentStatus → Bool
unfolding transitions status_eq
can_transition a b = any (λ t. status_eq t.from a && status_eq t.to b && t.wired) transitions
