-- ===== src/Order/Status.antt =====
-- order-status.ts and order-state-machine.ts of apps/order-service/src/modules/order/domain.
pub mod Terminal
use jcool_ecommerce_backend.Base.{Bool, true, false, List, [], ◌∷◌, any, ◌&&◌}

pub data OrderStatus : Type 0 where
  draft reserving pending confirming paid failed expired cancelled rejected : OrderStatus

-- `===` on two statuses.
unfoldable pub status_eq : OrderStatus → OrderStatus → Bool
status_eq OrderStatus.draft OrderStatus.draft = true
status_eq OrderStatus.reserving OrderStatus.reserving = true
status_eq OrderStatus.pending OrderStatus.pending = true
status_eq OrderStatus.confirming OrderStatus.confirming = true
status_eq OrderStatus.paid OrderStatus.paid = true
status_eq OrderStatus.failed OrderStatus.failed = true
status_eq OrderStatus.expired OrderStatus.expired = true
status_eq OrderStatus.cancelled OrderStatus.cancelled = true
status_eq OrderStatus.rejected OrderStatus.rejected = true
status_eq _ _ = false

pub record Edge : Type 0 where
  pub from : OrderStatus
  pub to : OrderStatus
  pub wired : Bool

abbrev edge : OrderStatus → OrderStatus → Edge
edge a b = record { from = a; to = b; wired = true }

unfoldable pub transitions : List Edge
transitions =
    edge OrderStatus.draft OrderStatus.cancelled
    ∷ edge OrderStatus.pending OrderStatus.expired
    ∷ edge OrderStatus.pending OrderStatus.cancelled
    ∷ edge OrderStatus.draft OrderStatus.reserving
    ∷ edge OrderStatus.reserving OrderStatus.pending
    ∷ edge OrderStatus.reserving OrderStatus.rejected
    ∷ edge OrderStatus.pending OrderStatus.confirming
    ∷ edge OrderStatus.confirming OrderStatus.paid
    ∷ edge OrderStatus.confirming OrderStatus.failed
    ∷ []

unfoldable pub terminal_statuses : List OrderStatus
terminal_statuses =
    OrderStatus.paid ∷ OrderStatus.failed ∷ OrderStatus.expired ∷ OrderStatus.cancelled
    ∷ OrderStatus.rejected ∷ []

unfoldable pub can_transition : OrderStatus → OrderStatus → Bool
unfolding status_eq transitions
can_transition from to =
    any (λ t. status_eq t.from from && status_eq t.to to && t.wired) transitions

unfoldable pub is_terminal : OrderStatus → Bool
unfolding status_eq terminal_statuses
is_terminal status = any (λ s. status_eq s status) terminal_statuses
