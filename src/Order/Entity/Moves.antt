-- ===== src/Order/Entity/Moves.antt =====
-- What the moves of an order keep, and the events that a moved order gives.
use jcool_ecommerce_backend.Base.{ℕ, ◌≡◌, true, false, Option, none, some, Text, arith}
use jcool_ecommerce_backend.Kernel.{Result, ok, err, DomainError}
use jcool_ecommerce_backend.Order.Status.{OrderStatus, can_transition}
use jcool_ecommerce_backend.Order.Entity.{
  Order, Meta, OrderEvent, reserve, confirm_placed, reject, begin_confirming, finalize,
  to_placed_event, to_finalized_event,
}

-- The part of an order that no move may touch.
pub record SameOrder (a b : Order) : Type 0 where
  pub id : b.id ≡ a.id
  pub user_id : b.user_id ≡ a.user_id
  pub currency : b.currency ≡ a.currency
  pub items : b.items ≡ a.items
  pub total : b.total_amount_minor ≡ a.total_amount_minor

abbrev pub Moves : Order → OrderStatus → Result Order → Type 0
Moves a to (ok b) = SameOrder a b × (b.status ≡ to) × (can_transition a.status to ≡ true)
Moves a to (err e) =
    (e ≡ DomainError.illegal_transition a.status to) × (can_transition a.status to ≡ false)

-- Every move either follows a wired edge and keeps the buyer, the lines and the total, or throws
-- because there is no such edge.
pub moves_lem :
    (a : Order) (now at : ℕ) (reason : Text) (outcome : OrderStatus) (meta : Meta)
    → Moves a OrderStatus.reserving (reserve a now at)
      × Moves a OrderStatus.pending (confirm_placed a)
      × Moves a OrderStatus.rejected (reject a reason now)
      × Moves a OrderStatus.confirming (begin_confirming a)
      × Moves a outcome (finalize a outcome meta)
unfolding reserve confirm_placed reject begin_confirming finalize
moves_lem a now at reason outcome meta =
    (ground arith, ground arith, ground arith, ground arith, ground arith)

-- The event that an outcome calls for.
abbrev pub finalized_event : Order → ℕ → Meta → OrderStatus → Option OrderEvent
finalized_event a id m OrderStatus.paid =
    some (OrderEvent.order_paid id a.user_id a.total_amount_minor a.currency m.payment_ref m.now)
finalized_event a id m OrderStatus.failed =
    some (OrderEvent.order_failed id a.user_id m.reason m.now)
finalized_event a id m OrderStatus.expired =
    some (OrderEvent.order_expired id a.user_id m.reason m.now)
finalized_event a id m OrderStatus.cancelled =
    some (OrderEvent.order_cancelled id a.user_id m.reason m.now)
finalized_event a id m _ = none

-- A stored order that is finalized by an outcome that has an event gives exactly that event, with
-- the buyer and total of the order and the time, reason and payment of the call.
pub to_finalized_event-finalize :
    (a b : Order) (id : ℕ) (outcome : OrderStatus) (m : Meta) (event : OrderEvent)
    → a.id ≡ some id
    → finalized_event a id m outcome ≡ some event
    → finalize a outcome m ≡ ok b
    → to_finalized_event b ≡ ok event
unfolding finalize to_finalized_event
to_finalized_event-finalize a b id OrderStatus.paid m event p q h = ground arith
to_finalized_event-finalize a b id OrderStatus.failed m event p q h = ground arith
to_finalized_event-finalize a b id OrderStatus.expired m event p q h = ground arith
to_finalized_event-finalize a b id OrderStatus.cancelled m event p q h = ground arith
to_finalized_event-finalize a b id _ m event p q h = cc

-- A stored draft that is reserved and then confirmed gives its placed event, stamped with the
-- time it was reserved at.
pub to_placed_event-confirm_placed :
    (a b c : Order) (id now deadline : ℕ)
    → a.id ≡ some id
    → reserve a now deadline ≡ ok b
    → confirm_placed b ≡ ok c
    → to_placed_event c
      ≡ ok (OrderEvent.order_placed id a.user_id a.total_amount_minor a.currency now)
unfolding reserve confirm_placed to_placed_event
to_placed_event-confirm_placed a b c id now deadline p h k = ground arith
