-- ===== src/Order/Entity.antt =====
-- order.entity.ts of apps/order-service/src/modules/order/domain: the order and its moves. A method
-- that may throw returns a `Result`; instants are numbers.
pub mod Totals
pub mod Moves
pub mod Lifespan
use mathlib.Core.Option
use jcool_ecommerce_backend.Base.{
  ℕ, ◌≡◌, Bool, true, false, not, Option, none, some, List, [], ◌∷◌, Text, ℤ, pos, negsuc, ltb, any,
  if◌then◌else◌,
}
use jcool_ecommerce_backend.Kernel.{Result, ok, err, guard, ◌>>=◌, ◌>>◌, DomainError}
use jcool_ecommerce_backend.Kernel.Guard.{assert_non_empty}
use jcool_ecommerce_backend.Kernel.Money
use jcool_ecommerce_backend.Kernel.Money.{Money}
use jcool_ecommerce_backend.Order.Status
use jcool_ecommerce_backend.Order.Status.{OrderStatus, can_transition}
use jcool_ecommerce_backend.Order.Item.{OrderItem, line_total}

-- order.constants.ts
abbrev pub max_quantity_per_order_line : ℕ
max_quantity_per_order_line = 10

pub record Order : Type 0 where
  pub id : Option ℕ
  pub user_id : Text
  pub status : OrderStatus
  pub currency : Text
  pub items : List OrderItem
  pub total_amount_minor : ℤ
  pub placed_at : Option ℕ
  pub finalized_at : Option ℕ
  pub finalize_reason : Option Text
  pub payment_ref : Option ℕ
  pub payment_deadline_at : Option ℕ

abbrev is_oversized : OrderItem → Bool
is_oversized item = elim item.quantity [
  | pos n ↦ ltb max_quantity_per_order_line n
  | negsuc _ ↦ false
]

-- The `reduce` of `create`, from an accumulated sum.
unfoldable pub sum_lines : Text → Money → List OrderItem → Result Money
sum_lines currency sum [] = ok sum
sum_lines currency sum (item ∷ items) = do
  line ← line_total item currency
  next ← Money.add sum line
  sum_lines currency next items

abbrev is_nil : List OrderItem → Bool
is_nil [] = true
is_nil (_ ∷ _) = false

unfoldable pub create : Text → Text → List OrderItem → Result Order
unfolding assert_non_empty
create user_id currency items = do
  assert_non_empty (some user_id)
  guard (not (is_nil items)) DomainError.no_items
  guard (not (any is_oversized items)) DomainError.oversized_line
  zero ← Money.zero_of currency
  total ← sum_lines zero.currency zero items
  ok (record {
    id = none;
    user_id = user_id;
    status = OrderStatus.draft;
    currency = zero.currency;
    items = items;
    total_amount_minor = total.amount_minor;
    placed_at = none;
    finalized_at = none;
    finalize_reason = none;
    payment_ref = none;
    payment_deadline_at = none;
  })

-- The `changes` of `moveTo`: a field that is left out keeps its value.
pub record Changes : Type 0 where
  pub placed_at : Option (Option ℕ)
  pub finalized_at : Option (Option ℕ)
  pub finalize_reason : Option (Option Text)
  pub payment_ref : Option (Option ℕ)
  pub payment_deadline_at : Option (Option ℕ)

abbrev no_changes : Changes
no_changes = record {
  placed_at = none;
  finalized_at = none;
  finalize_reason = none;
  payment_ref = none;
  payment_deadline_at = none;
}

abbrev spread {ℓ} : {A : Type ℓ} → Option A → A → A
spread none old = old
spread (some new) old = new

-- `assertTransition`
unfoldable pub assert_transition : OrderStatus → OrderStatus → Result (Unit {0})
assert_transition from to = guard (can_transition from to) (DomainError.illegal_transition from to)

unfoldable pub move_to : Order → OrderStatus → Changes → Result Order
unfolding assert_transition
move_to order status changes = do
  assert_transition order.status status
  ok (record order {
    status = status;
    placed_at = spread changes.placed_at order.placed_at;
    finalized_at = spread changes.finalized_at order.finalized_at;
    finalize_reason = spread changes.finalize_reason order.finalize_reason;
    payment_ref = spread changes.payment_ref order.payment_ref;
    payment_deadline_at = spread changes.payment_deadline_at order.payment_deadline_at;
  })

unfoldable pub reserve : Order → ℕ → ℕ → Result Order
unfolding move_to
reserve order now payment_deadline_at = move_to order OrderStatus.reserving (record no_changes {
  placed_at = some (some now);
  payment_deadline_at = some (some payment_deadline_at);
})

unfoldable pub confirm_placed : Order → Result Order
unfolding move_to
confirm_placed order = move_to order OrderStatus.pending no_changes

unfoldable pub reject : Order → Text → ℕ → Result Order
unfolding move_to
reject order reason now =
    move_to order OrderStatus.rejected
      (record no_changes { finalized_at = some (some now); finalize_reason = some (some reason) })

unfoldable pub begin_confirming : Order → Result Order
unfolding move_to
begin_confirming order = move_to order OrderStatus.confirming no_changes

unfoldable pub is_terminal : Order → Bool
is_terminal order = Status.is_terminal order.status

pub record Meta : Type 0 where
  pub now : ℕ
  pub reason : Option Text
  pub payment_ref : Option ℕ

unfoldable pub finalize : Order → OrderStatus → Meta → Result Order
unfolding move_to
finalize order outcome meta = move_to order outcome (record no_changes {
  finalized_at = some (some meta.now);
  finalize_reason = some meta.reason;
  payment_ref = some meta.payment_ref;
})

-- The events of domain/events.
pub data OrderEvent : Type 0 where
  order_placed : ℕ → Text → ℤ → Text → ℕ → OrderEvent
  order_paid : ℕ → Text → ℤ → Text → Option ℕ → ℕ → OrderEvent
  order_failed order_expired order_cancelled : ℕ → Text → Option Text → ℕ → OrderEvent

abbrev required {ℓ} : {A : Type ℓ} → Option A → DomainError → Result A
required none e = err e
required (some a) e = ok a

unfoldable pub to_placed_event : Order → Result OrderEvent
to_placed_event order = do
  id ← required order.id DomainError.not_placed
  placed_at ← required order.placed_at DomainError.not_placed
  ok (OrderEvent.order_placed id order.user_id order.total_amount_minor order.currency placed_at)

event_for : Order → ℕ → ℕ → OrderStatus → Result OrderEvent
event_for o id at OrderStatus.paid =
    ok (OrderEvent.order_paid id o.user_id o.total_amount_minor o.currency o.payment_ref at)
event_for o id at OrderStatus.failed =
    ok (OrderEvent.order_failed id o.user_id o.finalize_reason at)
event_for o id at OrderStatus.expired =
    ok (OrderEvent.order_expired id o.user_id o.finalize_reason at)
event_for o id at OrderStatus.cancelled =
    ok (OrderEvent.order_cancelled id o.user_id o.finalize_reason at)
event_for o id at _ = err DomainError.no_finalization_event

unfoldable pub to_finalized_event : Order → Result OrderEvent
unfolding event_for
to_finalized_event order = do
  id ← required order.id DomainError.not_finalized
  finalized_at ← required order.finalized_at DomainError.not_finalized
  event_for order id finalized_at order.status
