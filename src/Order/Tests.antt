-- ===== src/Order/Tests.antt =====
-- The laws of an order at concrete inputs.
use jcool_ecommerce_backend.Base.{
  ℕ, ◌≡◌, refl, ◌↔◌, true, false, none, some, [], ◌∷◌, codes, pos, ◌≤◌, arith, ◌+ℤ◌, ◌*ℤ◌, pos_part,
  All, List, find,
}
use jcool_ecommerce_backend.Kernel.{ok}
use jcool_ecommerce_backend.Order.Status.{OrderStatus, can_transition, is_terminal}
use jcool_ecommerce_backend.Order.Status.Terminal.{is_terminal_iff}
use jcool_ecommerce_backend.Kernel.Money
use jcool_ecommerce_backend.Order.Item.{OrderItem, line_total}
use jcool_ecommerce_backend.Order.Entity.{
  reject, max_quantity_per_order_line, sum_lines, Order, Meta, OrderEvent, create, reserve,
  confirm_placed, begin_confirming, finalize, to_placed_event, to_finalized_event,
}
use jcool_ecommerce_backend.Order.Entity.Totals.{create-total}
use jcool_ecommerce_backend.Order.Entity.Moves.{
  Moves, moves_lem, to_finalized_event-finalize, to_placed_event-confirm_placed,
}
use jcool_ecommerce_backend.Order.Entity.Lifespan.{
  OrderMove, perform, perform_all, perform_all-bound,
}
use jcool_ecommerce_backend.Order.Invariants.{
  SettledCheckout, PaymentHeader, StockStanding, evaluate_checkout_invariants,
}
use jcool_ecommerce_backend.Order.Invariants.Meaning.{IsSound, evaluate_checkout_invariants_iff}
use jcool_ecommerce_backend.Order.Repository.{OrderCall, OrderRow, is_row, call_all}
use jcool_ecommerce_backend.Order.Repository.Outbox.{IsTold, no_orders, call_all-IsTold}
use jcool_ecommerce_backend.Order.Repository.Settled.{call_all-settled}
use jcool_ecommerce_backend.Saga.{ReserveOutcome}

abbrev two_mugs : OrderItem
two_mugs = record {
  sku_id = codes "sku-1";
  product_name = codes "mug";
  unit_price_minor = pos 1250;
  quantity = pos 2;
}

abbrev one_pot : OrderItem
one_pot = record {
  sku_id = codes "sku-2";
  product_name = codes "pot";
  unit_price_minor = pos 4000;
  quantity = pos 1;
}

abbrev draft_order : Order
draft_order = record {
  id = none;
  user_id = codes "buyer";
  status = OrderStatus.draft;
  currency = codes "USD";
  items = two_mugs ∷ one_pot ∷ [];
  total_amount_minor = pos 6500;
  placed_at = none;
  finalized_at = none;
  finalize_reason = none;
  payment_ref = none;
  payment_deadline_at = none;
}

abbrev stored_order : Order
stored_order = record draft_order { id = some 7 }

abbrev reserving_order : Order
reserving_order = record stored_order {
  status = OrderStatus.reserving;
  placed_at = some 100;
  payment_deadline_at = some 900;
}

abbrev pending_order : Order
pending_order = record reserving_order { status = OrderStatus.pending }

abbrev paid_meta : Meta
paid_meta = record { now = 300; reason = none; payment_ref = some 55 }

abbrev confirming_order : Order
confirming_order = record pending_order { status = OrderStatus.confirming }

abbrev paid_order : Order
paid_order = record confirming_order {
  status = OrderStatus.paid;
  finalized_at = some 300;
  payment_ref = some 55;
}

created : create (codes "buyer") (codes "usd") (two_mugs ∷ one_pot ∷ []) ≡ ok draft_order
unfolding create Money.zero_of Money.normalize_currency sum_lines line_total Money.multiply
    Money.add ◌*ℤ◌ ◌+ℤ◌
created = refl

create-total_example :
    (draft_order.total_amount_minor ≡ pos 6500)
    × (draft_order.items ≡ two_mugs ∷ one_pot ∷ [])
    × (draft_order.status ≡ OrderStatus.draft)
    × All (λ item. pos_part item.quantity ≤ max_quantity_per_order_line) (two_mugs ∷ one_pot ∷ [])
create-total_example =
    create-total (codes "buyer") (codes "usd") (two_mugs ∷ one_pot ∷ [])
      ((refl, refl, omega arith), ((refl, refl, omega arith), tt)) created

moves_lem_example :
    Moves pending_order OrderStatus.reserving (reserve pending_order 1 2)
    × Moves pending_order OrderStatus.pending (confirm_placed pending_order)
    × Moves pending_order OrderStatus.rejected (reject pending_order [] 1)
    × Moves pending_order OrderStatus.confirming (begin_confirming pending_order)
    × Moves pending_order OrderStatus.paid (finalize pending_order OrderStatus.paid paid_meta)
moves_lem_example = moves_lem pending_order 1 2 [] OrderStatus.paid paid_meta

to_finalized_event-finalize_example :
    to_finalized_event paid_order
    ≡ ok (OrderEvent.order_paid 7 (codes "buyer") (pos 6500) (codes "USD") (some 55) 300)
unfolding finalize can_transition
to_finalized_event-finalize_example =
    to_finalized_event-finalize confirming_order paid_order 7 OrderStatus.paid paid_meta _ refl refl
      refl

to_placed_event-confirm_placed_example :
    to_placed_event pending_order
    ≡ ok (OrderEvent.order_placed 7 (codes "buyer") (pos 6500) (codes "USD") 100)
unfolding reserve confirm_placed can_transition
to_placed_event-confirm_placed_example =
    to_placed_event-confirm_placed stored_order reserving_order pending_order 7 100 900 refl refl
      refl

is_terminal_iff_example :
    (is_terminal OrderStatus.paid ≡ true)
    ↔ ((to : OrderStatus) → ¬ (can_transition OrderStatus.paid to ≡ true))
is_terminal_iff_example = is_terminal_iff OrderStatus.paid

-- Reserved, confirmed and paid.
abbrev a_life : List OrderMove
a_life =
    OrderMove.reserves 100 900
    ∷ OrderMove.confirms
    ∷ OrderMove.begins
    ∷ OrderMove.finalizes OrderStatus.paid paid_meta
    ∷ []

a_life_done : perform_all a_life stored_order ≡ ok paid_order
unfolding perform_all perform reserve confirm_placed begin_confirming finalize can_transition
a_life_done = refl

perform_all-bound_example : (4 ≤ 4) × (OrderStatus.draft ≡ OrderStatus.paid → ◌≡◌ {A = ℕ} 4 0)
perform_all-bound_example = perform_all-bound a_life stored_order paid_order a_life_done

abbrev lost_sale : SettledCheckout
lost_sale = record {
  status = OrderStatus.expired;
  stock = some StockStanding.released;
  payment = record {
    header = some PaymentHeader.captured;
    authorized_payment_id = some 3;
    has_authorized_attempt = false;
    has_succeeded_attempt = true;
  };
}

evaluate_checkout_invariants_iff_example :
    ((evaluate_checkout_invariants lost_sale ≡ none) ↔ (is_terminal OrderStatus.expired ≡ false))
    × ((evaluate_checkout_invariants lost_sale ≡ some [])
        ↔ ((is_terminal OrderStatus.expired ≡ true) × IsSound lost_sale OrderStatus.expired))
evaluate_checkout_invariants_iff_example = evaluate_checkout_invariants_iff lost_sale

-- Two tries of an order, a payment, a late expiry.
abbrev some_calls : List OrderCall
some_calls =
    OrderCall.creates (record draft_order { status = OrderStatus.reserving; placed_at = some 100 })
      (some 5) 7
    ∷ OrderCall.tries (record { order_id = 7; outcome = ReserveOutcome.held; reason = [] }) 110
    ∷ OrderCall.tries (record { order_id = 7; outcome = ReserveOutcome.timeout; reason = [] }) 115
    ∷ OrderCall.changes
        (record {
          order_id = 7;
          from = OrderStatus.pending ∷ [];
          to = OrderStatus.confirming;
          reason = none;
          payment_ref = none;
        })
        120
    ∷ OrderCall.changes
        (record {
          order_id = 7;
          from = OrderStatus.confirming ∷ [];
          to = OrderStatus.paid;
          reason = none;
          payment_ref = some 9;
        })
        130
    ∷ []

call_all-IsTold_example : let db = call_all some_calls no_orders in All (IsTold db.outbox) db.orders
call_all-IsTold_example = call_all-IsTold some_calls (refl, (tt, (tt, (tt, (tt, tt)))))

abbrev paid_row : OrderRow
paid_row = record {
  id = 7;
  columns = record draft_order { status = OrderStatus.paid };
  idempotency_key = none;
}

call_all-settled_example :
    find
      (is_row 7)
      (call_all some_calls (record { orders = paid_row ∷ []; outbox = []; completed = [] })).orders
    ≡ some paid_row
call_all-settled_example =
    call_all-settled some_calls (record { orders = paid_row ∷ []; outbox = []; completed = [] }) 7
      paid_row refl refl
