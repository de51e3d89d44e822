-- ===== src/Order/Repository/Calls.antt =====
-- Every call of drizzle-order.repository.ts is one change of the rows and the outbox, or none.
use jcool_ecommerce_backend.Base.{
  ℕ, Bool, true, false, not, ◌&&◌, Option, none, some, ◌∷◌, find, any, if_lem, ◌≡◌, refl, arith,
  leb, if◌then◌else◌,
}
use jcool_ecommerce_backend.Kernel.{Result, ok, err}
use jcool_ecommerce_backend.Order.Status.{OrderStatus, status_eq}
use jcool_ecommerce_backend.Order.Entity.{Order}
use jcool_ecommerce_backend.Order.Repository.{
  OrderRow, OrderDb, status_of, to_domain_order, is_row, breaks_key, finish, ApplyTryResultInput,
  apply_rejected, apply_placed, apply_outcome, apply_try_row, apply_try_result, is_held, try_target,
  ApplyOrderChangeInput, apply_change, apply_change_row, apply_order_change, is_doomed,
  delete_rejected_before, create_reserving, create_unless_replay, insert_order, new_row,
  ReservingCreateResult, SagaWriteResult, already, stale, create_threw, create_result,
  too_many_pending_orders, max_pending_orders_per_user, in_flight_of, find_replay, OrderCall,
  creates, tries, changes, deletes, call,
}
use jcool_ecommerce_backend.Order.Repository.Changes.{OrderChange, kept, opened, moved, dropped}
use jcool_ecommerce_backend.Order.Repository.Transactions.{
  MovedBy, apply_rejected-MovedBy, apply_placed-MovedBy, apply_change-MovedBy,
}

finish-OrderChange :
    (c : OrderCall) (db : OrderDb) (id : ℕ) (row : OrderRow) (step : Result OrderDb)
    → find (is_row id) db.orders ≡ some row
    → MovedBy db row step
    → OrderChange c db (finish db step).0
finish-OrderChange c db id row (err e) found moves = kept refl
finish-OrderChange c db id row (ok db') found (row', moves) = moved id row row' found moves

abbrev Changes : OrderCall → OrderDb → OrderDb × SagaWriteResult → Type 0
Changes c db out = OrderChange c db out.0

apply_try_row-OrderChange :
    (input : ApplyTryResultInput) (now : ℕ) (db : OrderDb) (found : Option OrderRow)
    → find (is_row input.order_id) db.orders ≡ found
    → Changes (tries input now) db (apply_try_row input now db found)
apply_try_row-OrderChange input now db none at = kept refl
apply_try_row-OrderChange input now db (some row) at =
    let done = λ (step : Result OrderDb).
      finish-OrderChange (tries input now) db input.order_id row step at in
    if_lem (Changes (tries input now) db) (status_eq (status_of row) (try_target input.outcome))
      (db, already)
      (if not (status_eq (status_of row) OrderStatus.reserving)
        then (db, stale)
        else finish db (apply_outcome input now db row))
      (λ there. kept refl)
      (λ elsewhere.
        if_lem (Changes (tries input now) db)
          (not (status_eq (status_of row) OrderStatus.reserving)) (db, stale)
          (finish db (apply_outcome input now db row)) (λ other. kept refl)
          (λ reserving. done (apply_outcome input now db row) (
            if_lem (MovedBy db row) (is_held input.outcome) (apply_placed db row)
              (apply_rejected input.reason now db row) (λ held. apply_placed-MovedBy db row)
              (λ refused. apply_rejected-MovedBy input.reason now db row))))

apply_change_row-OrderChange :
    (input : ApplyOrderChangeInput) (now : ℕ) (db : OrderDb) (found : Option OrderRow)
    → find (is_row input.order_id) db.orders ≡ found
    → Changes (changes input now) db (apply_change_row input now db found)
apply_change_row-OrderChange input now db none at = kept refl
apply_change_row-OrderChange input now db (some row) at =
    if_lem (Changes (changes input now) db) (status_eq (status_of row) input.to) (db, already)
      (if not (any (λ s. status_eq s (status_of row)) input.from)
        then (db, stale)
        else finish db (apply_change input now db row))
      (λ there. kept refl)
      (λ elsewhere.
        if_lem (Changes (changes input now) db)
          (not (any (λ s. status_eq s (status_of row)) input.from)) (db, stale)
          (finish db (apply_change input now db row)) (λ other. kept refl)
          (λ expected.
            finish-OrderChange (changes input now) db input.order_id row
              (apply_change input now db row) at (apply_change-MovedBy input now db row)))

create_unless_replay-OrderChange :
    (order : Order) (key : Option ℕ) (id : ℕ) (db : OrderDb) (replay : Option OrderRow)
    → OrderChange (creates order key id) db (create_unless_replay order key id db replay).0
create_unless_replay-OrderChange order key id db (some row) = kept refl
create_unless_replay-OrderChange order key id db none =
    let row = new_row order key id in
    let in_flight = in_flight_of order.user_id db.orders in
    if_lem (λ (out : OrderDb × ReservingCreateResult). OrderChange (creates order key id) db out.0)
      (leb max_pending_orders_per_user in_flight) (db, too_many_pending_orders in_flight)
      (insert_order row db) (λ full. kept refl)
      (λ room.
        if_lem
          (λ (out : OrderDb × ReservingCreateResult). OrderChange (creates order key id) db out.0)
          (any (breaks_key row) db.orders) (db, create_threw)
          (record db { orders = row ∷ db.orders }, create_result true (to_domain_order row))
          (λ breaks. kept refl) (λ free. opened row refl free refl refl))

is_doomed-rejected :
    (chosen : OrderRow → Bool) (cutoff : ℕ) (row : OrderRow)
    → not (is_doomed cutoff row && chosen row) ≡ false
    → status_of row ≡ OrderStatus.rejected
unfolding status_eq
is_doomed-rejected chosen cutoff row doomed = ground arith

pub call-OrderChange : (c : OrderCall) (db : OrderDb) → OrderChange c db (call c db)
unfolding call create_reserving apply_try_result apply_order_change delete_rejected_before
call-OrderChange (creates order key id) db =
    create_unless_replay-OrderChange order key id db (find_replay order key db.orders)
call-OrderChange (tries input now) db =
    apply_try_row-OrderChange input now db (find (is_row input.order_id) db.orders) refl
call-OrderChange (changes input now) db =
    apply_change_row-OrderChange input now db (find (is_row input.order_id) db.orders) refl
call-OrderChange (deletes chosen cutoff) db =
    dropped (λ row. not (is_doomed cutoff row && chosen row)) (is_doomed-rejected chosen cutoff)
      refl refl
