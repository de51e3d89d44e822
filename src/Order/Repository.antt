-- ===== src/Order/Repository.antt =====
-- drizzle-order.repository.ts of apps/order-service/src/modules/order/infrastructure, over its rows,
-- the outbox rows that its transactions append and the idempotency keys they complete. A row's items
-- stand in its columns; the minted ids are arguments, a key is a number, and a transaction that
-- throws leaves nothing.
mod Rows
pub mod Changes
mod Transactions
mod Calls
pub mod Outbox
pub mod Settled
unfoldable pub use Rows.*
use jcool_ecommerce_backend.Base.{
  ℕ, zero, suc, ◌+◌, Bool, true, false, not, ◌&&◌, ◌||◌, Option, none, some, List, [], ◌∷◌, Text,
  map, filter, find, any, length, text_eq, ltb, leb, ◌==◌, if◌then◌else◌,
}
use jcool_ecommerce_backend.Kernel.{Result, ok, err, ◌>>=◌, ◌>>◌, DomainError}
use jcool_ecommerce_backend.Order.Status.{OrderStatus, status_eq}
use jcool_ecommerce_backend.Order.Entity.{
  Order, Meta, OrderEvent, confirm_placed, reject, begin_confirming, finalize, to_placed_event,
  to_finalized_event,
}
use jcool_ecommerce_backend.Saga.{ReserveOutcome}

pub data SagaWriteResult : Type 0 where
  applied already stale : SagaWriteResult
  write_threw : DomainError → SagaWriteResult

-- `update ... where id = row.id`
abbrev pub write_if : OrderRow → OrderRow → OrderRow
write_if new row = if is_row new.id row then new else row

abbrev pub finish : OrderDb → Result OrderDb → OrderDb × SagaWriteResult
finish db (err e) = (db, write_threw e)
finish db (ok db') = (db', applied)

pub record ApplyTryResultInput : Type 0 where
  pub order_id : ℕ
  pub outcome : ReserveOutcome
  pub reason : Text

abbrev pub is_held : ReserveOutcome → Bool
is_held ReserveOutcome.held = true
is_held _ = false

abbrev pub try_target : ReserveOutcome → OrderStatus
try_target ReserveOutcome.held = OrderStatus.pending
try_target _ = OrderStatus.rejected

-- The columns that a status change sets.
abbrev pub set_status : Order → OrderRow → OrderRow
set_status order row = record row {
  columns = record (row.columns) {
    status = order.status;
    finalized_at = order.finalized_at;
    finalize_reason = order.finalize_reason;
    payment_ref = order.payment_ref;
  };
}

abbrev pub rejected_row : Order → OrderRow → OrderRow
rejected_row order row = record row {
  columns = record (row.columns) {
    status = order.status;
    finalized_at = order.finalized_at;
    finalize_reason = order.finalize_reason;
  };
  idempotency_key = none;
}

abbrev pub placed_row : Order → OrderRow → OrderRow
placed_row order row = record row { columns = record (row.columns) { status = order.status } }

abbrev mark_completed : Order → OrderRow → Option ℕ → List CompletedKey → List CompletedKey
mark_completed order row none keys = keys
mark_completed order row (some key) keys =
    record { user_id = order.user_id; key = key; order_id = row.id } ∷ keys

unfoldable pub apply_rejected : Text → ℕ → OrderDb → OrderRow → Result OrderDb
apply_rejected reason now db row = do
  rejected ← reject (to_domain_order row) reason now
  ok (record db { orders = map (write_if (rejected_row rejected row)) db.orders })

unfoldable pub apply_placed : OrderDb → OrderRow → Result OrderDb
apply_placed db row = do
  placed ← confirm_placed (to_domain_order row)
  event ← to_placed_event placed
  ok (record {
    orders = map (write_if (placed_row placed row)) db.orders;
    outbox = event ∷ db.outbox;
    completed = mark_completed placed row row.idempotency_key db.completed;
  })

abbrev pub apply_outcome : ApplyTryResultInput → ℕ → OrderDb → OrderRow → Result OrderDb
apply_outcome input now db row =
    if is_held input.outcome then apply_placed db row else apply_rejected input.reason now db row

abbrev pub apply_try_row :
    ApplyTryResultInput → ℕ → OrderDb → Option OrderRow → OrderDb × SagaWriteResult
apply_try_row input now db none = (db, stale)
apply_try_row input now db (some row) =
    if status_eq (status_of row) (try_target input.outcome)
    then (db, already)
    else if not (status_eq (status_of row) OrderStatus.reserving)
    then (db, stale)
    else finish db (apply_outcome input now db row)

unfoldable pub apply_try_result : ApplyTryResultInput → ℕ → OrderDb → OrderDb × SagaWriteResult
apply_try_result input now db = apply_try_row input now db (find (is_row input.order_id) db.orders)

pub record ApplyOrderChangeInput : Type 0 where
  pub order_id : ℕ
  pub from : List OrderStatus
  pub to : OrderStatus
  pub reason : Option Text
  pub payment_ref : Option ℕ

abbrev pub meta_of : ApplyOrderChangeInput → ℕ → Meta
meta_of input now = record { now = now; reason = input.reason; payment_ref = input.payment_ref }

unfoldable pub move_for_saga : Order → OrderStatus → Meta → Result Order
move_for_saga order OrderStatus.confirming meta = begin_confirming order
move_for_saga order OrderStatus.paid meta = finalize order OrderStatus.paid meta
move_for_saga order OrderStatus.failed meta = finalize order OrderStatus.failed meta
move_for_saga order OrderStatus.expired meta = finalize order OrderStatus.expired meta
move_for_saga order OrderStatus.cancelled meta = finalize order OrderStatus.cancelled meta
move_for_saga order _ meta = err DomainError.bad_saga_target

-- `appended` for a target that emits an event
abbrev pub append_finalized : OrderStatus → Order → List OrderEvent → Result (List OrderEvent)
append_finalized OrderStatus.confirming changed outbox = ok outbox
append_finalized _ changed outbox = do event ← to_finalized_event changed; ok (event ∷ outbox)

unfoldable pub apply_change : ApplyOrderChangeInput → ℕ → OrderDb → OrderRow → Result OrderDb
apply_change input now db row = do
  changed ← move_for_saga (to_domain_order row) input.to (meta_of input now)
  outbox ← append_finalized input.to changed db.outbox
  ok (record db { orders = map (write_if (set_status changed row)) db.orders; outbox = outbox })

abbrev pub apply_change_row :
    ApplyOrderChangeInput → ℕ → OrderDb → Option OrderRow → OrderDb × SagaWriteResult
apply_change_row input now db none = (db, stale)
apply_change_row input now db (some row) =
    if status_eq (status_of row) input.to
    then (db, already)
    else if not (any (λ s. status_eq s (status_of row)) input.from)
    then (db, stale)
    else finish db (apply_change input now db row)

unfoldable pub apply_order_change : ApplyOrderChangeInput → ℕ → OrderDb → OrderDb × SagaWriteResult
apply_order_change input now db =
    apply_change_row input now db (find (is_row input.order_id) db.orders)

abbrev finalized_before : ℕ → Option ℕ → Bool
finalized_before cutoff none = false
finalized_before cutoff (some at) = ltb at cutoff

abbrev pub is_doomed : ℕ → OrderRow → Bool
is_doomed cutoff row =
    status_eq (status_of row) OrderStatus.rejected
    && finalized_before cutoff row.columns.finalized_at

-- `chosen` are the rows that the limit of the subquery lets it take.
unfoldable pub delete_rejected_before : (OrderRow → Bool) → ℕ → OrderDb → OrderDb × ℕ
delete_rejected_before chosen cutoff db = (
  record db { orders = filter (λ row. not (is_doomed cutoff row && chosen row)) db.orders },
  length (filter (λ row. is_doomed cutoff row && chosen row) db.orders),
)

abbrev domain_of : Option OrderRow → Option Order
domain_of none = none
domain_of (some row) = some (to_domain_order row)

unfoldable pub find_by_id : ℕ → OrderDb → Option Order
find_by_id id db = domain_of (find (is_row id) db.orders)

unfoldable pub find_for_user : ℕ → Text → OrderDb → Option Order
find_for_user id user_id db = domain_of (
    find
      (λ row.
        is_row id row
        && (text_eq row.columns.user_id user_id && not (is_hidden_from_buyer (status_of row))))
      db.orders)

-- The calls of the repository that write, with their instants and minted ids.
pub data OrderCall : Type 0 where
  creates : Order → Option ℕ → ℕ → OrderCall
  tries : ApplyTryResultInput → ℕ → OrderCall
  changes : ApplyOrderChangeInput → ℕ → OrderCall
  deletes : (OrderRow → Bool) → ℕ → OrderCall

unfoldable pub call : OrderCall → OrderDb → OrderDb
call (creates order key id) db = (create_reserving order key id db).0
call (tries input now) db = (apply_try_result input now db).0
call (changes input now) db = (apply_order_change input now db).0
call (deletes chosen cutoff) db = (delete_rejected_before chosen cutoff db).0

unfoldable pub call_all : List OrderCall → OrderDb → OrderDb
call_all [] db = db
call_all (c ∷ cs) db = call_all cs (call c db)
