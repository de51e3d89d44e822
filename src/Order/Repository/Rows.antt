-- ===== src/Order/Repository/Rows.antt =====
-- The rows of drizzle-order.repository.ts, and `createReserving`, which opens an order.
use jcool_ecommerce_backend.Base.{
  ℕ, Bool, true, false, ◌&&◌, ◌||◌, Option, none, some, List, [], ◌∷◌, Text, filter, find, any,
  length, text_eq, leb, ◌==◌, if◌then◌else◌,
}
use jcool_ecommerce_backend.Order.Status.{OrderStatus, status_eq}
use jcool_ecommerce_backend.Order.Entity.{Order, OrderEvent}

-- order.constants.ts
abbrev pub max_pending_orders_per_user : ℕ
max_pending_orders_per_user = 3

-- The columns are those of an order; its id is the row's.
pub record OrderRow : Type 0 where
  pub id : ℕ
  pub columns : Order
  pub idempotency_key : Option ℕ

pub record CompletedKey : Type 0 where
  pub user_id : Text
  pub key : ℕ
  pub order_id : ℕ

-- The outbox has its latest row first.
pub record OrderDb : Type 0 where
  pub orders : List OrderRow
  pub outbox : List OrderEvent
  pub completed : List CompletedKey

abbrev pub status_of : OrderRow → OrderStatus
status_of row = row.columns.status

abbrev pub to_domain_order : OrderRow → Order
to_domain_order row = record (row.columns) { id = some row.id }

abbrev pub is_row : ℕ → OrderRow → Bool
is_row id row = row.id == id

abbrev pub is_in_flight : OrderStatus → Bool
is_in_flight status =
    any (λ s. status_eq s status)
      (OrderStatus.reserving ∷ OrderStatus.pending ∷ OrderStatus.confirming ∷ [])

abbrev pub is_hidden_from_buyer : OrderStatus → Bool
is_hidden_from_buyer status =
    any (λ s. status_eq s status) (OrderStatus.reserving ∷ OrderStatus.rejected ∷ [])

abbrev has_key : Option ℕ → ℕ → Bool
has_key none key = false
has_key (some k) key = k == key

abbrev same_key : Option ℕ → Option ℕ → Bool
same_key none key = false
same_key (some k) key = has_key key k

abbrev is_replay : Order → ℕ → OrderRow → Bool
is_replay order key row =
    has_key row.idempotency_key key && text_eq row.columns.user_id order.user_id

abbrev pub find_replay : Order → Option ℕ → List OrderRow → Option OrderRow
find_replay order none rows = none
find_replay order (some key) rows = find (is_replay order key) rows

abbrev pub in_flight_of : Text → List OrderRow → ℕ
in_flight_of user_id rows =
    length
      (filter (λ row. text_eq row.columns.user_id user_id && is_in_flight (status_of row)) rows)

pub data ReservingCreateResult : Type 0 where
  create_result : Bool → Order → ReservingCreateResult
  too_many_pending_orders : ℕ → ReservingCreateResult
  -- the insert breaks a unique key
  create_threw : ReservingCreateResult

-- The primary key, and the unique index on the user and the idempotency key.
abbrev pub breaks_key : OrderRow → OrderRow → Bool
breaks_key new row =
    row.id == new.id
    || same_key row.idempotency_key new.idempotency_key
      && text_eq row.columns.user_id new.columns.user_id

abbrev pub new_row : Order → Option ℕ → ℕ → OrderRow
new_row order key id = record { id = id; columns = order; idempotency_key = key }

abbrev pub insert_order : OrderRow → OrderDb → OrderDb × ReservingCreateResult
insert_order row db =
    if any (breaks_key row) db.orders
    then (db, create_threw)
    else (record db { orders = row ∷ db.orders }, create_result true (to_domain_order row))

abbrev pub create_unless_replay :
    Order → Option ℕ → ℕ → OrderDb → Option OrderRow → OrderDb × ReservingCreateResult
create_unless_replay order key id db (some row) = (db, create_result false (to_domain_order row))
create_unless_replay order key id db none =
    let in_flight = in_flight_of order.user_id db.orders in
    if leb max_pending_orders_per_user in_flight
    then (db, too_many_pending_orders in_flight)
    else insert_order (new_row order key id) db

unfoldable pub create_reserving : Order → Option ℕ → ℕ → OrderDb → OrderDb × ReservingCreateResult
create_reserving order key id db =
    create_unless_replay order key id db (find_replay order key db.orders)
