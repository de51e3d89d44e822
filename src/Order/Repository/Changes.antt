-- ===== src/Order/Repository/Changes.antt =====
-- What one call of drizzle-order.repository.ts does to the rows and to the outbox.
use jcool_ecommerce_backend.Base.{
  ℕ, Bool, true, false, some, List, ◌∷◌, map, filter, find, any, ◌≡◌,
}
use jcool_ecommerce_backend.Order.Status.{OrderStatus, can_transition}
use jcool_ecommerce_backend.Order.Entity.{OrderEvent}
use jcool_ecommerce_backend.Order.Repository.{
  OrderRow, OrderDb, status_of, is_row, breaks_key, write_if, OrderCall, creates,
}

-- The order that an event is about.
abbrev pub order_of : OrderEvent → ℕ
order_of (OrderEvent.order_placed id _ _ _ _) = id
order_of (OrderEvent.order_paid id _ _ _ _ _) = id
order_of (OrderEvent.order_failed id _ _ _) = id
order_of (OrderEvent.order_expired id _ _ _) = id
order_of (OrderEvent.order_cancelled id _ _ _) = id

-- The status that an event tells.
abbrev pub told_status : OrderEvent → OrderStatus
told_status (OrderEvent.order_placed _ _ _ _ _) = OrderStatus.pending
told_status (OrderEvent.order_paid _ _ _ _ _ _) = OrderStatus.paid
told_status (OrderEvent.order_failed _ _ _ _) = OrderStatus.failed
told_status (OrderEvent.order_expired _ _ _ _) = OrderStatus.expired
told_status (OrderEvent.order_cancelled _ _ _ _) = OrderStatus.cancelled

-- Whether reaching a status is published.
abbrev pub is_told : OrderStatus → Bool
is_told OrderStatus.pending = true
is_told OrderStatus.paid = true
is_told OrderStatus.failed = true
is_told OrderStatus.expired = true
is_told OrderStatus.cancelled = true
is_told _ = false

abbrev pub Publishes : Bool → ℕ → OrderStatus → List OrderEvent → List OrderEvent → Type 0
Publishes true id status outbox outbox' =
    (e : OrderEvent) × (outbox' ≡ e ∷ outbox × order_of e ≡ id × told_status e ≡ status)
Publishes false id status outbox outbox' = outbox' ≡ outbox

-- A row moved along a wired edge, and what is published of it.
abbrev pub Moved : OrderDb → List OrderRow → List OrderEvent → OrderRow → OrderRow → Type 0
Moved db orders' outbox' row row' =
    row'.id ≡ row.id
    × can_transition (status_of row) (status_of row') ≡ true
    × Publishes (is_told (status_of row')) row.id (status_of row') db.outbox outbox'
    × orders' ≡ map (write_if row') db.orders

abbrev pub Opens : OrderCall → OrderRow → Type 0
Opens (creates order key id) row = row.columns ≡ order
Opens _ row = ⊥

pub data OrderChange (c : OrderCall) (db db' : OrderDb) : Type 0 where
  kept : db' ≡ db → OrderChange c db db'
  opened :
      (row : OrderRow)
      → Opens c row
      → any (breaks_key row) db.orders ≡ false
      → db'.orders ≡ row ∷ db.orders
      → db'.outbox ≡ db.outbox
      → OrderChange c db db'
  moved :
      (id : ℕ) (row row' : OrderRow)
      → find (is_row id) db.orders ≡ some row
      → Moved db db'.orders db'.outbox row row'
      → OrderChange c db db'
  dropped :
      (keep : OrderRow → Bool)
      → ((row : OrderRow) → keep row ≡ false → status_of row ≡ OrderStatus.rejected)
      → db'.orders ≡ filter keep db.orders
      → db'.outbox ≡ db.outbox
      → OrderChange c db db'
