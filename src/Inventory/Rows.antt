-- ===== src/Inventory/Rows.antt =====
-- The rows that stock.repository.ts (.../inventory/infrastructure) reads and writes: its statements.
-- The order in which `localeCompare` puts two variants is an argument, `precedes`.
use jcool_ecommerce_backend.Base.{
  ℕ, ◌+◌, ◌-◌, Bool, true, false, ◌&&◌, Option, none, some, List, [], ◌∷◌, ◌++◌, map, any, min, leb,
  ◌==◌, if◌then◌else◌,
}
use jcool_ecommerce_backend.Inventory.Fence.{ReservationOrderStatus}
use jcool_ecommerce_backend.Inventory.Tx.{
  Tx, Db, StockLevel, Reservation, Header, ReservationStatus, StockError, pure, throw, gets, modify,
  limit, line_status_eq, ◌>>=◌, ◌>>◌,
}

abbrev pub int4_max : ℕ
int4_max = 2147483647

pub record ReservationLine : Type 0 where
  pub variant_id : ℕ
  pub quantity : ℕ

-- What the repository is built with and reads from outside.
pub record Setting : Type 0 where
  pub clock : ℕ → ℕ
  pub precedes : ℕ → ℕ → Bool
  pub max_retries : ℕ
  -- What other transactions commit before the n-th compare-and-swap.
  pub others : ℕ → Db → Db

-- `sort` by a comparator on the variant: stable.
module _ {A : Type 0} (variant : A → ℕ) (precedes : ℕ → ℕ → Bool) where
  unfoldable pub insert_sorted : A → List A → List A
  insert_sorted a [] = a ∷ []
  insert_sorted a (b ∷ bs) =
      let rest = insert_sorted a bs in
      if precedes (variant a) (variant b) then a ∷ b ∷ bs else b ∷ rest

  unfoldable pub sorted : List A → List A
  unfolding insert_sorted
  sorted [] = []
  sorted (a ∷ bs) = insert_sorted a (sorted bs)

abbrev pub is_line : ℕ → ℕ → Reservation → Bool
is_line order_id variant_id r = r.order_id == order_id && r.variant_id == variant_id

-- `holdOf(...).limit(1)` finds a row, in any status.
unfoldable pub is_held : ℕ → ℕ → Db → Bool
is_held order_id variant_id db = any (is_line order_id variant_id) db.reservations

-- ON CONFLICT (order, variant) DO NOTHING.
unfoldable pub insert_hold : Reservation → Db → Db
unfolding is_held
insert_hold r db =
    if is_held r.order_id r.variant_id db
    then db
    else record db { reservations = db.reservations ++ r ∷ [] }

abbrev pub put_level : ℕ → StockLevel → (ℕ → Option StockLevel) → ℕ → Option StockLevel
put_level v s levels w = if w == v then some s else levels w

abbrev pub put_header : ℕ → Header → (ℕ → Option Header) → ℕ → Option Header
put_header o h headers p = if p == o then some h else headers p

-- An UPDATE of one variant's row under the CHECKs; `f` is none where a column would go below zero.
unfoldable pub update_level : ℕ → (StockLevel → Option StockLevel) → Tx (Unit {0})
update_level v f = do
  level ← gets (λ db. db.levels v)
  elim level [
    | none ↦ pure tt
    | some s ↦ elim (f s) [
      | none ↦ throw StockError.check_violation
      | some s' ↦
          if leb s'.reserved s'.on_hand
          then modify (λ db. record db { levels = put_level v s' db.levels })
          else throw StockError.check_violation
    ]
  ]

abbrev pub raise_reserved : ℕ → StockLevel → Option StockLevel
raise_reserved q s = some (record s { reserved = s.reserved + q; version = s.version + 1 })

unfoldable pub new_hold : ℕ → ReservationLine → ℕ → ℕ → Reservation
new_hold order_id line id expires_at = record {
  id = id;
  order_id = order_id;
  variant_id = line.variant_id;
  quantity = line.quantity;
  status = ReservationStatus.held;
  expires_at = expires_at;
}

pub data LineTransition : Type 0 where
  held_to_committed held_to_released committed_to_restocked : LineTransition

abbrev pub from : LineTransition → ReservationStatus
from LineTransition.held_to_committed = ReservationStatus.held
from LineTransition.held_to_released = ReservationStatus.held
from LineTransition.committed_to_restocked = ReservationStatus.committed

abbrev pub to : LineTransition → ReservationStatus
to LineTransition.held_to_committed = ReservationStatus.committed
to LineTransition.held_to_released = ReservationStatus.released
to LineTransition.committed_to_restocked = ReservationStatus.restocked

-- `STOCK_DELTA`, with the version that every move raises.
unfoldable pub stock_delta : LineTransition → ℕ → StockLevel → Option StockLevel
stock_delta LineTransition.held_to_committed q s =
    if leb q s.on_hand && leb q s.reserved
    then some
        (record { on_hand = s.on_hand - q; reserved = s.reserved - q; version = s.version + 1 })
    else none
stock_delta LineTransition.held_to_released q s =
    if leb q s.reserved
    then some (record s { reserved = s.reserved - q; version = s.version + 1 })
    else none
stock_delta LineTransition.committed_to_restocked q s =
    some (record s { on_hand = min (s.on_hand + q) int4_max; version = s.version + 1 })

-- The row that the compare-and-swap on (order, variant, from) flips.
abbrev pub is_flipped : ℕ → ℕ → ReservationStatus → Reservation → Bool
is_flipped order_id variant_id status r =
    is_line order_id variant_id r && line_status_eq r.status status

abbrev pub flip : ℕ → ℕ → LineTransition → List Reservation → List Reservation
flip order_id variant_id t =
    map (λ r. if is_flipped order_id variant_id (from t) r then record r { status = to t } else r)

-- INSERT ... ON CONFLICT DO NOTHING on the order's header: whether the row was inserted.
unfoldable pub insert_header_row : (ℕ → ℕ) → ℕ → ℕ → Header → Tx Bool
unfolding limit
insert_header_row clock deadline order_id row = do
  limit clock deadline
  existing ← gets (λ db. db.headers order_id)
  elim existing [
    | some _ ↦ pure false
    | none ↦ do modify (λ db. record db { headers = put_header order_id row db.headers }); pure true
  ]

unfoldable pub insert_header : (ℕ → ℕ) → ℕ → ℕ → ℕ → Tx Bool
unfolding insert_header_row
insert_header clock deadline order_id hold_until =
    insert_header_row clock deadline order_id
      (record { status = ReservationOrderStatus.held; hold_until = some hold_until })

unfoldable pub insert_fenced_header : (ℕ → ℕ) → ℕ → ℕ → Tx Bool
unfolding insert_header_row
insert_fenced_header clock deadline order_id =
    insert_header_row clock deadline order_id
      (record { status = ReservationOrderStatus.fenced; hold_until = none })

unfoldable pub find_header_for_update : (ℕ → ℕ) → ℕ → ℕ → Tx (Option Header)
unfolding limit
find_header_for_update clock deadline order_id = do
  limit clock deadline
  gets (λ db. db.headers order_id)

unfoldable pub set_header_status : ℕ → ReservationOrderStatus → Tx (Unit {0})
set_header_status order_id status = modify (λ db. elim (db.headers order_id) [
  | none ↦ db
  | some h ↦ record db { headers = put_header order_id (record h { status = status }) db.headers }
])
