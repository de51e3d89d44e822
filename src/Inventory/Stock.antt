-- ===== src/Inventory/Stock.antt =====
-- stock.repository.ts of .../inventory/infrastructure: its methods as actions on the rows.
pub mod Tables
pub mod Holds
use jcool_ecommerce_backend.Base.{
  ℕ, zero, suc, ◌+◌, ◌-◌, Bool, true, false, not, ◌&&◌, ◌||◌, Option, none, some, List, [], ◌∷◌,
  ◌++◌, map, any, filter, min, ltb, leb, ◌==◌, if◌then◌else◌,
}
use mathlib.Core.Option
use jcool_ecommerce_backend.Inventory.Fence.{ReservationOrderStatus}
use jcool_ecommerce_backend.Inventory.Tx.{
  Tx, Db, World, StockLevel, Reservation, Header, ReservationStatus, StockError, Answer, ok, err,
  pure, throw, gets, modify, limit, line_status_eq, ◌>>=◌, ◌>>◌,
}
use jcool_ecommerce_backend.Inventory.Rows.{
  Setting, ReservationLine, sorted, is_line, is_held, insert_hold, put_level, update_level,
  raise_reserved, new_hold, LineTransition, from, to, stock_delta, is_flipped, flip,
}

-- One round of the loop of `reservePessimistic`.
unfoldable pub reserve_line : Setting → ℕ → ℕ → ℕ → ReservationLine → ℕ → Tx (Unit {0})
unfolding limit is_held insert_hold update_level new_hold
reserve_line env deadline order_id expires_at line id = do
  limit env.clock deadline
  stock ← gets (λ db. db.levels line.variant_id)
  elim stock [
    | none ↦ throw (StockError.insufficient_stock line.variant_id line.quantity 0)
    | some s ↦ do
      held ← gets (is_held order_id line.variant_id)
      if held
          then pure tt
          else if ltb s.on_hand (s.reserved + line.quantity)
          then throw
              (StockError.insufficient_stock line.variant_id line.quantity (s.on_hand - s.reserved))
          else (do
            update_level line.variant_id (raise_reserved line.quantity)
            modify (insert_hold (new_hold order_id line id expires_at)))
  ]

-- The rounds, with `ids[index]` for the line at `index`; a missing id is refused by the table.
unfoldable pub reserve_lines : Setting → ℕ → ℕ → ℕ → List ReservationLine → List ℕ → Tx (Unit {0})
unfolding reserve_line
reserve_lines env deadline order_id expires_at [] ids = pure tt
reserve_lines env deadline order_id expires_at (line ∷ lines) [] = throw StockError.missing_id
reserve_lines env deadline order_id expires_at (line ∷ lines) (id ∷ ids) = do
  reserve_line env deadline order_id expires_at line id
  reserve_lines env deadline order_id expires_at lines ids

-- The compare-and-swap UPDATE: whether it won.
unfoldable pub swap_level : ℕ → ReservationLine → StockLevel → Tx Bool
unfolding is_held
swap_level order_id line seen w = elim (w.db.levels line.variant_id) [
  | none ↦ pure false w
  | some s ↦
      if s.version == seen.version
        && leb (s.reserved + line.quantity) s.on_hand
        && not (is_held order_id line.variant_id w.db)
      then (do
        modify (λ db. record db {
          levels =
              put_level line.variant_id
                (record s { reserved = s.reserved + line.quantity; version = s.version + 1 })
                db.levels;
        })
        pure true)
          w
      else pure false w
]

-- The loop of `casReserve` from its n-th attempt, on fuel.
unfoldable pub cas_reserve : Setting → ℕ → ℕ → ReservationLine → ℕ → ℕ → Tx Bool
unfolding limit is_held swap_level
cas_reserve env deadline order_id line zero attempt = throw StockError.out_of_fuel
cas_reserve env deadline order_id line (suc fuel) attempt =
    let again = cas_reserve env deadline order_id line fuel (attempt + 1) in
    do
      held ← gets (is_held order_id line.variant_id)
      row ← gets (λ db. db.levels line.variant_id)
      if held then pure false else elim row [
        | none ↦ throw (StockError.insufficient_stock line.variant_id line.quantity 0)
        | some s ↦
            if ltb s.on_hand (s.reserved + line.quantity)
            then throw (
                StockError.insufficient_stock line.variant_id line.quantity
                  (s.on_hand - s.reserved))
            else if ltb env.max_retries attempt
            then throw (StockError.reservation_conflict line.variant_id)
            else (do
              limit env.clock deadline
              modify (env.others attempt)
              won ← swap_level order_id line s
              if won then pure true else again)
      ]

unfoldable pub reserve_each_optimistic :
    Setting → ℕ → ℕ → ℕ → List ReservationLine → List ℕ → Tx (Unit {0})
unfolding cas_reserve insert_hold new_hold
reserve_each_optimistic env deadline order_id expires_at [] ids = pure tt
reserve_each_optimistic env deadline order_id expires_at (line ∷ lines) [] =
    throw StockError.missing_id
reserve_each_optimistic env deadline order_id expires_at (line ∷ lines) (id ∷ ids) = do
  won ← cas_reserve env deadline order_id line (env.max_retries + 2) 0
  if won then modify (insert_hold (new_hold order_id line id expires_at)) else pure tt
  reserve_each_optimistic env deadline order_id expires_at lines ids

unfoldable pub reserve_optimistic :
    Setting → ℕ → ℕ → ℕ → List ReservationLine → List ℕ → Tx (Unit {0})
unfolding reserve_each_optimistic sorted
reserve_optimistic env deadline order_id expires_at lines ids =
    reserve_each_optimistic env deadline order_id expires_at
      (sorted (λ l. l.variant_id) env.precedes lines) ids

unfoldable pub reserve_pessimistic :
    Setting → ℕ → ℕ → ℕ → List ReservationLine → List ℕ → Tx (Unit {0})
unfolding reserve_lines sorted
reserve_pessimistic env deadline order_id expires_at lines ids =
    reserve_lines env deadline order_id expires_at (sorted (λ l. l.variant_id) env.precedes lines)
      ids

-- One round of the loop of `moveLines`: whether the row was flipped.
unfoldable pub move_line : Setting → ℕ → ℕ → LineTransition → Reservation → Tx Bool
unfolding limit update_level stock_delta line_status_eq
move_line env deadline order_id t row = do
  hit ← gets (λ db. any (is_flipped order_id row.variant_id (from t)) db.reservations)
  modify (λ db. record db { reservations = flip order_id row.variant_id t db.reservations })
  if not hit then pure false else (do
    limit env.clock deadline
    update_level row.variant_id (stock_delta t row.quantity)
    pure true)

unfoldable pub move_each : Setting → ℕ → ℕ → LineTransition → List Reservation → Tx ℕ
unfolding move_line
move_each env deadline order_id t [] = pure 0
move_each env deadline order_id t (row ∷ rows) = do
  hit ← move_line env deadline order_id t row
  count ← move_each env deadline order_id t rows
  pure (if hit then count + 1 else count)

pub record StockResolveResult : Type 0 where
  pub applied : Bool
  pub already_resolved : Bool
  pub count : ℕ

abbrev result : Bool → Bool → ℕ → StockResolveResult
result a r n = record { applied = a; already_resolved = r; count = n }

abbrev pub is_nil {ℓ} : {A : Type ℓ} → List A → Bool
is_nil [] = true
is_nil (_ ∷ _) = false

-- The rows that `moveLines` reads and sorts.
abbrev pub pending_rows : Setting → ℕ → LineTransition → Db → List Reservation
pending_rows env order_id t db =
    sorted (λ r. r.variant_id) env.precedes
      (filter (λ r. line_status_eq r.status (from t))
        (filter (λ r. r.order_id == order_id) db.reservations))

unfoldable pub move_lines : Setting → ℕ → ℕ → LineTransition → Tx StockResolveResult
unfolding move_each sorted line_status_eq
move_lines env deadline order_id t = do
  rows ← gets (λ db. filter (λ r. r.order_id == order_id) db.reservations)
  pending ← gets (pending_rows env order_id t)
  if is_nil rows
      then pure (result false false 0)
      else if is_nil pending
      then pure (result false true 0)
      else (do
        count ← move_each env deadline order_id t pending
        pure (if count == 0 then result false true 0 else result true false count))

unfoldable pub commit_reservations : Setting → ℕ → ℕ → Tx StockResolveResult
unfolding move_lines
commit_reservations env deadline order_id =
    move_lines env deadline order_id LineTransition.held_to_committed

unfoldable pub release_reservations : Setting → ℕ → ℕ → Tx StockResolveResult
unfolding move_lines
release_reservations env deadline order_id =
    move_lines env deadline order_id LineTransition.held_to_released

unfoldable pub restock_reservations : Setting → ℕ → ℕ → Tx StockResolveResult
unfolding move_lines
restock_reservations env deadline order_id =
    move_lines env deadline order_id LineTransition.committed_to_restocked
