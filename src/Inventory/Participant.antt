-- ===== src/Inventory/Participant.antt =====
-- inventory-participant.service.ts and release-lapsed-holds.use-case.ts of .../inventory/application.
-- Metrics and logs are left out. `mint` is the id service's answer, `none` where it throws.
pub mod NoOversell
use jcool_ecommerce_backend.Base.{
  ℕ, suc, ◌+◌, Bool, true, false, not, ◌&&◌, Option, none, some, List, [], ◌∷◌, ltb, leb, length,
  find, if◌then◌else◌,
}
use mathlib.Core.Option
use jcool_ecommerce_backend.Inventory.Fence.{
  ReservationOrderStatus, ReservationFenceOp, ReservationFenceDecision, decide_reservation_fence,
}
use jcool_ecommerce_backend.Inventory.Tx.{
  Tx, Db, World, Header, StockError, Answer, ok, err, pure, throw, gets, now, transaction, ◌>>=◌,
  ◌>>◌,
}
use jcool_ecommerce_backend.Inventory.Rows.{
  Setting, ReservationLine, insert_header, insert_fenced_header, find_header_for_update,
  set_header_status,
}
use jcool_ecommerce_backend.Inventory.Stock.{
  StockResolveResult, reserve_optimistic, reserve_pessimistic, commit_reservations,
  release_reservations, restock_reservations,
}

pub data LockStrategy : Type 0 where
  pessimistic optimistic : LockStrategy

pub record Service : Type 0 where
  pub env : Setting
  pub budget_ms : ℕ
  pub strategy : LockStrategy

pub data TryReserveOutcome : Type 0 where
  reserved out_of_stock contended conflict : TryReserveOutcome

pub data CommandOutcome : Type 0 where
  applied idempotent conflict : CommandOutcome

pub data CommandOp : Type 0 where
  commit release restock : CommandOp

abbrev pub fence_op : CommandOp → ReservationFenceOp
fence_op CommandOp.commit = ReservationFenceOp.commit
fence_op CommandOp.release = ReservationFenceOp.release
fence_op CommandOp.restock = ReservationFenceOp.restock

unfoldable pub in_transaction : {A : Type 0} → Service → ℕ → Tx A → Tx A
unfolding transaction
in_transaction s deadline work =
    transaction
      do t ← now s.env.clock; if leb deadline t then throw StockError.reservation_deadline else work

unfoldable pub reserve_by : Service → ℕ → ℕ → ℕ → List ReservationLine → List ℕ → Tx (Unit {0})
reserve_by s deadline order_id hold_until lines ids = elim s.strategy [
  | LockStrategy.optimistic ↦ reserve_optimistic s.env deadline order_id hold_until lines ids
  | LockStrategy.pessimistic ↦ reserve_pessimistic s.env deadline order_id hold_until lines ids
]

abbrev pub try_on_header : Option Header → Tx TryReserveOutcome
try_on_header none = throw StockError.header_unreadable
try_on_header (some h) = elim (decide_reservation_fence ReservationFenceOp.try (some h.status)) [
  | ReservationFenceDecision.conflict ↦ pure TryReserveOutcome.conflict
  | _ ↦ pure TryReserveOutcome.reserved
]

-- The work of a Try inside its transaction.
unfoldable pub try_in_tx :
    Service → ℕ → ℕ → ℕ → List ReservationLine → List ℕ → Tx TryReserveOutcome
unfolding reserve_by insert_header find_header_for_update decide_reservation_fence
try_in_tx s deadline order_id hold_until lines ids = do
  inserted ← insert_header s.env.clock deadline order_id hold_until
  if inserted
      then (do reserve_by s deadline order_id hold_until lines ids; pure TryReserveOutcome.reserved)
      else (do header ← find_header_for_update s.env.clock deadline order_id; try_on_header header)

-- The `catch` of a Try.
abbrev pub caught : Answer TryReserveOutcome → Answer TryReserveOutcome
caught (ok a) = ok a
caught (err (StockError.insufficient_stock _ _ _)) = ok TryReserveOutcome.out_of_stock
caught (err (StockError.reservation_conflict _)) = ok TryReserveOutcome.contended
caught (err e) = err e

unfoldable pub try_reserve :
    Service → (ℕ → Option (List ℕ)) → ℕ → List ReservationLine → ℕ → Tx TryReserveOutcome
unfolding in_transaction try_in_tx
try_reserve s mint order_id lines hold_until = elim (mint (length lines)) [
  | none ↦ throw StockError.id_mint_unavailable
  | some ids ↦ do
    t ← now s.env.clock
    λ w.
        let deadline = t + s.budget_ms in
        let (r, w') =
          in_transaction s deadline (try_in_tx s deadline order_id hold_until lines ids) w in
        (caught r, w')
]

unfoldable pub move_lines_for : CommandOp → Service → ℕ → ℕ → Tx StockResolveResult
move_lines_for CommandOp.commit s deadline order_id = commit_reservations s.env deadline order_id
move_lines_for CommandOp.release s deadline order_id = release_reservations s.env deadline order_id
move_lines_for CommandOp.restock s deadline order_id = restock_reservations s.env deadline order_id

-- What follows the decision: the moves, and the header's new status.
unfoldable pub carry_out :
    CommandOp → Service → ℕ → ℕ → ReservationFenceDecision → Tx CommandOutcome
unfolding move_lines_for set_header_status
carry_out op s deadline order_id (ReservationFenceDecision.apply next) = do
  move_lines_for op s deadline order_id
  set_header_status order_id next
  pure CommandOutcome.applied
carry_out op s deadline order_id ReservationFenceDecision.idempotent =
    pure CommandOutcome.idempotent
carry_out op s deadline order_id ReservationFenceDecision.conflict = pure CommandOutcome.conflict

unfoldable pub apply_command : CommandOp → Service → ℕ → ℕ → Option Header → Tx CommandOutcome
unfolding carry_out decide_reservation_fence
apply_command op s deadline order_id header =
    carry_out op s deadline order_id
      (decide_reservation_fence (fence_op op) (Option.map (λ h. h.status) header))

abbrev pub is_release_without : CommandOp → Option Header → Bool
is_release_without CommandOp.release none = true
is_release_without _ _ = false

unfoldable pub command_in_tx : CommandOp → Service → ℕ → ℕ → Tx CommandOutcome
unfolding apply_command find_header_for_update insert_fenced_header
command_in_tx op s deadline order_id = do
  header ← find_header_for_update s.env.clock deadline order_id
  if is_release_without op header
      then (do
        fenced ← insert_fenced_header s.env.clock deadline order_id
        if fenced then pure CommandOutcome.applied else (do
          again ← find_header_for_update s.env.clock deadline order_id
          apply_command op s deadline order_id again))
      else apply_command op s deadline order_id header

unfoldable pub run_command : CommandOp → Service → ℕ → Tx CommandOutcome
unfolding in_transaction command_in_tx
run_command op s order_id = do
  t ← now s.env.clock
  in_transaction s (t + s.budget_ms) (command_in_tx op s (t + s.budget_ms) order_id)

-- `statusOf`: one answer for each id asked for.
unfoldable pub status_of : List ℕ → Db → List (ℕ × Option ReservationOrderStatus)
status_of [] db = []
status_of (order_id ∷ ids) db =
    (order_id, Option.map (λ h. h.status) (db.headers order_id)) ∷ status_of ids db
