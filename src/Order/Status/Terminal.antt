-- ===== src/Order/Status/Terminal.antt =====
-- The status machine read as a graph: where a status can still go.
use jcool_ecommerce_backend.Base.{ℕ, suc, ◌≤◌, true, ◌≡◌, arith, ◌↔◌}
use jcool_ecommerce_backend.Order.Status.{OrderStatus, can_transition, is_terminal}

-- A status has no way out exactly when the code calls it terminal.
pub is_terminal_iff :
    (s : OrderStatus)
    → (is_terminal s ≡ true) ↔ ((to : OrderStatus) → ¬ (can_transition s to ≡ true))
unfolding can_transition is_terminal
is_terminal_iff OrderStatus.draft = (λ e. cc, λ h. absurd (h OrderStatus.cancelled (ground arith)))
is_terminal_iff OrderStatus.reserving =
    (λ e. cc, λ h. absurd (h OrderStatus.pending (ground arith)))
is_terminal_iff OrderStatus.pending = (λ e. cc, λ h. absurd (h OrderStatus.expired (ground arith)))
is_terminal_iff OrderStatus.confirming = (λ e. cc, λ h. absurd (h OrderStatus.paid (ground arith)))
is_terminal_iff OrderStatus.paid = (λ e. no_way_out, λ h. ground arith)
  where
    no_way_out : (to : OrderStatus) → ¬ (can_transition OrderStatus.paid to ≡ true)
    no_way_out to e = ground arith
is_terminal_iff _ = (λ e to k. ground arith, λ h. ground arith)

-- The longest path to each status from a draft.
pub depth : OrderStatus → ℕ
depth OrderStatus.draft = 0
depth OrderStatus.reserving = 1
depth OrderStatus.pending = 2
depth OrderStatus.confirming = 3
depth _ = 4

pub edge-depth : (s t : OrderStatus) → can_transition s t ≡ true → suc (depth s) ≤ depth t
unfolding can_transition depth
edge-depth OrderStatus.draft t h = ground arith
edge-depth OrderStatus.reserving t h = ground arith
edge-depth OrderStatus.pending t h = ground arith
edge-depth OrderStatus.confirming t h = ground arith
edge-depth _ t h = ground arith

pub depth-le : (s : OrderStatus) → depth s ≤ 4
unfolding depth
depth-le s = ground arith
