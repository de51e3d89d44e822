-- ===== src/Order/Entity/Lifespan.antt =====
-- How many moves an order of order.entity.ts can make.
use jcool_ecommerce_backend.Base.{
  ℕ, suc, ◌+◌, ◌≤◌, ◌≡◌, sym, subst, ap, none, List, [], ◌∷◌, length, Text, arith,
}
use jcool_ecommerce_backend.Kernel.{Result, ok, err, ◌>>=◌}
use jcool_ecommerce_backend.Order.Status.{OrderStatus}
use jcool_ecommerce_backend.Order.Status.Terminal.{depth, edge-depth, depth-le}
use jcool_ecommerce_backend.Order.Entity.{
  Order, Meta, reserve, confirm_placed, reject, begin_confirming, finalize,
}
use jcool_ecommerce_backend.Order.Entity.Moves.{Moves, moves_lem}

-- The calls that change an order's status.
pub data OrderMove : Type 0 where
  reserves : ℕ → ℕ → OrderMove
  confirms : OrderMove
  rejects : Text → ℕ → OrderMove
  begins : OrderMove
  finalizes : OrderStatus → Meta → OrderMove

unfoldable pub perform : OrderMove → Order → Result Order
perform (OrderMove.reserves now deadline) order = reserve order now deadline
perform OrderMove.confirms order = confirm_placed order
perform (OrderMove.rejects reason now) order = reject order reason now
perform OrderMove.begins order = begin_confirming order
perform (OrderMove.finalizes outcome meta) order = finalize order outcome meta

-- The calls one after another, up to the first that throws.
unfoldable pub perform_all : List OrderMove → Order → Result Order
perform_all [] order = ok order
perform_all (move ∷ moves) order = do moved ← perform move order; perform_all moves moved

abbrev aim : OrderMove → OrderStatus
aim (OrderMove.reserves _ _) = OrderStatus.reserving
aim OrderMove.confirms = OrderStatus.pending
aim (OrderMove.rejects _ _) = OrderStatus.rejected
aim OrderMove.begins = OrderStatus.confirming
aim (OrderMove.finalizes outcome _) = outcome

-- The meta of a call that takes none.
abbrev no_meta : Meta
no_meta = record { now = 0; reason = none; payment_ref = none }

perform-Moves : (move : OrderMove) (a : Order) → Moves a (aim move) (perform move a)
unfolding perform
perform-Moves (OrderMove.reserves now deadline) a =
    (moves_lem a now deadline [] OrderStatus.paid no_meta).0
perform-Moves OrderMove.confirms a = (moves_lem a 0 0 [] OrderStatus.paid no_meta).1
perform-Moves (OrderMove.rejects reason now) a =
    (moves_lem a now 0 reason OrderStatus.paid no_meta).2
perform-Moves OrderMove.begins a = (moves_lem a 0 0 [] OrderStatus.paid no_meta).3
perform-Moves (OrderMove.finalizes outcome meta) a = (moves_lem a 0 0 [] outcome meta).4

-- What a chain of successful moves has done to the depth.
abbrev Deepens : Order → ℕ → Result Order → Type 0
Deepens a n (ok b) = n + depth a.status ≤ depth b.status
Deepens a n (err _) = Unit

Deepens-later :
    (a b : Order) (n : ℕ) (r : Result Order)
    → suc (depth a.status) ≤ depth b.status
    → Deepens b n r
    → Deepens a (suc n) r
Deepens-later a b n (ok c) deeper rest = omega arith
Deepens-later a b n (err _) deeper rest = tt

chain-Deepens :
    (a : Order) (n : ℕ) (to : OrderStatus) (r : Result Order) (next : Order → Result Order)
    → Moves a to r
    → ((b : Order) → Deepens b n (next b))
    → Deepens a (suc n) (r >>= next)
chain-Deepens a n to (ok b) next (same, at, wired) rest =
    let deeper = edge-depth a.status to wired in
    Deepens-later a b n (next b) (subst (λ s. suc (depth a.status) ≤ depth s) (sym at) deeper)
      (rest b)
chain-Deepens a n to (err e) next moved rest = tt

perform_all-Deepens :
    (moves : List OrderMove) (a : Order) → Deepens a (length moves) (perform_all moves a)
unfolding perform_all
perform_all-Deepens [] a = omega arith
perform_all-Deepens (move ∷ moves) a =
    chain-Deepens a (length moves) (aim move) (perform move a) (λ b. perform_all moves b)
      (perform-Moves move a) (perform_all-Deepens moves)

-- However an order is moved, at most four calls in a row succeed, and no order comes back to a
-- status that it has left.
pub perform_all-bound :
    (moves : List OrderMove) (a b : Order)
    → perform_all moves a ≡ ok b
    → (length moves ≤ 4) × (a.status ≡ b.status → length moves ≡ 0)
perform_all-bound moves a b done =
    let deep : Deepens a (length moves) (ok b) =
      subst (Deepens a (length moves)) done (perform_all-Deepens moves a) in
    (omega (arith, deep, depth-le b.status), λ e. omega (arith, deep, ap depth e))
