-- ===== src/Saga/Run/Settle.antt =====
-- A compensating run settles: once every pending compensation has reported back, in any order and
-- however often, the run is compensated.

use jcool_ecommerce_backend.Base.{
  ℕ, ◌≡◌, ◌≢◌, refl, Bool, true, false, not, none, List, [], ◌∷◌, ◌++◌, map, arith, All, any,
  filter, contains, ◌==◌, ◌⊎◌,
}
use jcool_ecommerce_backend.Saga.{
  CheckoutStep, CheckoutSagaState, Transition, Expected, CompensationCommand, on_compensation_done,
}
use jcool_ecommerce_backend.Saga.Run.{Event, react, run_from}
use jcool_ecommerce_backend.Saga.Run.Coherence.{IsCoherent, on_compensation_done-IsCoherent}

abbrev pub Covers : List ℕ → List CompensationCommand → Type 0
Covers ids = All (λ c. contains c.id ids ≡ true)

filter-none_matching {ℓ} :
    {A : Type ℓ} (p : A → Bool) (xs : List A) → any p xs ≡ false → filter (λ x. not (p x)) xs ≡ xs
filter-none_matching p [] h = refl
filter-none_matching p (x ∷ xs) h = ground (arith, filter-none_matching p xs)

Covers-filter :
    (id : ℕ) (ids : List ℕ) (p : List CompensationCommand)
    → Covers (id ∷ ids) p
    → Covers ids (filter (λ c. not (c.id == id)) p)
Covers-filter id ids [] h = tt
Covers-filter id ids (c ∷ p) h = ground (arith, Covers-filter id ids p h.1)

pending-on_compensation_done :
    (s : CheckoutSagaState) (id : ℕ)
    → (on_compensation_done s id).state.pending ≡ filter (λ c. not (c.id == id)) s.pending
unfolding on_compensation_done
pending-on_compensation_done s id = ground (arith, filter-none_matching (λ c. c.id == id) s.pending)

-- Compensating or compensated, with an order that has been read.
abbrev pub IsUnwinding : CheckoutSagaState → Type 0
IsUnwinding s =
    ((s.step ≡ CheckoutStep.compensating) ⊎ (s.step ≡ CheckoutStep.compensated))
    × (s.order_status ≢ none)

on_compensation_done-IsUnwinding :
    (s : CheckoutSagaState) (id : ℕ) → IsUnwinding s → IsUnwinding (on_compensation_done s id).state
unfolding on_compensation_done
on_compensation_done-IsUnwinding s id h = ground arith

compensated_of_done :
    (s : CheckoutSagaState)
    → IsCoherent s
    → IsUnwinding s
    → s.pending ≡ []
    → s.step ≡ CheckoutStep.compensated
compensated_of_done s h u e = ground (arith, h.pending_fits)

pending-of_covered_by_none : (p : List CompensationCommand) → Covers [] p → p ≡ []
pending-of_covered_by_none [] h = refl
pending-of_covered_by_none (c ∷ p) h = cc (h.0)

-- From a coherent state that is unwinding, reports of a list of ids that covers every pending
-- compensation lead to the step COMPENSATED.
pub run_from-compensated :
    (x : Expected) (t : Transition) (ids : List ℕ)
    → IsCoherent t.state
    → IsUnwinding t.state
    → Covers ids t.state.pending
    → (run_from x t (map Event.compensation_done ids)).state.step ≡ CheckoutStep.compensated
unfolding run_from react
run_from-compensated x t [] h u c =
    compensated_of_done t.state h u (pending-of_covered_by_none t.state.pending c)
run_from-compensated x t (id ∷ ids) h u c =
    let next = on_compensation_done t.state id in
    run_from-compensated x (record { state = next.state; commands = t.commands ++ next.commands })
      ids (on_compensation_done-IsCoherent t.state h id)
      (on_compensation_done-IsUnwinding t.state id u)
      (rw (pending-on_compensation_done t.state id) (Covers-filter id ids t.state.pending c))
