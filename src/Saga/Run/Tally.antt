-- ===== src/Saga/Run/Tally.antt =====
-- How often a checkout run issues each of its commands.
use jcool_ecommerce_backend.Base.{
  ℕ, ◌+◌, ◌≤◌, ◌≡◌, refl, Option, List, [], ◌∷◌, ◌++◌, arith, Bool-cases, inl, inr,
}
use jcool_ecommerce_backend.Order.Status.{OrderStatus}
use jcool_ecommerce_backend.Saga.{
  CheckoutSagaMode, CheckoutStep, CompensationType, PaymentAuthorization, CancelBy,
  CheckoutSagaState, Transition, Expected, SagaCommand, ReserveOutcome, AuthorizationVerdict,
  CommitOutcome, SettledCaptureOutcome, initial_checkout_saga_state, noop, can_cancel,
  on_try_result, on_authorized, on_authorization_verified, on_commit_result, on_capture_result,
  on_deadline, on_cancel_requested, on_compensation_done, on_late_authorization_context,
}
use jcool_ecommerce_backend.Saga.Run.{Event, react, run_from_induction, run}
use jcool_ecommerce_backend.Saga.Run.Coherence.{IsCoherent, react-IsCoherent, initial-IsCoherent}

-- Orders moved to PAID and to a dead status, and one count for each other command.
pub record Tally : Type 0 where
  pub verifies : ℕ
  pub commits : ℕ
  pub captures : ℕ
  pub paid : ℕ
  pub dead : ℕ
  pub releases : ℕ
  pub restocks : ℕ
  pub voids : ℕ

abbrev pub nothing : Tally
nothing = record {
  verifies = 0;
  commits = 0;
  captures = 0;
  paid = 0;
  dead = 0;
  releases = 0;
  restocks = 0;
  voids = 0;
}

abbrev add : Tally → Tally → Tally
add a b = record {
  verifies = a.verifies + b.verifies;
  commits = a.commits + b.commits;
  captures = a.captures + b.captures;
  paid = a.paid + b.paid;
  dead = a.dead + b.dead;
  releases = a.releases + b.releases;
  restocks = a.restocks + b.restocks;
  voids = a.voids + b.voids;
}

abbrev tally_change : OrderStatus → Tally
tally_change OrderStatus.paid = record nothing { paid = 1 }
tally_change OrderStatus.confirming = nothing
tally_change _ = record nothing { dead = 1 }

abbrev tally_compensation : CompensationType → Tally
tally_compensation CompensationType.release_stock = record nothing { releases = 1 }
tally_compensation CompensationType.restock = record nothing { restocks = 1 }
tally_compensation CompensationType.cancel_payment = record nothing { voids = 1 }

abbrev tally_one : SagaCommand → Tally
tally_one (SagaCommand.change_order c) = tally_change c.to
tally_one (SagaCommand.verify_authorization _) = record nothing { verifies = 1 }
tally_one SagaCommand.commit_stock = record nothing { commits = 1 }
tally_one SagaCommand.capture_payment = record nothing { captures = 1 }
tally_one (SagaCommand.compensation c) = tally_compensation c.kind

abbrev pub tally : List SagaCommand → Tally
tally [] = nothing
tally (c ∷ cs) = add (tally_one c) (tally cs)

tally-append : (xs ys : List SagaCommand) → tally (xs ++ ys) ≡ add (tally xs) (tally ys)
tally-append [] ys = ground arith
tally-append (x ∷ xs) ys = ground (arith, tally-append xs ys)

-- What has been issued by each step of a checkout run. A run that ends badly either gave the held
-- stock back without ever committing it, or committed it once, and then restocks it exactly if the
-- capture was tried; every commit is voided at the payment side.
abbrev pub Issued : CheckoutStep → Tally → Type 0
Issued CheckoutStep.reserving n = n ≡ nothing
Issued CheckoutStep.awaiting_auth n = n ≡ record nothing { verifies = n.verifies }
Issued CheckoutStep.committing_stock n = n ≡ record nothing { verifies = n.verifies; commits = 1 }
Issued CheckoutStep.capturing n =
    n ≡ record nothing { verifies = n.verifies; commits = 1; captures = 1 }
Issued CheckoutStep.completed n =
    n ≡ record nothing { verifies = n.verifies; commits = 1; captures = 1; paid = 1 }
Issued _ n =
    (n.paid ≡ 0)
    × (n.releases + n.commits ≡ 1)
    × (n.captures ≤ n.commits)
    × (n.restocks ≡ n.captures)
    × (n.commits ≤ n.voids)
    × (n.dead ≤ 1)

pub record IsTallied (t : Transition) : Type 0 where
  pub coherent : IsCoherent t.state
  pub mode : t.state.mode ≡ CheckoutSagaMode.checkout
  pub issued : Issued t.state.step (tally t.commands)

abbrev Keeps : Tally → CheckoutSagaState → List SagaCommand → Type 0
Keeps n s commands = (s.mode ≡ CheckoutSagaMode.checkout) × Issued s.step (add n (tally commands))

-- Each transition keeps the account, whatever had been issued before it.
module _ (s : CheckoutSagaState) (n : Tally) (h : IsCoherent s)
    (c : s.mode ≡ CheckoutSagaMode.checkout) (issued : Issued s.step n) where
  on_try_result-Issued :
      (o : ReserveOutcome) → Keeps n (on_try_result s o).state (on_try_result s o).commands
  unfolding on_try_result
  on_try_result-Issued o = ground arith

  on_authorized-Issued :
      (a : PaymentAuthorization) (x : Expected)
      → Keeps n (on_authorized s a x).state (on_authorized s a x).commands
  unfolding on_authorized
  on_authorized-Issued a x = ground arith

  on_authorization_verified-Issued :
      (a : PaymentAuthorization) (v : AuthorizationVerdict)
      → Keeps n (on_authorization_verified s a v).state (on_authorization_verified s a v).commands
  unfolding on_authorization_verified
  on_authorization_verified-Issued a v = ground arith

  on_commit_result-Issued :
      (o : CommitOutcome) → Keeps n (on_commit_result s o).state (on_commit_result s o).commands
  unfolding on_commit_result
  on_commit_result-Issued o = ground arith

  on_capture_result-Issued :
      (o : SettledCaptureOutcome)
      → Keeps n (on_capture_result s o).state (on_capture_result s o).commands
  unfolding on_capture_result
  on_capture_result-Issued o = ground arith

  on_deadline-Issued : Keeps n (on_deadline s).state (on_deadline s).commands
  unfolding on_deadline
  on_deadline-Issued = ground arith

  on_cancel_requested-Issued :
      (by : CancelBy) → Keeps n (on_cancel_requested s by).state (on_cancel_requested s by).commands
  unfolding on_cancel_requested
  on_cancel_requested-Issued by = ground arith

  on_compensation_done-Issued :
      (id : ℕ) → Keeps n (on_compensation_done s id).state (on_compensation_done s id).commands
  unfolding on_compensation_done
  on_compensation_done-Issued id = ground arith

  on_late_authorization_context-Issued :
      (o : Option OrderStatus)
      → Keeps n
          (on_late_authorization_context s o).state
          (on_late_authorization_context s o).commands
  unfolding on_late_authorization_context
  on_late_authorization_context-Issued o = ground arith

react-Issued :
    (x : Expected) (s : CheckoutSagaState) (n : Tally) (event : Event)
    → IsCoherent s
    → s.mode ≡ CheckoutSagaMode.checkout
    → Issued s.step n
    → Keeps n (react x s event).state (react x s event).commands
unfolding react
react-Issued x s n (Event.try_result o) h c i = on_try_result-Issued s n h c i o
react-Issued x s n (Event.payment_authorized a) h c i = on_authorized-Issued s n h c i a x
react-Issued x s n (Event.authorization_verified a v) h c i =
    on_authorization_verified-Issued s n h c i a v
react-Issued x s n (Event.commit_result o) h c i = on_commit_result-Issued s n h c i o
react-Issued x s n (Event.capture_result o) h c i = on_capture_result-Issued s n h c i o
react-Issued x s n Event.deadline h c i = on_deadline-Issued s n h c i
react-Issued x s n (Event.cancel_requested by) h c i = elim (Bool-cases (can_cancel s)) [
  | inl allowed ↦ rw allowed (on_cancel_requested-Issued s n h c i by)
  | inr refused ↦ rw refused (unfold noop in ground arith)
]
react-Issued x s n (Event.compensation_done id) h c i = on_compensation_done-Issued s n h c i id
react-Issued x s n (Event.late_authorization_context o) h c i =
    on_late_authorization_context-Issued s n h c i o

keep :
    (x : Expected) (t : Transition) (event : Event)
    → IsTallied t
    → let next = react x t.state event in
      IsTallied (record { state = next.state; commands = t.commands ++ next.commands })
keep x t event h =
    let k = react-Issued x t.state (tally t.commands) event h.coherent h.mode h.issued in
    let next = react x t.state event in
    record {
      coherent = react-IsCoherent x t.state event h.coherent;
      mode = k.0;
      issued = rw (tally-append t.commands next.commands) k.1;
    }

initial-IsTallied :
    IsTallied
      (record { state = initial_checkout_saga_state CheckoutSagaMode.checkout; commands = [] })
initial-IsTallied = record {
  coherent = initial-IsCoherent CheckoutSagaMode.checkout;
  mode = unfold initial_checkout_saga_state in refl;
  issued = unfold initial_checkout_saga_state in refl;
}

-- The commands of a checkout run add up at every step, whatever the events and their order. Stock is
-- committed and money captured at most once; a completed run moved its order to PAID once and
-- compensated nothing; a compensating or compensated run never moved it to PAID, either released the
-- held stock and never committed it or committed it once and never released it, restocks exactly if
-- it asked for the capture, and voids the payment if it committed.
pub run-Issued :
    (x : Expected) (events : List Event)
    → let t = run x CheckoutSagaMode.checkout events in Issued t.state.step (tally t.commands)
unfolding run
run-Issued x events =
    (run_from_induction IsTallied x (keep x)
      (record { state = initial_checkout_saga_state CheckoutSagaMode.checkout; commands = [] })
      events initial-IsTallied).issued
