-- ===== src/Saga/Run/Coherence.antt =====
-- The step, the order status and the pending compensations always fit together.
use jcool_ecommerce_backend.Base.{
  ℕ, ◌≡◌, ◌≢◌, Bool, true, false, Option, none, some, List, [], ◌∷◌, ◌++◌, arith, Bool-cases, inl,
  inr,
}
use jcool_ecommerce_backend.Order.Status.{OrderStatus}
use jcool_ecommerce_backend.Saga.{
  CheckoutSagaMode, CheckoutStep, CompensationType, CompensationReason, PaymentAuthorization,
  CancelBy, CheckoutSagaState, Expected, CompensationCommand, ReserveOutcome, AuthorizationVerdict,
  CommitOutcome, SettledCaptureOutcome, initial_checkout_saga_state, noop, can_cancel,
  on_try_result, on_authorized, on_authorization_verified, on_commit_result, on_capture_result,
  on_deadline, on_cancel_requested, on_compensation_done, on_late_authorization_context,
}
use jcool_ecommerce_backend.Saga.Run.{Event, react, run_from_induction, run}

abbrev is_dead : OrderStatus → Bool
is_dead OrderStatus.rejected = true
is_dead OrderStatus.failed = true
is_dead OrderStatus.expired = true
is_dead OrderStatus.cancelled = true
is_dead _ = false

abbrev IsDead : Option OrderStatus → Type 0
IsDead none = ⊥
IsDead (some status) = is_dead status ≡ true

-- What the order status says at each step of a run.
abbrev pub StatusFits : CheckoutSagaMode → CheckoutStep → Option OrderStatus → Type 0
StatusFits CheckoutSagaMode.checkout CheckoutStep.reserving o = o ≡ some OrderStatus.reserving
StatusFits CheckoutSagaMode.checkout CheckoutStep.awaiting_auth o = o ≡ some OrderStatus.pending
StatusFits CheckoutSagaMode.checkout CheckoutStep.committing_stock o =
    o ≡ some OrderStatus.confirming
StatusFits CheckoutSagaMode.checkout CheckoutStep.capturing o = o ≡ some OrderStatus.confirming
StatusFits CheckoutSagaMode.checkout CheckoutStep.completed o = o ≡ some OrderStatus.paid
StatusFits CheckoutSagaMode.checkout CheckoutStep.compensating o = IsDead o
StatusFits CheckoutSagaMode.checkout CheckoutStep.compensated o = IsDead o
StatusFits CheckoutSagaMode.late_authorization CheckoutStep.completed o = o ≡ some OrderStatus.paid
StatusFits CheckoutSagaMode.late_authorization CheckoutStep.compensating o =
    o ≢ some OrderStatus.paid
StatusFits CheckoutSagaMode.late_authorization CheckoutStep.compensated o =
    (o ≢ none) × (o ≢ some OrderStatus.paid)
StatusFits CheckoutSagaMode.late_authorization _ o = ⊥

-- Compensations are pending exactly while compensating; a late run starts there with none.
abbrev pub PendingFits :
    CheckoutSagaMode → CheckoutStep → Option OrderStatus → List CompensationCommand → Type 0
PendingFits CheckoutSagaMode.checkout CheckoutStep.compensating o p = p ≢ []
PendingFits CheckoutSagaMode.late_authorization CheckoutStep.compensating none p = p ≡ []
PendingFits CheckoutSagaMode.late_authorization CheckoutStep.compensating (some _) p = p ≢ []
PendingFits _ _ o p = p ≡ []

pub record IsCoherent (s : CheckoutSagaState) : Type 0 where
  pub status_fits : StatusFits s.mode s.step s.order_status
  pub pending_fits : PendingFits s.mode s.step s.order_status s.pending

append-ne {ℓ} : {A : Type ℓ} (xs : List A) (y : A) (ys : List A) → xs ++ y ∷ ys ≢ []
append-ne [] y ys e = cc
append-ne (x ∷ xs) y ys e = cc

module _ (s : CheckoutSagaState) (h : IsCoherent s) where
  on_try_result-IsCoherent : (o : ReserveOutcome) → IsCoherent (on_try_result s o).state
  unfolding on_try_result
  on_try_result-IsCoherent o = ground arith

  on_authorized-IsCoherent :
      (a : PaymentAuthorization) (x : Expected) → IsCoherent (on_authorized s a x).state
  unfolding on_authorized
  on_authorized-IsCoherent a x = ground (
    arith,
    append-ne s.pending
        (record {
          kind = CompensationType.cancel_payment;
          id = s.next_command_id;
          reason = CompensationReason.late_authorization;
        })
        [],
  )

  on_authorization_verified-IsCoherent :
      (a : PaymentAuthorization) (v : AuthorizationVerdict)
      → IsCoherent (on_authorization_verified s a v).state
  unfolding on_authorization_verified
  on_authorization_verified-IsCoherent a v = ground arith

  on_commit_result-IsCoherent : (o : CommitOutcome) → IsCoherent (on_commit_result s o).state
  unfolding on_commit_result
  on_commit_result-IsCoherent o = ground arith

  on_capture_result-IsCoherent :
      (o : SettledCaptureOutcome) → IsCoherent (on_capture_result s o).state
  unfolding on_capture_result
  on_capture_result-IsCoherent o = ground arith

  on_deadline-IsCoherent : IsCoherent (on_deadline s).state
  unfolding on_deadline
  on_deadline-IsCoherent = ground arith

  on_cancel_requested-IsCoherent : (by : CancelBy) → IsCoherent (on_cancel_requested s by).state
  unfolding on_cancel_requested
  on_cancel_requested-IsCoherent by = ground arith

  pub on_compensation_done-IsCoherent : (id : ℕ) → IsCoherent (on_compensation_done s id).state
  unfolding on_compensation_done
  on_compensation_done-IsCoherent id = ground arith

  on_late_authorization_context-IsCoherent :
      (o : Option OrderStatus) → IsCoherent (on_late_authorization_context s o).state
  unfolding on_late_authorization_context
  on_late_authorization_context-IsCoherent o = ground arith

pub react-IsCoherent :
    (x : Expected) (s : CheckoutSagaState) (event : Event)
    → IsCoherent s
    → IsCoherent (react x s event).state
unfolding react
react-IsCoherent x s (Event.try_result o) h = on_try_result-IsCoherent s h o
react-IsCoherent x s (Event.payment_authorized a) h = on_authorized-IsCoherent s h a x
react-IsCoherent x s (Event.authorization_verified a v) h =
    on_authorization_verified-IsCoherent s h a v
react-IsCoherent x s (Event.commit_result o) h = on_commit_result-IsCoherent s h o
react-IsCoherent x s (Event.capture_result o) h = on_capture_result-IsCoherent s h o
react-IsCoherent x s Event.deadline h = on_deadline-IsCoherent s h
react-IsCoherent x s (Event.cancel_requested by) h = elim (Bool-cases (can_cancel s)) [
  | inl allowed ↦ rw allowed (on_cancel_requested-IsCoherent s h by)
  | inr refused ↦ rw refused (unfold noop in h)
]
react-IsCoherent x s (Event.compensation_done id) h = on_compensation_done-IsCoherent s h id
react-IsCoherent x s (Event.late_authorization_context o) h =
    on_late_authorization_context-IsCoherent s h o

pub initial-IsCoherent : (mode : CheckoutSagaMode) → IsCoherent (initial_checkout_saga_state mode)
unfolding initial_checkout_saga_state
initial-IsCoherent CheckoutSagaMode.checkout = ground arith
initial-IsCoherent CheckoutSagaMode.late_authorization = ground arith

-- Whatever happens in whatever order, in either mode: the order status is the one that belongs to
-- the step (a late authorization of a paid order is never compensated), and compensations are
-- pending only while compensating (there is at least one then, except in a late-authorization run
-- that has not read its order yet).
pub run-IsCoherent :
    (x : Expected) (mode : CheckoutSagaMode) (events : List Event)
    → IsCoherent (run x mode events).state
unfolding run
run-IsCoherent x mode events =
    run_from_induction (λ t. IsCoherent t.state) x (λ t event h. react-IsCoherent x t.state event h)
      (record { state = initial_checkout_saga_state mode; commands = [] }) events
      (initial-IsCoherent mode)
