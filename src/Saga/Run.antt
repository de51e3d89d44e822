-- ===== src/Saga/Run.antt =====
-- What the workflow feeds to the transitions: the handlers and activity results of
-- checkout-saga.workflow.ts (apps/order-service/.../infrastructure/temporal/workflows), in any order.
pub mod Coherence
pub mod Tally
pub mod Settle
use jcool_ecommerce_backend.Base.{ℕ, Option, List, [], ◌∷◌, ◌++◌, if◌then◌else◌}
use jcool_ecommerce_backend.Order.Status.{OrderStatus}
use jcool_ecommerce_backend.Saga.{
  CheckoutSagaMode, CheckoutSagaState, Transition, AuthorizationTransition, PaymentAuthorization,
  Expected, ReserveOutcome, AuthorizationVerdict, CommitOutcome, SettledCaptureOutcome, CancelBy,
  SagaCommand, initial_checkout_saga_state, noop, can_cancel, on_try_result, on_authorized,
  on_authorization_verified, on_commit_result, on_capture_result, on_deadline, on_cancel_requested,
  on_compensation_done, on_late_authorization_context,
}

pub data Event : Type 0 where
  try_result : ReserveOutcome → Event
  payment_authorized : PaymentAuthorization → Event
  authorization_verified : PaymentAuthorization → AuthorizationVerdict → Event
  commit_result : CommitOutcome → Event
  capture_result : SettledCaptureOutcome → Event
  deadline : Event
  cancel_requested : CancelBy → Event
  compensation_done : ℕ → Event
  late_authorization_context : Option OrderStatus → Event

abbrev without_reason : AuthorizationTransition → Transition
without_reason t = record { state = t.state; commands = t.commands }

-- One `apply`. The cancel update's validator refuses before its handler runs.
unfoldable pub react : Expected → CheckoutSagaState → Event → Transition
react expected state (Event.try_result outcome) = on_try_result state outcome
react expected state (Event.payment_authorized authorization) =
    without_reason (on_authorized state authorization expected)
react expected state (Event.authorization_verified authorization verdict) =
    without_reason (on_authorization_verified state authorization verdict)
react expected state (Event.commit_result outcome) = on_commit_result state outcome
react expected state (Event.capture_result outcome) = on_capture_result state outcome
react expected state Event.deadline = on_deadline state
react expected state (Event.cancel_requested by) =
    if can_cancel state then on_cancel_requested state by else noop state
react expected state (Event.compensation_done id) = on_compensation_done state id
react expected state (Event.late_authorization_context status) =
    on_late_authorization_context state status

-- The state and every command issued so far, oldest first.
unfoldable pub run_from : Expected → Transition → List Event → Transition
run_from expected t [] = t
run_from expected t (event ∷ events) =
    let next = react expected t.state event in
    run_from expected (record { state = next.state; commands = t.commands ++ next.commands }) events

unfoldable pub run : Expected → CheckoutSagaMode → List Event → Transition
unfolding run_from
run expected mode events =
    run_from expected (record { state = initial_checkout_saga_state mode; commands = [] }) events

-- An invariant of the state and the commands holds after any events.
module _ (P : Transition → Type 0) (expected : Expected)
    (keep : (t : Transition) (event : Event)
      → P t
      → let next = react expected t.state event in
        P (record { state = next.state; commands = t.commands ++ next.commands })) where
  pub run_from_induction :
      (t : Transition) (events : List Event) → P t → P (run_from expected t events)
  unfolding run_from
  run_from_induction t [] h = h
  run_from_induction t (event ∷ events) h =
      let next = react expected t.state event in
      run_from_induction (record { state = next.state; commands = t.commands ++ next.commands })
        events (keep t event h)
