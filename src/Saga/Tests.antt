-- ===== src/Saga/Tests.antt =====
-- The laws of a saga run at a concrete run.
use jcool_ecommerce_backend.Base.{◌≡◌, refl, inl, List, [], ◌∷◌, codes, map}
use jcool_ecommerce_backend.Saga.{
  CheckoutSagaMode, CheckoutStep, Expected, ReserveOutcome, PaymentAuthorization,
  AuthorizationVerdict, CommitOutcome, SettledCaptureOutcome, Transition,
  initial_checkout_saga_state, on_try_result, on_authorized, on_authorization_verified,
  on_commit_result, on_capture_result, compensate, issue, change_order, ignored, noop,
  compensation_reason_for_try,
}
use jcool_ecommerce_backend.Saga.Run.{Event, run, run_from, react}
use jcool_ecommerce_backend.Saga.Run.Coherence.{IsCoherent, run-IsCoherent}
use jcool_ecommerce_backend.Saga.Run.Tally.{Issued, tally, run-Issued}
use jcool_ecommerce_backend.Saga.Run.Settle.{Covers, IsUnwinding, run_from-compensated}

abbrev expected : Expected
expected = record { total_minor = 6500; currency = codes "USD" }

abbrev paid_in_full : PaymentAuthorization
paid_in_full = record {
  payment_id = 55;
  amount_minor = 6500;
  currency = codes "usd";
  authorized_at = 200;
}

-- The capture fails after the stock was committed.
abbrev lost_hold : List Event
lost_hold =
    Event.try_result ReserveOutcome.held
    ∷ Event.payment_authorized paid_in_full
    ∷ Event.authorization_verified paid_in_full AuthorizationVerdict.verified
    ∷ Event.commit_result CommitOutcome.applied
    ∷ Event.capture_result SettledCaptureOutcome.not_capturable
    ∷ []

run-Issued_example :
    let t = run expected CheckoutSagaMode.checkout lost_hold in
    Issued t.state.step (tally t.commands)
run-Issued_example = run-Issued expected lost_hold

run-IsCoherent_example : IsCoherent (run expected CheckoutSagaMode.checkout lost_hold).state
run-IsCoherent_example = run-IsCoherent expected CheckoutSagaMode.checkout lost_hold

-- The same run as a transition, its ids written out.
abbrev unwinding : Transition
unwinding = run expected CheckoutSagaMode.checkout lost_hold

lost_hold-IsUnwinding : IsUnwinding unwinding.state
unfolding run run_from react initial_checkout_saga_state on_try_result on_authorized
    on_authorization_verified on_commit_result on_capture_result compensate issue change_order
    ignored noop compensation_reason_for_try
lost_hold-IsUnwinding = (inl refl, λ e. cc)

unwinding_covered : Covers (0 ∷ 1 ∷ 2 ∷ 3 ∷ 4 ∷ 5 ∷ []) unwinding.state.pending
unfolding run run_from react initial_checkout_saga_state on_try_result on_authorized
    on_authorization_verified on_commit_result on_capture_result compensate issue change_order
    ignored noop compensation_reason_for_try
unwinding_covered = (refl, (refl, tt))

run_from-compensated_example :
    (run_from expected unwinding
      (map Event.compensation_done (0 ∷ 1 ∷ 2 ∷ 3 ∷ 4 ∷ 5 ∷ []))).state.step
    ≡ CheckoutStep.compensated
run_from-compensated_example =
    run_from-compensated expected unwinding (0 ∷ 1 ∷ 2 ∷ 3 ∷ 4 ∷ 5 ∷ [])
      (run-IsCoherent expected CheckoutSagaMode.checkout lost_hold) lost_hold-IsUnwinding
      unwinding_covered
