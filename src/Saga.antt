-- ===== src/Saga.antt =====
-- The checkout saga's pure transitions: checkout-saga.ts of
-- apps/order-service/src/modules/order/domain. `Types` has its types, this file its functions.
mod Tests
mod Types
pub mod Run
pub use Types.*
use jcool_ecommerce_backend.Base.{
  ℕ, ◌+◌, ◌-◌, Bool, true, false, not, ◌||◌, Option, none, some, List, [], ◌∷◌, ◌++◌, map, length,
  any, filter, contains, Text, codes, text_eq, to_lower, ltb, ◌==◌, if◌then◌else◌,
}
use mathlib.Core.Option
use jcool_ecommerce_backend.Order.Status.{OrderStatus}

unfoldable pub initial_checkout_saga_state : CheckoutSagaMode → CheckoutSagaState
initial_checkout_saga_state mode = record {
  mode = mode;
  step = elim mode [
    | CheckoutSagaMode.checkout ↦ CheckoutStep.reserving
    | CheckoutSagaMode.late_authorization ↦ CheckoutStep.compensating
  ];
  order_status = elim mode [
    | CheckoutSagaMode.checkout ↦ some OrderStatus.reserving
    | CheckoutSagaMode.late_authorization ↦ none
  ];
  try_outcome = none;
  authorization = none;
  verifying = [];
  voided = [];
  pending = [];
  next_command_id = 1;
}

-- `remaining > 0` of started + timeout - now; `none` is the plan to abandon.
unfoldable pub plan_try : ℕ → ℕ → ℕ → Option ℕ
plan_try started_at try_timeout_ms now_ms =
    if ltb now_ms (started_at + try_timeout_ms)
    then some (started_at + try_timeout_ms - now_ms)
    else none

unfoldable pub to_reserve_outcome : ParticipantTryOutcome → ReserveOutcome
to_reserve_outcome ParticipantTryOutcome.reserved = ReserveOutcome.held
to_reserve_outcome ParticipantTryOutcome.out_of_stock = ReserveOutcome.out_of_stock
to_reserve_outcome ParticipantTryOutcome.contended = ReserveOutcome.contended
to_reserve_outcome ParticipantTryOutcome.conflict = ReserveOutcome.conflict

-- The source's type leaves `HELD` out; here it falls under `default`.
unfoldable pub compensation_reason_for_try : ReserveOutcome → CompensationReason
compensation_reason_for_try ReserveOutcome.timeout = CompensationReason.try_timeout
compensation_reason_for_try ReserveOutcome.error = CompensationReason.try_timeout
compensation_reason_for_try ReserveOutcome.abandoned = CompensationReason.abandoned
compensation_reason_for_try _ = CompensationReason.try_failed

unfoldable pub finalize_reason_of : CompensationReason → Text
unfolding reason_name
finalize_reason_of reason = codes "saga:" ++ to_lower (codes (reason_name reason))

unfoldable pub change_order : OrderStatus → OrderStatus → Option Text → OrderChangeCommand
change_order from to reason = record {
  from = from ∷ [];
  to = to;
  reason = reason;
  payment_ref = none;
}

unfoldable pub noop : CheckoutSagaState → Transition
noop state = record { state = state; commands = [] }

unfoldable pub ignored :
    CheckoutSagaState → Option AuthorizationIgnoredReason → AuthorizationTransition
ignored state reason = record { state = state; commands = []; ignored = reason }

-- The `map` of `compensate`, with `nextCommandId++` as its accumulator.
unfoldable pub issue : ℕ → List (CompensationType × CompensationReason) → List CompensationCommand
issue next_id [] = []
issue next_id ((kind, reason) ∷ rest) =
    record { kind = kind; id = next_id; reason = reason } ∷ issue (next_id + 1) rest

unfoldable pub compensate :
    CheckoutSagaState → List SagaCommand → List (CompensationType × CompensationReason) → Transition
unfolding issue
compensate state first compensations =
    let issued = issue state.next_command_id compensations in
    record {
      state = record state {
        step = CheckoutStep.compensating;
        pending = state.pending ++ issued;
        next_command_id = state.next_command_id + length compensations;
      };
      commands = first ++ map SagaCommand.compensation issued;
    }

refused_try : CheckoutSagaState → ReserveOutcome → Transition
unfolding compensate compensation_reason_for_try
refused_try state outcome =
    compensate
      (record state { order_status = some OrderStatus.rejected; try_outcome = some outcome }) []
      ((CompensationType.release_stock, compensation_reason_for_try outcome) ∷ [])

abbrev is_held : ReserveOutcome → Bool
is_held ReserveOutcome.held = true
is_held _ = false

unfoldable pub on_try_result : CheckoutSagaState → ReserveOutcome → Transition
unfolding noop refused_try
on_try_result state outcome = elim state.step [
  | CheckoutStep.reserving ↦
      if is_held outcome
      then record {
        state = record state {
          step = CheckoutStep.awaiting_auth;
          order_status = some OrderStatus.pending;
          try_outcome = some outcome;
        };
        commands = [];
      }
      else refused_try state outcome
  | _ ↦ noop state
]

-- `lateAuthorization` that has not read its order yet.
abbrev is_unread_late_run : CheckoutSagaState → Bool
is_unread_late_run state = elim state.mode [
  | CheckoutSagaMode.late_authorization ↦ elim state.order_status [ none ↦ true | some _ ↦ false ]
  | CheckoutSagaMode.checkout ↦ false
]

late_authorized : CheckoutSagaState → ℕ → AuthorizationTransition
unfolding ignored compensate
late_authorized state payment_id =
    let seen = record state { voided = state.voided ++ payment_id ∷ [] } in
    let t =
      compensate seen []
        ((CompensationType.cancel_payment, CompensationReason.late_authorization) ∷ []) in
    if contains payment_id state.voided
    then ignored state none
    else if is_unread_late_run state
    then ignored seen none
    else record { state = t.state; commands = t.commands; ignored = none }

unfoldable pub on_authorized :
    CheckoutSagaState → PaymentAuthorization → Expected → AuthorizationTransition
unfolding ignored late_authorized
on_authorized state authorization expected = elim state.step [
  | CheckoutStep.compensating ↦ late_authorized state authorization.payment_id
  | CheckoutStep.compensated ↦ late_authorized state authorization.payment_id
  | CheckoutStep.awaiting_auth ↦
      if not (authorization.amount_minor == expected.total_minor)
        || not (text_eq authorization.currency expected.currency)
      then ignored state (some AuthorizationIgnoredReason.amount_mismatch)
      else if contains authorization.payment_id state.verifying
      then ignored state none
      else record {
        state = record state { verifying = state.verifying ++ authorization.payment_id ∷ [] };
        commands = SagaCommand.verify_authorization authorization ∷ [];
        ignored = none;
      }
  | _ ↦ ignored state none
]

unfoldable pub on_authorization_verified :
    CheckoutSagaState → PaymentAuthorization → AuthorizationVerdict → AuthorizationTransition
unfolding ignored change_order
on_authorization_verified state authorization verdict =
    let settled = record state {
      verifying = filter (λ id. not (id == authorization.payment_id)) state.verifying;
    } in
    elim state.step [
      | CheckoutStep.awaiting_auth ↦ elim verdict [
        | AuthorizationVerdict.verified ↦ record {
          state = record settled {
            step = CheckoutStep.committing_stock;
            order_status = some OrderStatus.confirming;
            authorization = some authorization;
          };
          commands =
              SagaCommand.change_order
                (change_order OrderStatus.pending OrderStatus.confirming none)
              ∷ SagaCommand.commit_stock
              ∷ [];
          ignored = none;
        }
        | AuthorizationVerdict.not_authorized ↦
            ignored settled (some AuthorizationIgnoredReason.not_authorized)
        | AuthorizationVerdict.payment_mismatch ↦
            ignored settled (some AuthorizationIgnoredReason.payment_mismatch)
      ]
      | _ ↦ ignored state none
    ]

unfoldable pub on_commit_result : CheckoutSagaState → CommitOutcome → Transition
unfolding noop compensate change_order
on_commit_result state outcome = elim state.step [
  | CheckoutStep.committing_stock ↦ elim outcome [
    | CommitOutcome.conflict ↦
        compensate (record state { order_status = some OrderStatus.failed })
          (SagaCommand.change_order (
              change_order OrderStatus.confirming OrderStatus.failed
                (some (finalize_reason_of CompensationReason.commit_conflict)))
            ∷ [])
          ((CompensationType.cancel_payment, CompensationReason.commit_conflict) ∷ [])
    | _ ↦ record {
      state = record state { step = CheckoutStep.capturing };
      commands = SagaCommand.capture_payment ∷ [];
    }
  ]
  | _ ↦ noop state
]

unfoldable pub on_capture_result : CheckoutSagaState → SettledCaptureOutcome → Transition
unfolding noop compensate change_order
on_capture_result state outcome = elim state.step [
  | CheckoutStep.capturing ↦ elim outcome [
    | SettledCaptureOutcome.not_capturable ↦
        compensate (record state { order_status = some OrderStatus.failed })
          (SagaCommand.change_order (
              change_order OrderStatus.confirming OrderStatus.failed
                (some (finalize_reason_of CompensationReason.capture_failed)))
            ∷ [])
          ((CompensationType.restock, CompensationReason.capture_failed)
            ∷ (CompensationType.cancel_payment, CompensationReason.capture_failed)
            ∷ [])
    | _ ↦
        let paid =
          change_order OrderStatus.confirming OrderStatus.paid (some (codes "saga:captured")) in
        record {
          state = record state {
            step = CheckoutStep.completed;
            order_status = some OrderStatus.paid;
          };
          commands =
              SagaCommand.change_order
                (record paid { payment_ref = Option.map (λ a. a.payment_id) state.authorization })
              ∷ [];
        }
  ]
  | _ ↦ noop state
]

unfoldable pub on_deadline : CheckoutSagaState → Transition
unfolding noop compensate change_order
on_deadline state = elim state.step [
  | CheckoutStep.awaiting_auth ↦
      compensate (record state { order_status = some OrderStatus.expired })
        (SagaCommand.change_order (
            change_order OrderStatus.pending OrderStatus.expired
              (some (finalize_reason_of CompensationReason.expired)))
          ∷ [])
        ((CompensationType.release_stock, CompensationReason.expired)
          ∷ (CompensationType.cancel_payment, CompensationReason.expired)
          ∷ [])
  | _ ↦ noop state
]

unfoldable pub can_cancel : CheckoutSagaState → Bool
can_cancel state =
    elim state.step [ CheckoutStep.awaiting_auth ↦ true | _ ↦ false ]
    || elim state.order_status [ some OrderStatus.cancelled ↦ true | _ ↦ false ]

unfoldable pub on_cancel_requested : CheckoutSagaState → CancelBy → Transition
unfolding noop compensate change_order
on_cancel_requested state by = elim state.step [
  | CheckoutStep.awaiting_auth ↦
      let reason = elim by as (λ _. Text) [
        | CancelBy.buyer ↦ codes "user:cancel"
        | CancelBy.admin ↦ codes "admin:cancel"
      ] in
      compensate (record state { order_status = some OrderStatus.cancelled })
        (SagaCommand.change_order
            (change_order OrderStatus.pending OrderStatus.cancelled (some reason))
          ∷ [])
        ((CompensationType.release_stock, CompensationReason.cancelled)
          ∷ (CompensationType.cancel_payment, CompensationReason.cancelled)
          ∷ [])
  | _ ↦ noop state
]

unfoldable pub on_compensation_done : CheckoutSagaState → ℕ → Transition
unfolding noop
on_compensation_done state id =
    let pending = filter (λ c. not (c.id == id)) state.pending in
    let step = elim pending as (λ _. CheckoutStep) [
      | [] ↦ CheckoutStep.compensated
      | _ ↦ state.step
    ] in
    if any (λ c. c.id == id) state.pending
    then record { state = record state { pending = pending; step = step }; commands = [] }
    else noop state

-- `orderStatus ?? REJECTED`
abbrev known_status : Option OrderStatus → OrderStatus
known_status none = OrderStatus.rejected
known_status (some status) = status

unfoldable pub on_late_authorization_context : CheckoutSagaState → Option OrderStatus → Transition
unfolding noop compensate
on_late_authorization_context state order_status =
    let known = record state { order_status = some (known_status order_status) } in
    if is_unread_late_run state
    then elim order_status [
      | some OrderStatus.paid ↦ record {
        state = record known { step = CheckoutStep.completed };
        commands = [];
      }
      | _ ↦
          compensate known []
            ((CompensationType.cancel_payment, CompensationReason.late_authorization) ∷ [])
    ]
    else noop state
