-- ===== src/Payment/Cancel.antt =====
-- cancel-payment.use-case.ts of .../payment/application/use-cases.
pub mod Closed
use jcool_ecommerce_backend.Base.{Bool, true, false, Option, none, some, Text, [], if◌then◌else◌}
use jcool_ecommerce_backend.Payment.Status.{PaymentStatus, status_eq}
use jcool_ecommerce_backend.Payment.Fence.{PaymentOrderStatus, CancelDecision, decide_cancel}
use jcool_ecommerce_backend.Payment.Authorization.{Header}
use jcool_ecommerce_backend.Payment.Entity.{Payment, Result, ok, err, PaymentError}
use jcool_ecommerce_backend.Payment.Store.{
  Db, Tx, pure, throw, ◌>>=◌, ◌>>◌, insert_fenced, find_for_update, update_header,
  find_active_by_order_id_for_update, find_by_provider_session_id, update_status,
}
use jcool_ecommerce_backend.Payment.Gateway.{
  SessionAuthorization, IntentStatus, ExpireSessionOutcome, VoidIntentOutcome, IntentOp, IntentKey,
  Reply, answer, fault, with_intent_key,
}

-- `CancelOutcome` of payment-participant.port.ts.
pub data CancelOutcome : Type 0 where
  cancelled fenced idempotent captured_conflict : CancelOutcome

-- `Released`: where the gateway left the attempt.
pub data Released : Type 0 where
  expired : Released
  voided : Option Text → Released
  captured : Released

pub record Flipped : Type 0 where
  pub outcome : CancelOutcome
  pub attempt : Option Payment

abbrev pub is_releasable : PaymentStatus → Bool
is_releasable PaymentStatus.pending = true
is_releasable PaymentStatus.authorized = true
is_releasable _ = false

abbrev pub releasable : Option Payment → Option Payment
releasable none = none
releasable (some active) = if is_releasable active.status then some active else none

-- The header under its lock, and whether this call inserted it.
unfoldable pub locked_or_fenced : Text → Tx (Header × Bool)
unfolding insert_fenced
locked_or_fenced order_id = do
  header ← find_for_update order_id
  elim header [
    | some header ↦ pure (header, false)
    | none ↦ do
      inserted ← insert_fenced order_id
      header ← find_for_update order_id
      elim header [
        | none ↦ throw PaymentError.invariant_broken
        | some header ↦ pure (header, inserted)
      ]
  ]

unfoldable pub attempt_of : Text → CancelOutcome → Tx Flipped
attempt_of order_id outcome = do
  active ← find_active_by_order_id_for_update order_id
  pure (record { outcome = outcome; attempt = releasable active })

-- The first transaction.
unfoldable pub flip : Text → Tx Flipped
unfolding locked_or_fenced decide_cancel update_header attempt_of
flip order_id = do
  locked ← locked_or_fenced order_id
  elim (decide_cancel (some (locked.0).status)) [
    | CancelDecision.captured_conflict ↦
        pure (record { outcome = CancelOutcome.captured_conflict; attempt = none })
    | CancelDecision.cancel ↦ do
      update_header order_id (some PaymentOrderStatus.cancelled) none
      attempt_of order_id CancelOutcome.cancelled
    | CancelDecision.fence ↦
        attempt_of order_id (if locked.1 then CancelOutcome.fenced else CancelOutcome.idempotent)
    | CancelDecision.rescan ↦
        attempt_of order_id (if locked.1 then CancelOutcome.fenced else CancelOutcome.idempotent)
  ]

-- What the second transaction writes for the attempt it found under the lock.
unfoldable pub record_found : Payment → Released → Payment → Tx Bool
unfolding update_status update_header
record_found attempt Released.expired payment = do
  update_status payment.id PaymentStatus.expired none (some PaymentStatus.pending)
  pure false
record_found attempt (Released.voided intent_id) payment =
    if is_releasable payment.status
    then (do
      update_status payment.id PaymentStatus.voided intent_id (some payment.status)
      pure false)
    else pure false
record_found attempt Released.captured payment = do
  (if is_releasable payment.status
      then update_status payment.id PaymentStatus.succeeded none (some payment.status)
      else pure none)
  update_header attempt.order_id (some PaymentOrderStatus.captured) none
  pure true

-- The second transaction: whether the money turned out to be captured.
unfoldable pub record_release : Payment → Released → Tx Bool
unfolding record_found
record_release attempt released = do
  find_for_update attempt.order_id
  found ← find_by_provider_session_id attempt.provider_session_id
  elim found [
    | none ↦ throw PaymentError.invariant_broken
    | some payment ↦ record_found attempt released payment
  ]

-- The provider's calls that a cancel makes.
pub record ReleaseGateway : Type 0 where
  pub expire_session : Text → Reply ExpireSessionOutcome
  pub retrieve_authorization : Text → Reply SessionAuthorization
  pub void_intent : Text → IntentKey → Reply VoidIntentOutcome

-- An id that the source takes to be there by a cast.
abbrev text_of : Option Text → Text
text_of none = []
text_of (some t) = t

abbrev released_by : Text → VoidIntentOutcome → Released
released_by intent_id VoidIntentOutcome.already_captured = Released.captured
released_by intent_id _ = Released.voided (some intent_id)

abbrev released_reply : Text → Result VoidIntentOutcome → Result Released
released_reply intent_id (ok outcome) = ok (released_by intent_id outcome)
released_reply intent_id (err e) = err e

-- `voidHold`
unfoldable pub void_hold : ReleaseGateway → Payment → Text → Db → Result Released × Db
unfolding with_intent_key
void_hold gateway attempt intent_id db =
    let (reply, db') = with_intent_key attempt IntentOp.void (gateway.void_intent intent_id) db in
    (released_reply intent_id reply, db')

-- What the intent of a completed session says.
unfoldable pub release_completed :
    ReleaseGateway → Payment → SessionAuthorization → Db → Result Released × Db
unfolding void_hold
release_completed gateway attempt authorization db = elim authorization.intent_status [
  | none ↦ (err PaymentError.invariant_broken, db)
  | some status ↦ elim status [
    | IntentStatus.requires_capture ↦ void_hold gateway attempt (text_of authorization.intent_id) db
    | IntentStatus.canceled ↦ (ok (Released.voided authorization.intent_id), db)
    | IntentStatus.succeeded ↦ (ok Released.captured, db)
    | IntentStatus.processing ↦ (err PaymentError.invariant_broken, db)
    | IntentStatus.requires_payment_method ↦ (err PaymentError.invariant_broken, db)
    | IntentStatus.other ↦ (err PaymentError.invariant_broken, db)
  ]
]

-- `release` of an attempt that is not authorized: its session is closed first.
unfoldable pub release_session : ReleaseGateway → Payment → Db → Result Released × Db
unfolding release_completed
release_session gateway attempt db = elim (gateway.expire_session attempt.provider_session_id) [
  | fault _ ↦ (err PaymentError.gateway_fault, db)
  | answer outcome ↦ elim outcome [
    | ExpireSessionOutcome.expired ↦ (ok Released.expired, db)
    | ExpireSessionOutcome.already_closed ↦ (ok Released.expired, db)
    | ExpireSessionOutcome.already_completed ↦
        elim (gateway.retrieve_authorization attempt.provider_session_id) [
          | fault _ ↦ (err PaymentError.gateway_fault, db)
          | answer authorization ↦ release_completed gateway attempt authorization db
        ]
  ]
]

-- No transaction is open here.
unfoldable pub release : ReleaseGateway → Payment → Db → Result Released × Db
unfolding void_hold release_session status_eq
release gateway attempt db =
    if status_eq attempt.status PaymentStatus.authorized
    then void_hold gateway attempt (text_of attempt.provider_intent_id) db
    else release_session gateway attempt db

abbrev conclude : CancelOutcome → Result (Bool × Db) → Db → Result CancelOutcome × Db
conclude outcome (err e) before = (err e, before)
conclude outcome (ok (true, db)) before = (ok CancelOutcome.captured_conflict, db)
conclude outcome (ok (false, db)) before = (ok outcome, db)

unfoldable pub settle_release :
    (Db → Db) → CancelOutcome → Payment → Result Released × Db → Result CancelOutcome × Db
unfolding record_release
settle_release meanwhile outcome attempt (err e, db) = (err e, meanwhile db)
settle_release meanwhile outcome attempt (ok released, db) =
    conclude outcome (record_release attempt released (meanwhile db)) (meanwhile db)

unfoldable pub after_flip :
    ReleaseGateway → (Db → Db) → Result (Flipped × Db) → Db → Result CancelOutcome × Db
unfolding release settle_release
after_flip gateway meanwhile (err e) before = (err e, before)
after_flip gateway meanwhile (ok (flipped, db)) before = elim flipped.attempt [
  | none ↦ (ok flipped.outcome, db)
  | some attempt ↦ settle_release meanwhile flipped.outcome attempt (release gateway attempt db)
]

-- `execute`; `meanwhile` is what other transactions commit while the provider is called.
unfoldable pub cancel : ReleaseGateway → (Db → Db) → Text → Db → Result CancelOutcome × Db
unfolding flip after_flip
cancel gateway meanwhile order_id db = after_flip gateway meanwhile (flip order_id db) db
