-- ===== src/Payment/Capture.antt =====
-- capture-payment.use-case.ts of .../payment/application/use-cases.
use jcool_ecommerce_backend.Base.{Option, none, some, Text, is_empty, if◌then◌else◌}
use jcool_ecommerce_backend.Payment.Status.{PaymentStatus, status_eq}
use jcool_ecommerce_backend.Payment.Fence.{PaymentOrderStatus, CaptureDecision, decide_capture}
use jcool_ecommerce_backend.Payment.Authorization.{Header}
use jcool_ecommerce_backend.Payment.Entity.{
  Payment, Result, ok, err, PaymentError, mark_failed, mark_captured,
}
use jcool_ecommerce_backend.Payment.Store.{
  Db, Tx, pure, throw, lift, ◌>>=◌, ◌>>◌, find_for_update, update_header, find_by_order_id,
  find_by_provider_session_id, update_status,
}
use jcool_ecommerce_backend.Payment.Gateway.{
  CaptureIntentResult, IntentOp, IntentKey, Reply, with_intent_key,
}

-- `CaptureOutcome` of payment-participant.port.ts.
pub data CaptureOutcome : Type 0 where
  captured idempotent not_capturable conflict : CaptureOutcome

unfoldable pub settle_gone : Payment → Payment → Tx CaptureOutcome
unfolding update_status update_header
settle_gone read payment = do
  (if status_eq payment.status PaymentStatus.authorized
      then (do
        failed ← lift (mark_failed payment none)
        update_status read.id failed.status none none)
      else pure none)
  update_header read.order_id (some PaymentOrderStatus.cancelled) none
  pure CaptureOutcome.not_capturable

unfoldable pub settle_captured : Payment → Payment → Tx CaptureOutcome
unfolding update_status update_header mark_captured status_eq
settle_captured read payment =
    if status_eq payment.status PaymentStatus.succeeded
    then pure CaptureOutcome.idempotent
    else if status_eq payment.status PaymentStatus.authorized
    then (do
      done ← lift (mark_captured payment)
      update_status read.id done.status none none
      update_header read.order_id (some PaymentOrderStatus.captured) none
      pure CaptureOutcome.captured)
    else throw PaymentError.invariant_broken

unfoldable pub settle_found : Payment → Payment → CaptureIntentResult → Tx CaptureOutcome
unfolding settle_gone settle_captured
settle_found read payment (CaptureIntentResult.not_capturable _) = settle_gone read payment
settle_found read payment CaptureIntentResult.captured = settle_captured read payment

-- The transaction after the provider answered.
unfoldable pub settle : Payment → CaptureIntentResult → Tx CaptureOutcome
unfolding settle_found
settle read result = do
  header ← find_for_update read.order_id
  found ← find_by_provider_session_id read.provider_session_id
  elim header [
    | none ↦ throw PaymentError.invariant_broken
    | some _ ↦ elim found [
      | none ↦ throw PaymentError.invariant_broken
      | some payment ↦ settle_found read payment result
    ]
  ]

-- The payment a capture is asked of, with its intent.
unfoldable pub capturable : Option Payment → Result (Payment × Text)
unfolding status_eq
capturable none = err PaymentError.invariant_broken
capturable (some payment) =
    if status_eq payment.status PaymentStatus.authorized
    then elim payment.provider_intent_id [
      | none ↦ err PaymentError.invariant_broken
      | some intent_id ↦
          if is_empty intent_id then err PaymentError.invariant_broken else ok (payment, intent_id)
    ]
    else err PaymentError.invariant_broken

abbrev finished : Db → Result (CaptureOutcome × Db) → Result CaptureOutcome × Db
finished before (ok (outcome, db)) = (ok outcome, db)
finished before (err e) = (err e, before)

unfoldable pub settle_reply :
    (Db → Db) → Payment → Result CaptureIntentResult × Db → Result CaptureOutcome × Db
unfolding settle
settle_reply meanwhile payment (err e, db) = (err e, meanwhile db)
settle_reply meanwhile payment (ok result, db) =
    finished (meanwhile db) (settle payment result (meanwhile db))

unfoldable pub capture_hold :
    (Text → IntentKey → Reply CaptureIntentResult)
    → (Db → Db)
    → Result (Payment × Text)
    → Db
    → Result CaptureOutcome × Db
unfolding settle_reply with_intent_key
capture_hold capture_intent meanwhile (err e) db = (err e, db)
capture_hold capture_intent meanwhile (ok (payment, intent_id)) db =
    settle_reply meanwhile payment
      (with_intent_key payment IntentOp.capture (capture_intent intent_id) db)

abbrev status_of : Option Header → Option PaymentOrderStatus
status_of none = none
status_of (some header) = some header.status

-- `execute`; `meanwhile` is what other transactions commit while the provider is called.
unfoldable pub capture :
    (Text → IntentKey → Reply CaptureIntentResult)
    → (Db → Db)
    → Text
    → Db
    → Result CaptureOutcome × Db
unfolding decide_capture capturable capture_hold
capture capture_intent meanwhile order_id db =
    elim (decide_capture (status_of (db.headers order_id))) [
      | CaptureDecision.idempotent ↦ (ok CaptureOutcome.idempotent, db)
      | CaptureDecision.not_capturable ↦ (ok CaptureOutcome.not_capturable, db)
      | CaptureDecision.conflict ↦ (ok CaptureOutcome.conflict, db)
      | CaptureDecision.capture ↦
          capture_hold capture_intent meanwhile
            (elim (find_by_order_id order_id db) [ ok found ↦ capturable found.0 | err e ↦ err e ])
            db
    ]
