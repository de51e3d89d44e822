-- ===== src/Payment/Record.antt =====
-- record-authorization.use-case.ts of .../payment/application/use-cases.
use jcool_ecommerce_backend.Base.{
  ℕ, Bool, true, false, not, ◌||◌, is_empty, Option, none, some, Text, if◌then◌else◌,
}
use jcool_ecommerce_backend.Payment.Status.{PaymentStatus}
use jcool_ecommerce_backend.Payment.Fence.{PaymentOrderStatus}
use jcool_ecommerce_backend.Payment.Authorization.{
  HeldCharge, AuthorizationDecision, decide_authorization,
}
use jcool_ecommerce_backend.Payment.Entity.{Payment, Result, ok, err, PaymentError, mark_authorized}
use jcool_ecommerce_backend.Payment.Store.{
  Db, Tx, pure, throw, lift, ◌>>=◌, ◌>>◌, find_for_update, update_header, append, same_id,
  find_by_provider_session_id, update_status,
}
use jcool_ecommerce_backend.Payment.Gateway.{
  SessionAuthorization, SessionStatus, IntentStatus, VoidIntentOutcome, IntentOp, IntentKey, Reply,
  with_intent_key,
}

pub data AuthorizationOutcome : Type 0 where
  recorded recorded_late already_recorded amount_mismatch stray_voided : AuthorizationOutcome

pub record PreparedAuthorization : Type 0 where
  pub payment_id : Option ℕ
  pub order_id : Text
  pub provider_session_id : Text
  pub hold : HeldCharge
  pub authorized_at : ℕ
  pub stray_voided : Bool
  pub outbox_id : Option ℕ

abbrev is_complete : SessionStatus → Bool
is_complete SessionStatus.complete = true
is_complete _ = false

abbrev is_held : Option IntentStatus → Bool
is_held (some IntentStatus.requires_capture) = true
is_held _ = false

-- `heldCharge`
unfoldable pub held_charge : SessionAuthorization → Option HeldCharge
held_charge authorization =
    if not (is_complete authorization.session_status) || not (is_held authorization.intent_status)
    then none
    else elim authorization.intent_id [
      | none ↦ none
      | some intent_id ↦
          if is_empty intent_id
          then none
          else some (record {
            intent_id = intent_id;
            amount_minor = authorization.amount_capturable_minor;
            currency = authorization.currency;
          })
    ]

-- The writes of `apply` once a hold is to be recorded.
unfoldable pub write_authorization :
    PreparedAuthorization → ℕ → Payment → Option PaymentOrderStatus → Tx (Unit {0})
unfolding update_status update_header
write_authorization prepared outbox_id payment header_status = do
  authorized ← lift (mark_authorized payment (prepared.hold).intent_id)
  update_status prepared.payment_id authorized.status authorized.provider_intent_id
      (some PaymentStatus.pending)
  update_header prepared.order_id header_status (some prepared.authorized_at)
  append (record {
    id = outbox_id;
    payment_id = prepared.payment_id;
    order_id = prepared.order_id;
    amount_minor = payment.amount_minor;
    currency = payment.currency;
    authorized_at = prepared.authorized_at;
  })

-- What `apply` does on the locked rows.
unfoldable pub apply_decision :
    PreparedAuthorization → Payment → AuthorizationDecision → Tx AuthorizationOutcome
unfolding write_authorization
apply_decision prepared payment AuthorizationDecision.already_recorded =
    pure AuthorizationOutcome.already_recorded
apply_decision prepared payment AuthorizationDecision.amount_mismatch =
    pure AuthorizationOutcome.amount_mismatch
apply_decision prepared payment AuthorizationDecision.stray =
    if prepared.stray_voided
    then pure AuthorizationOutcome.stray_voided
    else throw PaymentError.webhook_retry_later
apply_decision prepared payment AuthorizationDecision.record_hold = elim prepared.outbox_id [
  | none ↦ throw PaymentError.webhook_retry_later
  | some id ↦
      write_authorization prepared id payment (some PaymentOrderStatus.authorized)
      >> pure AuthorizationOutcome.recorded
]
apply_decision prepared payment AuthorizationDecision.record_late = elim prepared.outbox_id [
  | none ↦ throw PaymentError.webhook_retry_later
  | some id ↦
      write_authorization prepared id payment none >> pure AuthorizationOutcome.recorded_late
]

-- `apply`, in the caller's transaction.
unfoldable pub apply : PreparedAuthorization → Tx AuthorizationOutcome
unfolding decide_authorization apply_decision
apply prepared = do
  header ← find_for_update prepared.order_id
  found ← find_by_provider_session_id prepared.provider_session_id
  elim header [
    | none ↦ throw PaymentError.invariant_broken
    | some header ↦ elim found [
      | none ↦ throw PaymentError.invariant_broken
      | some payment ↦
          if same_id payment.id prepared.payment_id
          then apply_decision prepared payment (decide_authorization payment header prepared.hold)
          else throw PaymentError.invariant_broken
    ]
  ]

abbrev prepared_for : Payment → HeldCharge → ℕ → Bool → Option ℕ → PreparedAuthorization
prepared_for payment hold authorized_at done outbox_id = record {
  payment_id = payment.id;
  order_id = payment.order_id;
  provider_session_id = payment.provider_session_id;
  hold = hold;
  authorized_at = authorized_at;
  stray_voided = done;
  outbox_id = outbox_id;
}

abbrev voided_stray :
    PreparedAuthorization → Result VoidIntentOutcome × Db → Result PreparedAuthorization × Db
voided_stray prepared (ok _, db) = (ok prepared, db)
voided_stray prepared (err e, db) = (err e, db)

unfoldable pub prepare_decision :
    (Text → IntentKey → Reply VoidIntentOutcome)
    → Result ℕ
    → Payment
    → HeldCharge
    → ℕ
    → AuthorizationDecision
    → Db
    → Result PreparedAuthorization × Db
unfolding with_intent_key
prepare_decision void_intent minted payment hold authorized_at decision db =
    let minting : Result PreparedAuthorization × Db = elim minted [
      | ok id ↦ (ok (prepared_for payment hold authorized_at false (some id)), db)
      | err e ↦ (err e, db)
    ] in
    elim decision [
      | AuthorizationDecision.stray ↦
          voided_stray (prepared_for payment hold authorized_at true none)
            (with_intent_key payment IntentOp.void (void_intent hold.intent_id) db)
      | AuthorizationDecision.record_hold ↦ minting
      | AuthorizationDecision.record_late ↦ minting
      | AuthorizationDecision.already_recorded ↦
          (ok (prepared_for payment hold authorized_at false none), db)
      | AuthorizationDecision.amount_mismatch ↦
          (ok (prepared_for payment hold authorized_at false none), db)
    ]

-- `prepare`, with no transaction open; `minted` is what the id service would answer.
unfoldable pub prepare :
    (Text → IntentKey → Reply VoidIntentOutcome)
    → Result ℕ
    → Payment
    → HeldCharge
    → ℕ
    → Db
    → Result PreparedAuthorization × Db
unfolding decide_authorization prepare_decision
prepare void_intent minted read hold authorized_at db = elim (db.headers read.order_id) [
  | none ↦ (err PaymentError.invariant_broken, db)
  | some header ↦ elim (find_by_provider_session_id read.provider_session_id db) [
    | err e ↦ (err e, db)
    | ok found ↦ elim found.0 [
      | none ↦ (err PaymentError.invariant_broken, db)
      | some payment ↦
          if same_id payment.id read.id
          then prepare_decision void_intent minted payment hold authorized_at
              (decide_authorization payment header hold) db
          else (err PaymentError.invariant_broken, db)
    ]
  ]
]
