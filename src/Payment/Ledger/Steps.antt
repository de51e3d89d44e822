-- ===== src/Payment/Ledger/Steps.antt =====
-- Which transactions of .../payment/application/use-cases leave the record of a hold alone.
use jcool_ecommerce_backend.Base.{
  ℕ, refl, true, false, Option, none, some, find, Text, text_eq, ℤ, if◌then◌else◌,
}
use jcool_ecommerce_backend.Payment.Status.{PaymentStatus, status_eq}
use jcool_ecommerce_backend.Payment.Fence.{PaymentOrderStatus, CancelDecision, decide_cancel}
use jcool_ecommerce_backend.Payment.Entity.{
  Payment, Result, ok, err, PaymentError, mark_authorized, mark_failed, mark_captured,
}
use jcool_ecommerce_backend.Payment.Entity
use jcool_ecommerce_backend.Payment.Store.{
  Tx, pure, lift, ◌>>=◌, ◌>>◌, insert_open, insert_fenced, update_header, update_status,
  create_payment, is_active_of,
}
use jcool_ecommerce_backend.Payment.Gateway.{CaptureIntentResult}
use jcool_ecommerce_backend.Payment.Cancel.{
  CancelOutcome, releasable, is_releasable, Released, Flipped, flip, record_found, record_release,
  locked_or_fenced, attempt_of,
}
use jcool_ecommerce_backend.Payment.Capture.{
  CaptureOutcome, settle, settle_found, settle_gone, settle_captured,
}
use jcool_ecommerce_backend.Payment.Open.{claim, insert_if_still_open, insert_payment}
use jcool_ecommerce_backend.Payment.Ledger.Quiet.{
  quiet_feed, IsQuiet-bind, IsQuiet-if, IsQuiet-lift, insert-IsQuiet, update_header-IsQuiet,
  update_status-IsQuiet, Quietly-err, create_payment-IsQuiet, pure-IsQuiet, quiet_found, IsQuiet,
}

insert_payment-IsQuiet :
    (o : Text) (amount : ℤ) (currency provider session : Text) (id : ℕ)
    → IsQuiet (insert_payment o amount currency provider session id)
unfolding insert_payment
insert_payment-IsQuiet o amount currency provider session id db =
    quiet_feed db (lift (Entity.create o provider session amount currency none) db) _
      (IsQuiet-lift (Entity.create o provider session amount currency none) db)
      (λ p db'.
        quiet_feed db' (create_payment p id db') _ (create_payment-IsQuiet p id db')
          (λ created. pure-IsQuiet (some created)))

locked_or_fenced-IsQuiet : (o : Text) → IsQuiet (locked_or_fenced o)
unfolding locked_or_fenced insert_fenced
locked_or_fenced-IsQuiet o db =
    quiet_found (db.headers o) _ _ db
      (quiet_feed db (insert_fenced o db) _ (insert-IsQuiet o _ refl db) (λ inserted db'.
        quiet_found (db'.headers o) _ _ db' (Quietly-err _ db' _)
          (λ header. pure-IsQuiet (header, inserted) db')))
      (λ header. pure-IsQuiet (header, false) db)

attempt_of-IsQuiet : (o : Text) (outcome : CancelOutcome) → IsQuiet (attempt_of o outcome)
unfolding attempt_of
attempt_of-IsQuiet o outcome db =
    pure-IsQuiet
      (record { outcome = outcome; attempt = releasable (find (is_active_of o) db.payments) }) db

IsQuiet-decided :
    (d : CancelDecision) (a b c e : Tx Flipped)
    → IsQuiet a
    → IsQuiet b
    → IsQuiet c
    → IsQuiet e
    → IsQuiet (elim d as (λ _. Tx Flipped) [
      | CancelDecision.fence ↦ a
      | CancelDecision.cancel ↦ b
      | CancelDecision.rescan ↦ c
      | CancelDecision.captured_conflict ↦ e
    ])
IsQuiet-decided CancelDecision.fence a b c e ha hb hc he = ha
IsQuiet-decided CancelDecision.cancel a b c e ha hb hc he = hb
IsQuiet-decided CancelDecision.rescan a b c e ha hb hc he = hc
IsQuiet-decided CancelDecision.captured_conflict a b c e ha hb hc he = he

pub flip-IsQuiet : (o : Text) → IsQuiet (flip o)
unfolding flip
flip-IsQuiet o db =
    quiet_feed db (locked_or_fenced o db) _ (locked_or_fenced-IsQuiet o db) (λ locked.
      IsQuiet-decided (decide_cancel (some locked.0.status)) _ _ _ _ (attempt_of-IsQuiet o _)
        (λ db'.
          quiet_feed db' (update_header o (some PaymentOrderStatus.cancelled) none db') _
            (update_header-IsQuiet o _ refl db') (λ _. attempt_of-IsQuiet o _))
        (attempt_of-IsQuiet o _) (pure-IsQuiet _))

pub claim-IsQuiet : (o : Text) (amount : ℤ) (currency : Text) → IsQuiet (claim o amount currency)
unfolding claim insert_open
claim-IsQuiet o amount currency db =
    quiet_feed db (insert_open o amount currency db) _ (insert-IsQuiet o _ refl db) (λ _ db'.
      quiet_found (db'.headers o) _ _ db' (pure-IsQuiet none db')
        (λ header. IsQuiet-if _ _ _ (pure-IsQuiet none) (λ db''. pure-IsQuiet (some _) db'') db'))

pub insert_if_still_open-IsQuiet :
    (o : Text) (amount : ℤ) (currency provider session : Text) (id : ℕ) (retiring : Option Payment)
    → IsQuiet (insert_if_still_open o amount currency provider session id retiring)
unfolding insert_if_still_open
insert_if_still_open-IsQuiet o amount currency provider session id retiring db =
    let inserting = insert_payment-IsQuiet o amount currency provider session id in
    quiet_found (db.headers o) _ _ db (pure-IsQuiet none db) (λ header.
      IsQuiet-if _ _ _ (pure-IsQuiet none)
        (λ db'. quiet_found (find (is_active_of o) db'.payments) _ _ db' (inserting db') (λ active.
          IsQuiet-if _ _ _ (pure-IsQuiet none)
            (λ db''.
              quiet_feed db''
                (update_status active.id PaymentStatus.expired none (some PaymentStatus.pending)
                  db'')
                _
                (update_status-IsQuiet active.id PaymentStatus.expired none
                  (some PaymentStatus.pending) db'')
                (λ retired db3.
                  quiet_found retired (pure none)
                    (λ _. insert_payment o amount currency provider session id) db3
                    (pure-IsQuiet none db3) (λ _. inserting db3)))
            db'))
        db)

IsQuiet-then : {A B : Type 0} (m : Tx A) (b : B) → IsQuiet m → IsQuiet (m >> pure b)
IsQuiet-then m b h db = quiet_feed db (m db) _ (h db) (λ _. pure-IsQuiet b)

released-IsQuiet :
    (attempt payment : Payment) (released : Released)
    → IsQuiet (record_found attempt released payment)
unfolding record_found
released-IsQuiet attempt payment Released.expired =
    IsQuiet-then (update_status payment.id PaymentStatus.expired none (some PaymentStatus.pending))
      false
      (update_status-IsQuiet payment.id PaymentStatus.expired none (some PaymentStatus.pending))
released-IsQuiet attempt payment (Released.voided intent) =
    IsQuiet-if (is_releasable payment.status) _ _
      (IsQuiet-then (update_status payment.id PaymentStatus.voided intent (some payment.status))
        false (update_status-IsQuiet payment.id PaymentStatus.voided intent (some payment.status)))
      (pure-IsQuiet false)
released-IsQuiet attempt payment Released.captured =
    IsQuiet-bind
      (if is_releasable payment.status
        then update_status payment.id PaymentStatus.succeeded none (some payment.status)
        else pure none)
      (λ _. update_header attempt.order_id (some PaymentOrderStatus.captured) none >> pure true)
      (IsQuiet-if (is_releasable payment.status) _ _
        (update_status-IsQuiet payment.id PaymentStatus.succeeded none (some payment.status))
        (pure-IsQuiet none))
      (λ _.
        IsQuiet-then (update_header attempt.order_id (some PaymentOrderStatus.captured) none) true
          (update_header-IsQuiet attempt.order_id (some PaymentOrderStatus.captured) refl))

pub record_release-IsQuiet :
    (attempt : Payment) (released : Released) → IsQuiet (record_release attempt released)
unfolding record_release
record_release-IsQuiet attempt released db =
    quiet_found (find (λ p. text_eq p.provider_session_id attempt.provider_session_id) db.payments)
      _ _ db (Quietly-err _ db _) (λ payment. released-IsQuiet attempt payment released db)

settle_gone-IsQuiet : (read payment : Payment) → IsQuiet (settle_gone read payment)
unfolding settle_gone
settle_gone-IsQuiet read payment =
    IsQuiet-bind
      (if status_eq payment.status PaymentStatus.authorized
        then (lift (mark_failed payment none) >>= λ failed.
            update_status read.id failed.status none none)
        else pure none)
      (λ _.
        update_header read.order_id (some PaymentOrderStatus.cancelled) none
        >> pure CaptureOutcome.not_capturable)
      (IsQuiet-if (status_eq payment.status PaymentStatus.authorized) _ _
        (IsQuiet-bind (lift (mark_failed payment none))
          (λ failed. update_status read.id failed.status none none)
          (IsQuiet-lift (mark_failed payment none))
          (λ failed. update_status-IsQuiet read.id failed.status none none))
        (pure-IsQuiet none))
      (λ _.
        IsQuiet-then (update_header read.order_id (some PaymentOrderStatus.cancelled) none)
          CaptureOutcome.not_capturable
          (update_header-IsQuiet read.order_id (some PaymentOrderStatus.cancelled) refl))

settle_captured-IsQuiet : (read payment : Payment) → IsQuiet (settle_captured read payment)
unfolding settle_captured
settle_captured-IsQuiet read payment =
    IsQuiet-if (status_eq payment.status PaymentStatus.succeeded) _ _
      (pure-IsQuiet CaptureOutcome.idempotent)
      (IsQuiet-if (status_eq payment.status PaymentStatus.authorized) _ _
        (IsQuiet-bind (lift (mark_captured payment))
          (λ done.
            update_status read.id done.status none none
            >> (update_header read.order_id (some PaymentOrderStatus.captured) none
                >> pure CaptureOutcome.captured))
          (IsQuiet-lift (mark_captured payment))
          (λ done.
            IsQuiet-bind (update_status read.id done.status none none)
              (λ _.
                update_header read.order_id (some PaymentOrderStatus.captured) none
                >> pure CaptureOutcome.captured)
              (update_status-IsQuiet read.id done.status none none)
              (λ _.
                IsQuiet-then (update_header read.order_id (some PaymentOrderStatus.captured) none)
                  CaptureOutcome.captured
                  (update_header-IsQuiet read.order_id (some PaymentOrderStatus.captured) refl))))
        (λ db. Quietly-err CaptureOutcome db PaymentError.invariant_broken))

settle_found-IsQuiet :
    (read payment : Payment) (result : CaptureIntentResult)
    → IsQuiet (settle_found read payment result)
unfolding settle_found
settle_found-IsQuiet read payment CaptureIntentResult.captured =
    settle_captured-IsQuiet read payment
settle_found-IsQuiet read payment (CaptureIntentResult.not_capturable _) =
    settle_gone-IsQuiet read payment

pub settle-IsQuiet : (read : Payment) (result : CaptureIntentResult) → IsQuiet (settle read result)
unfolding settle
settle-IsQuiet read result db =
    quiet_found (db.headers read.order_id) _ _ db (Quietly-err _ db _) (λ header.
      quiet_found (find (λ p. text_eq p.provider_session_id read.provider_session_id) db.payments) _
        _ db (Quietly-err _ db _) (λ payment. settle_found-IsQuiet read payment result db))
