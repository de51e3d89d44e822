-- ===== src/Payment/Ledger/Shut.antt =====
-- No transaction of .../payment/application/use-cases sets a header back to `opened`.
use jcool_ecommerce_backend.Base.{
  ℕ, ◌≡◌, refl, ap, sym, ◌∙◌, Bool, true, false, Option, none, some, List, [], ◌∷◌, find, Text,
  text_eq, if◌then◌else◌,
}
use jcool_ecommerce_backend.Payment.Status.{PaymentStatus}
use jcool_ecommerce_backend.Payment.Fence.{PaymentOrderStatus}
use jcool_ecommerce_backend.Payment.Authorization.{
  Header, AuthorizationDecision, decide_authorization,
}
use jcool_ecommerce_backend.Payment.Entity.{Payment, Result, ok, err, PaymentError, mark_authorized}
use jcool_ecommerce_backend.Payment.Store.{
  Db, Tx, patched_option, lift, feed, ◌>>◌, committed, update_over, update_header, update_status,
  append, same_id, AuthorizedRecord, throw, pure,
}
use jcool_ecommerce_backend.Payment.Record.{
  PreparedAuthorization, AuthorizationOutcome, apply, apply_decision, write_authorization,
}
use jcool_ecommerce_backend.Payment.Ledger.{Step, play_step, play, is_shut}
use jcool_ecommerce_backend.Payment.Ledger.Hold.{authorized_record}
use jcool_ecommerce_backend.Payment.Ledger.Quiet.{
  Quiet, Quietly, is_shutting, is_shut-put, is_shut-update, increment_key_gen-IsQuiet,
  update_status-IsQuiet, IsQuiet-lift,
}
use jcool_ecommerce_backend.Payment.Ledger.Steps.{
  flip-IsQuiet, claim-IsQuiet, insert_if_still_open-IsQuiet, record_release-IsQuiet, settle-IsQuiet,
}

-- Whatever header was shut is shut after a transaction that commits.
unfoldable pub StaysShut : {A : Type 0} → Text → Db → Result (A × Db) → Type 0
StaysShut order_id before (ok (a, after)) =
    is_shut (before.headers order_id) ≡ true → is_shut (after.headers order_id) ≡ true
StaysShut order_id before (err e) = Unit {0}

module _ (order_id : Text) where
  quiet-StaysShut :
      {A : Type 0} (db : Db) (r : Result (A × Db)) → Quietly db r → StaysShut order_id db r
  unfolding StaysShut Quietly Quiet
  quiet-StaysShut db (ok (a, after)) q = q.2 order_id
  quiet-StaysShut db (err e) q = tt

  feed-StaysShut :
      {A B : Type 0} (db : Db) (r : Result (A × Db)) (f : A → Tx B)
      → StaysShut order_id db r
      → ((a : A) (db' : Db) → StaysShut order_id db' (f a db'))
      → StaysShut order_id db (feed r f)
  unfolding StaysShut
  feed-StaysShut db (err e) f q h = tt
  feed-StaysShut db (ok (a, db')) f q h = then_shut db' (f a db') q (h a db')
    where
      then_shut :
          {B : Type 0} (db' : Db) (r : Result (B × Db))
          → (is_shut (db.headers order_id) ≡ true → is_shut (db'.headers order_id) ≡ true)
          → StaysShut order_id db' r
          → StaysShut order_id db r
      then_shut db' (ok (b, after)) first later = λ shut. later (first shut)
      then_shut db' (err e) first later = tt

  update_over-StaysShut :
      (found : Option Header) (o : Text) (status : Option PaymentOrderStatus)
      (authorized_at : Option ℕ) (db : Db)
      → db.headers o ≡ found
      → is_shutting status ≡ true
      → StaysShut order_id db (update_over found o status authorized_at db)
  unfolding StaysShut update_over
  update_over-StaysShut none o status authorized_at db p shutting = λ shut. shut
  update_over-StaysShut (some header) o status authorized_at db p shutting =
      is_shut-put db.headers o order_id _ (λ shut.
        is_shut-update header status (patched_option authorized_at header.authorized_at) shutting
          (sym (ap is_shut p) ∙ shut))

  append-StaysShut : (r : AuthorizedRecord) (db : Db) → StaysShut order_id db (append r db)
  unfolding StaysShut
  append-StaysShut r db = λ shut. shut

  -- The header's new status is `authorized`, or it keeps the one that it has.
  write_authorization-StaysShut :
      (prepared : PreparedAuthorization) (id : ℕ) (payment : Payment)
      (status : Option PaymentOrderStatus) (db : Db)
      → is_shutting status ≡ true
      → StaysShut order_id db (write_authorization prepared id payment status db)
  unfolding write_authorization update_header
  write_authorization-StaysShut prepared id payment status db shutting =
      feed-StaysShut db (lift (mark_authorized payment prepared.hold.intent_id) db) _
        (quiet-StaysShut db _ (IsQuiet-lift (mark_authorized payment prepared.hold.intent_id) db))
        (λ authorized db1.
          feed-StaysShut db1
            (update_status prepared.payment_id authorized.status authorized.provider_intent_id
              (some PaymentStatus.pending) db1)
            _
            (quiet-StaysShut db1 _ (
              update_status-IsQuiet prepared.payment_id authorized.status
                authorized.provider_intent_id (some PaymentStatus.pending) db1))
            (λ _ db2.
              feed-StaysShut db2
                (update_header prepared.order_id status (some prepared.authorized_at) db2) _
                (update_over-StaysShut (db2.headers prepared.order_id) prepared.order_id status
                  (some prepared.authorized_at) db2 refl shutting)
                (λ _ db3. append-StaysShut (authorized_record prepared id payment) db3)))

  thrown-StaysShut :
      (A : Type 0) (db : Db) (e : PaymentError) → StaysShut {A = A} order_id db (err e)
  unfolding StaysShut
  thrown-StaysShut A db e = tt

  pure-StaysShut : {A : Type 0} (a : A) (db : Db) → StaysShut order_id db (pure a db)
  unfolding StaysShut
  pure-StaysShut a db = λ shut. shut

  recorded-StaysShut :
      (prepared : PreparedAuthorization) (payment : Payment) (minted : Option ℕ)
      (status : Option PaymentOrderStatus) (outcome : AuthorizationOutcome) (db : Db)
      → is_shutting status ≡ true
      → StaysShut order_id db (
          (elim minted as (λ _. Tx AuthorizationOutcome) [
            | none ↦ throw PaymentError.webhook_retry_later
            | some id ↦ write_authorization prepared id payment status >> pure outcome
          ])
            db)
  recorded-StaysShut prepared payment none status outcome db shutting = thrown-StaysShut _ db _
  recorded-StaysShut prepared payment (some id) status outcome db shutting =
      feed-StaysShut db (write_authorization prepared id payment status db) _
        (write_authorization-StaysShut prepared id payment status db shutting)
        (λ _ db'. pure-StaysShut outcome db')

  if-StaysShut :
      {A : Type 0} (b : Bool) (m k : Tx A) (db : Db)
      → StaysShut order_id db (m db)
      → StaysShut order_id db (k db)
      → StaysShut order_id db ((if b then m else k) db)
  if-StaysShut true m k db hm hk = hm
  if-StaysShut false m k db hm hk = hk

  found-StaysShut :
      {A B : Type 0} (x : Option A) (m : Tx B) (k : A → Tx B) (db : Db)
      → StaysShut order_id db (m db)
      → ((a : A) → StaysShut order_id db (k a db))
      → StaysShut order_id db ((elim x as (λ _. Tx B) [ none ↦ m | some a ↦ k a ]) db)
  found-StaysShut none m k db hm hk = hm
  found-StaysShut (some a) m k db hm hk = hk a

  apply_decision-StaysShut :
      (prepared : PreparedAuthorization) (payment : Payment) (d : AuthorizationDecision) (db : Db)
      → StaysShut order_id db (apply_decision prepared payment d db)
  unfolding apply_decision
  apply_decision-StaysShut prepared payment AuthorizationDecision.already_recorded db =
      pure-StaysShut _ db
  apply_decision-StaysShut prepared payment AuthorizationDecision.amount_mismatch db =
      pure-StaysShut _ db
  apply_decision-StaysShut prepared payment AuthorizationDecision.stray db =
      if-StaysShut prepared.stray_voided _ _ db (pure-StaysShut _ db) (thrown-StaysShut _ db _)
  apply_decision-StaysShut prepared payment AuthorizationDecision.record_hold db =
      recorded-StaysShut prepared payment prepared.outbox_id (some PaymentOrderStatus.authorized)
        AuthorizationOutcome.recorded db refl
  apply_decision-StaysShut prepared payment AuthorizationDecision.record_late db =
      recorded-StaysShut prepared payment prepared.outbox_id none AuthorizationOutcome.recorded_late
        db refl

  apply-StaysShut :
      (prepared : PreparedAuthorization) (db : Db) → StaysShut order_id db (apply prepared db)
  unfolding apply
  apply-StaysShut prepared db =
      found-StaysShut (db.headers prepared.order_id) _ _ db (thrown-StaysShut _ db _) (λ header.
        found-StaysShut
          (find (λ row. text_eq row.provider_session_id prepared.provider_session_id) db.payments) _
          _ db (thrown-StaysShut _ db _)
          (λ payment.
            if-StaysShut (same_id payment.id prepared.payment_id) _ _ db
              (apply_decision-StaysShut prepared payment
                (decide_authorization payment header prepared.hold) db)
              (thrown-StaysShut _ db _)))

  committed-shut :
      {A : Type 0} (db : Db) (r : Result (A × Db))
      → StaysShut order_id db r
      → is_shut (db.headers order_id) ≡ true
      → is_shut ((committed db r).headers order_id) ≡ true
  unfolding StaysShut
  committed-shut db (ok (a, after)) kept shut = kept shut
  committed-shut db (err e) kept shut = shut

  play_step-shut :
      (step : Step) (db : Db)
      → is_shut (db.headers order_id) ≡ true
      → is_shut ((play_step step db).headers order_id) ≡ true
  unfolding play_step
  play_step-shut (Step.claim_step o amount currency) db =
      committed-shut db _ (quiet-StaysShut db _ (claim-IsQuiet o amount currency db))
  play_step-shut (Step.insert_step o amount currency provider session id retiring) db =
      committed-shut db _ (
        quiet-StaysShut db _
          (insert_if_still_open-IsQuiet o amount currency provider session id retiring db))
  play_step-shut (Step.flip_step o) db =
      committed-shut db _ (quiet-StaysShut db _ (flip-IsQuiet o db))
  play_step-shut (Step.release_step attempt released) db =
      committed-shut db _ (quiet-StaysShut db _ (record_release-IsQuiet attempt released db))
  play_step-shut (Step.settle_step read result) db =
      committed-shut db _ (quiet-StaysShut db _ (settle-IsQuiet read result db))
  play_step-shut (Step.apply_step prepared) db = committed-shut db _ (apply-StaysShut prepared db)
  play_step-shut (Step.key_gen_step id gen) db =
      committed-shut db _ (quiet-StaysShut db _ (increment_key_gen-IsQuiet id gen db))

  pub play-shut :
      (steps : List Step) (db : Db)
      → is_shut (db.headers order_id) ≡ true
      → is_shut ((play steps db).headers order_id) ≡ true
  unfolding play
  play-shut [] db shut = shut
  play-shut (step ∷ steps) db shut =
      play-shut steps (play_step step db) (play_step-shut step db shut)
