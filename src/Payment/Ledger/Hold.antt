-- ===== src/Payment/Ledger/Hold.antt =====
-- `apply` of .../payment/application/use-cases/record-authorization.use-case.ts, which records a hold,
-- among the other transactions.
use jcool_ecommerce_backend.Base.{
  ℕ, ◌≡◌, refl, sym, ap, subst, ◌∙◌, Bool, true, false, ◌&&◌, Option, none, some, [], ◌∷◌, find,
  ◌⊎◌, inl, inr, Text, text_eq, text_eq_iff, ℤ, eq_ℤ, if◌then◌else◌, arith, pos, negsuc,
}
use jcool_ecommerce_backend.Payment.Status.{PaymentStatus}
use jcool_ecommerce_backend.Payment.Fence.{PaymentOrderStatus}
use jcool_ecommerce_backend.Payment.Authorization.{
  Header, HeldCharge, decide_authorization, AuthorizationDecision, charge_matches,
}
use jcool_ecommerce_backend.Payment.Entity.{Payment, Result, ok, err, PaymentError, mark_authorized}
use jcool_ecommerce_backend.Payment.Store.{
  Db, Tx, AuthorizedRecord, pure, throw, lift, feed, ◌>>=◌, committed, update_over, put,
  update_header, update_status, append, same_id,
}
use jcool_ecommerce_backend.Payment.Record.{
  PreparedAuthorization, AuthorizationOutcome, apply, apply_decision, write_authorization,
}
use jcool_ecommerce_backend.Payment.Ledger.{told, on_header, Agrees}
use jcool_ecommerce_backend.Payment.Ledger.Quiet.{Quiet, Quietly}

-- The rows agree after a transaction, whether it commits or rolls back.
unfoldable pub Kept : {A : Type 0} → Result (A × Db) → Type 0
Kept (ok (outcome, after)) = Agrees after
Kept (err e) = Unit {0}

pub quiet-Kept :
    {A : Type 0} (before : Db) (r : Result (A × Db)) → Agrees before → Quietly before r → Kept r
unfolding Kept Agrees Quietly Quiet
quiet-Kept before (err e) h q = tt
quiet-Kept before (ok (outcome, after)) h (same, marks, shut) =
    λ o. ap (told o) same ∙ h o ∙ sym (marks o)

pub Kept-committed :
    {A : Type 0} (before : Db) (r : Result (A × Db))
    → Agrees before
    → Kept r
    → Agrees (committed before r)
unfolding Kept
Kept-committed before (ok (outcome, after)) h k = k
Kept-committed before (err e) h k = h

eq_ℤ_sound : (a b : ℤ) → eq_ℤ a b ≡ true → a ≡ b
eq_ℤ_sound (pos a) (pos b) h = ground arith
eq_ℤ_sound (pos a) (negsuc b) h = ground arith
eq_ℤ_sound (negsuc a) (pos b) h = ground arith
eq_ℤ_sound (negsuc a) (negsuc b) h = ground arith

held_amount :
    (x : Option ℤ) (a : ℤ) (b : Bool)
    → (elim x as (λ _. Bool) [ none ↦ false | some held ↦ eq_ℤ held a ]) && b ≡ true
    → x ≡ some a
held_amount none a b h = ground arith
held_amount (some held) a b h = ap some (eq_ℤ_sound held a (ground arith))

charge_matches_amount :
    (amount : Option ℤ) (currency : Option Text) (hold : HeldCharge)
    → charge_matches amount currency hold ≡ true
    → hold.amount_minor ≡ amount
unfolding charge_matches
charge_matches_amount none currency hold h = ground arith
charge_matches_amount (some a) none hold h = ground arith
charge_matches_amount (some a) (some c) hold h = held_amount hold.amount_minor a _ h

IsRecording : AuthorizationDecision → Type 0
IsRecording d = d ≡ AuthorizationDecision.record_hold ⊎ d ≡ AuthorizationDecision.record_late

-- A hold is recorded only on a header that has none, of the payment's amount.
decided_record :
    (payment : Payment) (header : Header) (hold : HeldCharge)
    → IsRecording (decide_authorization payment header hold)
    → (header.authorized_at ≡ none) × (header.amount_minor ≡ some payment.amount_minor)
unfolding decide_authorization IsRecording
decided_record payment header hold h =
    let on_header = charge_matches_amount header.amount_minor header.currency hold in
    let on_payment =
      charge_matches_amount (some payment.amount_minor) (some payment.currency) hold in
    (ground arith, ground arith)

on_header_fresh : (header : Header) → header.authorized_at ≡ none → on_header (some header) ≡ []
unfolding on_header
on_header_fresh header h = ground arith

written_told :
    (before : Db) (o asked : Text) (header written : Header) (r : AuthorizedRecord)
    → Agrees before
    → before.headers o ≡ some header
    → header.authorized_at ≡ none
    → r.order_id ≡ o
    → on_header (some written) ≡ some r.amount_minor ∷ []
    → told asked (r ∷ before.outbox) ≡ on_header (put o written before.headers asked)
unfolding told Agrees
written_told before o asked header written r agrees p fresh q w =
    let untold : (told o before.outbox ≡ []) =
      agrees o ∙ ap on_header p ∙ on_header_fresh header fresh in
    let other = agrees asked in
    let same = (λ (e : asked ≡ o). ap (λ t. told t before.outbox) e) in
    ground (arith, text_eq_iff asked o, text_eq_iff r.order_id asked)

appended_Kept :
    (o : Text) (header : Header) (status : Option PaymentOrderStatus) (at : ℕ)
    (r : AuthorizedRecord) (db : Db)
    → Agrees db
    → db.headers o ≡ some header
    → header.authorized_at ≡ none
    → header.amount_minor ≡ some r.amount_minor
    → r.order_id ≡ o
    → Kept (feed (update_over (some header) o status (some at) db) (λ _. append r))
unfolding Kept Agrees update_over on_header
appended_Kept o header status at r db agrees p fresh amount q =
    λ asked. written_told db o asked header _ r agrees p fresh q (ap (λ a. a ∷ []) amount)

abbrev rows_of : {A : Type 0} → Result (A × Db) → Db → Db
rows_of (ok (a, db)) kept = db
rows_of (err e) kept = kept

abbrev pub authorized_record : PreparedAuthorization → ℕ → Payment → AuthorizedRecord
authorized_record prepared id payment = record {
  id = id;
  payment_id = prepared.payment_id;
  order_id = prepared.order_id;
  amount_minor = payment.amount_minor;
  currency = payment.currency;
  authorized_at = prepared.authorized_at;
}

lifted_Kept :
    {A B : Type 0} (r : Result A) (f : A → Tx B) (db : Db)
    → ((a : A) → Kept (f a db))
    → Kept ((lift r >>= f) db)
unfolding Kept
lifted_Kept (ok a) f db h = h a
lifted_Kept (err e) f db h = tt

then_Kept : {A B : Type 0} (r : Result (A × Db)) (b : B) → Kept r → Kept (feed r (λ _. pure b))
unfolding Kept
then_Kept (ok (a, db)) b h = h
then_Kept (err e) b h = tt

write_authorization-Kept :
    (prepared : PreparedAuthorization) (id : ℕ) (payment : Payment) (header : Header)
    (status : Option PaymentOrderStatus) (db : Db)
    → Agrees db
    → db.headers prepared.order_id ≡ some header
    → header.authorized_at ≡ none
    → header.amount_minor ≡ some payment.amount_minor
    → Kept (write_authorization prepared id payment status db)
unfolding write_authorization update_status update_header Agrees
write_authorization-Kept prepared id payment header status db agrees p fresh amount =
    lifted_Kept (mark_authorized payment prepared.hold.intent_id) _ db (λ authorized.
      let updated =
        rows_of
          (update_status prepared.payment_id authorized.status authorized.provider_intent_id
            (some PaymentStatus.pending) db)
          db in
      subst
        (λ found. Kept (
          feed (update_over found prepared.order_id status (some prepared.authorized_at) updated)
            (λ _. append (authorized_record prepared id payment))))
        (sym p)
        (appended_Kept prepared.order_id header status prepared.authorized_at
          (authorized_record prepared id payment) updated agrees p fresh amount refl))

if_Kept :
    {A : Type 0} (b : Bool) (m k : Tx A) (db : Db)
    → Kept (m db)
    → Kept (k db)
    → Kept ((if b then m else k) db)
if_Kept true m k db hm hk = hm
if_Kept false m k db hm hk = hk

found_Kept :
    {A B : Type 0} (x : Option A) (m : Tx B) (k : A → Tx B) (db : Db)
    → Kept (m db)
    → ((a : A) → x ≡ some a → Kept (k a db))
    → Kept ((elim x as (λ _. Tx B) [ none ↦ m | some a ↦ k a ]) db)
found_Kept none m k db hm hk = hm
found_Kept (some a) m k db hm hk = hk a refl

thrown_Kept : (A : Type 0) (e : PaymentError) (db : Db) → Kept (throw {A = A} e db)
unfolding Kept
thrown_Kept A e db = tt

apply_decision-Kept :
    (prepared : PreparedAuthorization) (payment : Payment) (header : Header)
    (d : AuthorizationDecision) (db : Db)
    → Agrees db
    → db.headers prepared.order_id ≡ some header
    → (IsRecording d
        → (header.authorized_at ≡ none) × (header.amount_minor ≡ some payment.amount_minor))
    → Kept (apply_decision prepared payment d db)
unfolding apply_decision Kept IsRecording
apply_decision-Kept prepared payment header AuthorizationDecision.already_recorded db agrees p h =
    agrees
apply_decision-Kept prepared payment header AuthorizationDecision.amount_mismatch db agrees p h =
    agrees
apply_decision-Kept prepared payment header AuthorizationDecision.stray db agrees p h =
    if_Kept prepared.stray_voided (pure AuthorizationOutcome.stray_voided)
      (throw PaymentError.webhook_retry_later) db agrees tt
apply_decision-Kept prepared payment header AuthorizationDecision.record_hold db agrees p h =
    found_Kept prepared.outbox_id _ _ db tt (λ id _.
      then_Kept (write_authorization prepared id payment (some PaymentOrderStatus.authorized) db)
        AuthorizationOutcome.recorded
        (write_authorization-Kept prepared id payment header (some PaymentOrderStatus.authorized) db
          agrees p (h (inl refl)).0 (h (inl refl)).1))
apply_decision-Kept prepared payment header AuthorizationDecision.record_late db agrees p h =
    found_Kept prepared.outbox_id _ _ db tt (λ id _.
      then_Kept (write_authorization prepared id payment none db) AuthorizationOutcome.recorded_late
        (write_authorization-Kept prepared id payment header none db agrees p (h (inr refl)).0
          (h (inr refl)).1))

pub apply-Kept : (prepared : PreparedAuthorization) (db : Db) → Agrees db → Kept (apply prepared db)
unfolding apply
apply-Kept prepared db agrees =
    found_Kept (db.headers prepared.order_id) _ _ db (thrown_Kept _ _ db) (λ header p.
      found_Kept
        (find (λ row. text_eq row.provider_session_id prepared.provider_session_id) db.payments) _ _
        db (thrown_Kept _ _ db)
        (λ payment _.
          if_Kept (same_id payment.id prepared.payment_id)
            (apply_decision prepared payment (decide_authorization payment header prepared.hold))
            (throw PaymentError.invariant_broken) db
            (apply_decision-Kept prepared payment header
              (decide_authorization payment header prepared.hold) db agrees p
              (decided_record payment header prepared.hold))
            (thrown_Kept _ _ db)))
