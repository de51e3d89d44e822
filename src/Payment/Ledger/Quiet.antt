-- ===== src/Payment/Ledger/Quiet.antt =====
-- Steps on the rows of .../payment that leave what is recorded of holds alone and open no header again.
use jcool_ecommerce_backend.Base.{
  ℕ, ◌≡◌, refl, sym, ap, ◌∙◌, Bool, true, false, Option, none, some, List, Text, text_eq_iff,
  if◌then◌else◌, arith,
}
use jcool_ecommerce_backend.Payment.Status.{PaymentStatus}
use jcool_ecommerce_backend.Payment.Fence.{PaymentOrderStatus}
use jcool_ecommerce_backend.Payment.Authorization.{Header}
use jcool_ecommerce_backend.Payment.Entity.{Payment, Result, ok, err, PaymentError}
use jcool_ecommerce_backend.Payment.Store.{
  Db, Tx, pure, lift, feed, ◌>>=◌, increment_key_gen, insert, insert_over, update_over, put,
  patched, update_header, update_status, create_payment,
}
use jcool_ecommerce_backend.Payment.Ledger.{on_header, is_shut}

-- The outbox and what the headers say of holds are as they were, and a header that was shut still is.
unfoldable pub Quiet : Db → Db → Type 0
unfolding on_header is_shut
Quiet before after =
    (after.outbox ≡ before.outbox)
    × ((order_id : Text) → on_header (after.headers order_id) ≡ on_header (before.headers order_id))
    × ((order_id : Text)
        → is_shut (before.headers order_id) ≡ true
        → is_shut (after.headers order_id) ≡ true)

unfoldable pub Quietly : {A : Type 0} → Db → Result (A × Db) → Type 0
Quietly before (ok (a, after)) = Quiet before after
Quietly before (err e) = Unit {0}

abbrev pub IsQuiet : {A : Type 0} → Tx A → Type 0
IsQuiet m = (db : Db) → Quietly db (m db)

pub Quiet-refl : (db : Db) → Quiet db db
unfolding Quiet
Quiet-refl db = (refl, (λ order_id. refl), (λ order_id shut. shut))

pub Quiet-trans : (a b c : Db) → Quiet a b → Quiet b c → Quiet a c
unfolding Quiet
Quiet-trans a b c (p, f, k) (q, g, l) = (q ∙ p, (λ o. g o ∙ f o), (λ o shut. l o (k o shut)))

pub Quietly-trans :
    {A : Type 0} (a b : Db) (r : Result (A × Db)) → Quiet a b → Quietly b r → Quietly a r
unfolding Quietly
Quietly-trans a b (ok (x, c)) q h = Quiet-trans a b c q h
Quietly-trans a b (err e) q h = tt

pub quiet_feed :
    {A B : Type 0} (db : Db) (r : Result (A × Db)) (f : A → Tx B)
    → Quietly db r
    → ((a : A) → IsQuiet (f a))
    → Quietly db (feed r f)
unfolding Quietly
quiet_feed db (ok (a, db')) f q h = Quietly-trans db db' (f a db') q (h a db')
quiet_feed db (err e) f q h = tt

pub IsQuiet-bind :
    {A B : Type 0} (m : Tx A) (f : A → Tx B)
    → IsQuiet m
    → ((a : A) → IsQuiet (f a))
    → IsQuiet (m >>= f)
IsQuiet-bind m f hm hf db = quiet_feed db (m db) f (hm db) hf

pub Quietly-if :
    {A : Type 0} (b : Bool) (db : Db) (r s : Result (A × Db))
    → Quietly db r
    → Quietly db s
    → Quietly db (if b then r else s)
Quietly-if true db r s hr hs = hr
Quietly-if false db r s hr hs = hs

pub IsQuiet-if :
    {A : Type 0} (b : Bool) (m k : Tx A) → IsQuiet m → IsQuiet k → IsQuiet (if b then m else k)
IsQuiet-if true m k hm hk = hm
IsQuiet-if false m k hm hk = hk

pub IsQuiet-lift : {A : Type 0} (r : Result A) → IsQuiet (lift r)
unfolding Quietly
IsQuiet-lift (ok a) db = Quiet-refl db
IsQuiet-lift (err e) db = tt

on_header-put :
    (headers : Text → Option Header) (order_id asked : Text) (row : Header)
    → on_header (some row) ≡ on_header (headers order_id)
    → on_header (put order_id row headers asked) ≡ on_header (headers asked)
on_header-put headers order_id asked row h =
    ground (arith, text_eq_iff asked order_id, ap headers, ap on_header)

pub is_shut-put :
    (headers : Text → Option Header) (order_id asked : Text) (row : Header)
    → (is_shut (headers order_id) ≡ true → is_shut (some row) ≡ true)
    → is_shut (headers asked) ≡ true
    → is_shut (put order_id row headers asked) ≡ true
is_shut-put headers order_id asked row kept shut =
    let same = λ (e : asked ≡ order_id). ap (λ o. is_shut (headers o)) e in
    ground (arith, text_eq_iff asked order_id)

pub insert_over_quiet :
    (found : Option Header) (order_id : Text) (row : Header) (db : Db)
    → db.headers order_id ≡ found
    → row.authorized_at ≡ none
    → Quietly db (insert_over found order_id row db)
unfolding insert_over Quiet Quietly on_header is_shut
insert_over_quiet none order_id row db p h =
    let open_before = ap is_shut p in
    (
      refl,
      (λ asked. on_header-put db.headers order_id asked row (ground arith)),
      (λ asked. is_shut-put db.headers order_id asked row (λ shut. cc)),
    )
insert_over_quiet (some _) order_id row db p h = (refl, (λ asked. refl), (λ asked shut. shut))

pub insert-IsQuiet :
    (order_id : Text) (row : Header) → row.authorized_at ≡ none → IsQuiet (insert order_id row)
unfolding insert
insert-IsQuiet order_id row h db = insert_over_quiet (db.headers order_id) order_id row db refl h

-- A patch that does not set the status back to `opened`.
abbrev pub is_shutting : Option PaymentOrderStatus → Bool
is_shutting (some PaymentOrderStatus.opened) = false
is_shutting _ = true

pub is_shut-update :
    (header : Header) (status : Option PaymentOrderStatus) (authorized_at : Option ℕ)
    → is_shutting status ≡ true
    → is_shut (some header) ≡ true
    → is_shut (
        some
          (record header { status = patched status header.status; authorized_at = authorized_at }))
      ≡ true
unfolding is_shut
is_shut-update header none authorized_at shutting shut = shut
is_shut-update header (some status) authorized_at shutting shut = ground arith

pub update_over_quiet :
    (found : Option Header) (order_id : Text) (status : Option PaymentOrderStatus) (db : Db)
    → db.headers order_id ≡ found
    → is_shutting status ≡ true
    → Quietly db (update_over found order_id status none db)
unfolding update_over Quiet Quietly on_header
update_over_quiet none order_id status db p shutting = (refl, (λ asked. refl), (λ asked shut. shut))
update_over_quiet (some header) order_id status db p shutting = (
  refl,
  (λ asked. on_header-put db.headers order_id asked _ (ap on_header (sym p))),
  (λ asked. is_shut-put db.headers order_id asked _ (λ shut.
      is_shut-update header status header.authorized_at shutting (sym (ap is_shut p) ∙ shut))),
)

pub update_header-IsQuiet :
    (order_id : Text) (status : Option PaymentOrderStatus)
    → is_shutting status ≡ true
    → IsQuiet (update_header order_id status none)
unfolding update_header
update_header-IsQuiet order_id status shutting db =
    update_over_quiet (db.headers order_id) order_id status db refl shutting

pub update_status-IsQuiet :
    (id : Option ℕ) (to : PaymentStatus) (intent : Option Text) (from : Option PaymentStatus)
    → IsQuiet (update_status id to intent from)
unfolding update_status Quiet Quietly
update_status-IsQuiet id to intent from db = (refl, (λ asked. refl), (λ asked shut. shut))

pub increment_key_gen-IsQuiet : (id : Option ℕ) (gen : ℕ) → IsQuiet (increment_key_gen id gen)
unfolding increment_key_gen Quiet Quietly
increment_key_gen-IsQuiet id gen db = (refl, (λ asked. refl), (λ asked shut. shut))

pub Quietly-err : (A : Type 0) (db : Db) (e : PaymentError) → Quietly {A = A} db (err e)
unfolding Quietly
Quietly-err A db e = tt

pub Quietly-payments :
    {A : Type 0} (db : Db) (a : A) (rows : List Payment)
    → Quietly db (ok (a, record db { payments = rows }))
unfolding Quietly Quiet
Quietly-payments db a rows = (refl, (λ asked. refl), (λ asked shut. shut))

pub create_payment-IsQuiet : (p : Payment) (id : ℕ) → IsQuiet (create_payment p id)
unfolding create_payment
create_payment-IsQuiet p id db = Quietly-if _ db _ _ (Quietly-err _ db _) (Quietly-payments db _ _)

pub pure-IsQuiet : {A : Type 0} (a : A) → IsQuiet (pure a)
unfolding Quietly
pure-IsQuiet a db = Quiet-refl db

-- A branch on whether a row was found.
pub quiet_found :
    {A B : Type 0} (x : Option A) (m : Tx B) (k : A → Tx B) (db : Db)
    → Quietly db (m db)
    → ((a : A) → Quietly db (k a db))
    → Quietly db ((elim x as (λ _. Tx B) [ none ↦ m | some a ↦ k a ]) db)
quiet_found none m k db hm hk = hm
quiet_found (some a) m k db hm hk = hk a
