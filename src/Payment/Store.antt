-- ===== src/Payment/Store.antt =====
-- payment-order.repository.ts, payment.repository.ts and intent-idempotency-key.ts of .../payment,
-- on the rows they read and write. Transactions are serial: each sees what those before it committed.
use mathlib.Core.Option
use jcool_ecommerce_backend.Base.{
  ℕ, ◌+◌, Bool, true, false, not, ◌&&◌, Option, none, some, List, [], ◌∷◌, find, any, Text, text_eq,
  ◌==◌, ℤ, if◌then◌else◌,
}
use jcool_ecommerce_backend.Payment.Status.{PaymentStatus, status_eq}
use jcool_ecommerce_backend.Payment.Fence.{PaymentOrderStatus}
use jcool_ecommerce_backend.Payment.Authorization.{Header, is_retired}
use jcool_ecommerce_backend.Payment.Entity.{Payment, Result, ok, err, PaymentError, or_else}

-- `toAuthorizedOutboxRecord` of payment-outbox.mapper.ts, with the id of the outbox row.
pub record AuthorizedRecord : Type 0 where
  pub id : ℕ
  pub payment_id : Option ℕ
  pub order_id : Text
  pub amount_minor : ℤ
  pub currency : Text
  pub authorized_at : ℕ

-- `payment_orders` by order; `payments`, the newest row first; the outbox, the newest record first.
pub record Db : Type 0 where
  pub headers : Text → Option Header
  pub payments : List Payment
  pub outbox : List AuthorizedRecord

abbrev pub Tx : Type 0 → Type 0
Tx A = Db → Result (A × Db)

abbrev pub pure : {A : Type 0} → A → Tx A
pure a db = ok (a, db)

abbrev pub throw : {A : Type 0} → PaymentError → Tx A
throw e db = err e

abbrev pub feed : {A B : Type 0} → Result (A × Db) → (A → Tx B) → Result (B × Db)
feed (ok (a, db)) f = f a db
feed (err e) f = err e

infixl 5 ◌>>=◌ ◌>>◌
abbrev pub ◌>>=◌ : {A B : Type 0} → Tx A → (A → Tx B) → Tx B
◌>>=◌ m f db = feed (m db) f

abbrev pub ◌>>◌ : {A B : Type 0} → Tx A → Tx B → Tx B
m >> k = m >>= λ _. k

abbrev pub lift : {A : Type 0} → Result A → Tx A
lift (ok a) db = ok (a, db)
lift (err e) db = err e

-- `transactionRunner.run`: a throw rolls back every write.
abbrev pub committed : {A : Type 0} → Db → Result (A × Db) → Db
committed before (ok (a, db)) = db
committed before (err e) = before

abbrev pub put : Text → Header → (Text → Option Header) → Text → Option Header
put order_id header headers asked = if text_eq asked order_id then some header else headers asked

-- ON CONFLICT DO NOTHING, on the row that is there: whether a row was inserted.
unfoldable pub insert_over : Option Header → Text → Header → Tx Bool
insert_over none order_id row db = ok (true, record db { headers = put order_id row db.headers })
insert_over (some _) order_id row db = ok (false, db)

unfoldable pub insert : Text → Header → Tx Bool
unfolding insert_over
insert order_id row db = insert_over (db.headers order_id) order_id row db

unfoldable pub insert_open : Text → ℤ → Text → Tx Bool
unfolding insert
insert_open order_id amount_minor currency = insert order_id (record {
  status = PaymentOrderStatus.opened;
  amount_minor = some amount_minor;
  currency = some currency;
  authorized_at = none;
})

unfoldable pub insert_fenced : Text → Tx Bool
unfolding insert
insert_fenced order_id = insert order_id (record {
  status = PaymentOrderStatus.fenced;
  amount_minor = none;
  currency = none;
  authorized_at = none;
})

abbrev pub find_for_update : Text → Tx (Option Header)
find_for_update order_id db = ok (db.headers order_id, db)

abbrev pub patched {ℓ} : {A : Type ℓ} → Option A → A → A
patched none kept = kept
patched (some new) kept = new

abbrev pub patched_option {ℓ} : {A : Type ℓ} → Option A → Option A → Option A
patched_option none kept = kept
patched_option (some new) kept = some new

-- `update` of the header that is there: a field that the patch does not name is kept.
unfoldable pub update_over :
    Option Header → Text → Option PaymentOrderStatus → Option ℕ → Tx (Unit {0})
update_over none order_id status authorized_at db = ok (tt, db)
update_over (some header) order_id status authorized_at db = ok (
  tt,
  record db {
    headers =
        put order_id
          (record header {
            status = patched status header.status;
            authorized_at = patched_option authorized_at header.authorized_at;
          })
          db.headers;
  },
)

unfoldable pub update_header : Text → Option PaymentOrderStatus → Option ℕ → Tx (Unit {0})
unfolding update_over
update_header order_id status authorized_at db =
    update_over (db.headers order_id) order_id status authorized_at db

-- A row under `uq_payments_one_active_per_order`.
abbrev pub is_active_of : Text → Payment → Bool
is_active_of order_id p = text_eq p.order_id order_id && not (is_retired p.status)

-- `create`: the index refuses a second active payment of the order.
unfoldable pub create_payment : Payment → ℕ → Tx Payment
create_payment payment id db =
    if not (is_retired payment.status) && any (is_active_of payment.order_id) db.payments
    then err (PaymentError.duplicate_active_payment payment.order_id)
    else let row = record payment { id = some id; stripe_key_gen = 0 } in
      ok (row, record db { payments = row ∷ db.payments })

abbrev pub find_by_order_id : Text → Tx (Option Payment)
find_by_order_id order_id db = ok (find (λ p. text_eq p.order_id order_id) db.payments, db)

abbrev pub find_by_provider_session_id : Text → Tx (Option Payment)
find_by_provider_session_id provider_session_id db =
    ok (find (λ p. text_eq p.provider_session_id provider_session_id) db.payments, db)

abbrev pub find_active_by_order_id_for_update : Text → Tx (Option Payment)
find_active_by_order_id_for_update order_id db = ok (find (is_active_of order_id) db.payments, db)

abbrev pub same_id : Option ℕ → Option ℕ → Bool
same_id (some a) (some b) = a == b
same_id none none = true
same_id _ _ = false

abbrev expected_eq : Option PaymentStatus → PaymentStatus → Bool
expected_eq none status = true
expected_eq (some expected) status = status_eq status expected

unfoldable pub rewrite_where : (Payment → Bool) → (Payment → Payment) → List Payment → List Payment
rewrite_where p f [] = []
rewrite_where p f (row ∷ rows) =
    let rest = rewrite_where p f rows in if p row then f row ∷ rest else row ∷ rest

-- `updateStatus` with the options `providerIntentId` and `expectedStatus`; `none` when no row is hit.
unfoldable pub update_status :
    Option ℕ → PaymentStatus → Option Text → Option PaymentStatus → Tx (Option Payment)
unfolding rewrite_where status_eq
update_status id status provider_intent_id expected_status db =
    let hit = (λ (p : Payment). same_id p.id id && expected_eq expected_status p.status) in
    let change = (λ (p : Payment). record p {
      status = status;
      provider_intent_id = or_else provider_intent_id p.provider_intent_id;
    }) in
    ok (
      Option.map change (find hit db.payments),
      record db { payments = rewrite_where hit change db.payments },
    )

-- `incrementKeyGen`: whether the generation was still the one read.
unfoldable pub increment_key_gen : Option ℕ → ℕ → Tx Bool
unfolding rewrite_where
increment_key_gen id expected_gen db =
    let hit = (λ (p : Payment). same_id p.id id && p.stripe_key_gen == expected_gen) in
    ok (
      any hit db.payments,
      record db {
        payments =
            rewrite_where hit (λ p. record p { stripe_key_gen = expected_gen + 1 }) db.payments;
      },
    )

-- `outbox.append` of a `payment.authorized` record.
abbrev pub append : AuthorizedRecord → Tx (Unit {0})
append authorized db = ok (tt, record db { outbox = authorized ∷ db.outbox })
