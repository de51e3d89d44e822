-- ===== src/Payment/Cancel/Closed.antt =====
-- What a cancel leaves of an order for open-payment-session.use-case.ts of .../payment.
use jcool_ecommerce_backend.Base.{◌≡◌, true, List, Option, none, Text, text_eq_refl, ℤ, ℕ, arith}
use jcool_ecommerce_backend.Payment.Fence.{decide_cancel, decide_open_session}
use jcool_ecommerce_backend.Payment.Entity.{Payment, ok}
use jcool_ecommerce_backend.Payment.Store.{
  Db, insert, insert_over, insert_open, insert_fenced, update_header, update_over,
}
use jcool_ecommerce_backend.Payment.Cancel.{Flipped, flip, locked_or_fenced, attempt_of}
use jcool_ecommerce_backend.Payment.Ledger.{Step, play, is_shut}
use jcool_ecommerce_backend.Payment.Ledger.Shut.{play-shut}
use jcool_ecommerce_backend.Payment.Open.{claim, insert_if_still_open}

-- The first transaction of a cancel leaves a header that no session may be opened under.
flip-shut :
    (order_id : Text) (db after : Db) (flipped : Flipped)
    → flip order_id db ≡ ok (flipped, after)
    → is_shut (after.headers order_id) ≡ true
unfolding flip locked_or_fenced insert_fenced insert insert_over update_header update_over
    decide_cancel attempt_of is_shut
flip-shut order_id db after flipped h = ground (arith, text_eq_refl order_id)

-- Under a shut header neither transaction of an open writes.
open-shut :
    (order_id : Text) (db : Db) (amount_minor : ℤ) (currency provider session : Text)
    (payment_id : ℕ) (retiring : Option Payment)
    → is_shut (db.headers order_id) ≡ true
    → (claim order_id amount_minor currency db ≡ ok (none, db))
      × (insert_if_still_open order_id amount_minor currency provider session payment_id retiring db
          ≡ ok (none, db))
unfolding is_shut claim insert_if_still_open insert_open insert insert_over decide_open_session
open-shut order_id db amount_minor currency provider session payment_id retiring shut =
    (ground arith, ground arith)

-- Once the first transaction of a cancel has committed, and whatever transactions of the payment
-- participant ran since (opens, authorizations, captures, cancels, moves of a key generation), both
-- transactions of an open of the order answer that it is closed and write nothing, whatever charge,
-- session or attempt they come with.
pub claim-flip :
    (order_id : Text) (db after : Db) (flipped : Flipped) (steps : List Step) (amount_minor : ℤ)
    (currency provider session : Text) (payment_id : ℕ) (retiring : Option Payment)
    → flip order_id db ≡ ok (flipped, after)
    → let later = play steps after in
      (claim order_id amount_minor currency later ≡ ok (none, later))
      × (insert_if_still_open order_id amount_minor currency provider session payment_id retiring
            later
          ≡ ok (none, later))
claim-flip order_id db after flipped steps amount_minor currency provider session payment_id
      retiring h =
    open-shut order_id (play steps after) amount_minor currency provider session payment_id retiring
      (play-shut order_id steps after (flip-shut order_id db after flipped h))
