-- ===== src/Payment/Ledger.antt =====
-- The transactions of .../payment/application/use-cases in any order, and what the outbox then holds.
pub mod Once
pub mod Quiet
pub mod Hold
pub mod Steps
pub mod Shut
use jcool_ecommerce_backend.Base.{
  ℕ, ◌+◌, ◌≤◌, ◌≡◌, refl, sym, ap, ◌∙◌, Bool, true, false, not, ◌&&◌, ◌||◌, Option, none, some,
  List, [], ◌∷◌, length, Text, text_eq, text_eq_iff, text_eq_refl, ℤ, eq_ℤ, if◌then◌else◌, arith,
}
use jcool_ecommerce_backend.Payment.Status.{PaymentStatus, status_eq}
use jcool_ecommerce_backend.Payment.Fence.{PaymentOrderStatus}
use jcool_ecommerce_backend.Payment.Authorization.{Header, HeldCharge, decide_authorization}
use jcool_ecommerce_backend.Payment.Entity.{Payment, Result, ok, err, PaymentError}
use jcool_ecommerce_backend.Payment.Store
use jcool_ecommerce_backend.Payment.Store.{
  Db, Tx, AuthorizedRecord, pure, throw, lift, feed, ◌>>=◌, ◌>>◌, committed, increment_key_gen,
}
use jcool_ecommerce_backend.Payment.Gateway.{CaptureIntentResult}
use jcool_ecommerce_backend.Payment.Cancel.{Released, flip, record_release}
use jcool_ecommerce_backend.Payment.Capture.{settle}
use jcool_ecommerce_backend.Payment.Record.{PreparedAuthorization, apply}
use jcool_ecommerce_backend.Payment.Open.{claim, insert_if_still_open}

-- One transaction of the service. What the provider answered, what was read before and what other
-- transactions did since are in its arguments, which nothing constrains.
pub data Step : Type 0 where
  claim_step : Text → ℤ → Text → Step
  insert_step : Text → ℤ → Text → Text → Text → ℕ → Option Payment → Step
  flip_step : Text → Step
  release_step : Payment → Released → Step
  settle_step : Payment → CaptureIntentResult → Step
  apply_step : PreparedAuthorization → Step
  key_gen_step : Option ℕ → ℕ → Step

unfoldable pub play_step : Step → Db → Db
unfolding claim insert_if_still_open flip record_release settle apply increment_key_gen
play_step (claim_step order_id amount_minor currency) db =
    committed db (claim order_id amount_minor currency db)
play_step (insert_step order_id amount_minor currency provider session payment_id retiring) db =
    committed db
      (insert_if_still_open order_id amount_minor currency provider session payment_id retiring db)
play_step (flip_step order_id) db = committed db (flip order_id db)
play_step (release_step attempt released) db = committed db (record_release attempt released db)
play_step (settle_step read result) db = committed db (settle read result db)
play_step (apply_step prepared) db = committed db (apply prepared db)
play_step (key_gen_step id gen) db = committed db (increment_key_gen id gen db)

unfoldable pub play : List Step → Db → Db
unfolding play_step
play [] db = db
play (step ∷ steps) db = play steps (play_step step db)

-- The amounts that the outbox tells the order's hold is of, the newest first.
unfoldable pub told : Text → List AuthorizedRecord → List (Option ℤ)
told order_id [] = []
told order_id (r ∷ rs) =
    let rest = told order_id rs in
    if text_eq r.order_id order_id then some r.amount_minor ∷ rest else rest

-- What the header says was recorded: nothing, or a hold of its amount.
unfoldable pub on_header : Option Header → List (Option ℤ)
on_header none = []
on_header (some header) = elim header.authorized_at [
  | none ↦ []
  | some _ ↦ header.amount_minor ∷ []
]

unfoldable pub Agrees : Db → Type 0
unfolding told on_header
Agrees db = (order_id : Text) → told order_id db.outbox ≡ on_header (db.headers order_id)

-- A header that no session may be opened under.
unfoldable pub is_shut : Option Header → Bool
is_shut none = false
is_shut (some header) = elim header.status [ PaymentOrderStatus.opened ↦ false | _ ↦ true ]
