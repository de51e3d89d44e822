-- ===== src/Payment/Ledger/Once.antt =====
-- The transactions of .../payment/application/use-cases in any order: at most one hold of an order is
-- told.
use jcool_ecommerce_backend.Base.{
  ◌≤◌, ◌≡◌, sym, subst, Option, none, some, List, [], ◌∷◌, length, Text, arith,
}
use jcool_ecommerce_backend.Payment.Authorization.{Header}
use jcool_ecommerce_backend.Payment.Entity.{Result}
use jcool_ecommerce_backend.Payment.Store.{Db, committed}
use jcool_ecommerce_backend.Payment.Record.{apply}
use jcool_ecommerce_backend.Payment.Ledger.{Step, play_step, play, told, on_header, Agrees}
use jcool_ecommerce_backend.Payment.Ledger.Quiet.{Quietly, increment_key_gen-IsQuiet}
use jcool_ecommerce_backend.Payment.Ledger.Steps.{
  claim-IsQuiet, insert_if_still_open-IsQuiet, flip-IsQuiet, record_release-IsQuiet, settle-IsQuiet,
}
use jcool_ecommerce_backend.Payment.Ledger.Hold.{quiet-Kept, Kept-committed, apply-Kept}

abbrev kept_of :
    {A : Type 0} (db : Db) (r : Result (A × Db))
    → Agrees db
    → Quietly db r
    → Agrees (committed db r)
kept_of db r agrees q = Kept-committed db r agrees (quiet-Kept db r agrees q)

play_step-Agrees : (step : Step) (db : Db) → Agrees db → Agrees (play_step step db)
unfolding play_step
play_step-Agrees (Step.claim_step order_id amount_minor currency) db agrees =
    kept_of db _ agrees (claim-IsQuiet order_id amount_minor currency db)
play_step-Agrees (Step.insert_step order_id amount_minor currency provider session id retiring) db
      agrees =
    kept_of db _ agrees
      (insert_if_still_open-IsQuiet order_id amount_minor currency provider session id retiring db)
play_step-Agrees (Step.flip_step order_id) db agrees =
    kept_of db _ agrees (flip-IsQuiet order_id db)
play_step-Agrees (Step.release_step attempt released) db agrees =
    kept_of db _ agrees (record_release-IsQuiet attempt released db)
play_step-Agrees (Step.settle_step read result) db agrees =
    kept_of db _ agrees (settle-IsQuiet read result db)
play_step-Agrees (Step.apply_step prepared) db agrees =
    Kept-committed db (apply prepared db) agrees (apply-Kept prepared db agrees)
play_step-Agrees (Step.key_gen_step id gen) db agrees =
    kept_of db _ agrees (increment_key_gen-IsQuiet id gen db)

play-Agrees : (steps : List Step) (db : Db) → Agrees db → Agrees (play steps db)
unfolding play
play-Agrees [] db agrees = agrees
play-Agrees (step ∷ steps) db agrees =
    play-Agrees steps (play_step step db) (play_step-Agrees step db agrees)

on_header_once : (header : Option Header) → length (on_header header) ≤ 1
unfolding on_header
on_header_once none = omega arith
on_header_once (some header) = ground arith

-- Whatever transactions the payment participant runs (those of open, authorize, capture and cancel, and
-- the moves of a key generation), in any order and with any arguments, starting from rows and an
-- outbox that agree: the outbox holds at most one `payment.authorized` record of an order, and the
-- amounts it tells are the ones of the order's header, told exactly when that header's
-- `authorized_at` is set.
pub play-told :
    (steps : List Step) (db : Db) (order_id : Text)
    → Agrees db
    → (told order_id (play steps db).outbox ≡ on_header ((play steps db).headers order_id))
      × (length (told order_id (play steps db).outbox) ≤ 1)
unfolding Agrees
play-told steps db order_id agrees =
    let agreed = play-Agrees steps db agrees order_id in
    (agreed, subst (λ ts. length ts ≤ 1) (sym agreed) (on_header_once _))
