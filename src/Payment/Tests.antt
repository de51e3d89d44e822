-- ===== src/Payment/Tests.antt =====
-- The laws of the payment transactions at concrete rows.
use jcool_ecommerce_backend.Base.{
  false, ◌≡◌, ◌≤◌, refl, none, some, List, [], ◌∷◌, length, codes, pos,
}
use jcool_ecommerce_backend.Payment.Store.{Db, put, insert, insert_over, insert_fenced}
use jcool_ecommerce_backend.Payment.Fence.{PaymentOrderStatus, decide_cancel}
use jcool_ecommerce_backend.Payment.Entity.{ok}
use jcool_ecommerce_backend.Payment.Cancel.{CancelOutcome, flip, locked_or_fenced, attempt_of}
use jcool_ecommerce_backend.Payment.Cancel.Closed.{claim-flip}
use jcool_ecommerce_backend.Payment.Open.{claim, insert_if_still_open}
use jcool_ecommerce_backend.Payment.Record.{PreparedAuthorization}
use jcool_ecommerce_backend.Payment.Ledger.{Step, play, told, on_header, Agrees}
use jcool_ecommerce_backend.Payment.Ledger.Once.{play-told}

abbrev no_rows : Db
no_rows = record { headers = λ _. none; payments = []; outbox = [] }

no_rows-Agrees : Agrees no_rows
unfolding Agrees told on_header
no_rows-Agrees = λ order_id. refl

abbrev prepared : PreparedAuthorization
prepared = record {
  payment_id = some 55;
  order_id = codes "7";
  provider_session_id = codes "cs_1";
  hold = record {
    intent_id = codes "pi_1";
    amount_minor = some (pos 6500);
    currency = some (codes "usd");
  };
  authorized_at = 200;
  stray_voided = false;
  outbox_id = some 99;
}

-- The same hold is applied twice.
abbrev twice : List Step
twice =
    Step.claim_step (codes "7") (pos 6500) (codes "USD")
    ∷ Step.insert_step (codes "7") (pos 6500) (codes "USD") (codes "stripe") (codes "cs_1") 55 none
    ∷ Step.apply_step prepared
    ∷ Step.apply_step prepared
    ∷ []

play-told_example :
    (told (codes "7") (play twice no_rows).outbox
      ≡ on_header ((play twice no_rows).headers (codes "7")))
    × (length (told (codes "7") (play twice no_rows).outbox) ≤ 1)
play-told_example = play-told twice no_rows (codes "7") no_rows-Agrees

abbrev fenced_rows : Db
fenced_rows = record no_rows {
  headers =
      put (codes "7")
        (record {
          status = PaymentOrderStatus.fenced;
          amount_minor = none;
          currency = none;
          authorized_at = none;
        })
        no_rows.headers;
}

fenced :
    flip (codes "7") no_rows
    ≡ ok (record { outcome = CancelOutcome.fenced; attempt = none }, fenced_rows)
unfolding flip locked_or_fenced insert_fenced insert insert_over decide_cancel attempt_of
fenced = refl

-- A hold arrives, and a second cancel comes, before the open.
abbrev since : List Step
since = Step.apply_step prepared ∷ Step.flip_step (codes "7") ∷ []

claim-flip_example :
    let later = play since fenced_rows in
    (claim (codes "7") (pos 6500) (codes "USD") later ≡ ok (none, later))
    × (insert_if_still_open
          (codes "7")
          (pos 6500)
          (codes "USD")
          (codes "stripe")
          (codes "cs_1")
          55
          none
          later
        ≡ ok (none, later))
claim-flip_example =
    claim-flip (codes "7") no_rows fenced_rows
      (record { outcome = CancelOutcome.fenced; attempt = none }) since (pos 6500) (codes "USD")
      (codes "stripe") (codes "cs_1") 55 none fenced
