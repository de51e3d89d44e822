-- ===== src/Order/Invariants/Meaning.antt =====
-- When a settled checkout is found sound.
use jcool_ecommerce_backend.Base.{◌≡◌, ◌≢◌, ◌↔◌, true, false, none, some, [], arith}
use jcool_ecommerce_backend.Order.Status.{OrderStatus, is_terminal}
use jcool_ecommerce_backend.Order.Invariants.{
  SettledCheckout, StockStanding, PaymentHeader, evaluate_checkout_invariants,
}

-- What a settled checkout should look like: a paid order has its stock committed and its money
-- captured, and a dead one holds neither stock nor money.
abbrev pub IsSound : SettledCheckout → OrderStatus → Type 0
IsSound c OrderStatus.paid =
    (c.stock ≡ some StockStanding.committed) × (c.payment.header ≡ some PaymentHeader.captured)
IsSound c _ =
    (c.stock ≢ some StockStanding.held)
    × (c.payment.header ≢ some PaymentHeader.captured)
    × (c.payment.has_authorized_attempt ≡ false)
    × (c.payment.has_succeeded_attempt ≡ false)

-- The check gives a report for exactly the statuses that the order's state machine calls terminal
-- (for any other it throws), and the report is empty exactly for a sound checkout.
pub evaluate_checkout_invariants_iff :
    (c : SettledCheckout)
    → ((evaluate_checkout_invariants c ≡ none) ↔ (is_terminal c.status ≡ false))
      × ((evaluate_checkout_invariants c ≡ some [])
          ↔ ((is_terminal c.status ≡ true) × IsSound c c.status))
unfolding evaluate_checkout_invariants is_terminal
evaluate_checkout_invariants_iff c = ground arith
