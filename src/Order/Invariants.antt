-- ===== src/Order/Invariants.antt =====
-- checkout-invariants.ts of apps/order-service/src/modules/order/domain.
pub mod Meaning
use jcool_ecommerce_backend.Base.{
  ℕ, Bool, true, false, not, ◌&&◌, ◌||◌, Option, none, some, List, [], ◌∷◌, ◌++◌, any,
  if◌then◌else◌,
}
use jcool_ecommerce_backend.Order.Status.{OrderStatus, status_eq}

pub data CheckoutInvariantKind : Type 0 where
  captured_without_paid paid_without_capture paid_without_commit orphan_hold
        authorized_on_dead_order :
      CheckoutInvariantKind

pub data StockStanding : Type 0 where
  held committed released fenced restocked : StockStanding

pub data PaymentHeader : Type 0 where
  opened authorized captured cancelled fenced : PaymentHeader

pub record PaymentStanding : Type 0 where
  pub header : Option PaymentHeader
  pub authorized_payment_id : Option ℕ
  pub has_authorized_attempt : Bool
  pub has_succeeded_attempt : Bool

pub record SettledCheckout : Type 0 where
  pub status : OrderStatus
  pub stock : Option StockStanding
  pub payment : PaymentStanding

abbrev pub terminal_saga_statuses : List OrderStatus
terminal_saga_statuses =
    OrderStatus.paid ∷ OrderStatus.failed ∷ OrderStatus.expired ∷ OrderStatus.cancelled
    ∷ OrderStatus.rejected ∷ []

abbrev is_captured : Option PaymentHeader → Bool
is_captured (some PaymentHeader.captured) = true
is_captured _ = false

abbrev is_committed : Option StockStanding → Bool
is_committed (some StockStanding.committed) = true
is_committed _ = false

abbrev is_held : Option StockStanding → Bool
is_held (some StockStanding.held) = true
is_held _ = false

-- `if (test) broken.push(kind)`
abbrev push_if : Bool → CheckoutInvariantKind → List CheckoutInvariantKind
push_if test kind = if test then kind ∷ [] else []

-- `none` is the error that the order is not settled.
unfoldable pub evaluate_checkout_invariants : SettledCheckout → Option (List CheckoutInvariantKind)
unfolding status_eq
evaluate_checkout_invariants c =
    let paid = status_eq c.status OrderStatus.paid in
    let p = c.payment in
    if any (λ s. status_eq s c.status) terminal_saga_statuses
    then some (
        push_if (not paid && (is_captured p.header || p.has_succeeded_attempt))
          CheckoutInvariantKind.captured_without_paid
        ++ (push_if (paid && not (is_captured p.header)) CheckoutInvariantKind.paid_without_capture
            ++ (push_if (paid && not (is_committed c.stock))
                  CheckoutInvariantKind.paid_without_commit
                ++ (push_if (not paid && is_held c.stock) CheckoutInvariantKind.orphan_hold
                    ++ push_if (not paid && p.has_authorized_attempt)
                        CheckoutInvariantKind.authorized_on_dead_order))))
    else none
