-- ===== src/Payment.antt =====
-- apps/payment-service/src/modules/payment: an order's payment attempts, the holds on a card, and
-- the commands of the payment participant.
mod Tests
pub mod Status
pub mod Fence
pub mod Entity
pub mod Authorization
pub mod Store
pub mod Gateway
pub mod Cancel
pub mod Capture
pub mod Record
pub mod Open
pub mod Ledger
