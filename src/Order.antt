-- ===== src/Order.antt =====
-- The order aggregate of apps/order-service: its status machine, its entity, and what must hold
-- between a settled order and its two participants.
mod Tests
pub mod Status
pub mod Item
pub mod Entity
pub mod Invariants
pub mod Repository
