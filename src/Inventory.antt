-- ===== src/Inventory.antt =====
-- Stock's participant in the checkout: apps/inventory-service/src/modules/inventory.
mod Tests
pub mod Fence
pub mod Tx
pub mod Rows
pub mod Stock
pub mod Participant
