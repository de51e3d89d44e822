-- ===== src/Kernel.antt =====
-- packages/kernel: results and domain errors, the guards, and money.
mod Thrown
pub mod Guard
pub mod Money
pub use Thrown.*
