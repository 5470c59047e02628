-- ===== src/Executor.antt =====
-- apps/executor: decision-gated settlement.
pub mod Errors
pub mod Store
pub mod Exec
pub mod World
pub mod Payment
pub mod Lock
pub mod Gate
pub mod Settle
pub mod Receipt
pub mod Horizon
pub mod Chain
pub mod Registry
pub mod Config
mod Tests
