-- ===== src/Gateway.antt =====
-- apps/gateway: the intent gateway.
pub mod Paths
pub mod WriteAuth
pub mod ContractErrors
pub mod Chain
pub mod Request
pub mod Store
pub mod Registry
pub mod Server
pub mod Routes
pub mod Cors
pub mod Mutex
mod Tests
