-- ===== src/Gateway/Chain.antt =====
-- apps/gateway/src/chain.ts: the calls of the contract. The SDK's client and its assembled
-- transactions are parameters; a call returns what was done beside its result.
pub mod Decisions
pub mod Submitting
pub mod Calls
pub mod Sending
