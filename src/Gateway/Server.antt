-- ===== src/Gateway/Server.antt =====
-- apps/gateway/src/server.ts: the handlers of the routes. A handler takes the world and returns its
-- reply with the next world. Times of a response and the texts of details are not modelled.
pub mod State
pub mod Posting
pub mod Reading
pub mod Bodies
pub mod Resolving
pub mod Stores
pub mod Growing
pub mod Canonicalizing
pub mod Intents
pub mod Independent
pub mod Approvals
