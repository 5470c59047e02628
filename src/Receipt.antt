-- ===== src/Receipt.antt =====
-- packages/receipt: the receipt that the executor writes and the verifier reads.
pub mod Json
pub mod Validate
pub mod Valid
pub mod Rules
pub mod Accepts
pub mod RoundTrip
mod Tests
