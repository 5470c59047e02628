-- ===== src/Canonical.antt =====
-- packages/canonical: money, the byte layout of the canonical form, and the commitments.
pub mod Amount
pub mod Bytes
pub mod Commitment
mod Tests
