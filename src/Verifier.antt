-- ===== src/Verifier.antt =====
-- tools/verifier: the checks of a settlement from public sources, and their orchestration.
pub mod Types
pub mod Sources
pub mod Checks
pub mod Scan
pub mod ScanFacts
pub mod Verify
pub mod Verdict
pub mod LedgerFacts
pub mod ChainFacts
pub mod PaymentFacts
pub mod Sound
pub mod Verified
pub mod Alone
pub mod Strict
pub mod Total
pub mod Preimage
pub mod Receipts
mod Tests
