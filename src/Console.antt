-- ===== src/Console.antt =====
-- apps/console: the page that shows the evidence of a decision.
pub mod Policies
pub mod Lookup
pub mod Evidence
pub mod Rules
pub mod Display
mod Tests
