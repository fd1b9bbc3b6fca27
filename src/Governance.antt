-- ===== src/Governance.antt =====
-- The ledger of decisions (app/governance).
pub mod Ledger
pub mod Sorting
pub mod Integrity
mod Tests
