-- ===== src/Approvals.antt =====
-- runtime/src/kcd2_toolchain_core/approvals.py: one-time approvals of the mutations that persist.
pub mod Target
pub mod Document
pub mod Ledger
pub mod Execute
pub mod Tests
