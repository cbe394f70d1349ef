-- ===== src/Attempts.antt =====
-- runtime/src/kcd2_mod_build_deploy/transaction_attempts.py: the attempts of a transaction, each a
-- directory of hash-linked phase receipts.
pub mod Phase
pub mod Receipt
pub mod Load
pub mod Artifacts
pub mod Record
pub mod Open
pub mod Tests
