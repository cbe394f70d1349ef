-- ===== src/Correlation.antt =====
-- runtime/src/kcd2_native_probes/correlation.py: the contracts that tie the stages of a capture together.
pub mod Proof
pub mod Contract
pub mod Report
pub mod Added
pub mod Evidence
pub mod Proven
pub mod Correlated
pub mod Constraint
pub mod Clean
pub mod Entry
pub mod Valid
pub mod Tests
