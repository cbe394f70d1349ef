-- ===== src/ResultValidity.antt =====
-- runtime/src/kcd2_native_probes/result_validity.py: the verdict on the result of a probe.
pub mod Input
pub mod Verdict
pub mod Reasons
pub mod Accepted
pub mod Supplied
pub mod Sound
pub mod Tests
