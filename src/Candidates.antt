-- ===== src/Candidates.antt =====
-- runtime/src/kcd2_mod_build_deploy/candidate_registry.py: immutable candidates, addressed by the
-- hash of their inputs, and the registry that keeps their lineage free of cycles.
pub mod Identity
pub mod Payload
pub mod Record
pub mod Dag
pub mod Aliases
pub mod Registry
pub mod Tests
