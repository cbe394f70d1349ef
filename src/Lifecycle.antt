-- ===== src/Lifecycle.antt =====
-- runtime/src/kcd2_mod_build_deploy/candidate_lifecycle.py: the events of a candidate's life, who
-- may emit them, the append-only history of them and the state that the history adds up to.
pub mod Types
pub mod Event
pub mod History
pub mod Tests
