-- ===== src/Deployment.antt =====
-- runtime/src/kcd2_mod_build_deploy/deployment_registry.py: exact deployment identities, the
-- registry of deployment nodes, and the gate that a fresh snapshot has to pass.
pub mod Hex
pub mod Identity
pub mod Payload
pub mod Node
pub mod Registry
pub mod Gate
pub mod Binding
pub mod Tests
