-- ===== src/Deployment/Node.antt =====
-- Snapshots and deployment nodes. `sha256` stands for
-- `hashlib.sha256(_canonical_bytes(payload)).hexdigest()`, which the standard library computes.
use kcd2_codex_toolkit.Base.{
  ℕ, String, ◌<>◌, Bool, ◌&&◌, ◌==◌, text_has_eq, Eq, eq_of_discrete, text_discrete, ℕ_discrete,
  Result, ok, ◌>>=◌, ◌>>◌, require, is_addressed, lower,
}
use kcd2_codex_toolkit.Base.Json.{Json}
use kcd2_codex_toolkit.Deployment.Identity.{
  Error, bad_timestamp, bad_deployment_id, candidate_differs, id_mismatch, incomplete_snapshot,
  text, digest, DeploymentIdentity,
}
use kcd2_codex_toolkit.Deployment.Payload.{deployment_payload}

pub data SnapshotScope : Type 0 where
  exact_deployment broad_provider_layer : SnapshotScope

pub data SnapshotCoverage : Type 0 where
  complete partial unknown : SnapshotCoverage

unfoldable pub scope_discrete : Discrete SnapshotScope
scope_discrete = hlevel

unfoldable pub coverage_discrete : Discrete SnapshotCoverage
coverage_discrete = hlevel

instance abbrev pub scope_has_eq : Eq SnapshotScope
unfolding scope_discrete
scope_has_eq = eq_of_discrete scope_discrete

instance abbrev pub coverage_has_eq : Eq SnapshotCoverage
unfolding coverage_discrete
coverage_has_eq = eq_of_discrete coverage_discrete

-- A `datetime`: the microseconds from the start of year 1, in UTC if it has an offset.
pub record DateTime : Type 0 where
  pub instant : ℕ
  pub has_offset : Bool

-- `_timestamp`
unfoldable pub timestamp : DateTime → String → Result Error ℕ
timestamp value name = do require value.has_offset (bad_timestamp name); ok value.instant

pub record ActiveSnapshot : Type 0 where
  pub snapshot_id : String
  pub snapshot_sha256 : String
  pub captured_at : ℕ
  pub scope : SnapshotScope
  pub coverage : SnapshotCoverage
  pub identity : DeploymentIdentity

-- `ExactActiveSnapshot.__post_init__`
unfoldable pub active_snapshot :
    String
    → String
    → DateTime
    → SnapshotScope
    → SnapshotCoverage
    → DeploymentIdentity
    → Result Error ActiveSnapshot
unfolding text digest timestamp
active_snapshot snapshot_id snapshot_sha256 captured_at scope coverage identity = do
  i ← text snapshot_id "snapshot_id" 256
  d ← digest snapshot_sha256 "snapshot sha256"
  t ← timestamp captured_at "captured_at"
  ok (record {
    snapshot_id = i;
    snapshot_sha256 = d;
    captured_at = t;
    scope = scope;
    coverage = coverage;
    identity = identity;
  })

pub record DeploymentNode : Type 0 where
  pub deployment_id : String
  pub candidate_id : String
  pub snapshot_id : String
  pub snapshot_sha256 : String
  pub identity : DeploymentIdentity

unfoldable pub identity_discrete : Discrete DeploymentIdentity
unfolding text_discrete ℕ_discrete
identity_discrete = hlevel (text_discrete, ℕ_discrete)

unfoldable pub node_discrete : Discrete DeploymentNode
unfolding text_discrete identity_discrete
node_discrete = hlevel (text_discrete, identity_discrete)

instance abbrev pub identity_has_eq : Eq DeploymentIdentity
unfolding identity_discrete
identity_has_eq = eq_of_discrete identity_discrete

instance abbrev pub node_has_eq : Eq DeploymentNode
unfolding node_discrete
node_has_eq = eq_of_discrete node_discrete

module _ (sha256 : Json → String) where
  unfoldable pub canonical_deployment_id :
      DeploymentIdentity → String → String → Result Error String
  unfolding text digest deployment_payload
  canonical_deployment_id identity snapshot_id snapshot_sha256 = do
    checked_id ← text snapshot_id "snapshot_id" 256
    checked_hash ← digest snapshot_sha256 "snapshot sha256"
    ok ("deploy:sha256:" <> sha256 (deployment_payload identity checked_id checked_hash))

  -- `DeploymentNode.__post_init__`
  unfoldable pub deployment_node : DeploymentNode → Result Error DeploymentNode
  unfolding text digest canonical_deployment_id is_addressed lower
  deployment_node given = do
    require (is_addressed "deploy:sha256:" given.deployment_id) bad_deployment_id
    let deployment_id = lower given.deployment_id
    require (given.candidate_id == given.identity.candidate_id) candidate_differs
    snapshot_id ← text given.snapshot_id "snapshot_id" 256
    hash ← digest given.snapshot_sha256 "snapshot sha256"
    expected ← canonical_deployment_id given.identity snapshot_id hash
    require (deployment_id == expected) id_mismatch
    ok (record given { deployment_id = deployment_id; snapshot_sha256 = hash })

  unfoldable pub create_deployment_node : ActiveSnapshot → Result Error DeploymentNode
  unfolding canonical_deployment_id deployment_node
  create_deployment_node snapshot = do
    require (snapshot.scope == exact_deployment && snapshot.coverage == complete)
        incomplete_snapshot
    deployment_id ←
        canonical_deployment_id snapshot.identity snapshot.snapshot_id snapshot.snapshot_sha256
    deployment_node (record {
      deployment_id = deployment_id;
      candidate_id = snapshot.identity.candidate_id;
      snapshot_id = snapshot.snapshot_id;
      snapshot_sha256 = snapshot.snapshot_sha256;
      identity = snapshot.identity;
    })
