-- ===== src/Deployment/Gate.antt =====
-- The gate that a fresh snapshot of an exact deployment has to pass.
pub mod Fresh
pub mod Total
use kcd2_codex_toolkit.Base.{
  ℕ, ◌*◌, ◌+◌, ◌-◌, String, Bool, true, false, not, ◌&&◌, ◌||◌, Option, none, some, List, [], ◌∷◌,
  leb, ltb, if◌then◌else◌, ◌==◌, text_has_eq, nat_has_eq, Eq, eq_of_discrete, is_unique, any_of,
  is_empty, chosen, Result, ok, err, ◌>>=◌, ◌>>◌, require, refuse, is_addressed, lower, sort_texts,
  len, sort_by,
}
use kcd2_codex_toolkit.Base.Json.{ℤ}
use kcd2_codex_toolkit.Deployment.Identity.{
  Error, bad_deployment_id, bad_status, bad_reasons, duplicate_reasons, inconsistent_status,
  bad_max_age, bounded, text, digest,
}
use kcd2_codex_toolkit.Deployment.Node.{
  ActiveSnapshot, DeploymentNode, DateTime, timestamp, exact_deployment, complete, scope_has_eq,
  coverage_has_eq, scope_discrete, coverage_discrete, identity_has_eq, identity_discrete,
}
use kcd2_codex_toolkit.Deployment.Registry.{DeploymentRegistry, get}

pub data DeploymentOperation : Type 0 where
  install_validation winner_claim candidate_scoped_probe : DeploymentOperation

unfoldable pub operation_discrete : Discrete DeploymentOperation
operation_discrete = hlevel

instance abbrev pub operation_has_eq : Eq DeploymentOperation
unfolding operation_discrete
operation_has_eq = eq_of_discrete operation_discrete

pub record GateDecision : Type 0 where
  pub operation : DeploymentOperation
  pub deployment_id : String
  pub snapshot_id : String
  pub snapshot_sha256 : String
  pub allowed : Bool
  pub status : String
  pub reason_codes : List String

abbrev pub same_bool : Bool → Bool → Bool
same_bool true b = b
same_bool false b = not b

-- `SnapshotGateDecision.__post_init__`
unfoldable pub gate_decision : GateDecision → Result Error GateDecision
gate_decision given = do
  require (is_addressed "deploy:sha256:" given.deployment_id) bad_deployment_id
  snapshot_id ← text given.snapshot_id "snapshot decision snapshot_id" 256
  hash ← digest given.snapshot_sha256 "snapshot decision snapshot sha256"
  require (given.status == "fresh_exact" || given.status == "capture_inconclusive") bad_status
  refuse (any_of (λ reason. len reason == 0) given.reason_codes) bad_reasons
  require (is_unique given.reason_codes) duplicate_reasons
  require (same_bool given.allowed (given.status == "fresh_exact" && is_empty given.reason_codes))
      inconsistent_status
  ok (record given {
    deployment_id = lower given.deployment_id;
    snapshot_sha256 = hash;
    reason_codes = sort_texts given.reason_codes;
  })

unfoldable pub authorizes : GateDecision → DeploymentOperation → Bool
authorizes decision operation = decision.allowed && decision.operation == operation

-- The reasons that need the registered node.
unfoldable pub node_reasons : ActiveSnapshot → Option DeploymentNode → List (Bool × String)
node_reasons snapshot none = (true, "DEPLOYMENT_NOT_REGISTERED") ∷ []
node_reasons snapshot (some node) =
    (not (snapshot.snapshot_id == node.snapshot_id), "SNAPSHOT_ID_CHANGED")
    ∷ (not (snapshot.snapshot_sha256 == node.snapshot_sha256), "SNAPSHOT_HASH_CHANGED")
    ∷ (not (snapshot.identity == node.identity), "DEPLOYMENT_IDENTITY_CHANGED")
    ∷ []

-- Every test of `authorize_fresh_snapshot` with its code. Ages are in microseconds.
unfoldable pub gate_reasons : ActiveSnapshot → Option DeploymentNode → ℕ → ℕ → List (Bool × String)
gate_reasons snapshot node evaluated max_age =
    (not (snapshot.scope == exact_deployment), "SNAPSHOT_SCOPE_NOT_EXACT")
    ∷ (not (snapshot.coverage == complete), "SNAPSHOT_COVERAGE_INCOMPLETE")
    ∷ (ltb evaluated snapshot.captured_at, "SNAPSHOT_FROM_FUTURE")
    ∷ (ltb (max_age * 1_000_000) (evaluated - snapshot.captured_at), "SNAPSHOT_STALE")
    ∷ node_reasons snapshot node

abbrev max_snapshot_age : ℕ
max_snapshot_age = 31 * 24 * 60 * 60

-- The decision that the reasons lead to, before its own checks.
abbrev pub proposed : String → ActiveSnapshot → DeploymentOperation → List String → GateDecision
proposed deployment_id snapshot operation reasons = record {
  operation = operation;
  deployment_id = deployment_id;
  snapshot_id = snapshot.snapshot_id;
  snapshot_sha256 = snapshot.snapshot_sha256;
  allowed = is_empty reasons;
  status = if is_empty reasons then "fresh_exact" else "capture_inconclusive";
  reason_codes = sort_texts reasons;
}

unfoldable pub authorize_fresh_snapshot :
    DeploymentRegistry
    → String
    → ActiveSnapshot
    → DeploymentOperation
    → DateTime
    → ℤ
    → Result Error GateDecision
authorize_fresh_snapshot registry deployment_id snapshot operation evaluated_at max_age_seconds = do
  evaluated ← timestamp evaluated_at "evaluated_at"
  max_age ← bounded 1 max_snapshot_age max_age_seconds bad_max_age
  let reasons = chosen (gate_reasons snapshot (get registry deployment_id) evaluated max_age)
  gate_decision (proposed deployment_id snapshot operation reasons)
