-- ===== src/Deployment/Registry.antt =====
-- The registry of deployment nodes: `DeploymentRegistry`, over the candidate records that it reads.
pub mod Lookup
pub mod Agreed
pub mod Consistent
use kcd2_codex_toolkit.Base.{
  ℕ, String, Bool, true, false, not, ◌&&◌, ◌||◌, Option, none, some, List, [], ◌∷◌, ◌++◌, map, leb,
  if◌then◌else◌, ◌==◌, text_has_eq, nat_has_eq, elem, is_unique, any_of, all_of, length, Result, ok,
  err, ◌>>=◌, ◌>>◌, require, is_addressed, lower, sort_by, str_leb,
}
use kcd2_codex_toolkit.Deployment.Identity.{
  ComponentIdentity, Error, too_many_nodes, duplicate_node, unknown_candidate, mod_differs,
  folder_differs, manifest_differs, pak_differs, native_omitted, different_record,
}
use kcd2_codex_toolkit.Deployment.Node.{DeploymentNode, node_has_eq, node_discrete}

-- What the registry reads of a candidate's artifacts and of the candidate.
pub record Artifact : Type 0 where
  pub role : String
  pub sha256 : String
  pub bytes : ℕ
  pub required_at_runtime : Bool

pub record Candidate : Type 0 where
  pub candidate_id : String
  pub mod_id : String
  pub folder_name_exact : String
  pub manifest_sha256 : String
  pub artifacts : List Artifact

pub record DeploymentRegistry : Type 0 where
  pub nodes : List DeploymentNode
  pub candidates : List Candidate

abbrev max_deployments : ℕ
max_deployments = 10_000

-- `by_candidate.get(...)`: of two records with one identifier the dictionary keeps the last.
unfoldable pub by_candidate : String → List Candidate → Option Candidate
by_candidate id [] = none
by_candidate id (c ∷ rest) = elim (by_candidate id rest) [
  | some later ↦ some later
  | none ↦ if c.candidate_id == id then some c else none
]

-- `artifact.required_at_runtime and artifact.role in {"data_pak", "localization_pak"}`
is_runtime_pak : Artifact → Bool
is_runtime_pak a = a.required_at_runtime && (a.role == "data_pak" || a.role == "localization_pak")

is_native : Artifact → Bool
is_native a = a.required_at_runtime && a.role == "native_component"

-- `observed_pak in runtime_paks`
unfoldable pub has_pak : DeploymentNode → Candidate → Bool
unfolding is_runtime_pak
has_pak node c =
    let pak = node.identity.target_pak in
    any_of (λ a. is_runtime_pak a && a.sha256 == pak.sha256 && a.bytes == pak.bytes) c.artifacts

-- `required_native.issubset(observed_companions)`
unfoldable pub has_natives : DeploymentNode → Candidate → Bool
unfolding is_native elem
has_natives node c =
    let observed = map (λ (k : ComponentIdentity). k.sha256) node.identity.companion_components in
    all_of (λ a. not (is_native a) || elem a.sha256 observed) c.artifacts

-- The body of the loop over the nodes.
unfoldable pub check_node : List Candidate → DeploymentNode → Result Error Unit
check_node candidates node = elim (by_candidate node.candidate_id candidates) [
  | none ↦ err unknown_candidate
  | some c ↦ (do
    require (node.identity.target_mod.mod_id == c.mod_id) mod_differs
    require (node.identity.target_mod.folder_name_exact == c.folder_name_exact) folder_differs
    require (node.identity.target_manifest.sha256 == c.manifest_sha256) manifest_differs
    require (has_pak node c) pak_differs
    require (has_natives node c) native_omitted)
]

unfoldable pub check_nodes : List Candidate → List DeploymentNode → Result Error Unit
check_nodes candidates [] = ok tt
check_nodes candidates (node ∷ rest) = check_node candidates node >> check_nodes candidates rest

abbrev pub ids : List DeploymentNode → List String
ids nodes = map (λ n. n.deployment_id) nodes

abbrev pub node_leb : DeploymentNode → DeploymentNode → Bool
node_leb a b = str_leb a.deployment_id b.deployment_id

-- `DeploymentRegistry.__post_init__`
unfoldable pub deployment_registry :
    List DeploymentNode → List Candidate → Result Error DeploymentRegistry
deployment_registry nodes candidates = do
  require (leb (length nodes) max_deployments) too_many_nodes
  require (is_unique (ids nodes)) duplicate_node
  check_nodes candidates nodes
  ok (record { nodes = sort_by node_leb nodes; candidates = candidates })

unfoldable pub find_node : String → List DeploymentNode → Option DeploymentNode
find_node id [] = none
find_node id (n ∷ rest) = if n.deployment_id == id then some n else find_node id rest

unfoldable pub get : DeploymentRegistry → String → Option DeploymentNode
get registry deployment_id =
    if is_addressed "deploy:sha256:" deployment_id
    then find_node (lower deployment_id) registry.nodes
    else none

unfoldable pub add : DeploymentRegistry → DeploymentNode → Result Error DeploymentRegistry
add registry node = elim (get registry node.deployment_id) [
  | some existing ↦ if existing == node then ok registry else err different_record
  | none ↦ deployment_registry (registry.nodes ++ node ∷ []) registry.candidates
]
