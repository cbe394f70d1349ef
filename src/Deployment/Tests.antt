-- ===== src/Deployment/Tests.antt =====
-- Runs of the registry, the gate and the comparison on one deployment, at which the theorems apply.
use kcd2_codex_toolkit.Base.{
  String, ◌<>◌, true, ◌&&◌, some, [], ◌∷◌, if◌then◌else◌, ◌==◌, text_has_eq, text_discrete, elem,
  is_unique, ok, all_chars, has_nul, is_hex, is_sha256, is_addressed, strip_prefix, lower, sort_by,
  insert_by, sort_texts, chosen, chosen-none, ◌≡◌, ◌↔◌, refl, ap, ◌∙◌, arith,
}
use kcd2_codex_toolkit.Base.Json.{pos, in_range}
use kcd2_codex_toolkit.Deployment.Hex.{parse_hex, print_hex}
use kcd2_codex_toolkit.Deployment.Hex.Roundtrip.{parse_hex-print_hex}
use kcd2_codex_toolkit.Deployment.Identity.{
  FileIdentity, PeIdentity, DeploymentIdentity, bounded, text, digest, is_text,
}
use kcd2_codex_toolkit.Deployment.Payload.{deployment_payload_injective}
use kcd2_codex_toolkit.Deployment.Node.{
  ActiveSnapshot, DeploymentNode, timestamp, exact_deployment, complete,
}
use kcd2_codex_toolkit.Deployment.Registry.{
  Candidate, DeploymentRegistry, by_candidate, has_pak, has_natives, check_node, check_nodes,
  deployment_registry, find_node, get, add,
}
use kcd2_codex_toolkit.Deployment.Registry.Consistent.{
  IsConsistent, IsNormal, add-IsConsistent, get-add,
}
use kcd2_codex_toolkit.Deployment.Gate.{
  install_validation, GateDecision, gate_decision, gate_reasons, proposed, authorize_fresh_snapshot,
}
use kcd2_codex_toolkit.Deployment.Gate.Fresh.{IsFresh, IsFresh-reasons, allowed_iff_IsFresh}
use kcd2_codex_toolkit.Deployment.Gate.Total.{IsWellFormed, authorize_answers}
use kcd2_codex_toolkit.Deployment.Binding.{compare_deployment_bindings, promotion_iff_equal}

abbrev pub zeros : String
zeros = "0000000000000000000000000000000000000000000000000000000000000000"

abbrev pub candidate_id : String
candidate_id = "cand:sha256:" <> zeros

abbrev pub node_id : String
node_id = "deploy:sha256:" <> zeros

abbrev a_file : FileIdentity
a_file = record { path = "data.pak"; sha256 = zeros; bytes = 10 }

abbrev a_module : PeIdentity
a_module = record { name = "game.exe"; sha256 = zeros; timestamp = "0x1F"; image_size = 4096 }

abbrev pub an_identity : DeploymentIdentity
an_identity = record {
  candidate_id = candidate_id;
  target_mod = record { mod_id = "ore"; folder_name_exact = "ore" };
  target_pak = a_file;
  target_manifest = a_file;
  mod_order = a_file;
  companion_components = [];
  game = record { version = "1.2"; executable = a_module; whgame = a_module };
}

abbrev pub a_node : DeploymentNode
a_node = record {
  deployment_id = node_id;
  candidate_id = candidate_id;
  snapshot_id = "snap";
  snapshot_sha256 = zeros;
  identity = an_identity;
}

abbrev a_candidate : Candidate
a_candidate = record {
  candidate_id = candidate_id;
  mod_id = "ore";
  folder_name_exact = "ore";
  manifest_sha256 = zeros;
  artifacts =
      record { role = "data_pak"; sha256 = zeros; bytes = 10; required_at_runtime = true } ∷ [];
}

abbrev empty_registry : DeploymentRegistry
empty_registry = record { nodes = []; candidates = a_candidate ∷ [] }

abbrev pub a_registry : DeploymentRegistry
a_registry = record { nodes = a_node ∷ []; candidates = a_candidate ∷ [] }

abbrev pub a_snapshot : ActiveSnapshot
a_snapshot = record {
  snapshot_id = "snap";
  snapshot_sha256 = zeros;
  captured_at = 1000;
  scope = exact_deployment;
  coverage = complete;
  identity = an_identity;
}

abbrev pub a_decision : GateDecision
a_decision = record {
  operation = install_validation;
  deployment_id = node_id;
  snapshot_id = "snap";
  snapshot_sha256 = zeros;
  allowed = true;
  status = "fresh_exact";
  reason_codes = [];
}

a_node-registered : deployment_registry (a_node ∷ []) (a_candidate ∷ []) ≡ ok a_registry
unfolding deployment_registry check_nodes check_node by_candidate has_pak has_natives is_unique elem
    sort_by insert_by text_discrete
a_node-registered = refl

a_node-added : add empty_registry a_node ≡ ok a_registry
unfolding add get find_node deployment_registry check_nodes check_node by_candidate has_pak
    has_natives is_unique elem sort_by insert_by text_discrete is_addressed strip_prefix is_sha256
    all_chars is_hex lower
a_node-added = refl

a_snapshot-IsFresh : IsFresh a_snapshot a_node 2000 60
a_snapshot-IsFresh = record {
  exact = refl;
  covered = refl;
  not_future = omega arith;
  not_stale = omega arith;
  same_id = refl;
  same_hash = refl;
  same_identity = refl;
}

a_registry-get : get a_registry node_id ≡ some a_node
unfolding get find_node is_addressed strip_prefix is_sha256 all_chars is_hex lower text_discrete
a_registry-get = refl

no_reasons : chosen (gate_reasons a_snapshot (get a_registry node_id) 2000 60) ≡ []
no_reasons =
    rw a_registry-get (chosen-none _ (IsFresh-reasons a_snapshot 2000 60 a_node a_snapshot-IsFresh))

a_decision-checked :
    gate_decision (proposed node_id a_snapshot install_validation []) ≡ ok a_decision
unfolding gate_decision text digest is_text has_nul is_addressed strip_prefix is_sha256 all_chars
    is_hex lower sort_texts sort_by is_unique text_discrete
a_decision-checked = refl

pub a_decision-made :
    authorize_fresh_snapshot a_registry node_id a_snapshot install_validation
      (record { instant = 2000; has_offset = true })
      (pos 60)
    ≡ ok a_decision
unfolding authorize_fresh_snapshot timestamp bounded in_range
a_decision-made =
    ap (λ r. gate_decision (proposed node_id a_snapshot install_validation r)) no_reasons
    ∙ a_decision-checked

empty_registry-IsConsistent : IsConsistent empty_registry
unfolding is_unique
empty_registry-IsConsistent = record { bounded = omega arith; distinct = refl; admitted = tt }

a_node-IsNormal : IsNormal a_node
unfolding is_addressed strip_prefix is_sha256 all_chars is_hex lower
a_node-IsNormal = record { addressed = refl; lowered = refl }

a_snapshot-IsWellFormed : IsWellFormed a_snapshot
unfolding is_text has_nul is_sha256 all_chars is_hex
a_snapshot-IsWellFormed = record { id_text = refl; hash_hex = refl }

parse_hex-print_hex_example : parse_hex (print_hex 3_735_928_559) ≡ some 3_735_928_559
parse_hex-print_hex_example = parse_hex-print_hex 3_735_928_559 (omega arith)

deployment_payload_injective_example :
    (an_identity ≡ an_identity) × (a_node.snapshot_id ≡ a_snapshot.snapshot_id) × (zeros ≡ zeros)
deployment_payload_injective_example =
    deployment_payload_injective an_identity an_identity "snap" "snap" zeros zeros refl

add-IsConsistent_example : IsConsistent a_registry
add-IsConsistent_example =
    add-IsConsistent empty_registry a_node empty_registry-IsConsistent a_node-added

get-add_example : get a_registry node_id ≡ (
    if is_addressed "deploy:sha256:" node_id && node_id == lower node_id
    then some a_node
    else get empty_registry node_id)
get-add_example =
    get-add empty_registry a_node node_id empty_registry-IsConsistent a_node-IsNormal a_node-added

allowed_iff_IsFresh_example :
    (a_decision.allowed ≡ true)
    ↔ ((n : DeploymentNode) × (get a_registry node_id ≡ some n) × IsFresh a_snapshot n 2000 60)
allowed_iff_IsFresh_example =
    allowed_iff_IsFresh a_registry node_id a_snapshot install_validation 2000 60 a_decision-made

authorize_answers_example :
    (d : GateDecision) × (authorize_fresh_snapshot a_registry node_id a_snapshot install_validation
        (record { instant = 2000; has_offset = true })
        (pos 60)
      ≡ ok d)
unfolding is_addressed strip_prefix is_sha256 all_chars is_hex
authorize_answers_example =
    authorize_answers a_registry node_id a_snapshot install_validation 2000 60 refl
      a_snapshot-IsWellFormed (omega arith) (omega arith)

promotion_iff_equal_example :
    ((compare_deployment_bindings a_node a_node).candidate_promotion_allowed ≡ true)
    ↔ (a_node ≡ a_node)
promotion_iff_equal_example = promotion_iff_equal a_node a_node refl refl
