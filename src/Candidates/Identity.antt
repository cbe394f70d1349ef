-- ===== src/Candidates/Identity.antt =====
-- The checked values and the immutable identity of a candidate. A constructor such as
-- `artifact_identity` is the dataclass's `__post_init__`: it checks and normalises the fields.
use kcd2_codex_toolkit.Base.{
  ℕ, String, ◌<>◌, Bool, ◌&&◌, Option, none, some, List, [], ◌∷◌, map, leb, if◌then◌else◌,
  text_has_eq, elem, is_unique, length, all_of, Result, ok, err, ◌>>=◌, ◌>>◌, require, len, len_in,
  is_sha256, strip_prefix, lower,
}
use kcd2_codex_toolkit.Base.Json.{ℤ, in_range}
use kcd2_codex_toolkit.Deployment.Identity.{is_mod_id}

-- `CandidateRegistryError` and its subclasses, with what they name. `missing_key` is a KeyError, and
-- `out_of_fuel` is no error of the program: it is proved not to occur. `recursion_error` is the
-- RecursionError of the interpreter.
pub data Error : Type 0 where
  bad_string bad_sha256 bad_candidate_id : String → Error
  bad_refs duplicate_refs bad_role bad_bytes bad_mod_id long_mod_id bad_artifacts : Error
  duplicate_path half_parent id_mismatch too_many_aliases duplicate_alias bad_alias_type : Error
  too_many_edges duplicate_edge self_edge bad_edge_type : Error
  too_many_records duplicate_record different_record : Error
  unknown_target undeclared_parent bad_parent_edge unknown_parent absent_parent_artifact : Error
  lineage_cycle missing_key : String → Error
  no_variant_key no_variant_edges : String → Error
  too_many_installed unknown_installed differs_installed : Error
  out_of_fuel : Error
  recursion_error : Error

-- `_bounded_string`
unfoldable pub bounded_string : String → String → ℕ → ℕ → Result Error String
bounded_string value field minimum maximum = do
  require (len_in minimum maximum value) (bad_string field)
  ok value

-- `_sha256`
unfoldable pub checked_sha256 : String → String → Result Error String
checked_sha256 value field = do require (is_sha256 value) (bad_sha256 field); ok (lower value)

-- `_candidate_id`
unfoldable pub checked_candidate_id : String → String → Result Error String
checked_candidate_id value field = elim (strip_prefix "cand:sha256:" value) [
  | none ↦ err (bad_candidate_id field)
  | some digest ↦
      if is_sha256 digest then ok ("cand:sha256:" <> lower digest) else err (bad_candidate_id field)
]

-- `_evidence_refs`
unfoldable pub checked_refs : List String → Result Error (List String)
checked_refs refs = do
  require (leb 1 (length refs) && leb (length refs) 256) bad_refs
  require (all_of (len_in 1 512) refs) (bad_string "evidence_refs item")
  require (is_unique refs) duplicate_refs
  ok refs

abbrev pub max_artifact_bytes : ℕ
max_artifact_bytes = 1_099_511_627_776

abbrev pub artifact_roles : List String
artifact_roles =
    "data_pak" ∷ "localization_pak" ∷ "manifest" ∷ "config" ∷ "native_component" ∷ "other" ∷ []

-- `0 <= value <= MAX_ARTIFACT_BYTES`
unfoldable pub checked_bytes : ℤ → Result Error ℕ
unfolding in_range
checked_bytes value = elim (in_range 0 max_artifact_bytes value) [
  | none ↦ err bad_bytes
  | some n ↦ ok n
]

pub record ArtifactIdentity : Type 0 where
  pub role : String
  pub logical_path : String
  pub sha256 : String
  pub bytes : ℕ
  pub required_at_runtime : Bool

unfoldable pub artifact_identity :
    String → String → String → ℤ → Bool → Result Error ArtifactIdentity
artifact_identity role logical_path sha256 bytes required_at_runtime = do
  require (elem role artifact_roles) bad_role
  path ← bounded_string logical_path "logical_path" 1 2048
  digest ← checked_sha256 sha256 "artifact sha256"
  size ← checked_bytes bytes
  ok (record {
    role = role;
    logical_path = path;
    sha256 = digest;
    bytes = size;
    required_at_runtime = required_at_runtime;
  })

pub record ToolchainIdentity : Type 0 where
  pub id : String
  pub version : String
  pub lock_sha256 : String

unfoldable pub toolchain_identity : String → String → String → Result Error ToolchainIdentity
toolchain_identity id version lock_sha256 = do
  i ← bounded_string id "toolchain id" 1 256
  v ← bounded_string version "toolchain version" 1 256
  lock ← checked_sha256 lock_sha256 "toolchain lock_sha256"
  ok (record { id = i; version = v; lock_sha256 = lock })

pub record CandidateIdentity : Type 0 where
  pub mod_id : String
  pub folder_name_exact : String
  pub manifest_sha256 : String
  pub artifacts : List ArtifactIdentity
  pub parent_candidate_id : Option String
  pub parent_artifact_sha256 : Option String
  pub change_ledger_sha256 : String
  pub source_revision : Option String
  pub source_tree_sha256 : String
  pub build_recipe_sha256 : String
  pub toolchain : ToolchainIdentity

-- The two fields of the parent, both given or both absent.
unfoldable pub checked_parent :
    Option String → Option String → Result Error (Option String × Option String)
checked_parent none none = ok (none, none)
checked_parent (some id) (some sha256) = do
  i ← checked_candidate_id id "parent_candidate_id"
  d ← checked_sha256 sha256 "parent_artifact_sha256"
  ok (some i, some d)
checked_parent _ _ = err half_parent

unfoldable pub checked_revision : Option String → Result Error (Option String)
checked_revision none = ok none
checked_revision (some revision) = do
  r ← bounded_string revision "source_revision" 1 256
  ok (some r)

-- `CandidateIdentity.__post_init__`
unfoldable pub candidate_identity : CandidateIdentity → Result Error CandidateIdentity
candidate_identity given = do
  require (is_mod_id given.mod_id) bad_mod_id
  require (leb (len given.mod_id) 200) long_mod_id
  folder ← bounded_string given.folder_name_exact "folder_name_exact" 1 260
  manifest ← checked_sha256 given.manifest_sha256 "manifest_sha256"
  require (leb 1 (length given.artifacts) && leb (length given.artifacts) 128) bad_artifacts
  require (is_unique (map (λ (a : ArtifactIdentity). a.logical_path) given.artifacts))
      duplicate_path
  parent ← checked_parent given.parent_candidate_id given.parent_artifact_sha256
  ledger ← checked_sha256 given.change_ledger_sha256 "change_ledger_sha256"
  revision ← checked_revision given.source_revision
  tree ← checked_sha256 given.source_tree_sha256 "source_tree_sha256"
  recipe ← checked_sha256 given.build_recipe_sha256 "build_recipe_sha256"
  ok (record given {
    folder_name_exact = folder;
    manifest_sha256 = manifest;
    parent_candidate_id = parent.0;
    parent_artifact_sha256 = parent.1;
    change_ledger_sha256 = ledger;
    source_revision = revision;
    source_tree_sha256 = tree;
    build_recipe_sha256 = recipe;
  })
