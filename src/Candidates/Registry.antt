-- ===== src/Candidates/Registry.antt =====
-- `CandidateRegistry`: the checks of its constructor, the addition of a record, and the test of
-- what is installed.
pub mod Lineage
pub mod Installed
pub mod Sane
pub mod Total
use kcd2_codex_toolkit.Base.{
  ℕ, ◌*◌, max, String, Bool, true, false, not, ◌&&◌, ◌||◌, Option, none, some, List, [], ◌∷◌, ◌++◌,
  map, leb, if◌then◌else◌, ◌==◌, text_has_eq, nat_has_eq, elem, is_unique, length, is_empty, all_of,
  any_of, str_leb, sort_by, Result, ok, err, ◌>>=◌, ◌>>◌, require, refuse,
}
use kcd2_codex_toolkit.Candidates.Identity.{
  ArtifactIdentity, Error, too_many_records, duplicate_record, different_record, unknown_target,
  undeclared_parent, bad_parent_edge, unknown_parent, absent_parent_artifact, too_many_installed,
  unknown_installed, differs_installed,
}
use kcd2_codex_toolkit.Candidates.Record.{
  CandidateRecord, LineageEdge, InstalledArtifact, record_has_eq,
}
use kcd2_codex_toolkit.Candidates.Dag.{find_record, ids, targets, fold_all, validate_acyclic}
use kcd2_codex_toolkit.Candidates.Aliases.{validate_aliases}

pub record CandidateRegistry : Type 0 where
  pub records : List CandidateRecord

abbrev pub record_leb : CandidateRecord → CandidateRecord → Bool
record_leb a b = str_leb a.candidate_id b.candidate_id

-- `for ...: check(...)`
abbrev pub each : {A : Type 0} → (A → Result Error Unit) → List A → Result Error Unit
each check [] = ok tt
each check (x ∷ rest) = check x >> each check rest

-- `_validate_lineage_targets`
unfoldable pub validate_lineage_targets : List CandidateRecord → Result Error Unit
validate_lineage_targets records =
    each (λ r. require (all_of (λ t. elem t (ids records)) (targets r)) unknown_target) records

-- The edges to a parent.
abbrev pub parent_edges : List LineageEdge → List LineageEdge
parent_edges [] = []
parent_edges (e ∷ rest) =
    let more = parent_edges rest in
    if e.edge_type == "derived_from" || e.edge_type == "rebuilt_from" then e ∷ more else more

abbrev pub is_only_edge_to : String → List LineageEdge → Bool
is_only_edge_to parent (e ∷ []) = e.other_candidate_id == parent
is_only_edge_to parent _ = false

-- `record.identity.parent_artifact_sha256 in parent_hashes`
abbrev pub is_artifact_of : Option String → List ArtifactIdentity → Bool
is_artifact_of none artifacts = false
is_artifact_of (some sha256) artifacts =
    any_of (λ (a : ArtifactIdentity). a.sha256 == sha256) artifacts

-- The body of `_validate_parent_bindings`
unfoldable pub check_parent : List CandidateRecord → CandidateRecord → Result Error Unit
check_parent records r = elim r.identity.parent_candidate_id [
  | none ↦ require (is_empty (parent_edges r.lineage)) undeclared_parent
  | some parent_id ↦ (do
    require (is_only_edge_to parent_id (parent_edges r.lineage)) bad_parent_edge
    elim (find_record parent_id records) [
      | none ↦ err unknown_parent
      | some parent ↦
          require (is_artifact_of r.identity.parent_artifact_sha256 parent.identity.artifacts)
            absent_parent_artifact
    ])
]

unfoldable pub validate_parent_bindings : List CandidateRecord → Result Error Unit
validate_parent_bindings records = each (check_parent records) records

module _ (casefold : String → String) (frames : ℕ) where
  -- `CandidateRegistry.__post_init__`
  unfoldable pub candidate_registry : List CandidateRecord → Result Error CandidateRegistry
  candidate_registry given = do
    require (leb (length given) 10_000) too_many_records
    require (is_unique (ids given)) duplicate_record
    let records = sort_by record_leb given
    validate_lineage_targets records
    validate_parent_bindings records
    validate_acyclic records frames
    validate_aliases casefold records
    ok (record { records = records })

  unfoldable pub add : CandidateRegistry → CandidateRecord → Result Error CandidateRegistry
  add registry r = elim (find_record r.candidate_id registry.records) [
    | some existing ↦ if existing == r then ok registry else err different_record
    | none ↦ candidate_registry (registry.records ++ r ∷ [])
  ]

-- The body of the loop of `validate_installed_artifacts`
unfoldable pub check_installed : List CandidateRecord → InstalledArtifact → Result Error Unit
check_installed records item = elim (find_record item.candidate_id records) [
  | none ↦ err unknown_installed
  | some r ↦
      require
        (any_of
          (λ (a : ArtifactIdentity).
            a.logical_path == item.logical_path && a.sha256 == item.sha256 && a.bytes == item.bytes)
          r.identity.artifacts)
        differs_installed
]

unfoldable pub validate_installed_artifacts :
    CandidateRegistry → List InstalledArtifact → Result Error Unit
validate_installed_artifacts registry observed = do
  require (leb (length observed) (128 * max 1 (length registry.records))) too_many_installed
  each (check_installed registry.records) observed
