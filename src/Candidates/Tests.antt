-- ===== src/Candidates/Tests.antt =====
-- Two candidates, the second a variant derived from the first, at which the theorems apply.
use kcd2_codex_toolkit.Base.{
  here, there, ◌≤◌, length, String, true, none, some, List, [], ◌∷◌, if◌then◌else◌, ◌==◌,
  text_has_eq, elem, is_unique, sort_by, insert_by, sort_texts, ok, err, All, ◌≡◌, ◌⊎◌, refl,
}
use kcd2_codex_toolkit.Deployment.Tests.{zeros}
use kcd2_codex_toolkit.Candidates.Identity.{
  ArtifactIdentity, CandidateIdentity, lineage_cycle, recursion_error, duplicate_record,
}
use kcd2_codex_toolkit.Candidates.Payload.{IsSameCandidate, identity_payload-IsSameCandidate}
use kcd2_codex_toolkit.Candidates.Record.{CandidateAlias, CandidateRecord, InstalledArtifact}
use kcd2_codex_toolkit.Candidates.Dag.{find_record, visit, validate_acyclic}
use kcd2_codex_toolkit.Candidates.Dag.Sound.{Descends}
use kcd2_codex_toolkit.Candidates.Dag.Complete.{validate_acyclic_answers}
use kcd2_codex_toolkit.Candidates.Aliases.{
  neighbors, spread, reached, check_shared, validate_aliases,
}
use kcd2_codex_toolkit.Candidates.Aliases.Joined.{Joined}
use kcd2_codex_toolkit.Candidates.Aliases.Pairs.{validate_aliases_joins}
use kcd2_codex_toolkit.Candidates.Registry.{
  CandidateRegistry, validate_lineage_targets, check_parent, validate_parent_bindings,
  candidate_registry, add, check_installed, validate_installed_artifacts,
}
use kcd2_codex_toolkit.Candidates.Registry.Lineage.{
  IsLineage, candidate_registry-IsLineage, find_record-add,
}
use kcd2_codex_toolkit.Candidates.Registry.Installed.{
  IsRegistered, validate_installed_artifacts-IsRegistered,
}
use kcd2_codex_toolkit.Candidates.Registry.Total.{candidate_registry-IsRaised, IsRaised}

abbrev an_artifact : ArtifactIdentity
an_artifact = record {
  role = "data_pak";
  logical_path = "data.pak";
  sha256 = zeros;
  bytes = 10;
  required_at_runtime = true;
}

abbrev an_identity : CandidateIdentity
an_identity = record {
  mod_id = "ore";
  folder_name_exact = "ore";
  manifest_sha256 = zeros;
  artifacts = an_artifact ∷ [];
  parent_candidate_id = none;
  parent_artifact_sha256 = none;
  change_ledger_sha256 = zeros;
  source_revision = none;
  source_tree_sha256 = zeros;
  build_recipe_sha256 = zeros;
  toolchain = record { id = "tool"; version = "1"; lock_sha256 = zeros };
}

abbrev an_alias : CandidateAlias
an_alias = record { label = "ore"; alias_type = "version"; variant_key = some "k" }

abbrev first : CandidateRecord
first = record { candidate_id = "a"; identity = an_identity; aliases = an_alias ∷ []; lineage = [] }

abbrev second : CandidateRecord
second = record {
  candidate_id = "b";
  identity = record an_identity {
    parent_candidate_id = some "a";
    parent_artifact_sha256 = some zeros;
  };
  aliases = an_alias ∷ [];
  lineage =
      record { edge_type = "derived_from"; other_candidate_id = "a"; evidence_refs = "r" ∷ [] }
      ∷ record { edge_type = "variant_of"; other_candidate_id = "a"; evidence_refs = "r" ∷ [] }
      ∷ [];
}

-- Python's `casefold` on texts that are in lower case already.
abbrev same_case : String → String
same_case s = s

abbrev one : CandidateRegistry
one = record { records = first ∷ [] }

abbrev two : CandidateRegistry
two = record { records = first ∷ second ∷ [] }

one-made : candidate_registry same_case 100 (first ∷ []) ≡ ok one
unfolding candidate_registry is_unique elem sort_by insert_by validate_lineage_targets
    validate_parent_bindings check_parent validate_acyclic visit sort_texts validate_aliases
    check_shared
one-made = refl

two-made : candidate_registry same_case 100 (second ∷ first ∷ []) ≡ ok two
unfolding candidate_registry is_unique elem sort_by insert_by validate_lineage_targets
    validate_parent_bindings check_parent validate_acyclic visit sort_texts validate_aliases
    check_shared reached spread neighbors
two-made = refl

second-added : add same_case 100 one second ≡ ok two
unfolding add candidate_registry is_unique elem sort_by insert_by validate_lineage_targets
    validate_parent_bindings check_parent validate_acyclic visit sort_texts validate_aliases
    check_shared reached spread neighbors
second-added = refl

abbrev an_installed : InstalledArtifact
an_installed = record { candidate_id = "b"; logical_path = "data.pak"; sha256 = zeros; bytes = 10 }

installed-checked : validate_installed_artifacts two (an_installed ∷ []) ≡ ok tt
unfolding validate_installed_artifacts check_installed
installed-checked = refl

two-aliases : validate_aliases same_case (first ∷ second ∷ []) ≡ ok tt
unfolding validate_aliases check_shared elem reached spread neighbors
two-aliases = refl

repeated-raises : candidate_registry same_case 100 (first ∷ first ∷ []) ≡ err duplicate_record
unfolding candidate_registry is_unique elem
repeated-raises = refl

identity_payload-IsSameCandidate_example : IsSameCandidate an_identity an_identity
identity_payload-IsSameCandidate_example =
    identity_payload-IsSameCandidate an_identity an_identity refl

candidate_registry-IsLineage_example : IsLineage two
candidate_registry-IsLineage_example =
    candidate_registry-IsLineage same_case 100 (second ∷ first ∷ []) two-made

find_record-add_example :
    find_record "a" two.records
    ≡ (if second.candidate_id == "a" then some second else find_record "a" one.records)
find_record-add_example = find_record-add same_case 100 one second "a" second-added

validate_installed_artifacts-IsRegistered_example :
    All (IsRegistered two.records) (an_installed ∷ [])
validate_installed_artifacts-IsRegistered_example =
    validate_installed_artifacts-IsRegistered two (an_installed ∷ []) installed-checked

validate_aliases_joins_example :
    (first.candidate_id ≡ second.candidate_id)
    ⊎ ((k : String) × (an_alias.variant_key ≡ some k)
        × (an_alias.variant_key ≡ some k)
        × Joined two.records first.candidate_id second.candidate_id)
validate_aliases_joins_example =
    validate_aliases_joins same_case two.records first second an_alias an_alias two-aliases
      (here refl) (there (here refl)) (here refl) (here refl) refl

candidate_registry-IsRaised_example : IsRaised 100 (first ∷ first ∷ []) duplicate_record
candidate_registry-IsRaised_example =
    candidate_registry-IsRaised same_case 100 (first ∷ first ∷ []) duplicate_record repeated-raises

-- A lineage of two candidates needs a second frame.
a_frame_is_missing : validate_acyclic (second ∷ first ∷ []) 1 ≡ err recursion_error
unfolding validate_acyclic visit sort_texts elem sort_by insert_by
a_frame_is_missing = refl

validate_acyclic_answers_example :
    ((seen : List String) × (validate_acyclic two.records 100 ≡ ok seen))
    ⊎ ((c : String) × Descends two.records c c
        × (validate_acyclic two.records 100 ≡ err (lineage_cycle c)))
    ⊎ ((100 ≤ length two.records) × (validate_acyclic two.records 100 ≡ err recursion_error))
validate_acyclic_answers_example =
    validate_acyclic_answers two.records candidate_registry-IsLineage_example.closed 100
