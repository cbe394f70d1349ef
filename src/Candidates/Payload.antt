-- ===== src/Candidates/Payload.antt =====
-- The canonical payload that a candidate's identifier hashes, and what two candidates with one
-- payload have in common.
use mathlib.Core.List.{Perm}
use mathlib.Core.List.Perm
use kcd2_codex_toolkit.Base.{
  String, ◌<>◌, Bool, not, Option, none, some, List, [], ◌∷◌, leb, if◌then◌else◌, ◌==◌, text_has_eq,
  nat_has_eq, ◌≡◌, refl, sym, arith, subst, str_leb, sort_by, sort_by-perm,
}
use kcd2_codex_toolkit.Base.Json.{Json, null, bool, int, str, arr, obj, end, field, items, pos}
use kcd2_codex_toolkit.Candidates.Identity.{ArtifactIdentity, ToolchainIdentity, CandidateIdentity}

unfoldable pub artifact_payload : ArtifactIdentity → Json
artifact_payload a = obj (
    field "bytes" (int (pos a.bytes)) (
      field "logical_path" (str a.logical_path) (
        field "required_at_runtime" (bool a.required_at_runtime)
          (field "role" (str a.role) (field "sha256" (str a.sha256) end)))))

unfoldable pub toolchain_payload : ToolchainIdentity → Json
toolchain_payload t = obj (
    field "id" (str t.id)
      (field "lock_sha256" (str t.lock_sha256) (field "version" (str t.version) end)))

-- The order of `(logical_path, role, sha256, bytes)`
abbrev pub artifact_leb : ArtifactIdentity → ArtifactIdentity → Bool
artifact_leb a b =
    if not (a.logical_path == b.logical_path)
    then str_leb a.logical_path b.logical_path
    else if not (a.role == b.role)
    then str_leb a.role b.role
    else if not (a.sha256 == b.sha256)
    then str_leb a.sha256 b.sha256
    else leb a.bytes b.bytes

unfoldable pub optional_str : Option String → Json
optional_str none = null
optional_str (some s) = str s

-- `CandidateIdentity.identity_payload`
unfoldable pub identity_payload : CandidateIdentity → Json
identity_payload c = obj (
    field "artifact_set" (arr (items artifact_payload (sort_by artifact_leb c.artifacts))) (
      field "build_recipe_sha256" (str c.build_recipe_sha256) (
        field "change_ledger_sha256" (str c.change_ledger_sha256) (
          field "folder_name_exact" (str c.folder_name_exact) (
            field "identity_version" (str "kcd2.candidate-identity.v1") (
              field "manifest_sha256" (str c.manifest_sha256) (
                field "mod_id" (str c.mod_id) (
                  field "parent"
                    (obj (
                      field "artifact_sha256" (optional_str c.parent_artifact_sha256)
                        (field "candidate_id" (optional_str c.parent_candidate_id) end)))
                    (field "source_revision" (optional_str c.source_revision) (
                      field "source_tree_sha256" (str c.source_tree_sha256)
                        (field "toolchain" (toolchain_payload c.toolchain) end)))))))))))

-- `canonical_candidate_id`, for the hash of the canonical encoding
unfoldable pub canonical_candidate_id : (Json → String) → CandidateIdentity → String
canonical_candidate_id sha256 identity = "cand:sha256:" <> sha256 (identity_payload identity)

artifact_payload_inj : (a b : ArtifactIdentity) → artifact_payload a ≡ artifact_payload b → a ≡ b
unfolding artifact_payload
artifact_payload_inj a b h = ground arith

artifacts_inj :
    (l m : List ArtifactIdentity) → items artifact_payload l ≡ items artifact_payload m → l ≡ m
unfolding items
artifacts_inj [] [] h = refl
artifacts_inj [] (b ∷ m) h = cc
artifacts_inj (a ∷ l) [] h = cc
artifacts_inj (a ∷ l) (b ∷ m) h = ground (arith, artifact_payload_inj a b, artifacts_inj l m)

optional_str_inj : (a b : Option String) → optional_str a ≡ optional_str b → a ≡ b
unfolding optional_str
optional_str_inj a b h = ground arith

toolchain_payload_inj :
    (a b : ToolchainIdentity) → toolchain_payload a ≡ toolchain_payload b → a ≡ b
unfolding toolchain_payload
toolchain_payload_inj a b h = ground arith

-- Two candidates that differ at most in the order of their artifacts.
pub record IsSameCandidate (a b : CandidateIdentity) : Type 0 where
  pub others : record a { artifacts = [] } ≡ record b { artifacts = [] }
  pub artifacts : Perm a.artifacts b.artifacts

others_inj :
    (a b : CandidateIdentity)
    → identity_payload a ≡ identity_payload b
    → (record a { artifacts = [] } ≡ record b { artifacts = [] })
      × (sort_by artifact_leb a.artifacts ≡ sort_by artifact_leb b.artifacts)
unfolding identity_payload
others_inj a b h = ground (
  arith,
  artifacts_inj (sort_by artifact_leb a.artifacts) (sort_by artifact_leb b.artifacts),
  optional_str_inj a.parent_artifact_sha256 b.parent_artifact_sha256,
  optional_str_inj a.parent_candidate_id b.parent_candidate_id,
  optional_str_inj a.source_revision b.source_revision,
  toolchain_payload_inj a.toolchain b.toolchain,
)

-- Two candidates whose hashed payloads agree have the same identity in every field, up to the order
-- in which the artifacts were given.
pub identity_payload-IsSameCandidate :
    (a b : CandidateIdentity) → identity_payload a ≡ identity_payload b → IsSameCandidate a b
identity_payload-IsSameCandidate a b h =
    let (others, sorted) = others_inj a b h in
    record {
      others = others;
      artifacts =
          Perm.trans (Perm.symm (sort_by-perm artifact_leb a.artifacts))
            (subst (λ l. Perm l b.artifacts) (sym sorted) (sort_by-perm artifact_leb b.artifacts));
    }
