-- ===== src/Candidates/Registry/Installed.antt =====
-- What the check of installed files guarantees.
use kcd2_codex_toolkit.Base.{
  true, ◌&&◌, some, List, [], ◌∷◌, ◌==◌, text_has_eq, nat_has_eq, any_of, ok, require, >>=-eq-ok,
  All, All-map, Any, here, there, ◌≡◌, arith, Option-cases, Bool-cases, inl, inr,
}
use kcd2_codex_toolkit.Candidates.Identity.{too_many_installed, ArtifactIdentity}
use kcd2_codex_toolkit.Candidates.Record.{CandidateRecord, InstalledArtifact, record_has_eq}
use kcd2_codex_toolkit.Candidates.Dag.{find_record}
use kcd2_codex_toolkit.Candidates.Registry.{
  CandidateRegistry, each, check_installed, validate_installed_artifacts,
}
use kcd2_codex_toolkit.Candidates.Registry.Lineage.{each-All}

-- An installed file that a registered candidate holds with the same path, digest and size.
abbrev pub IsRegistered : List CandidateRecord → InstalledArtifact → Type 0
IsRegistered records item =
    (r : CandidateRecord) × (find_record item.candidate_id records ≡ some r)
    × Any
        (λ (a : ArtifactIdentity).
          (a.logical_path ≡ item.logical_path) × (a.sha256 ≡ item.sha256) × (a.bytes ≡ item.bytes))
        r.identity.artifacts

any_of-Any :
    (item : InstalledArtifact) (l : List ArtifactIdentity)
    → any_of
        (λ (a : ArtifactIdentity).
          a.logical_path == item.logical_path && a.sha256 == item.sha256 && a.bytes == item.bytes)
        l
      ≡ true
    → Any
        (λ (a : ArtifactIdentity).
          (a.logical_path ≡ item.logical_path) × (a.sha256 ≡ item.sha256) × (a.bytes ≡ item.bytes))
        l
any_of-Any item [] h = cc
any_of-Any item (a ∷ l) h =
    elim (Bool-cases
      (a.logical_path == item.logical_path && a.sha256 == item.sha256 && a.bytes == item.bytes)) [
        | inl e ↦ here (
            ground (
              arith,
              e,
              text_has_eq.eq_iff a.logical_path item.logical_path,
              text_has_eq.eq_iff a.sha256 item.sha256,
              nat_has_eq.eq_iff a.bytes item.bytes,
            ))
        | inr e ↦ there (any_of-Any item l (ground (arith, e, h)))
      ]

check_installed-IsRegistered :
    (records : List CandidateRecord) (item : InstalledArtifact)
    → check_installed records item ≡ ok tt
    → IsRegistered records item
unfolding check_installed
check_installed-IsRegistered records item h =
    elim (Option-cases (find_record item.candidate_id records)) [
      | inl e ↦ ground (arith, e, h)
      | inr (r, e) ↦ (r, e, any_of-Any item r.identity.artifacts (ground (arith, e, h)))
    ]

-- Installed files pass only if every one of them is held by a registered candidate under its path,
-- with its digest and its size.
pub validate_installed_artifacts-IsRegistered :
    (r : CandidateRegistry) (observed : List InstalledArtifact)
    → validate_installed_artifacts r observed ≡ ok tt
    → All (IsRegistered r.records) observed
unfolding validate_installed_artifacts
validate_installed_artifacts-IsRegistered r observed h =
    let (_, _, checked) =
      >>=-eq-ok (require _ too_many_installed) (λ _. each (check_installed r.records) observed) h in
    All-map observed (check_installed-IsRegistered r.records)
      (each-All (check_installed r.records) observed checked)
