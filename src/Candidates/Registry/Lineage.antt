-- ===== src/Candidates/Registry/Lineage.antt =====
-- What a registry of candidates that was accepted guarantees of their lineage.
use kcd2_codex_toolkit.Base.{
  ℕ, ◌≤◌, String, true, Option, none, some, List, [], ◌∷◌, ◌++◌, leb, leb→le, if◌then◌else◌, ◌==◌,
  text_has_eq, nat_has_eq, elem, is_unique, length, is_empty-eq-nil, all_of, all_of-All, sort_by,
  length-sort_by, Result, ok, require, >>=-eq-ok, require-eq-ok, All, All-map, All-elem, ◌≡◌, ◌⊎◌,
  sym, ◌∙◌, arith, Option-cases, Bool-cases, inl, inr, subst, lookup-sort_by, lookup-append_one,
  is_unique-keys-sort_by,
}
use kcd2_codex_toolkit.Candidates.Identity.{Error, unknown_target}
use kcd2_codex_toolkit.Candidates.Record.{CandidateRecord, LineageEdge, record_has_eq}
use kcd2_codex_toolkit.Candidates.Dag.{record_key, find_record, ids, targets, validate_acyclic}
use kcd2_codex_toolkit.Candidates.Dag.Sound.{Descends, validate_acyclic-Descends}
use kcd2_codex_toolkit.Candidates.Dag.Complete.{IsClosed}
use kcd2_codex_toolkit.Candidates.Registry.{
  CandidateRegistry, record_leb, each, validate_lineage_targets, parent_edges, is_only_edge_to,
  is_artifact_of, check_parent, validate_parent_bindings, candidate_registry, add,
}

pub each-All :
    {A : Type 0} (check : A → Result Error Unit) (l : List A)
    → each check l ≡ ok tt
    → All (λ x. check x ≡ ok tt) l
each-All check [] h = tt
each-All check (x ∷ rest) h =
    let (u, first, more) = >>=-eq-ok (check x) (λ _. each check rest) h in
    (first, each-All check rest more)

find_record-All :
    (P : CandidateRecord → Type 0) (records : List CandidateRecord) (id : String)
    (r : CandidateRecord)
    → All P records
    → find_record id records ≡ some r
    → P r
find_record-All P [] id r h found = cc
find_record-All P (x ∷ records) id r h found = elim (Bool-cases (x.candidate_id == id)) [
  | inl e ↦ subst P (ground (arith, e, found)) h.0
  | inr e ↦ find_record-All P records id r h.1 (ground (arith, e, found))
]

-- The parent that the identity names is registered, has the artifact that was changed, and is the
-- one parent of the lineage; a candidate without a parent has no edge to one.
abbrev pub IsParented : List CandidateRecord → CandidateRecord → Type 0
IsParented records r =
    ((r.identity.parent_candidate_id ≡ none) × (parent_edges r.lineage ≡ []))
    ⊎ ((id : String) × (parent : CandidateRecord) × (r.identity.parent_candidate_id ≡ some id)
        × (find_record id records ≡ some parent)
        × (is_only_edge_to id (parent_edges r.lineage) ≡ true)
        × (is_artifact_of r.identity.parent_artifact_sha256 parent.identity.artifacts ≡ true))

check_parent-IsParented :
    (records : List CandidateRecord) (r : CandidateRecord)
    → check_parent records r ≡ ok tt
    → IsParented records r
unfolding check_parent
check_parent-IsParented records r h = ground (arith, h, λ (l : List LineageEdge). is_empty-eq-nil l)

pub record IsLineage (r : CandidateRegistry) : Type 0 where
  pub bounded : length r.records ≤ 10_000
  pub distinct : is_unique (ids r.records) ≡ true
  pub closed : IsClosed r.records
  pub parented : All (IsParented r.records) r.records
  pub acyclic : (id : String) → elem id (ids r.records) ≡ true → Descends r.records id id → ⊥

module _ (casefold : String → String) (frames : ℕ) (given : List CandidateRecord)
    {r : CandidateRegistry} (made : candidate_registry casefold frames given ≡ ok r) where
  made_parts :
      (leb (length given) 10_000 ≡ true)
      × (is_unique (ids given) ≡ true)
      × (validate_lineage_targets (sort_by record_leb given) ≡ ok tt)
      × (validate_parent_bindings (sort_by record_leb given) ≡ ok tt)
      × ((seen : List String) × (validate_acyclic (sort_by record_leb given) frames ≡ ok seen))
      × (r ≡ record { records = sort_by record_leb given })
  unfolding candidate_registry
  made_parts = ground (arith, made)

pub targets-IsClosed :
    (records : List CandidateRecord) → validate_lineage_targets records ≡ ok tt → IsClosed records
unfolding validate_lineage_targets
targets-IsClosed records h id r found t target =
    let checked =
      find_record-All
        (λ (q : CandidateRecord).
          require (all_of (λ t. elem t (ids records)) (targets q)) unknown_target ≡ ok tt)
        records id r (each-All _ records h) found in
    All-elem (λ t. elem t (ids records) ≡ true) (targets r)
      (all_of-All (λ t. elem t (ids records)) (targets r) (require-eq-ok _ unknown_target checked))
      t target

parents_All :
    (records : List CandidateRecord)
    → validate_parent_bindings records ≡ ok tt
    → All (λ q. check_parent records q ≡ ok tt) records
unfolding validate_parent_bindings
parents_All records h = each-All (check_parent records) records h

-- The registry that the constructor accepts has at most 10,000 candidates with distinct identifiers;
-- every edge names a registered candidate, every parent is bound to one of its artifacts, and no
-- candidate descends from itself.
pub candidate_registry-IsLineage :
    (casefold : String → String) (frames : ℕ) (given : List CandidateRecord) {r : CandidateRegistry}
    → candidate_registry casefold frames given ≡ ok r
    → IsLineage r
candidate_registry-IsLineage casefold frames given {r = r} made =
    let (small, distinct, targets, parents, (seen, searched), e) =
      made_parts casefold frames given made in
    subst IsLineage (sym e) (record {
      bounded = rw (length-sort_by record_leb given) (leb→le _ _ small);
      distinct = is_unique-keys-sort_by record_key record_leb given ∙ distinct;
      closed = targets-IsClosed (sort_by record_leb given) targets;
      parented =
          All-map (sort_by record_leb given) (check_parent-IsParented (sort_by record_leb given))
            (parents_All (sort_by record_leb given) parents);
      acyclic = λ id known d.
          validate_acyclic-Descends (sort_by record_leb given) frames seen id searched known d;
    })

add-cases :
    (casefold : String → String) (frames : ℕ) (r : CandidateRegistry) (n : CandidateRecord)
    {s : CandidateRegistry}
    → add casefold frames r n ≡ ok s
    → (find_record n.candidate_id r.records ≡ some n) × (r ≡ s)
      ⊎ (find_record n.candidate_id r.records ≡ none)
        × (candidate_registry casefold frames (r.records ++ n ∷ []) ≡ ok s)
unfolding add
add-cases casefold frames r n h = elim (Option-cases (find_record n.candidate_id r.records)) [
  | inl e ↦ inr (e, ground (arith, e, h))
  | inr (m, e) ↦ inl (
    ground (arith, e, h, record_has_eq.eq_iff m n),
    ground (arith, e, h, record_has_eq.eq_iff m n),
  )
]

-- Adding a record to a registry with a sound lineage gives such a registry.
add-IsLineage :
    (casefold : String → String) (frames : ℕ) (r : CandidateRegistry) (n : CandidateRecord)
    {s : CandidateRegistry}
    → IsLineage r
    → add casefold frames r n ≡ ok s
    → IsLineage s
add-IsLineage casefold frames r n sound h = elim (add-cases casefold frames r n h) [
  | inl (_, same) ↦ subst IsLineage same sound
  | inr (_, made) ↦ candidate_registry-IsLineage casefold frames (r.records ++ n ∷ []) made
]

found_self :
    (records : List CandidateRecord) (n : CandidateRecord) (z : String)
    → find_record n.candidate_id records ≡ some n
    → find_record z records ≡ (if n.candidate_id == z then some n else find_record z records)
found_self records n z found = ground (arith, found, text_has_eq.eq_iff n.candidate_id z)

found_new :
    (records : List CandidateRecord) (n : CandidateRecord) (z : String)
    → find_record n.candidate_id records ≡ none
    → ◌≡◌ {A = Option CandidateRecord}
        (elim (find_record z records) [
          | none ↦ if n.candidate_id == z then some n else none
          | some y ↦ some y
        ])
        (if n.candidate_id == z then some n else find_record z records)
found_new records n z absent = ground (arith, absent, text_has_eq.eq_iff n.candidate_id z)

-- After a successful addition the new record is found under its identifier, and every other
-- identifier finds what it found before: no record is overwritten.
pub find_record-add :
    (casefold : String → String) (frames : ℕ) (r : CandidateRegistry) (n : CandidateRecord)
    (z : String) {s : CandidateRegistry}
    → add casefold frames r n ≡ ok s
    → find_record z s.records ≡ (if n.candidate_id == z then some n else find_record z r.records)
find_record-add casefold frames r n z {s = s} h = elim (add-cases casefold frames r n h) [
  | inl (found, same) ↦
      subst
        (λ (q : CandidateRegistry).
          find_record z q.records
          ≡ (if n.candidate_id == z then some n else find_record z r.records))
        same (found_self r.records n z found)
  | inr (absent, made) ↦
      let (_, distinct, _, _, _, e) = made_parts casefold frames (r.records ++ n ∷ []) made in
      subst
        (λ (q : CandidateRegistry).
          find_record z q.records
          ≡ (if n.candidate_id == z then some n else find_record z r.records))
        (sym e)
        (lookup-sort_by record_key record_leb z (r.records ++ n ∷ []) distinct
          ∙ lookup-append_one record_key z r.records n
          ∙ found_new r.records n z absent)
]
