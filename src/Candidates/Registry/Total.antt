-- ===== src/Candidates/Registry/Total.antt =====
-- The constructor of the registry answers: no search runs out of fuel and no key is missing.
use kcd2_codex_toolkit.Base.{
  ℕ, ◌≤◌, ◌⊎◌, length, length-sort_by, Result-cases, leb, is_unique, String, true, List, [], ◌∷◌,
  text_has_eq, nat_has_eq, elem, all_of, all_of-All, sort_by, Result, ok, err, require,
  require-eq-ok, All, All-map, ◌≡◌, refl, arith, inl, inr,
}
use kcd2_codex_toolkit.Candidates.Identity.{
  Error, unknown_target, recursion_error, too_many_records, duplicate_record,
}
use kcd2_codex_toolkit.Candidates.Record.{CandidateRecord}
use kcd2_codex_toolkit.Candidates.Dag.{ids, targets, validate_acyclic}
use kcd2_codex_toolkit.Candidates.Dag.Complete.{validate_acyclic_answers}
use kcd2_codex_toolkit.Candidates.Aliases.{entries, labels, validate_aliases}
use kcd2_codex_toolkit.Candidates.Aliases.Ends.{IsKnown}
use kcd2_codex_toolkit.Candidates.Registry.{
  record_leb, validate_lineage_targets, check_parent, validate_parent_bindings, candidate_registry,
}
use kcd2_codex_toolkit.Candidates.Registry.Lineage.{each-All, targets-IsClosed}
use kcd2_codex_toolkit.Candidates.Registry.Sane.{
  is_raised, IsSane, require-IsSane, each-IsSane, IsSane-intro, check_parent-raised, IsTargeted,
  check_labels-IsSane,
}

own_known :
    (l : List CandidateRecord) (seen : List String)
    → ((t : String) → elem t (ids l) ≡ true → elem t seen ≡ true)
    → All (λ r. elem r.candidate_id seen ≡ true) l
unfolding elem
own_known [] seen h = tt
own_known (r ∷ l) seen h = (
  h r.candidate_id (ground (arith, text_has_eq.eq_iff r.candidate_id r.candidate_id)),
  own_known l seen (λ t e. h t (ground (arith, e))),
)

both : {A : Type 0} (P Q : A → Type 0) (l : List A) → All P l → All Q l → All (λ x. P x × Q x) l
both P Q [] h k = tt
both P Q (x ∷ l) h k = ((h.0, k.0), both P Q l h.1 k.1)

closed-IsTargeted :
    (records : List CandidateRecord) → validate_lineage_targets records ≡ ok tt → IsTargeted records
unfolding validate_lineage_targets
closed-IsTargeted records h =
    both (λ r. IsKnown records r.candidate_id) (λ r. All (IsKnown records) (targets r)) records
      (own_known records (ids records) (λ t e. e))
      (All-map records
        (λ r checked.
          all_of-All (λ t. elem t (ids records)) (targets r)
            (require-eq-ok _ unknown_target checked))
        (each-All _ records h))

IsSane-raised :
    {A : Type 0} (m : Result Error A) (e : Error) → IsSane m → m ≡ err e → is_raised e ≡ true
unfolding IsSane
IsSane-raised (ok a) e h same = cc
IsSane-raised (err d) e h same = ground (arith, h, same)

-- An error that the program raises, or RecursionError where the interpreter has too few frames.
abbrev pub IsRaised : ℕ → List CandidateRecord → Error → Type 0
IsRaised frames given e = (is_raised e ≡ true) ⊎ ((frames ≤ length given) × (e ≡ recursion_error))

module _ (casefold : String → String) (frames : ℕ) (records : List CandidateRecord)
    (e : Error) where
  targets-raised : validate_lineage_targets records ≡ err e → is_raised e ≡ true
  unfolding validate_lineage_targets
  targets-raised h =
      IsSane-raised _ e
        (each-IsSane (λ r. require (all_of (λ t. elem t (ids records)) (targets r)) unknown_target)
          records
          (λ r.
            require-IsSane (all_of (λ t. elem t (ids records)) (targets r)) unknown_target refl))
        h

  parents-raised : validate_parent_bindings records ≡ err e → is_raised e ≡ true
  unfolding validate_parent_bindings
  parents-raised h =
      IsSane-raised _ e
        (each-IsSane (check_parent records) records
          (λ r. IsSane-intro (check_parent records r) (check_parent-raised records r)))
        h

  acyclic-IsRaised :
      validate_lineage_targets records ≡ ok tt
      → validate_acyclic records frames ≡ err e
      → IsRaised frames records e
  acyclic-IsRaised targeted h =
      elim (validate_acyclic_answers records (targets-IsClosed records targeted) frames) [
        | inl (seen, found) ↦ ground (arith, found, h)
        | inr (inl (c, _, found)) ↦ inl (ground (arith, found, h))
        | inr (inr (few, found)) ↦ inr (few, ground (arith, found, h))
      ]

  aliases-raised :
      validate_lineage_targets records ≡ ok tt
      → validate_aliases casefold records ≡ err e
      → is_raised e ≡ true
  unfolding validate_aliases
  aliases-raised targeted h =
      IsSane-raised _ e
        (check_labels-IsSane records (closed-IsTargeted records targeted) casefold
          (labels casefold (entries records)))
        h

-- The constructor of the registry returns a registry, or it raises one of the program's errors, or
-- it ends in RecursionError, and then the interpreter allows no more calls than there are
-- candidates: the search over the aliases never runs out of fuel, and no candidate is missing where it
-- is looked up.
pub candidate_registry-IsRaised :
    (casefold : String → String) (frames : ℕ) (given : List CandidateRecord) (e : Error)
    → candidate_registry casefold frames given ≡ err e
    → IsRaised frames given e
unfolding candidate_registry
candidate_registry-IsRaised casefold frames given e h =
    let records = sort_by record_leb given in
    let same = length-sort_by record_leb given in
    elim (Result-cases (validate_acyclic records frames)) [
      | inl (seen, found) ↦ inl (
          ground (
            arith,
            h,
            found,
            targets-raised casefold frames records e,
            parents-raised casefold frames records e,
            aliases-raised casefold frames records e,
          ))
      | inr (d, found) ↦ elim (Result-cases (validate_lineage_targets records)) [
        | inr (x, t) ↦ inl (ground (arith, h, t, targets-raised casefold frames records e))
        | inl (_, t) ↦ elim (Result-cases (validate_parent_bindings records)) [
          | inr (x, p) ↦ inl (ground (arith, h, t, p, parents-raised casefold frames records e))
          | inl (_, p) ↦
              elim (Result-cases (require (leb (length given) 10_000) too_many_records)) [
                | inr (x, q) ↦ inl (ground (arith, h, q))
                | inl (_, q) ↦
                    elim (Result-cases (require (is_unique (ids given)) duplicate_record)) [
                      | inr (x, u) ↦ inl (ground (arith, h, q, u))
                      | inl (_, u) ↦
                          let raised : validate_acyclic records frames ≡ err e =
                            ground (arith, h, q, u, t, p, found) in
                          elim (acyclic-IsRaised casefold frames records e t raised) [
                            | inl r ↦ inl r
                            | inr (few, rec) ↦ inr (omega (arith, few, same), rec)
                          ]
                    ]
              ]
        ]
      ]
    ]
