-- ===== src/Candidates/Dag/Complete.antt =====
-- The search always answers where it has a frame for each candidate, and what it calls a cycle is one.
use kcd2_codex_toolkit.Base.{
  ℕ, zero, suc, ◌+◌, ◌<◌, ◌≤◌, String, true, false, some, List, [], ◌∷◌, if◌then◌else◌, ◌==◌,
  text_has_eq, elem, length, Result, ok, err, ◌>>=◌, All, All-elem, sort_texts, elem-sort_texts,
  ◌≡◌, ◌⊎◌, subst, refl, sym, ap, ◌∙◌, arith, Bool-cases, inl, inr,
}
use kcd2_codex_toolkit.Candidates.Identity.{Error, lineage_cycle, recursion_error}
use kcd2_codex_toolkit.Candidates.Record.{CandidateRecord}
use kcd2_codex_toolkit.Candidates.Dag.{find_record, ids, targets, fold_all, visit, validate_acyclic}
use kcd2_codex_toolkit.Candidates.Dag.Sound.{lineage_of, lineage_of-found, Descends, link, chain}

-- How many of the candidates are not being visited.
pub remaining : List String → List String → ℕ
remaining visiting [] = 0
remaining visiting (x ∷ l) = (if elem x visiting then 0 else 1) + remaining visiting l

pub remaining-≤ :
    (id : String) (visiting l : List String) → remaining (id ∷ visiting) l ≤ remaining visiting l
unfolding remaining elem
remaining-≤ id visiting [] = ground arith
remaining-≤ id visiting (x ∷ l) = ground (arith, remaining-≤ id visiting l)

pub remaining-< :
    (id : String) (visiting l : List String)
    → elem id l ≡ true
    → elem id visiting ≡ false
    → remaining (id ∷ visiting) l < remaining visiting l
unfolding remaining elem
remaining-< id visiting [] found fresh = cc
remaining-< id visiting (x ∷ l) found fresh = elim (Bool-cases (id == x)) [
  | inl e ↦
      let same = (text_has_eq.eq_iff id x).0 e in
      let out : elem x visiting ≡ false = subst (λ y. elem y visiting ≡ false) same fresh in
      ground (arith, text_has_eq.eq_iff x id, remaining-≤ id visiting l, out)
  | inr e ↦
      ground (arith, text_has_eq.eq_iff x id, text_has_eq.eq_iff id x, remaining-< id visiting l)
]

pub remaining-nil : (records : List CandidateRecord) → remaining [] (ids records) ≡ length records
unfolding remaining elem
remaining-nil [] = refl
remaining-nil (r ∷ records) = omega (arith, remaining-nil records)

-- A registered identifier has its record.
known-found :
    (records : List CandidateRecord) (id : String)
    → elem id (ids records) ≡ true
    → (r : CandidateRecord) × (find_record id records ≡ some r)
unfolding elem
known-found [] id h = cc
known-found (r ∷ records) id h = elim (Bool-cases (r.candidate_id == id)) [
  | inl e ↦ (r, ground (arith, e))
  | inr e ↦
      let (found, h) = known-found records id (
        ground (
          arith,
          h,
          e,
          text_has_eq.eq_iff id r.candidate_id,
          text_has_eq.eq_iff r.candidate_id id,
        )) in
      (found, ground (arith, e, h))
]

-- Every edge of the lineage names a registered candidate.
abbrev pub IsClosed : List CandidateRecord → Type 0
IsClosed records =
    (id : String) (r : CandidateRecord)
    → find_record id records ≡ some r
    → (t : String) → elem t (targets r) ≡ true
    → elem t (ids records) ≡ true

module _ (records : List CandidateRecord) (closed : IsClosed records) (frames : ℕ) where
  -- A list, a cycle that is there, or too few frames.
  IsAnswer : Result Error (List String) → Type 0
  IsAnswer (ok seen) = Unit
  IsAnswer (err e) =
      ((c : String) × Descends records c c × (e ≡ lineage_cycle c))
      ⊎ ((frames ≤ length records) × (e ≡ recursion_error))

  bind-IsAnswer :
      (m : Result Error (List String)) (f : List String → Result Error (List String))
      → IsAnswer m
      → ((seen : List String) → IsAnswer (f seen))
      → IsAnswer (m >>= f)
  unfolding IsAnswer
  bind-IsAnswer (ok seen) f h k = k seen
  bind-IsAnswer (err e) f h k = h

  fold_all-IsAnswer :
      (step : List String → String → Result Error (List String)) (before l : List String)
      → ((t : String) → elem t l ≡ true → (seen : List String) → IsAnswer (step seen t))
      → IsAnswer (fold_all step before l)
  unfolding elem IsAnswer
  fold_all-IsAnswer step before [] h = tt
  fold_all-IsAnswer step before (x ∷ l) h =
      bind-IsAnswer (step before x) _ (h x (ground (arith, text_has_eq.eq_iff x x)) before)
        (λ seen. fold_all-IsAnswer step seen l (λ t e. h t (ground (arith, e))))

  descend :
      (id t : String) (visiting : List String)
      → elem t (lineage_of records id) ≡ true
      → All (λ v. Descends records v id) visiting
      → All (λ v. Descends records v t) visiting
  descend id t [] e h = tt
  descend id t (v ∷ visiting) e h = (chain h.0 e, descend id t visiting e h.1)

  module _ (fuel : ℕ) (visiting visited : List String) (id : String) where
    visit-cycle :
        elem id visiting ≡ true
        → visit records (suc fuel) visiting visited id ≡ err (lineage_cycle id)
    unfolding visit
    visit-cycle e = ground (arith, e)

    visit-known :
        elem id visiting ≡ false
        → elem id visited ≡ true
        → visit records (suc fuel) visiting visited id ≡ ok visited
    unfolding visit
    visit-known fresh e = ground (arith, fresh, e)

    visit-explores :
        (r : CandidateRecord)
        → elem id visiting ≡ false
        → elem id visited ≡ false
        → find_record id records ≡ some r
        → visit records (suc fuel) visiting visited id ≡ (
            fold_all (visit records fuel (id ∷ visiting)) visited (targets r) >>= λ seen.
            ok (id ∷ seen))
    unfolding visit
    visit-explores r fresh unseen e = ground (arith, fresh, unseen, e)

  visit-IsAnswer :
      (fuel : ℕ) (visiting visited : List String) (id : String)
      → frames + remaining visiting (ids records) ≤ fuel + length records
      → elem id (ids records) ≡ true
      → All (λ v. Descends records v id) visiting
      → IsAnswer (visit records fuel visiting visited id)
  unfolding IsAnswer visit
  visit-IsAnswer zero visiting visited id fuelled known above = inr (omega (arith, fuelled), refl)
  visit-IsAnswer (suc fuel) visiting visited id fuelled known above =
      elim (Bool-cases (elem id visiting)) [
        | inl e ↦
            subst IsAnswer (sym (visit-cycle fuel visiting visited id e))
              (inl (id, All-elem (λ v. Descends records v id) visiting above id e, refl))
        | inr fresh ↦ elim (Bool-cases (elem id visited)) [
          | inl e ↦ subst IsAnswer (sym (visit-known fuel visiting visited id fresh e)) tt
          | inr unseen ↦
              let (r, e) = known-found records id known in
              let fewer = remaining-< id visiting (ids records) known fresh in
              subst IsAnswer (sym (visit-explores fuel visiting visited id r fresh unseen e)) (
                bind-IsAnswer (fold_all (visit records fuel (id ∷ visiting)) visited (targets r)) _
                  (fold_all-IsAnswer (visit records fuel (id ∷ visiting)) visited (targets r)
                    (λ t target seen.
                      let linked : elem t (lineage_of records id) ≡ true =
                        subst (λ l. elem t l ≡ true) (sym (lineage_of-found records id r e))
                          target in
                      visit-IsAnswer fuel (id ∷ visiting) seen t (omega arith)
                        (closed id r e t target) (link linked, descend id t visiting linked above)))
                  (λ seen. tt))
        ]
      ]

  validate_acyclic-IsAnswer : IsAnswer (validate_acyclic records frames)
  unfolding validate_acyclic
  validate_acyclic-IsAnswer =
      fold_all-IsAnswer (visit records frames []) [] (sort_texts (ids records)) (λ t e seen.
        visit-IsAnswer frames [] seen t (omega (arith, remaining-nil records))
          (sym (elem-sort_texts t (ids records)) ∙ e) tt)

  IsAnswer-cases :
      (r : Result Error (List String))
      → IsAnswer r
      → ((seen : List String) × (r ≡ ok seen))
        ⊎ ((c : String) × (Descends records c c) × (r ≡ err (lineage_cycle c)))
        ⊎ ((frames ≤ length records) × (r ≡ err recursion_error))
  unfolding IsAnswer
  IsAnswer-cases (ok seen) h = inl (seen, refl)
  IsAnswer-cases (err e) (inl (c, d, same)) = inr (inl (c, d, ap err same))
  IsAnswer-cases (err e) (inr (few, same)) = inr (inr (few, ap err same))

  -- In a registry whose edges all name registered candidates, the search for a cycle ends well, or
  -- it raises for a candidate that descends from itself, or it ends in RecursionError, and then the
  -- interpreter allows no more calls than there are candidates. No key is missing.
  pub validate_acyclic_answers :
      ((seen : List String) × (validate_acyclic records frames ≡ ok seen))
      ⊎ ((c : String) × (Descends records c c)
          × (validate_acyclic records frames ≡ err (lineage_cycle c)))
      ⊎ ((frames ≤ length records) × (validate_acyclic records frames ≡ err recursion_error))
  validate_acyclic_answers =
      IsAnswer-cases (validate_acyclic records frames) validate_acyclic-IsAnswer
