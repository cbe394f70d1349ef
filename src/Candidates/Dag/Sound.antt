-- ===== src/Candidates/Dag/Sound.antt =====
-- A search that ends well orders the candidates: each stands before those that it descends from.
use kcd2_codex_toolkit.Base.{
  ℕ, zero, suc, ◌<◌, ◌≤◌, String, true, false, none, some, List, [], ◌∷◌, if◌then◌else◌, ◌==◌,
  text_has_eq, elem, length, Result, ok, >>=-eq-ok, All, All-elem, sort_texts, elem-sort_texts, ◌≡◌,
  ◌⊎◌, subst, sym, ◌∙◌, arith, Bool-cases, inl, inr,
}
use kcd2_codex_toolkit.Candidates.Identity.{Error}
use kcd2_codex_toolkit.Candidates.Record.{CandidateRecord}
use kcd2_codex_toolkit.Candidates.Dag.{find_record, ids, targets, fold_all, visit, validate_acyclic}

-- The lineage of the candidate with the identifier, if there is one.
abbrev pub lineage_of : List CandidateRecord → String → List String
lineage_of records id = elim (find_record id records) [ none ↦ [] | some r ↦ targets r ]

-- The chains of lineage edges from one candidate to another.
pub data Descends (records : List CandidateRecord) : String → String → Type 0 where
  link : {a b : String} → elem b (lineage_of records a) ≡ true → Descends records a b
  chain :
      {a b c : String}
      → Descends records a b
      → elem c (lineage_of records b) ≡ true
      → Descends records a c

module _ (records : List CandidateRecord) where
  abbrev IsIn : List String → String → Type 0
  IsIn seen t = elem t seen ≡ true

  -- Newest first: no candidate stands twice, and each stands before all that it descends from.
  abbrev IsOrder : List String → Type 0
  IsOrder [] = Unit
  IsOrder (id ∷ seen) =
      (elem id seen ≡ false) × All (IsIn seen) (lineage_of records id) × IsOrder seen

  -- What the search keeps: the order of `visited`, of which nothing is being visited.
  record IsGood (visiting visited : List String) : Type 0 where
    order : IsOrder visited
    apart : All (λ v. elem v visited ≡ false) visiting

  -- What a call adds.
  record IsGrown (visiting before after : List String) : Type 0 where
    good : IsGood visiting after
    kept : (t : String) → IsIn before t → IsIn after t

  abbrev Visits : (List String → String → Result Error (List String)) → List String → Type 0
  Visits step visiting =
      (before : List String) (id : String) (after : List String)
      → IsGood visiting before
      → step before id ≡ ok after
      → IsGrown visiting before after × IsIn after id

  fold_all-Visits :
      (step : List String → String → Result Error (List String)) (visiting : List String)
      → Visits step visiting
      → (before : List String) (l : List String) (after : List String) → IsGood visiting before
      → fold_all step before l ≡ ok after
      → IsGrown visiting before after × All (IsIn after) l
  fold_all-Visits step visiting visits before [] after good h =
      let same : before ≡ after = ground (arith, h) in
      (subst (IsGrown visiting before) same (record { good = good; kept = λ t e. e }), tt)
  fold_all-Visits step visiting visits before (id ∷ l) after good h =
      let (middle, first, rest) = >>=-eq-ok (step before id) _ h in
      let (grown, found) = visits before id middle good first in
      let (more, all) = fold_all-Visits step visiting visits middle l after grown.good rest in
      (
        record { good = more.good; kept = λ t e. more.kept t (grown.kept t e) },
        (more.kept id found, all),
      )

  apart_cons :
      (id : String) (seen visiting : List String)
      → elem id visiting ≡ false
      → All (λ v. elem v seen ≡ false) visiting
      → All (λ v. elem v (id ∷ seen) ≡ false) visiting
  unfolding elem
  apart_cons id seen [] e h = tt
  apart_cons id seen (v ∷ visiting) e h = (
    ground (arith, text_has_eq.eq_iff id v, text_has_eq.eq_iff v id, h.0),
    apart_cons id seen visiting (ground (arith, e)) h.1,
  )

  -- The call that explores a candidate's lineage.
  explored :
      (visiting before seen : List String) (id : String)
      → elem id visiting ≡ false
      → elem id before ≡ false
      → IsGrown (id ∷ visiting) before seen
      → All (IsIn seen) (lineage_of records id)
      → IsGrown visiting before (id ∷ seen) × IsIn (id ∷ seen) id
  unfolding elem
  explored visiting before seen id fresh unseen grown all = (
    record {
      good = record {
        order = (grown.good.apart.0, all, grown.good.order);
        apart = apart_cons id seen visiting fresh grown.good.apart.1;
      };
      kept = λ t e. ground (arith, grown.kept t e);
    },
    ground (arith, text_has_eq.eq_iff id id),
  )

  visit-eq-ok :
      (fuel : ℕ) (visiting before : List String) (id : String) (after : List String)
      → visit records (suc fuel) visiting before id ≡ ok after
      → (elem id visiting ≡ false)
        × ((elem id before ≡ true) × (before ≡ after)
            ⊎ (r : CandidateRecord) × (seen : List String) × (elem id before ≡ false)
              × (find_record id records ≡ some r)
              × (fold_all (visit records fuel (id ∷ visiting)) before (targets r) ≡ ok seen)
              × (id ∷ seen ≡ after))
  unfolding visit
  visit-eq-ok fuel visiting before id after h = ground arith

  pub lineage_of-found :
      (id : String) (r : CandidateRecord)
      → find_record id records ≡ some r
      → lineage_of records id ≡ targets r
  lineage_of-found id r e = ground (arith, e)

  visit-Visits : (fuel : ℕ) (visiting : List String) → Visits (visit records fuel visiting) visiting
  unfolding visit
  visit-Visits zero visiting before id after good h = cc
  visit-Visits (suc fuel) visiting before id after good h =
      let (fresh, cases) = visit-eq-ok fuel visiting before id after h in
      elim cases [
        | inl (found, same) ↦ (
          subst (IsGrown visiting before) same (record { good = good; kept = λ t e. e }),
          subst (λ l. IsIn l id) same found,
        )
        | inr (r, seen, unseen, e, all, same) ↦
            let inner : IsGood (id ∷ visiting) before = record {
              order = good.order;
              apart = (unseen, good.apart);
            } in
            let (grown, found) =
              fold_all-Visits (visit records fuel (id ∷ visiting)) (id ∷ visiting)
                (visit-Visits fuel (id ∷ visiting)) before (targets r) seen inner all in
            subst (λ l. IsGrown visiting before l × IsIn l id) same
              (explored visiting before seen id fresh unseen grown
                (subst (All (IsIn seen)) (sym (lineage_of-found id r e)) found))
      ]

  -- The search that starts with nothing visited.
  validate_acyclic-IsOrder :
      (frames : ℕ) (seen : List String)
      → validate_acyclic records frames ≡ ok seen
      → IsOrder seen × All (IsIn seen) (sort_texts (ids records))
  unfolding validate_acyclic
  validate_acyclic-IsOrder frames seen h =
      let (grown, all) =
        fold_all-Visits (visit records frames []) [] (visit-Visits frames []) []
          (sort_texts (ids records)) seen (record { order = tt; apart = tt }) h in
      (grown.good.order, all)

  -- How many candidates stand from the given one on.
  position : String → List String → ℕ
  position id [] = 0
  position id (x ∷ seen) = if x == id then suc (length seen) else position id seen

  position-≤ : (id : String) (seen : List String) → position id seen ≤ length seen
  unfolding position
  position-≤ id [] = ground arith
  position-≤ id (x ∷ seen) = ground (arith, position-≤ id seen)

  IsOrder-position :
      (a b : String) (seen : List String)
      → IsOrder seen
      → IsIn seen a
      → IsIn (lineage_of records a) b
      → IsIn seen b × (position b seen < position a seen)
  unfolding position elem
  IsOrder-position a b [] order found edge = cc
  IsOrder-position a b (x ∷ seen) (fresh, all, order) found edge = elim (Bool-cases (x == a)) [
    | inl e ↦
        let below : IsIn seen b =
          All-elem (IsIn seen) (lineage_of records x) all b
            (rw (← (text_has_eq.eq_iff x a).0 e) at edge) in
        ground (arith, text_has_eq.eq_iff x b, position-≤ b seen, below, fresh)
    | inr e ↦
        let (below, less) =
          IsOrder-position a b seen order
            (ground (arith, found, text_has_eq.eq_iff x a, text_has_eq.eq_iff a x)) edge in
        ground (arith, text_has_eq.eq_iff x b, below, less, fresh)
  ]

  Descends-position :
      (a b : String) (seen : List String)
      → IsOrder seen
      → IsIn seen a
      → Descends records a b
      → IsIn seen b × (position b seen < position a seen)
  Descends-position a b seen order found (link e) = IsOrder-position a b seen order found e
  Descends-position a c seen order found (chain {b = b} d e) =
      let (below, less) = Descends-position a b seen order found d in
      let (lower, still_less) = IsOrder-position b c seen order below e in (lower, omega arith)

  -- Where the search for a cycle ends well, no registered candidate descends from itself.
  pub validate_acyclic-Descends :
      (frames : ℕ) (seen : List String) (id : String)
      → validate_acyclic records frames ≡ ok seen
      → elem id (ids records) ≡ true
      → Descends records id id
      → ⊥
  validate_acyclic-Descends frames seen id h known d =
      let (order, all) = validate_acyclic-IsOrder frames seen h in
      let found =
        All-elem (IsIn seen) (sort_texts (ids records)) all id
          (elem-sort_texts id (ids records) ∙ known) in
      let (_, less) = Descends-position id id seen order found d in omega arith
