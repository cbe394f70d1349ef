-- ===== src/EvidenceGrade/Aggregate.antt =====
-- The grade that a wrapper reports is no better than any of its children's.
use kcd2_codex_toolkit.Base.{
  ℕ, ◌≤◌, String, true, Option, some, List, [], ◌∷◌, ltb, if◌then◌else◌, subst, is_empty, all_of,
  ◌==◌, nat_has_eq, ok, All, ◌≡◌, sym, ap, ◌∙◌, arith, Option-cases, Bool-cases, inl, inr,
}
use kcd2_codex_toolkit.EvidenceGrade.{
  Grade, rank, Child, Aggregation, least, known_grades, unknown_ids, graded_record, proposal,
  evidence_grade_aggregation, aggregate_evidence_grades,
}

-- The child's grade is known and at least the given one.
abbrev pub IsAtLeast : Grade → Child → Type 0
IsAtLeast g c = (h : Grade) × (c.grade ≡ some h) × (rank g ≤ rank h)

least-first : (g : Grade) (rest : List Grade) → rank (least g rest) ≤ rank g
unfolding least
least-first g [] = ground arith
least-first g (h ∷ rest) = ground (arith, least-first h rest, least-first g rest)

least-All :
    (r : ℕ) (g : Grade) (rest : List Grade) → r ≤ rank (least g rest) → All (λ h. r ≤ rank h) rest
unfolding least
least-All r g [] low = tt
least-All r g (h ∷ rest) low = (
  ground (arith, least-first h rest, least-first g rest),
  least-All r (if ltb (rank h) (rank g) then h else g) rest low,
)

equal-All :
    (g : Grade) (rest : List Grade)
    → all_of (λ h. rank h == rank g) rest ≡ true
    → All (λ h. rank g ≤ rank h) rest
equal-All g [] e = tt
equal-All g (h ∷ rest) e = (ground (arith, e), equal-All g rest (ground (arith, e)))

known-All :
    (g : Grade) (children : List Child)
    → is_empty (unknown_ids children) ≡ true
    → All (λ h. rank g ≤ rank h) (known_grades children)
    → All (IsAtLeast g) children
known-All g [] known low = tt
known-All g (c ∷ rest) known low = elim (Option-cases c.grade) [
  | inl e ↦ ground (arith, known, e)
  | inr (h, e) ↦
      let lower = rw e at low in ((h, e, lower.0), known-All g rest (rw e at known) lower.1)
]

module _ (repr : String → String) (str : ℕ → String) where
  graded_record-All :
      (values : List Child) (scope : String) (first g : Grade) (rest : List Grade)
      → (graded_record repr str values scope first rest).reported_grade ≡ some g
      → (rank g ≤ rank first) × All (λ h. rank g ≤ rank h) rest
  unfolding graded_record
  graded_record-All values scope first g rest made =
      elim (Bool-cases (all_of (λ h. rank h == rank first) rest)) [
        | inl e ↦
            let same : first ≡ g = ground (arith, rw e at made) in
            subst (λ x. (rank x ≤ rank first) × All (λ h. rank x ≤ rank h) rest) same
              (omega arith, equal-All first rest e)
        | inr e ↦
            let same : least first rest ≡ g = ground (arith, rw e at made) in
            subst (λ x. (rank x ≤ rank first) × All (λ h. rank x ≤ rank h) rest) same
              (least-first first rest, least-All _ first rest (omega arith))
      ]

  proposal-graded :
      (c : Child) (rest : List Child) (unknown_reason : Option String) (g : Grade)
      → (proposal repr str (c ∷ rest) unknown_reason).reported_grade ≡ some g
      → (first : Grade) × (c.grade ≡ some first)
        × (is_empty (unknown_ids rest) ≡ true)
        × ((graded_record repr str (c ∷ rest) c.scope first (known_grades rest)).reported_grade
            ≡ some g)
  unfolding proposal
  proposal-graded c rest unknown_reason g made = ground arith

  proposal-All :
      (values : List Child) (unknown_reason : Option String) (g : Grade)
      → (proposal repr str values unknown_reason).reported_grade ≡ some g
      → All (IsAtLeast g) values
  proposal-All [] unknown_reason g made = tt
  proposal-All (c ∷ rest) unknown_reason g made =
      let (first, e, known, graded) = proposal-graded c rest unknown_reason g made in
      let (low, lows) = graded_record-All (c ∷ rest) c.scope first g (known_grades rest) graded in
      ((first, e, low), known-All g rest known lows)

  aggregate-proposal :
      (values : List Child) (unknown_reason : Option String) {a : Aggregation}
      → aggregate_evidence_grades repr str values unknown_reason ≡ ok a
      → a ≡ proposal repr str values unknown_reason
  unfolding aggregate_evidence_grades evidence_grade_aggregation
  aggregate-proposal values unknown_reason made = ground arith

  -- If the aggregation of children succeeds and reports a grade, every child's grade is known and at
  -- least the reported one.
  pub reported_grade-IsAtLeast :
      (values : List Child) (unknown_reason : Option String) (g : Grade) {a : Aggregation}
      → aggregate_evidence_grades repr str values unknown_reason ≡ ok a
      → a.reported_grade ≡ some g
      → All (IsAtLeast g) values
  reported_grade-IsAtLeast values unknown_reason g made reported =
      proposal-All values unknown_reason g (
        sym (
          ap (λ (x : Aggregation). x.reported_grade)
            (aggregate-proposal values unknown_reason made))
        ∙ reported)
