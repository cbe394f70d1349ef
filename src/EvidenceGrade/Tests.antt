-- ===== src/EvidenceGrade/Tests.antt =====
-- Two children of one scope with different grades, at which the theorem applies.
use kcd2_codex_toolkit.Base.{
  ℕ, String, none, some, List, [], ◌∷◌, ok, All, ◌≡◌, refl, text_discrete, elem, is_unique, has_nul,
  all_chars,
}
use kcd2_codex_toolkit.EvidenceGrade.{
  e2, e3, Child, Aggregation, minimum, least, bounded_text, graded_record, proposal,
  evidence_grade_aggregation, aggregate_evidence_grades,
}
use kcd2_codex_toolkit.EvidenceGrade.Aggregate.{IsAtLeast, reported_grade-IsAtLeast}

abbrev quoted : String → String
quoted s = s

abbrev printed : ℕ → String
printed n = "n"

abbrev two_children : List Child
two_children =
    record { evidence_id = "a"; grade = some e3; scope = "ore" }
    ∷ record { evidence_id = "b"; grade = some e2; scope = "ore" }
    ∷ []

abbrev two_aggregated : Aggregation
two_aggregated = record {
  aggregation = minimum;
  reported_grade = some e2;
  children = two_children;
  reason =
      "Children in scope ore retain their upstream grades; the wrapper reports the minimum label E2 under the closed E0-E6 ordering.";
  boundary = some "ore";
}

two_children-aggregated :
    aggregate_evidence_grades quoted printed two_children none ≡ ok two_aggregated
unfolding aggregate_evidence_grades proposal graded_record least evidence_grade_aggregation
    bounded_text is_unique elem text_discrete has_nul all_chars
two_children-aggregated = refl

reported_grade-IsAtLeast_example : All (IsAtLeast e2) two_children
reported_grade-IsAtLeast_example =
    reported_grade-IsAtLeast quoted printed two_children none e2 two_children-aggregated refl
