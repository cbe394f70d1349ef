-- ===== src/EvidenceGrade.antt =====
-- runtime/src/kcd2_mod_build_deploy/evidence_grade.py: the aggregation of the evidence grades of
-- children into the grade that their wrapper may report.
pub mod Aggregate
pub mod Tests
use Prim.Native.Char.{Char}
use kcd2_codex_toolkit.Base.{
  ℕ, ◌-◌, String, ◌<>◌, Bool, true, false, not, ◌&&◌, ◌||◌, Option, none, some, List, [], ◌∷◌, map,
  leb, ltb, if◌then◌else◌, ◌==◌, text_has_eq, nat_has_eq, elem, is_unique, length, is_empty, all_of,
  any_of, sort_texts, Result, ok, err, ◌>>=◌, ◌>>◌, require, refuse, len, has_nul,
}

-- `KNOWN_EVIDENCE_GRADES`; a child's grade is `none` where it is "unknown"
pub data Grade : Type 0 where
  e0 e1 e2 e3 e4 e5 e6 : Grade

abbrev pub rank : Grade → ℕ
rank e0 = 0
rank e1 = 1
rank e2 = 2
rank e3 = 3
rank e4 = 4
rank e5 = 5
rank e6 = 6

abbrev grade_name : Grade → String
grade_name e0 = "E0"
grade_name e1 = "E1"
grade_name e2 = "E2"
grade_name e3 = "E3"
grade_name e4 = "E4"
grade_name e5 = "E5"
grade_name e6 = "E6"

pub data Error : Type 0 where
  bad_text : String → Error
  bad_grade too_many_children duplicate_child no_reported_grade reported_without_grade : Error
  too_few_mixed children_of_none : Error

abbrev max_children : ℕ
max_children = 10_000

-- `_bounded_text`
unfoldable pub bounded_text : String → String → ℕ → Result Error String
unfolding has_nul
bounded_text value name maximum = do
  refuse (len value == 0 || has_nul value || ltb maximum (len value)) (bad_text name)
  ok value

pub record Child : Type 0 where
  pub evidence_id : String
  pub grade : Option Grade
  pub scope : String

-- The grade that a text names: `some none` for "unknown".
unfoldable pub grade_of : String → Option (Option Grade)
grade_of s =
    if s == "E0"
    then some (some e0)
    else if s == "E1"
    then some (some e1)
    else if s == "E2"
    then some (some e2)
    else if s == "E3"
    then some (some e3)
    else if s == "E4"
    then some (some e4)
    else if s == "E5"
    then some (some e5)
    else if s == "E6"
    then some (some e6)
    else if s == "unknown"
    then some none
    else none

-- `EvidenceGradeChild.__post_init__`
unfoldable pub evidence_grade_child : String → String → String → Result Error Child
unfolding bounded_text grade_of
evidence_grade_child evidence_id grade scope = do
  id ← bounded_text evidence_id "evidence_id" 512
  checked ← bounded_text scope "scope" 512
  elim (grade_of grade) [
    | none ↦ err bad_grade
    | some g ↦ ok (record { evidence_id = id; grade = g; scope = checked })
  ]

pub data AggregationKind : Type 0 where
  exact minimum mixed not_applicable unknown_with_reason : AggregationKind

pub record Aggregation : Type 0 where
  pub aggregation : AggregationKind
  pub reported_grade : Option Grade
  pub children : List Child
  pub reason : String
  pub boundary : Option String

abbrev evidence_ids : List Child → List String
evidence_ids children = map (λ c. c.evidence_id) children

abbrev is_given : {A : Type 0} → Option A → Bool
is_given none = false
is_given (some a) = true

-- What each kind asks of the reported grade and the children.
abbrev pub check_kind : AggregationKind → Option Grade → List Child → Result Error Unit
check_kind exact reported children =
    require (is_given reported && not (is_empty children)) no_reported_grade
check_kind minimum reported children =
    require (is_given reported && not (is_empty children)) no_reported_grade
check_kind mixed reported children = do
  refuse (is_given reported) reported_without_grade
  refuse (ltb (length children) 2) too_few_mixed
check_kind not_applicable reported children = do
  refuse (is_given reported) reported_without_grade
  require (is_empty children) children_of_none
check_kind unknown_with_reason reported children = refuse (is_given reported) reported_without_grade

abbrev check_optional : Option String → String → ℕ → Result Error Unit
check_optional none name maximum = ok tt
check_optional (some value) name maximum = do bounded_text value name maximum; ok tt

-- `EvidenceGradeAggregation.__post_init__`, for the version that is its default
unfoldable pub evidence_grade_aggregation : Aggregation → Result Error Aggregation
evidence_grade_aggregation given = do
  require (leb (length given.children) max_children) too_many_children
  require (is_unique (evidence_ids given.children)) duplicate_child
  bounded_text given.reason "reason" 4_000
  check_optional given.boundary "boundary" 2_000
  check_kind given.aggregation given.reported_grade given.children
  ok given

-- `", ".join(values)`
abbrev join : List String → String
join [] = ""
join (v ∷ []) = v
join (v ∷ w ∷ rest) = v <> ", " <> join (w ∷ rest)

abbrev take_three : List String → List String
take_three (a ∷ b ∷ c ∷ rest) = a ∷ b ∷ c ∷ []
take_three values = values

-- `{...}`: each value once
abbrev pub distinct : List String → List String
distinct [] = []
distinct (v ∷ rest) = if elem v rest then distinct rest else v ∷ distinct rest

abbrev unknown_ids : List Child → List String
unknown_ids [] = []
unknown_ids (c ∷ rest) = elim c.grade [
  | none ↦ c.evidence_id ∷ unknown_ids rest
  | some g ↦ unknown_ids rest
]

abbrev pub known_grades : List Child → List Grade
known_grades [] = []
known_grades (c ∷ rest) = elim c.grade [ none ↦ known_grades rest | some g ↦ g ∷ known_grades rest ]

abbrev all_grades : List Grade
all_grades = e0 ∷ e1 ∷ e2 ∷ e3 ∷ e4 ∷ e5 ∷ e6 ∷ []

-- `sorted({...}, key=rank)`: the known grades that occur, by rank
abbrev kept_from : List Grade → List Grade → List Grade
kept_from [] grades = []
kept_from (g ∷ rest) grades =
    if any_of (λ h. rank h == rank g) grades
    then g ∷ kept_from rest grades
    else kept_from rest grades

abbrev in_rank_order : List Grade → List Grade
in_rank_order = kept_from all_grades

-- `f"{unknown_reason} {details}" if unknown_reason else details`
abbrev with_reason : Option String → String → String
with_reason none details = details
with_reason (some given) details = given <> " " <> details

-- `min(grades, key=rank)`: the first grade of least rank, from the first grade on
unfoldable pub least : Grade → List Grade → Grade
least g [] = g
least g (h ∷ rest) = least (if ltb (rank h) (rank g) then h else g) rest

-- `repr` and `str` are Python's, on texts and on numbers.
module _ (repr : String → String) (str : ℕ → String) where
  -- `_summarize`
  summarize : List String → String
  summarize values =
      let shown = join (map repr (take_three values)) in
      if ltb 3 (length values)
      then shown <> ", and " <> str (length values - 3) <> " more"
      else shown

  -- The record for children one of whose grades is unknown.
  unknown_record : List Child → Option String → Aggregation
  unfolding summarize
  unknown_record values unknown_reason =
      let ids = summarize (unknown_ids values) in
      let known = map grade_name (in_rank_order (known_grades values)) in
      let found = "Unknown upstream grades remain on children " <> ids <> "." in
      let details =
        if is_empty known
        then found
        else found <> " Known child grades retained: " <> join known <> "." in
      record {
        aggregation = unknown_with_reason;
        reported_grade = none;
        children = values;
        reason = with_reason unknown_reason details;
        boundary = none;
      }

  mixed_record : List Child → List String → Aggregation
  unfolding summarize
  mixed_record values scopes = record {
    aggregation = mixed;
    reported_grade = none;
    children = values;
    reason =
        "Child scopes differ ("
        <> summarize scopes
        <> "); nested grades are preserved without a wrapper grade.";
    boundary = some "heterogeneous child scopes";
  }

  -- The record for known grades in one scope, that of the first child.
  unfoldable pub graded_record : List Child → String → Grade → List Grade → Aggregation
  graded_record values scope first rest =
      if all_of (λ g. rank g == rank first) rest
      then record {
        aggregation = exact;
        reported_grade = some first;
        children = values;
        reason =
            "All children in scope "
            <> repr scope
            <> " retain exact upstream grade "
            <> grade_name first
            <> ".";
        boundary = some scope;
      }
      else record {
        aggregation = minimum;
        reported_grade = some (least first rest);
        children = values;
        reason =
            "Children in scope "
            <> repr scope
            <> " retain their upstream grades; the wrapper reports the minimum label "
            <> grade_name (least first rest)
            <> " under the closed E0-E6 ordering.";
        boundary = some scope;
      }

  -- The record that `aggregate_evidence_grades` builds, before the checks of its constructor.
  unfoldable pub proposal : List Child → Option String → Aggregation
  unfolding unknown_record mixed_record
  proposal [] unknown_reason = record {
    aggregation = not_applicable;
    reported_grade = none;
    children = [];
    reason = "No child evidence applies to this wrapper.";
    boundary = none;
  }
  proposal (c ∷ rest) unknown_reason = elim c.grade [
    | none ↦ unknown_record (c ∷ rest) unknown_reason
    | some first ↦
        if not (is_empty (unknown_ids rest))
        then unknown_record (c ∷ rest) unknown_reason
        else if ltb 1 (length (distinct (map (λ d. d.scope) (c ∷ rest))))
        then mixed_record (c ∷ rest) (sort_texts (distinct (map (λ d. d.scope) (c ∷ rest))))
        else graded_record (c ∷ rest) c.scope first (known_grades rest)
  ]

  unfoldable pub aggregate_evidence_grades : List Child → Option String → Result Error Aggregation
  aggregate_evidence_grades values unknown_reason = do
    require (leb (length values) max_children) too_many_children
    require (is_unique (evidence_ids values)) duplicate_child
    check_optional unknown_reason "unknown_reason" 2_000
    evidence_grade_aggregation (proposal values unknown_reason)
