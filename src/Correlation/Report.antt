-- ===== src/Correlation/Report.antt =====
-- `validate_native_stage_correlation` and its collector of diagnostics. `decimal` prints an index, and
-- `none` stands for the TypeError that a lookup in a set of texts raises.
use kcd2_codex_toolkit.Base.{
  ℕ, zero, suc, String, ◌<>◌, Bool, true, false, not, ◌&&◌, Option, none, some, List, [], ◌∷◌, ◌++◌,
  leb, ltb, if◌then◌else◌, text_has_eq, elem, length, is_empty, is_sha256, lower,
}
use kcd2_codex_toolkit.Base.Json.{
  Json, null, Items, nil, cons, Fields, get, is_str, text_in, object_in, array_in, count,
}
use kcd2_codex_toolkit.Correlation.Proof.{Diagnostic, Added, in_set, bounded_name}
use kcd2_codex_toolkit.Correlation.Contract.{validate_correlation}

pub record Collector : Type 0 where
  pub maximum : ℕ
  pub items : List Diagnostic
  pub truncated : Bool

abbrev pub new_collector : ℕ → Collector
new_collector maximum = record { maximum = maximum; items = []; truncated = false }

-- `add`
unfoldable pub add_one : Collector → Diagnostic → Collector
add_one c d =
    if ltb (length c.items) c.maximum
    then record c { items = c.items ++ d ∷ [] }
    else record c { truncated = true }

abbrev pub add_all : Collector → List Diagnostic → Collector
add_all c [] = c
add_all c (d ∷ rest) = add_all (add_one c d) rest

abbrev pub report_one : Collector → String → String → Collector
report_one c code path = add_one c (record { code = code; path = path })

abbrev pub drop : {A : Type 0} → ℕ → List A → List A
drop zero xs = xs
drop (suc n) [] = []
drop (suc n) (x ∷ xs) = drop n xs

pub record CorrelationResult : Type 0 where
  pub correlation_id : String
  pub strategy : String
  pub valid : Bool
  pub diagnostics : List Diagnostic

pub record CorrelationReport : Type 0 where
  pub valid : Bool
  pub correlations : List CorrelationResult
  pub diagnostics : List Diagnostic
  pub diagnostics_truncated : Bool

-- `_report`
unfoldable pub report : Collector → List CorrelationResult → CorrelationReport
report c results = record {
  valid = is_empty c.items && not c.truncated && not (is_empty results);
  correlations = results;
  diagnostics = c.items;
  diagnostics_truncated = c.truncated;
}

-- `_document_module_sha256`
abbrev pub given : Option Json → Option Json
given (some null) = none
given value = value

abbrev pub module_value : Fields → Option Json
module_value document = elim (given (get "module_sha256" document)) [
  | some value ↦ some value
  | none ↦ elim (object_in (get "expected_module" document)) [
    | none ↦ none
    | some expected ↦ get "sha256" expected
  ]
]

unfoldable pub document_module_sha256 : Fields → Option String
document_module_sha256 document = elim (text_in (module_value document)) [
  | none ↦ none
  | some s ↦ if is_sha256 s then some (lower s) else none
]

abbrev pub versions : List String
versions = "kcd2.native-stage-correlation.v1" ∷ "kcd2.probe-contract.v2" ∷ []

-- Where the correlations stand, and what stands there.
unfoldable pub collection : Fields → String × Option Json
collection document = elim (given (get "correlations" document)) [
  | some value ↦ ("$.correlations", some value)
  | none ↦
      if is_str "kcd2.probe-contract.v2" (get "schema_version" document)
      then ("$.correlation_contracts", get "correlation_contracts" document)
      else ("$.correlations", none)
]

abbrev pub entries_in : Option Json → Items
entries_in value = elim (array_in value) [ none ↦ nil | some xs ↦ xs ]

-- The variables of the loop over the correlations.
pub record Progress : Type 0 where
  pub collector : Collector
  pub seen_ids : List String
  pub results : List CorrelationResult

abbrev pub text_or : String → Option String → String
text_or default none = default
text_or default (some s) = s

-- The result of one correlation, from what was added behind the items before.
abbrev pub settled : Progress → Collector → List String → String → String → Progress
settled before c seen_ids correlation_id strategy =
    let diagnostics = drop (length before.collector.items) c.items in
    record {
      collector = c;
      seen_ids = seen_ids;
      results =
          before.results
          ++ record {
            correlation_id = correlation_id;
            strategy = strategy;
            valid = is_empty diagnostics;
            diagnostics = diagnostics;
          }
            ∷ [];
    }

abbrev pub add_added : Collector → Added → Option Collector
add_added c none = none
add_added c (some diagnostics) = some (add_all c diagnostics)

module _ (casefold : String → String) (decimal : ℕ → String) where
  unfoldable pub validate_entry_fields : String → String → ℕ → Fields → Progress → Option Progress
  validate_entry_fields module_sha256 path index correlation before =
      let correlation_id =
        text_or ("invalid-" <> decimal index) (bounded_name (get "correlation_id" correlation)) in
      let c =
        if elem correlation_id before.seen_ids
        then report_one before.collector "CORRELATION_ID_DUPLICATE" (path <> ".correlation_id")
        else before.collector in
      elim (add_added c (validate_correlation casefold correlation module_sha256 path)) [
        | none ↦ none
        | some after ↦ some (
            settled before after (correlation_id ∷ before.seen_ids) correlation_id
              (text_or "invalid" (text_in (get "strategy" correlation))))
      ]

  -- The body of the loop.
  abbrev pub validate_entry : String → String → ℕ → Json → Progress → Option Progress
  validate_entry module_sha256 collection_path index raw before =
      let path = collection_path <> "[" <> decimal index <> "]" in
      elim (object_in (some raw)) [
        | some correlation ↦ validate_entry_fields module_sha256 path index correlation before
        | none ↦ some (
            settled before (report_one before.collector "CORRELATION_TYPE_INVALID" path)
              before.seen_ids ("invalid-" <> decimal index) "invalid")
      ]

  -- `for index, raw in enumerate(raw_correlations[:MAX_CORRELATIONS])`, with so many left
  abbrev pub validate_entries : String → String → ℕ → ℕ → Items → Progress → Option Progress
  validate_entries module_sha256 collection_path index zero xs p = some p
  validate_entries module_sha256 collection_path index (suc left) nil p = some p
  validate_entries module_sha256 collection_path index (suc left) (cons x xs) p =
      elim (validate_entry module_sha256 collection_path index x p) [
        | none ↦ none
        | some next ↦ validate_entries module_sha256 collection_path (suc index) left xs next
      ]

  -- The collector before the loop.
  unfoldable pub check_document : ℕ → Bool → Fields → Collector
  check_document max_diagnostics known_version document =
      let c = new_collector max_diagnostics in
      let c =
        if known_version then c else report_one c "SCHEMA_VERSION_INVALID" "$.schema_version" in
      let c : Collector = elim (document_module_sha256 document) [
        | some s ↦ c
        | none ↦ report_one c "MODULE_IDENTITY_INVALID" "$.module_sha256"
      ] in
      let path = (collection document).0 in
      let entries = entries_in (collection document).1 in
      let c =
        if leb 1 (count entries) then c else report_one c "CORRELATION_COLLECTION_INVALID" path in
      if leb (count entries) 64 then c else report_one c "CORRELATION_COLLECTION_LIMIT" path

  -- `validate_native_stage_correlation`, for a number of diagnostics from 1 to 10,000
  unfoldable pub validate_native_stage_correlation : ℕ → Fields → Option CorrelationReport
  validate_native_stage_correlation max_diagnostics document =
      elim (in_set versions (get "schema_version" document)) [
        | none ↦ none
        | some known_version ↦
            elim (validate_entries (text_or "" (document_module_sha256 document))
              (collection document).0 0 64 (entries_in (collection document).1)
              (record {
                collector = check_document max_diagnostics known_version document;
                seen_ids = [];
                results = [];
              })) [ none ↦ none | some p ↦ some (report p.collector p.results) ]
      ]
