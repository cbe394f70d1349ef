-- ===== src/ResultValidity/Input.antt =====
-- `_normalize_input`: the fields of a result that the verdict reads.
use kcd2_codex_toolkit.Base.{
  ℕ, String, Bool, true, false, ◌&&◌, ◌||◌, Option, none, some, List, [], ◌∷◌, leb, if◌then◌else◌,
  ◌==◌, text_has_eq, elem, all_of, len_in, set_of, sort_by, sort_texts, str_leb, Result, ok, err,
  ◌>>=◌, ◌>>◌, require,
}
use kcd2_codex_toolkit.Base.Json.{
  Json, null, bool, int, str, arr, in_range, Items, nil, cons, Fields, end, field, get, names, size,
  count, is_str, is_bool, text_in, object_in,
}
use kcd2_codex_toolkit.Correlation.Proof.{Diagnostic}
use kcd2_codex_toolkit.Correlation.Report.{validate_native_stage_correlation}

-- `ValueError`, and the TypeError of a lookup in a set, with what they name.
pub data Error : Type 0 where
  bad_schema bad_count too_many_families bad_refs unhashable : Error
  bad_text bad_integer : String → Error
  unknown_check bad_family bad_reached : Error

abbrev pub required_checks : List String
required_checks =
    "boot_ok" ∷ "install_ok" ∷ "game_fingerprint_match" ∷ "deployment_binding_exact"
    ∷ "module_base_emitted" ∷ "unfiltered_queries_observed" ∷ "record_layout_valid"
    ∷ "identity_filter_valid" ∷ "positive_control_or_population" ∷ "log_complete"
    ∷ "no_dropped_events" ∷ "user_state_confirmed" ∷ "correlation_contract_valid" ∷ []

-- `_bounded_string`
unfoldable pub bounded_string : Option Json → String → ℕ → Result Error String
bounded_string value name maximum = elim (text_in value) [
  | none ↦ err (bad_text name)
  | some s ↦ if len_in 1 maximum s then ok s else err (bad_text name)
]

-- `_bounded_integer`
unfoldable pub bounded_integer : Option Json → String → ℕ → ℕ → Result Error ℕ
bounded_integer (some (int n)) name minimum maximum = elim (in_range minimum maximum n) [
  | none ↦ err (bad_integer name)
  | some k ↦ ok k
]
bounded_integer _ name minimum maximum = err (bad_integer name)

-- `filtered_event_count`
unfoldable pub event_count : Option Json → Result Error (Option ℕ)
event_count none = ok none
event_count (some null) = ok none
event_count (some (int n)) = elim (in_range 0 100_000 n) [
  | none ↦ err bad_count
  | some k ↦ ok (some k)
]
event_count _ = err bad_count

-- A value that is not an object counts as an empty one.
abbrev pub fields_or_none : Option Json → Fields
fields_or_none value = elim (object_in value) [ none ↦ end | some fields ↦ fields ]

pub record Family : Type 0 where
  pub name : String
  pub observed : ℕ
  pub limit : ℕ
  pub reached : Bool

-- `declared_reached is True`, where it is a boolean or absent
unfoldable pub declared_reached : Option Json → Result Error Bool
declared_reached none = ok false
declared_reached (some null) = ok false
declared_reached (some (bool b)) = ok b
declared_reached _ = err bad_reached

-- One family of `event_family_saturation`
unfoldable pub family : String × Json → Result Error Family
family (key, value) = do
  name ← bounded_string (some (str key)) "event family name" 128
  elim (object_in (some value)) [
    | none ↦ err bad_family
    | some state ↦ (do
      observed ← bounded_integer (get "observed" state) "observed" 0 100_000
      limit ← bounded_integer (get "limit" state) "limit" 1 100_000
      declared ← declared_reached (get "reached" state)
      ok (record {
        name = name;
        observed = observed;
        limit = limit;
        reached = declared || leb limit observed;
      }))
  ]

abbrev pub families : List (String × Json) → Result Error (List Family)
families [] = ok []
families (entry ∷ rest) = family entry >>= λ f. families rest >>= λ more. ok (f ∷ more)

abbrev pub entries : Fields → List (String × Json)
entries end = []
entries (field k v rest) = (k, v) ∷ entries rest

-- `event_family_saturation`, by name
unfoldable pub saturation : Option Json → Result Error (List Family)
saturation value =
    let supplied = fields_or_none value in
    require (leb (size supplied) 128) too_many_families
    >> families (sort_by (λ a b. str_leb a.0 b.0) (entries supplied))

abbrev pub references : Items → Result Error (List String)
references nil = ok []
references (cons x xs) = bounded_string (some x) "audit evidence reference" 512 >>= λ s.
    references xs >>= λ more. ok (s ∷ more)

-- `audit_evidence_refs`
unfoldable pub evidence_refs : Option Json → Result Error (Option (List String))
evidence_refs none = ok none
evidence_refs (some null) = ok none
evidence_refs (some (arr xs)) =
    require (leb 1 (count xs) && leb (count xs) 512) bad_refs
    >> (references xs >>= λ refs. ok (some (sort_texts (set_of refs))))
evidence_refs _ = err bad_refs

-- What the correlation contract of a result comes to: whether it is valid, and its codes.
pub record Correlation : Type 0 where
  pub valid : Bool
  pub codes : List String

abbrev pub codes_of : List Diagnostic → List String
codes_of [] = []
codes_of (d ∷ rest) = d.code ∷ codes_of rest

pub record Normalized : Type 0 where
  pub probe_id : String
  pub session_id : String
  pub filtered_event_count : Option ℕ
  pub checks : String → Bool
  pub families : List Family
  pub correlation_codes : List String
  pub refs : Option (List String)

-- `checks`, from those supplied and the verdict on the correlation
abbrev pub checks_of : Fields → Bool → String → Bool
checks_of supplied correlated name =
    if name == "correlation_contract_valid"
    then is_bool true (get name supplied) && correlated
    else is_bool true (get name supplied)

module _ (casefold : String → String) (decimal : ℕ → String) where
  unfoldable pub correlation : Option Json → Result Error Correlation
  correlation value = elim (object_in value) [
    | none ↦ ok (record { valid = false; codes = "CORRELATION_PROOF_MISSING" ∷ [] })
    | some contract ↦ elim (validate_native_stage_correlation casefold decimal 256 contract) [
      | none ↦ err unhashable
      | some report ↦ ok (record { valid = report.valid; codes = codes_of report.diagnostics })
    ]
  ]

  unfoldable pub normalize_input : Fields → Result Error Normalized
  normalize_input input = do
    require (is_str "kcd2.probe-result-input.v1" (get "schema_version" input)) bad_schema
    probe_id ← bounded_string (get "probe_id" input) "probe_id" 256
    session_id ← bounded_string (get "session_id" input) "session_id" 256
    events ← event_count (get "filtered_event_count" input)
    require
        (all_of (λ name. elem name required_checks) (names (fields_or_none (get "checks" input))))
        unknown_check
    correlated ← correlation (get "correlation_contract" input)
    found ← saturation (get "event_family_saturation" input)
    refs ← evidence_refs (get "audit_evidence_refs" input)
    ok (record {
      probe_id = probe_id;
      session_id = session_id;
      filtered_event_count = events;
      checks = checks_of (fields_or_none (get "checks" input)) correlated.valid;
      families = found;
      correlation_codes = correlated.codes;
      refs = refs;
    })
