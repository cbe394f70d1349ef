-- ===== src/Correlation/Proof.antt =====
-- The proofs of a correlation: locations, evidence, owners, locks, lifetimes and debugger receipts.
-- A validator is the list of the diagnostics that it adds, in their order, or `none` where it raises
-- TypeError: a list or an object is looked up in a set of texts. `casefold` is `str.casefold`.
use Prim.Native.Char.{code}
use kcd2_codex_toolkit.Base.{
  ℕ, suc, String, ◌<>◌, Bool, true, false, ◌&&◌, ◌||◌, Option, none, some, List, [], ◌∷◌, ◌++◌, leb,
  if◌then◌else◌, ◌==◌, text_has_eq, nat_has_eq, len, len_in, all_chars, all_of, elem, is_hex,
  strip_prefix,
}
use kcd2_codex_toolkit.Base.Json.{
  Json, int, str, arr, obj, Items, nil, cons, Fields, get, is_str, is_bool, text_in, object_in,
  array_in, count, in_range,
}

-- `CorrelationDiagnostic`; its message only explains the code.
pub record Diagnostic : Type 0 where
  pub code : String
  pub path : String

abbrev pub Added : Type 0
Added = Option (List Diagnostic)

-- `if not test: collector.add(code, path, ...)`
abbrev pub unless : Bool → String → String → Added
unless true code path = some []
unless false code path = some (record { code = code; path = path } ∷ [])

abbrev pub unless_of : Option Bool → String → String → Added
unless_of none code path = none
unless_of (some test) code path = unless test code path

-- One validator, then the other.
infixr 30 ◌⊕◌
unfoldable pub ◌⊕◌ : Added → Added → Added
some a ⊕ some b = some (a ++ b)
_ ⊕ _ = none

-- `value in names`, for a set of texts
unfoldable pub in_set : List String → Option Json → Option Bool
in_set names (some (str s)) = some (elem s names)
in_set names (some (arr xs)) = none
in_set names (some (obj fields)) = none
in_set names _ = some false

-- `first and second`, where either may raise
abbrev pub both : Option Bool → Option Bool → Option Bool
both none second = none
both (some false) second = some false
both (some true) second = second

-- `_bounded_string`, `_bounded_name`
unfoldable pub bounded_string : ℕ → Option Json → Option String
bounded_string maximum value = elim (text_in value) [
  | none ↦ none
  | some s ↦ if len_in 1 maximum s then some s else none
]

abbrev pub bounded_name : Option Json → Option String
bounded_name value = bounded_string 128 value

abbrev pub is_some : {A : Type 0} → Option A → Bool
is_some none = false
is_some (some a) = true

-- `_RVA`
unfoldable pub is_rva : String → Bool
is_rva s = elim (strip_prefix "0x" s) [
  | none ↦ false
  | some digits ↦ leb 1 (len digits) && all_chars is_hex digits
]

unfoldable pub is_name_char : ℕ → Bool
is_name_char c =
    leb b'A' c && leb c b'Z'
    || leb b'a' c && leb c b'z'
    || leb b'0' c && leb c b'9'
    || c == b'_'
    || c == b'.'
    || c == b'-'

-- `_CHECKPOINT`, behind so many characters of the module's name
abbrev pub is_checkpoint_from : ℕ → String → Bool
is_checkpoint_from n String.[] = false
is_checkpoint_from n (String.◌∷◌ c s) =
    let rest = is_checkpoint_from (suc n) s in
    if code c == b'+' then leb 1 n && leb n 128 && is_rva s else is_name_char (code c) && rest

unfoldable pub is_checkpoint : String → Bool
is_checkpoint s = is_checkpoint_from 0 s

abbrev pub text_passes : (String → Bool) → Option Json → Bool
text_passes test value = elim (text_in value) [ none ↦ false | some s ↦ test s ]

-- `isinstance(value, int) and not isinstance(value, bool) and 1 <= value <= maximum`
unfoldable pub is_bounded_int : ℕ → Option Json → Bool
is_bounded_int maximum (some (int n)) = is_some (in_range 1 maximum n)
is_bounded_int maximum _ = false

abbrev pub is_of_class : Option String → Option Json → Bool
is_of_class none value = true
is_of_class (some required) value = is_str required value

abbrev pub proven_claims : List String
proven_claims =
    "thread_identity_proven" ∷ "pointer_lifetime_proven" ∷ "arguments_proven" ∷ "call_stack_proven"
    ∷ []

module _ (casefold : String → String) where
  -- `_same_hash`
  unfoldable pub same_hash : Option Json → String → Bool
  same_hash value expected = text_passes (λ s. casefold s == casefold expected) value

  -- The tests of a citation behind its class.
  abbrev pub is_bound_citation : String → Fields → Bool
  is_bound_citation module_sha256 citation =
      same_hash (get "module_sha256" citation) module_sha256
      && is_some (bounded_string 1024 (get "artifact" citation))
      && is_some (bounded_string 1024 (get "locator" citation))
      && is_some (bounded_string 2000 (get "claim" citation))

  -- One citation of `_valid_evidence`; no class is asked for where `required` is `none`.
  unfoldable pub is_citation : Option String → String → Json → Option Bool
  is_citation required module_sha256 (obj citation) =
      both (in_set ("static" ∷ "runtime" ∷ []) (get "evidence_class" citation)) (
        some (
          is_of_class required (get "evidence_class" citation)
          && is_bound_citation module_sha256 citation))
  is_citation required module_sha256 _ = some false

  abbrev pub all_citations : Option String → String → Items → Option Bool
  all_citations required module_sha256 nil = some true
  all_citations required module_sha256 (cons x xs) =
      both (is_citation required module_sha256 x) (all_citations required module_sha256 xs)

  -- `_valid_evidence`, `_valid_mixed_evidence`
  unfoldable pub valid_evidence : Option String → String → Option Json → Option Bool
  valid_evidence required module_sha256 value = elim (array_in value) [
    | none ↦ some false
    | some xs ↦
        both (some (leb 1 (count xs) && leb (count xs) 256))
          (all_citations required module_sha256 xs)
  ]

  -- `_validate_location`
  unfoldable pub validate_location : Fields → String → String → String → Added
  validate_location value module_sha256 rva_field path =
      unless (same_hash (get "module_sha256" value) module_sha256) "PROOF_MODULE_MISMATCH"
        (path <> ".module_sha256")
      ⊕ unless (text_passes is_rva (get rva_field value)) "PROOF_RVA_INVALID"
          (path <> "." <> rva_field)

  -- `_validate_owner`
  unfoldable pub validate_owner : Option Json → String → String → Added
  validate_owner owner module_sha256 path = elim (object_in owner) [
    | none ↦ unless false "OWNER_FUNCTION_PROOF_REQUIRED" path
    | some fields ↦
        validate_location fields module_sha256 "function_rva" path
        ⊕ (unless
              (is_bool true (get "owns_query" fields) && is_bool true (get "owns_output" fields))
              "OWNER_QUERY_OUTPUT_NOT_PROVEN" path
            ⊕ unless_of
                (valid_evidence (some "static") module_sha256 (get "static_evidence" fields))
                "OWNER_STATIC_EVIDENCE_REQUIRED" (path <> ".static_evidence"))
  ]

  -- `_validate_caller_return`
  unfoldable pub validate_caller_return : Option Json → String → String → Added
  validate_caller_return lock module_sha256 path = elim (object_in lock) [
    | none ↦ unless false "CALLER_RETURN_LOCK_REQUIRED" path
    | some fields ↦
        unless_of (in_set ("exact_caller_rva" ∷ "exact_return_rva" ∷ []) (get "lock_kind" fields))
          "CALLER_RETURN_LOCK_KIND_INVALID" (path <> ".lock_kind")
        ⊕ (validate_location fields module_sha256 "lock_rva" path
            ⊕ unless_of
                (valid_evidence (some "static") module_sha256 (get "static_evidence" fields))
                "CALLER_RETURN_STATIC_EVIDENCE_REQUIRED" (path <> ".static_evidence"))
  ]

  -- `_validate_lifetime`, for the storage and the prefix of its codes
  unfoldable pub validate_lifetime : Option Json → String → String → String → String → Added
  validate_lifetime proof module_sha256 storage prefix path = elim (object_in proof) [
    | none ↦ unless false (prefix <> "_LIFETIME_PROOF_REQUIRED") (path <> ".lifetime_proof")
    | some fields ↦
        if is_str storage (get "storage" fields)
        then unless_of (valid_evidence none module_sha256 (get "lifetime_evidence" fields))
            (prefix <> "_LIFETIME_PROOF_REQUIRED") (path <> ".lifetime_proof.lifetime_evidence")
          ⊕ unless_of (valid_evidence none module_sha256 (get "routing_evidence" fields))
              "CALL_ROUTING_PROOF_REQUIRED" (path <> ".lifetime_proof.routing_evidence")
        else unless false (prefix <> "_LIFETIME_PROOF_REQUIRED") (path <> ".lifetime_proof")
  ]

  -- The tests of a receipt's fields.
  unfoldable pub validate_receipt : Fields → String → String → Added
  validate_receipt fields module_sha256 path =
      unless (same_hash (get "module_sha256" fields) module_sha256) "X64DBG_MODULE_MISMATCH"
        (path <> ".module_sha256")
      ⊕ (unless (is_bounded_int 16 (get "maximum_breakpoints" fields)) "X64DBG_BOUND_INVALID"
            (path <> ".maximum_breakpoints")
          ⊕ (unless (is_bounded_int 10_000 (get "maximum_events" fields)) "X64DBG_BOUND_INVALID"
                (path <> ".maximum_events")
              ⊕ (unless (is_some (bounded_string 256 (get "session_id" fields)))
                    "X64DBG_CHECKPOINT_INVALID" (path <> ".session_id")
                  ⊕ (unless (text_passes is_checkpoint (get "source_checkpoint" fields))
                        "X64DBG_CHECKPOINT_INVALID" (path <> ".source_checkpoint")
                      ⊕ (unless (text_passes is_checkpoint (get "target_checkpoint" fields))
                            "X64DBG_CHECKPOINT_INVALID" (path <> ".target_checkpoint")
                          ⊕ (unless
                                (all_of (λ claim. is_bool true (get claim fields)) proven_claims)
                                "X64DBG_PROOF_INCOMPLETE" path
                              ⊕ unless_of
                                  (valid_evidence (some "runtime") module_sha256
                                    (get "runtime_evidence" fields))
                                  "X64DBG_RUNTIME_EVIDENCE_REQUIRED"
                                  (path <> ".runtime_evidence")))))))

  -- `_validate_x64dbg`
  unfoldable pub validate_x64dbg : Option Json → String → String → Added
  validate_x64dbg proof module_sha256 path = elim (object_in proof) [
    | none ↦ unless false "X64DBG_PROOF_REQUIRED" path
    | some fields ↦ validate_receipt fields module_sha256 path
  ]
