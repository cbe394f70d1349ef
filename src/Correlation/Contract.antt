-- ===== src/Correlation/Contract.antt =====
-- `_validate_correlation`: one contract of a correlation document.
use kcd2_codex_toolkit.Base.{
  String, ◌<>◌, Bool, true, false, not, ◌&&◌, ◌||◌, Option, none, some, [], ◌∷◌, if◌then◌else◌,
  ◌==◌, text_has_eq, nat_has_eq, all_of, is_empty,
}
use kcd2_codex_toolkit.Base.Json.{
  Json, str, arr, obj, bool, Fields, end, field, get, size, object_in,
}
use kcd2_codex_toolkit.Correlation.Proof.{
  Added, unless, unless_of, ◌⊕◌, bounded_name, is_some, validate_owner, validate_caller_return,
  validate_lifetime, validate_x64dbg,
}

pub data Strategy : Type 0 where
  same_owner_function exact_caller_return same_object_lifetime_proven tls_lifetime_proven
        bounded_x64dbg_proof :
      Strategy

-- The strategy that a text of `_STRATEGIES` names.
unfoldable pub strategy_of : String → Option Strategy
strategy_of s =
    if s == "same_owner_function"
    then some same_owner_function
    else if s == "exact_caller_return"
    then some exact_caller_return
    else if s == "same_object_lifetime_proven"
    then some same_object_lifetime_proven
    else if s == "tls_lifetime_proven"
    then some tls_lifetime_proven
    else if s == "bounded_x64dbg_proof"
    then some bounded_x64dbg_proof
    else none

-- The strategy of a contract, if it is one; a list or an object cannot be looked up.
unfoldable pub chosen_strategy : Option Json → Option (Option Strategy)
chosen_strategy (some (str s)) = some (strategy_of s)
chosen_strategy (some (arr xs)) = none
chosen_strategy (some (obj fields)) = none
chosen_strategy _ = some none

abbrev pub is_owner_strategy : Strategy → Bool
is_owner_strategy same_owner_function = true
is_owner_strategy _ = false

abbrev pub is_x64dbg_strategy : Strategy → Bool
is_x64dbg_strategy bounded_x64dbg_proof = true
is_x64dbg_strategy _ = false

-- What `_validate_stage` returns, and what it adds.
abbrev pub Stage : Type 0
Stage = Option (String × String)

abbrev pub stage_pair : Option String → Option String → Stage
stage_pair (some stage_id) (some hook_id) = some (stage_id, hook_id)
stage_pair _ _ = none

unfoldable pub stage_of : Option Json → Stage
stage_of stage = elim (object_in stage) [
  | none ↦ none
  | some fields ↦
      stage_pair (bounded_name (get "stage_id" fields)) (bounded_name (get "hook_id" fields))
]

unfoldable pub validate_stage : Option Json → String → Added
validate_stage stage path = elim (object_in stage) [
  | none ↦ unless false "STAGE_INVALID" path
  | some fields ↦
      unless (is_some (bounded_name (get "stage_id" fields))) "STAGE_ID_INVALID"
        (path <> ".stage_id")
      ⊕ unless (is_some (bounded_name (get "hook_id" fields))) "HOOK_ID_INVALID"
          (path <> ".hook_id")
]

-- Two stages that are known and differ.
abbrev pub separated : Stage → Stage → Bool
separated (some (s, h)) (some (t, k)) = not (s == t) || not (h == k)
separated _ _ = false

abbrev pub all_bool : Fields → Bool
all_bool end = true
all_bool (field k (bool b) rest) = all_bool rest
all_bool (field k _ rest) = false

-- The test of the observations: their names, then their types, under one code
unfoldable pub are_observations : Option Json → Bool
are_observations value = elim (object_in value) [
  | none ↦ false
  | some fields ↦
      size fields == 3
      && all_of (λ name. is_some (get name fields))
          ("same_thread" ∷ "same_pointer" ∷ "tls_storage" ∷ [])
      && all_bool fields
]

module _ (casefold : String → String) where
  -- `isinstance(owner, Mapping) and not owner_collector.items`
  unfoldable pub is_owner_proven : Fields → String → String → Option Bool
  is_owner_proven correlation module_sha256 path =
      elim (validate_owner casefold (get "owner_function" correlation) module_sha256
        (path <> ".owner_function")) [
          | none ↦ none
          | some added ↦
              some (is_some (object_in (get "owner_function" correlation)) && is_empty added)
        ]

  abbrev pub is_preferred : Strategy → Option Bool → Option Bool
  is_preferred strategy none = none
  is_preferred strategy (some proven) = some (not proven || is_owner_strategy strategy)

  -- What the strategy asks for.
  unfoldable pub validate_strategy : Strategy → Fields → String → String → Added
  validate_strategy same_owner_function correlation module_sha256 path =
      validate_owner casefold (get "owner_function" correlation) module_sha256
        (path <> ".owner_function")
  validate_strategy exact_caller_return correlation module_sha256 path =
      validate_caller_return casefold (get "caller_return_lock" correlation) module_sha256
        (path <> ".caller_return_lock")
  validate_strategy same_object_lifetime_proven correlation module_sha256 path =
      validate_lifetime casefold (get "lifetime_proof" correlation) module_sha256 "object" "OBJECT"
        path
  validate_strategy tls_lifetime_proven correlation module_sha256 path =
      validate_lifetime casefold (get "lifetime_proof" correlation) module_sha256 "tls" "TLS" path
  validate_strategy bounded_x64dbg_proof correlation module_sha256 path =
      validate_x64dbg casefold (get "x64dbg_proof" correlation) module_sha256
        (path <> ".x64dbg_proof")

  -- Behind the test of the strategy.
  unfoldable pub validate_by : Strategy → Fields → String → String → Added
  validate_by strategy correlation module_sha256 path =
      unless (are_observations (get "observations" correlation)) "OBSERVATIONS_INVALID"
        (path <> ".observations")
      ⊕ (unless_of (is_preferred strategy (is_owner_proven correlation module_sha256 path))
            "OWNER_FUNCTION_PREFERRED" (path <> ".strategy")
          ⊕ (validate_strategy strategy correlation module_sha256 path
              ⊕ unless
                  (not (
                      separated (stage_of (get "source_stage" correlation))
                        (stage_of (get "target_stage" correlation)))
                    || is_x64dbg_strategy strategy)
                  "SEPARATED_STAGE_X64DBG_PROOF_REQUIRED" (path <> ".strategy")))

  -- `_validate_correlation`
  unfoldable pub validate_correlation : Fields → String → String → Added
  validate_correlation correlation module_sha256 path =
      unless (is_some (bounded_name (get "correlation_id" correlation))) "CORRELATION_ID_INVALID"
        (path <> ".correlation_id")
      ⊕ (validate_stage (get "source_stage" correlation) (path <> ".source_stage")
          ⊕ (validate_stage (get "target_stage" correlation) (path <> ".target_stage")
              ⊕ elim (chosen_strategy (get "strategy" correlation)) [
                | none ↦ none
                | some none ↦ unless false "CORRELATION_STRATEGY_INVALID" (path <> ".strategy")
                | some (some strategy) ↦ validate_by strategy correlation module_sha256 path
              ]))
