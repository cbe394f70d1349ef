-- ===== src/ResultValidity/Verdict.antt =====
-- `validate_probe_result` and `negative_capture_audit`.
use kcd2_codex_toolkit.Base.{
  ℕ, zero, suc, String, ◌<>◌, Bool, Option, none, some, List, [], ◌∷◌, ◌++◌, if◌then◌else◌,
  is_empty, map, Result, ok, err, ◌>>=◌,
}
use kcd2_codex_toolkit.Base.Json.{Fields}
use kcd2_codex_toolkit.ResultValidity.Input.{
  Error, bad_count, required_checks, Family, Normalized, normalize_input,
}

pub data Verdict : Type 0 where
  not_evaluated capture_inconclusive positive_observation confirmed_negative_in_covered_scope :
      Verdict

-- The claims that an audit permits: that a query was observed, or none.
pub data Claim : Type 0 where
  query_observed no_claim : Claim

pub record Audit : Type 0 where
  pub probe_id : String
  pub session_id : String
  pub checks : String → Bool
  pub families : List Family
  pub verdict : Verdict
  pub reasons : List String
  pub permitted_runtime_claims : List Claim
  pub refs : Option (List String)

-- `_build_audit`
unfoldable pub build_audit : Normalized → Verdict → List String → Claim → Audit
build_audit n verdict reasons claim = record {
  probe_id = n.probe_id;
  session_id = n.session_id;
  checks = n.checks;
  families = n.families;
  verdict = verdict;
  reasons = reasons;
  permitted_runtime_claims = claim ∷ [];
  refs = n.refs;
}

-- `_correlation_reasons`
unfoldable pub correlation_reasons : Normalized → List String
correlation_reasons n =
    if is_empty n.correlation_codes
    then "check_failed:correlation_contract_valid" ∷ []
    else map (λ code. "correlation_invalid:" <> code) n.correlation_codes

abbrev pub failed_checks : (String → Bool) → List String → List String
failed_checks checks [] = []
failed_checks checks (name ∷ rest) =
    let more = failed_checks checks rest in
    if checks name then more else ("check_failed:" <> name) ∷ more

abbrev pub saturated : List Family → List String
saturated [] = []
saturated (f ∷ rest) =
    let more = saturated rest in
    if f.reached then ("event_family_saturated:" <> f.name) ∷ more else more

-- The reasons of `_audit_zero_count`
unfoldable pub zero_count_reasons : Normalized → List String
zero_count_reasons n =
    failed_checks n.checks required_checks
    ++ ((if n.checks "correlation_contract_valid" then [] else correlation_reasons n)
        ++ ((if is_empty n.families then "event_family_saturation_missing" ∷ [] else [])
            ++ saturated n.families))

-- `_audit_zero_count`
unfoldable pub audit_zero_count : Normalized → Audit
audit_zero_count n =
    if is_empty (zero_count_reasons n)
    then build_audit n confirmed_negative_in_covered_scope [] no_claim
    else build_audit n capture_inconclusive (zero_count_reasons n)
        (if n.checks "unfiltered_queries_observed" then query_observed else no_claim)

-- The audit of a positive count
unfoldable pub audit_events : Normalized → Audit
audit_events n =
    if n.checks "correlation_contract_valid"
    then build_audit n positive_observation [] query_observed
    else build_audit n capture_inconclusive (correlation_reasons n) query_observed

abbrev pub audit_of : Normalized → Option ℕ → Audit
audit_of n none = build_audit n not_evaluated [] no_claim
audit_of n (some zero) = audit_zero_count n
audit_of n (some (suc k)) = audit_events n

module _ (casefold : String → String) (decimal : ℕ → String) where
  -- `validate_probe_result`
  unfoldable pub validate_probe_result : Fields → Result Error Audit
  validate_probe_result input =
      normalize_input casefold decimal input >>= λ n. ok (audit_of n n.filtered_event_count)

  abbrev pub negative_audit : Normalized → Option ℕ → Result Error Audit
  negative_audit n (some zero) = ok (audit_zero_count n)
  negative_audit n _ = err bad_count

  -- `negative_capture_audit`
  unfoldable pub negative_capture_audit : Fields → Result Error Audit
  negative_capture_audit input =
      normalize_input casefold decimal input >>= λ n. negative_audit n n.filtered_event_count
