-- ===== src/ResultValidity/Tests.antt =====
-- A capture of no event that is confirmed.
use kcd2_codex_toolkit.Base.{
  String, true, false, none, some, List, [], ◌∷◌, text_has_eq, nat_has_eq, elem, sort_by, insert_by,
  ok, ◌≡◌, refl,
}
use kcd2_codex_toolkit.Base.Json.{bool, int, str, obj, pos, Fields, end, field, get, in_range}
use kcd2_codex_toolkit.Correlation.Tests.{same_text, zero_always, a_document, the_document_is_valid}
use kcd2_codex_toolkit.ResultValidity.Input.{
  required_checks, bounded_string, bounded_integer, event_count, declared_reached, family,
  saturation, evidence_refs, correlation, checks_of, normalize_input,
}
use kcd2_codex_toolkit.ResultValidity.Verdict.{
  confirmed_negative_in_covered_scope, no_claim, Audit, build_audit, zero_count_reasons,
  audit_zero_count, validate_probe_result,
}
use kcd2_codex_toolkit.ResultValidity.Sound.{IsJudged, validate_probe_result-IsJudged}

abbrev all_true : List String → Fields
all_true [] = end
all_true (name ∷ rest) = field name (bool true) (all_true rest)

abbrev an_input : Fields
an_input = field "schema_version" (str "kcd2.probe-result-input.v1") (
    field "probe_id" (str "p1") (
      field "session_id" (str "s1") (
        field "filtered_event_count" (int (pos 0)) (
          field "checks" (obj (all_true required_checks)) (
            field "correlation_contract" (obj a_document) (
              field "event_family_saturation"
                (obj (
                  field "query"
                    (obj (field "observed" (int (pos 3)) (field "limit" (int (pos 8)) end))) end))
                end))))))

abbrev an_audit : Audit
an_audit = record {
  probe_id = "p1";
  session_id = "s1";
  checks = checks_of (all_true required_checks) true;
  families = record { name = "query"; observed = 3; limit = 8; reached = false } ∷ [];
  verdict = confirmed_negative_in_covered_scope;
  reasons = [];
  permitted_runtime_claims = no_claim ∷ [];
  refs = none;
}

the_contract_is_accepted :
    correlation same_text zero_always (some (obj a_document))
    ≡ ok (record { valid = true; codes = [] })
unfolding correlation
the_contract_is_accepted = rw (correlation, the_document_is_valid) refl

the_negative_is_confirmed : validate_probe_result same_text zero_always an_input ≡ ok an_audit
unfolding validate_probe_result normalize_input bounded_string bounded_integer event_count
    declared_reached family saturation evidence_refs build_audit zero_count_reasons audit_zero_count
    get elem in_range sort_by insert_by
the_negative_is_confirmed = rw the_contract_is_accepted refl

validate_probe_result-IsJudged_example :
    IsJudged same_text zero_always an_input confirmed_negative_in_covered_scope
validate_probe_result-IsJudged_example =
    validate_probe_result-IsJudged same_text zero_always an_input an_audit the_negative_is_confirmed
