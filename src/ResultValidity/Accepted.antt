-- ===== src/ResultValidity/Accepted.antt =====
-- What an input holds that is accepted: its correlation, its checks, its count and its families.
use kcd2_codex_toolkit.Base.{
  ℕ, String, true, some, text_has_eq, elem, all_of, ok, require, >>=-eq-ok, ok-same, ◌≡◌, ◌↔◌, inl,
  inr, refl, sym, ap, ◌∙◌, subst, arith, Option-cases,
}
use kcd2_codex_toolkit.Base.Json.{obj, Fields, get, names, is_str, object_in}
use kcd2_codex_toolkit.Base.Json.Values.{object_in-eq}
use kcd2_codex_toolkit.Correlation.Report.{CorrelationReport, validate_native_stage_correlation}
use kcd2_codex_toolkit.ResultValidity.Input.{
  bad_schema, unknown_check, required_checks, bounded_string, event_count, fields_or_none,
  saturation, evidence_refs, Correlation, correlation, checks_of, Normalized, normalize_input,
}

module _ (casefold : String → String) (decimal : ℕ → String) where
  -- The contract of a result is one that the correlation accepts.
  abbrev pub IsCorrelationValid : Fields → Type 0
  IsCorrelationValid input =
      (contract : Fields) × (report : CorrelationReport) × (get "correlation_contract" input
        ≡ some (obj contract))
      × (validate_native_stage_correlation casefold decimal 256 contract ≡ some report)
      × (report.valid ≡ true)

  pub correlation-valid :
      (input : Fields) (c : Correlation)
      → correlation casefold decimal (get "correlation_contract" input) ≡ ok c
      → (c.valid ≡ true) ↔ IsCorrelationValid input
  unfolding correlation
  correlation-valid input c h = elim (Option-cases (object_in (get "correlation_contract" input))) [
    | inl e ↦
        (λ v. ground (arith, e, h, v), λ (contract, report, found, r, v). ground (arith, e, found))
    | inr (contract, e) ↦
        let found = object_in-eq (get "correlation_contract" input) contract e in
        elim (Option-cases (validate_native_stage_correlation casefold decimal 256 contract)) [
          | inl r ↦ ground (arith, e, h, r)
          | inr (report, r) ↦
              let same : report.valid ≡ c.valid = ground (arith, e, h, r) in
              (
                λ v. (contract, report, found, r, same ∙ v),
                λ (contract_, report_, found_, r_, v).
                    let one : contract ≡ contract_ = ground (arith, found, found_) in
                    let two : some report ≡ some report_ =
                      sym r
                      ∙ (ap (λ x. validate_native_stage_correlation casefold decimal 256 x) one
                          ∙ r_) in
                    let three : report ≡ report_ = ground (arith, two) in
                    sym same ∙ (ap (λ (x : CorrelationReport). x.valid) three ∙ v),
              )
        ]
  ]

  -- The correlation and the families that a result supplies, where it is accepted.
  pub record Read (input : Fields) (n : Normalized) : Type 0 where
    pub correlated : Correlation
    pub correlation-eq :
        correlation casefold decimal (get "correlation_contract" input) ≡ ok correlated
    pub checks-eq : n.checks ≡ checks_of (fields_or_none (get "checks" input)) correlated.valid
    pub count-eq : event_count (get "filtered_event_count" input) ≡ ok n.filtered_event_count
    pub families-eq : saturation (get "event_family_saturation" input) ≡ ok n.families

  pub normalize_input-Read :
      (input : Fields) (n : Normalized)
      → normalize_input casefold decimal input ≡ ok n
      → Read input n
  unfolding normalize_input
  normalize_input-Read input n h =
      let (_, _, h) =
        >>=-eq-ok
          (require (is_str "kcd2.probe-result-input.v1" (get "schema_version" input)) bad_schema) _
          h in
      let (_, _, h) = >>=-eq-ok (bounded_string (get "probe_id" input) "probe_id" 256) _ h in
      let (_, _, h) = >>=-eq-ok (bounded_string (get "session_id" input) "session_id" 256) _ h in
      let (events, counted, h) = >>=-eq-ok (event_count (get "filtered_event_count" input)) _ h in
      let (_, _, h) =
        >>=-eq-ok
          (require
            (all_of (λ name. elem name required_checks)
              (names (fields_or_none (get "checks" input))))
            unknown_check)
          _ h in
      let (correlated, correlated_, h) =
        >>=-eq-ok (correlation casefold decimal (get "correlation_contract" input)) _ h in
      let (found, found_, h) = >>=-eq-ok (saturation (get "event_family_saturation" input)) _ h in
      let (_, _, h) = >>=-eq-ok (evidence_refs (get "audit_evidence_refs" input)) _ h in
      let same = ok-same _ refl h in
      subst (Read input) same (record {
        correlated = correlated;
        correlation-eq = correlated_;
        checks-eq = refl;
        count-eq = counted;
        families-eq = found_;
      })
