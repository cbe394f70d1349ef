-- ===== src/ResultValidity/Sound.antt =====
-- When a verdict is reached.
use kcd2_codex_toolkit.ResultValidity.Reasons.{
  NothingAgainst, zero_count_reasons-empty, checks_of-All,
}
use kcd2_codex_toolkit.ResultValidity.Accepted.{
  IsCorrelationValid, correlation-valid, Read, normalize_input-Read,
}
use kcd2_codex_toolkit.Base.{
  ℕ, zero, suc, String, Bool, true, false, ◌&&◌, Option, none, some, [], ◌∷◌, text_has_eq, is_empty,
  ok, >>=-eq-ok, ok-same, All, ◌≡◌, ◌↔◌, inl, inr, refl, sym, ap, ◌∙◌, subst, arith, Bool-cases,
  &&-true,
}
use kcd2_codex_toolkit.ResultValidity.Supplied.{
  HasNoCount, AreBelow, event_count-HasNoCount, event_count-eq, saturation_iff,
}
use kcd2_codex_toolkit.Base.Json.{Json, int, pos, Fields, get, is_bool}
use kcd2_codex_toolkit.ResultValidity.Input.{
  required_checks, event_count, fields_or_none, Normalized, normalize_input,
}
use kcd2_codex_toolkit.ResultValidity.Verdict.{
  Verdict, not_evaluated, capture_inconclusive, positive_observation,
  confirmed_negative_in_covered_scope, Audit, build_audit, zero_count_reasons, audit_zero_count,
  audit_events, audit_of, validate_probe_result,
}

not_none : {v : Option Json} {k : ℕ} → v ≡ some (int (pos k)) → ¬ HasNoCount v
not_none e (inl n) = ground (arith, e, n)
not_none e (inr n) = ground (arith, e, n)

module _ (casefold : String → String) (decimal : ℕ → String) where
  -- Every required check is supplied as true.
  abbrev AreChecked : Fields → Type 0
  AreChecked input =
      All (λ name. is_bool true (get name (fields_or_none (get "checks" input))) ≡ true)
        ("boot_ok" ∷ "install_ok" ∷ "game_fingerprint_match" ∷ "deployment_binding_exact"
          ∷ "module_base_emitted" ∷ "unfiltered_queries_observed" ∷ "record_layout_valid"
          ∷ "identity_filter_valid" ∷ "positive_control_or_population" ∷ "log_complete"
          ∷ "no_dropped_events" ∷ "user_state_confirmed" ∷ "correlation_contract_valid" ∷ [])

  unfoldable pub IsConfirmed : Fields → Type 0
  IsConfirmed input =
      (get "filtered_event_count" input ≡ some (int (pos 0)))
      × AreChecked input
      × IsCorrelationValid casefold decimal input
      × AreBelow input

  unfoldable pub IsObserved : Fields → Type 0
  IsObserved input =
      (k : ℕ) × (get "filtered_event_count" input ≡ some (int (pos (suc k))))
      × (is_bool true (get "correlation_contract_valid" (fields_or_none (get "checks" input)))
          ≡ true)
      × IsCorrelationValid casefold decimal input

  NothingAgainst-iff :
      (input : Fields) (n : Normalized)
      → Read casefold decimal input n
      → NothingAgainst n
        ↔ (AreChecked input × IsCorrelationValid casefold decimal input × AreBelow input)
  NothingAgainst-iff input n read = (forward, backward)
    where
      supplied : Fields
      supplied = fields_or_none (get "checks" input)

      forward :
          NothingAgainst n
          → AreChecked input × IsCorrelationValid casefold decimal input × AreBelow input
      forward (checked, (some_family, none_reached)) =
          let (all, valid) = (checks_of-All supplied read.correlated.valid).0 (
            subst (λ (c : String → Bool). All (λ name. c name ≡ true) required_checks)
              read.checks-eq checked) in
          (
            all,
            (correlation-valid casefold decimal input read.correlated read.correlation-eq).0 valid,
            (saturation_iff input n.families read.families-eq).0 (some_family, none_reached),
          )

      backward :
          AreChecked input × IsCorrelationValid casefold decimal input × AreBelow input
          → NothingAgainst n
      backward (all, valid, below) =
          let valid_ =
            (correlation-valid casefold decimal input read.correlated read.correlation-eq).1
              valid in
          (
            subst (λ (c : String → Bool). All (λ name. c name ≡ true) required_checks)
                (sym read.checks-eq)
                ((checks_of-All supplied read.correlated.valid).1 (all, valid_)),
            (saturation_iff input n.families read.families-eq).1 below,
          )

  unfoldable pub IsJudged : Fields → Verdict → Type 0
  IsJudged input not_evaluated = HasNoCount (get "filtered_event_count" input)
  IsJudged input positive_observation = IsObserved input
  IsJudged input confirmed_negative_in_covered_scope = IsConfirmed input
  IsJudged input capture_inconclusive =
      ¬ HasNoCount (get "filtered_event_count" input) × ¬ IsObserved input × ¬ IsConfirmed input

  audit_of-none-IsJudged :
      (input : Fields) (n : Normalized)
      → Read casefold decimal input n
      → n.filtered_event_count ≡ none
      → IsJudged input (audit_of n none).verdict
  unfolding IsJudged build_audit
  audit_of-none-IsJudged input n read e =
      event_count-HasNoCount (get "filtered_event_count" input) (read.count-eq ∙ ap ok e)

  audit_zero_count-IsJudged :
      (input : Fields) (n : Normalized)
      → Read casefold decimal input n
      → event_count (get "filtered_event_count" input) ≡ ok (some 0)
      → IsJudged input (audit_zero_count n).verdict
  unfolding IsJudged IsConfirmed IsObserved build_audit audit_zero_count
  audit_zero_count-IsJudged input n read counted =
      let at_zero = event_count-eq (get "filtered_event_count" input) 0 counted in
      elim (Bool-cases (is_empty (zero_count_reasons n))) [
        | inl e ↦
            let (all, valid, below) =
              (NothingAgainst-iff input n read).0 ((zero_count_reasons-empty n).0 e) in
            rw e (at_zero, all, valid, below)
        | inr e ↦ rw e (
          (λ none_. not_none at_zero none_),
          (λ (k, some_, _, _). ground (arith, at_zero, some_)),
          (λ (_, all, valid, below).
              let clear =
                (zero_count_reasons-empty n).1
                  ((NothingAgainst-iff input n read).1 (all, valid, below)) in
              cc),
        )
      ]

  audit_events-IsJudged :
      (input : Fields) (n : Normalized) (k : ℕ)
      → Read casefold decimal input n
      → event_count (get "filtered_event_count" input) ≡ ok (some (suc k))
      → IsJudged input (audit_events n).verdict
  unfolding IsJudged IsConfirmed IsObserved build_audit audit_events
  audit_events-IsJudged input n k read counted =
      let at_some = event_count-eq (get "filtered_event_count" input) (suc k) counted in
      elim (Bool-cases (n.checks "correlation_contract_valid")) [
        | inl e ↦
            let (supplied, valid) =
              &&-true
                (is_bool true
                  (get "correlation_contract_valid" (fields_or_none (get "checks" input))))
                read.correlated.valid (checked ∙ e) in
            rw e (
              k,
              at_some,
              supplied,
              (correlation-valid casefold decimal input read.correlated read.correlation-eq).0
                  valid,
            )
        | inr e ↦ rw e (
          (λ none_. not_none at_some none_),
          (λ (_, _, supplied, valid).
              let valid_ =
                (correlation-valid casefold decimal input read.correlated read.correlation-eq).1
                  valid in
              let both : (is_bool true
                      (get "correlation_contract_valid" (fields_or_none (get "checks" input)))
                    && read.correlated.valid)
                  ≡ true =
                rw supplied valid_ in
              let no : true ≡ false = sym both ∙ checked ∙ e in ground (arith, no)),
          (λ (zero_, _, _, _). ground (arith, at_some, zero_)),
        )
      ]
    where
      checked :
          (is_bool true (get "correlation_contract_valid" (fields_or_none (get "checks" input)))
            && read.correlated.valid)
          ≡ n.checks "correlation_contract_valid"
      checked = sym (ap (λ (c : String → Bool). c "correlation_contract_valid") read.checks-eq)

  -- The verdict of a probe result that is accepted is the one that its fields call for: it is
  -- not_evaluated where filtered_event_count is absent or null; a positive observation where it is a
  -- positive integer, the check of the correlation is supplied as true and the contract is one that
  -- the correlation accepts; a confirmed negative where it is the integer 0, all thirteen checks are
  -- supplied as true, the contract is accepted, and event_family_saturation is an object with an
  -- entry, each entry of which has a number observed that is less than its limit and is not declared
  -- as reached; and inconclusive in no other case than where none of these holds.
  pub validate_probe_result-IsJudged :
      (input : Fields) (audit : Audit)
      → validate_probe_result casefold decimal input ≡ ok audit
      → IsJudged input audit.verdict
  unfolding validate_probe_result
  validate_probe_result-IsJudged input audit h =
      let (n, normal, h) = >>=-eq-ok (normalize_input casefold decimal input) _ h in
      let same : audit_of n n.filtered_event_count ≡ audit = ok-same _ refl h in
      subst (λ (a : Audit). IsJudged input a.verdict) same
        (judged input n n.filtered_event_count
          (normalize_input-Read casefold decimal input n normal) refl)
    where
      judged :
          (input : Fields) (n : Normalized) (count : Option ℕ)
          → Read casefold decimal input n
          → n.filtered_event_count ≡ count
          → IsJudged input (audit_of n count).verdict
      judged input n none read e = audit_of-none-IsJudged input n read e
      judged input n (some zero) read e =
          audit_zero_count-IsJudged input n read (read.count-eq ∙ ap ok e)
      judged input n (some (suc k)) read e =
          audit_events-IsJudged input n k read (read.count-eq ∙ ap ok e)
