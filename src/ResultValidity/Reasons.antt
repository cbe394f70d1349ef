-- ===== src/ResultValidity/Reasons.antt =====
-- When nothing speaks against a count of zero.
use kcd2_codex_toolkit.Base.{
  String, Bool, true, false, ◌&&◌, List, [], ◌∷◌, ◌++◌, if◌then◌else◌, ◌==◌, text_has_eq, is_empty,
  All, All-map, ◌≡◌, ◌↔◌, inl, inr, refl, sym, ◌∙◌, arith, Bool-cases, &&-true,
}
use kcd2_codex_toolkit.Base.Json.{Fields, get, is_bool}
use kcd2_codex_toolkit.ResultValidity.Input.{required_checks, Family, checks_of, Normalized}
use kcd2_codex_toolkit.ResultValidity.Verdict.{
  correlation_reasons, failed_checks, saturated, zero_count_reasons,
}

is_empty-append : (a b : List String) → is_empty (a ++ b) ≡ (is_empty a && is_empty b)
is_empty-append [] b = refl
is_empty-append (x ∷ a) b = refl

is_empty-both :
    (a b : List String) → is_empty a ≡ true → is_empty b ≡ true → is_empty (a ++ b) ≡ true
is_empty-both [] b h h' = h'
is_empty-both (x ∷ a) b h h' = cc

pub failed_checks-All :
    (checks : String → Bool) (l : List String)
    → is_empty (failed_checks checks l) ≡ true ↔ All (λ name. checks name ≡ true) l
failed_checks-All checks [] = (λ h. tt, λ h. refl)
failed_checks-All checks (name ∷ l) = elim (Bool-cases (checks name)) [
  | inl e ↦ (
    λ h. (e, (failed_checks-All checks l).0 (ground (arith, e, h))),
    λ h. rw e ((failed_checks-All checks l).1 h.1),
  )
  | inr e ↦ (λ h. ground (arith, e, h), λ h. ground (arith, e, h.0))
]

pub saturated-All :
    (l : List Family) → is_empty (saturated l) ≡ true ↔ All (λ (f : Family). f.reached ≡ false) l
saturated-All [] = (λ h. tt, λ h. refl)
saturated-All (f ∷ l) = elim (Bool-cases f.reached) [
  | inl e ↦ (λ h. ground (arith, e, h), λ h. ground (arith, e, h.0))
  | inr e ↦ (
    λ h. (e, (saturated-All l).0 (ground (arith, e, h))),
    λ h. ground (arith, e, (saturated-All l).1 h.1),
  )
]

-- Nothing speaks against a count of zero.
abbrev pub NothingAgainst : Normalized → Type 0
NothingAgainst n =
    All (λ name. n.checks name ≡ true) required_checks
    × ((is_empty n.families ≡ false) × All (λ (f : Family). f.reached ≡ false) n.families)

pub zero_count_reasons-empty :
    (n : Normalized) → is_empty (zero_count_reasons n) ≡ true ↔ NothingAgainst n
unfolding zero_count_reasons
zero_count_reasons-empty n = (forward, backward)
  where
    forward : is_empty (zero_count_reasons n) ≡ true → NothingAgainst n
    forward h =
        let (failed, h) =
          &&-true (is_empty (failed_checks n.checks required_checks)) _
            (sym (is_empty-append (failed_checks n.checks required_checks) _) ∙ h) in
        let (_, h) =
          &&-true
            (is_empty (if n.checks "correlation_contract_valid" then [] else correlation_reasons n))
            _
            (sym (
                is_empty-append
                  (if n.checks "correlation_contract_valid" then [] else correlation_reasons n) _)
              ∙ h) in
        let (missing, reached) =
          &&-true
            (is_empty (if is_empty n.families then "event_family_saturation_missing" ∷ [] else []))
            (is_empty (saturated n.families))
            (sym (
                is_empty-append
                  (if is_empty n.families then "event_family_saturation_missing" ∷ [] else [])
                  (saturated n.families))
              ∙ h) in
        (
          (failed_checks-All n.checks required_checks).0 failed,
          (ground (arith, missing), (saturated-All n.families).0 reached),
        )

    backward : NothingAgainst n → is_empty (zero_count_reasons n) ≡ true
    backward (checked, (some_family, none_reached)) =
        let correlated : n.checks "correlation_contract_valid" ≡ true =
          checked.1.1.1.1.1.1.1.1.1.1.1.1.0 in
        is_empty-both (failed_checks n.checks required_checks) _
          ((failed_checks-All n.checks required_checks).1 checked)
          (is_empty-both
            (if n.checks "correlation_contract_valid" then [] else correlation_reasons n) _
            (rw correlated refl)
            (is_empty-both
              (if is_empty n.families then "event_family_saturation_missing" ∷ [] else [])
              (saturated n.families) (rw some_family refl)
              ((saturated-All n.families).1 none_reached)))

pub checks_of-All :
    (supplied : Fields) (correlated : Bool)
    → All (λ name. checks_of supplied correlated name ≡ true) required_checks ↔ (
        All (λ name. is_bool true (get name supplied) ≡ true) required_checks × (correlated ≡ true))
checks_of-All supplied correlated = (forward, backward)
  where
    supplied_one :
        (name : String)
        → checks_of supplied correlated name ≡ true
        → is_bool true (get name supplied) ≡ true
    supplied_one name h = elim (Bool-cases (name == "correlation_contract_valid")) [
      | inl e ↦ (&&-true (is_bool true (get name supplied)) correlated (ground (arith, e, h))).0
      | inr e ↦ ground (arith, e, h)
    ]

    also :
        correlated ≡ true
        → (name : String) → is_bool true (get name supplied) ≡ true
        → checks_of supplied correlated name ≡ true
    also yes_ name h = ground (arith, h, yes_)

    forward :
        All (λ name. checks_of supplied correlated name ≡ true) required_checks
        → All (λ name. is_bool true (get name supplied) ≡ true) required_checks
          × (correlated ≡ true)
    forward h = (
      All-map required_checks supplied_one h,
      (&&-true (is_bool true (get "correlation_contract_valid" supplied)) correlated
          (h.1.1.1.1.1.1.1.1.1.1.1.1.0)).1,
    )

    backward :
        All (λ name. is_bool true (get name supplied) ≡ true) required_checks × (correlated ≡ true)
        → All (λ name. checks_of supplied correlated name ≡ true) required_checks
    backward (all, yes_) = All-map required_checks (also yes_) all
