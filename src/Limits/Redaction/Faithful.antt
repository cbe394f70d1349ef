-- ===== src/Limits/Redaction/Faithful.antt =====
-- What one step of the redaction reports, and what it changes.
use kcd2_codex_toolkit.Base.{
  ℕ, zero, suc, ◌+◌, ◌≤◌, String, false, List, [], ◌∷◌, ◌++◌, length, elem, text_has_eq, set_of,
  length-append, lower, ◌⊎◌, ◌≡◌, inl, inr, refl, ap, ◌∙◌, arith, Bool-cases, Option-cases,
}
use kcd2_codex_toolkit.Base.Json.{str}
use kcd2_codex_toolkit.Limits.Redaction.Pattern.{has_raw_pointer, raw_pointer_length, taken}
use kcd2_codex_toolkit.Limits.Redaction.{
  Redactor, RedactionDiagnostic, diagnostic_has_eq, token, note, position, substitute, visit_text,
}

nat_cases : (n : ℕ) → (n ≡ 0) ⊎ ((m : ℕ) × (n ≡ suc m))
nat_cases zero = inl refl
nat_cases (suc m) = inr (m, refl)

pub length_zero : {A : Type 0} (l : List A) → length l ≡ 0 → l ≡ []
length_zero [] h = refl
length_zero (x ∷ l) h = absurd (omega (arith, h))

pub set_of-nil : (l : List RedactionDiagnostic) → set_of l ≡ [] → l ≡ []
unfolding set_of elem
set_of-nil [] h = refl
set_of-nil (x ∷ l) h = elim (Bool-cases (elem x l)) [
  | inl e ↦
      let none_ : l ≡ [] = set_of-nil l (ground (arith, e, h)) in
      let out : elem x l ≡ false = ap (elem x) none_ in ground (arith, e, out)
  | inr e ↦ ground (arith, e, h)
]

-- What is reported only grows, and where it stays the value does too.
pub record IsFaithful {A : Type 0} (before : A) (r : Redactor) (done : A × Redactor) : Type 0 where
  pub grown : length r.diagnostics ≤ length done.1.diagnostics
  pub unchanged : length done.1.diagnostics ≡ length r.diagnostics → done.0 ≡ before

-- A diagnostic that is noted makes the report longer, so nothing is claimed of the value.
pub noted-IsFaithful :
    {A : Type 0} (before after : A) (r q : Redactor) (code path : String)
    → q.diagnostics ≡ r.diagnostics ++ record { code = code; path = path } ∷ []
    → IsFaithful before r (after, q)
noted-IsFaithful before after r q code path same =
    let more : length (r.diagnostics ++ record { code = code; path = path } ∷ [])
        ≡ length r.diagnostics + 1 =
      length-append r.diagnostics _ in
    let equal : length q.diagnostics
        ≡ length (r.diagnostics ++ record { code = code; path = path } ∷ []) =
      ap length same in
    record {
      grown = omega (arith, more, equal);
      unchanged = λ h. absurd (omega (arith, more, equal, h));
    }

pub same-IsFaithful : {A : Type 0} (v : A) (r : Redactor) → IsFaithful v r (v, r)
same-IsFaithful v r = record { grown = omega arith; unchanged = λ h. refl }

module _ (decimal : ℕ → ℕ → String) where
  pub token-diagnostics :
      (raw : String) (r : Redactor) → (token decimal raw r).1.diagnostics ≡ r.diagnostics
  unfolding token
  token-diagnostics raw r = elim (Option-cases (position raw r.pointer_tokens)) [
    | inl e ↦ rw (token, e) refl
    | inr (n, e) ↦ rw (token, e) refl
  ]

  substitute-diagnostics :
      (left : ℕ) (s : String) (r : Redactor)
      → (substitute decimal left s r).1.diagnostics ≡ r.diagnostics
  unfolding substitute
  substitute-diagnostics (suc left) String.[] r = refl
  substitute-diagnostics (suc left) (String.◌∷◌ c s) r = substitute-diagnostics left s r
  substitute-diagnostics zero String.[] r = refl
  substitute-diagnostics zero (String.◌∷◌ c s) r =
      elim (nat_cases (raw_pointer_length (String.◌∷◌ c s))) [
        | inl e ↦ rw (substitute, e) (substitute-diagnostics zero s r)
        | inr (m, e) ↦
            let raw = lower (taken (suc m) (String.◌∷◌ c s)) in
            rw (substitute, e)
              (substitute-diagnostics m s (token decimal raw r).1 ∙ token-diagnostics raw r)
      ]

  substitute_none :
      (s : String) (r : Redactor) → has_raw_pointer s ≡ false → substitute decimal 0 s r ≡ (s, r)
  unfolding substitute has_raw_pointer
  substitute_none String.[] r h = refl
  substitute_none (String.◌∷◌ c s) r h = elim (nat_cases (raw_pointer_length (String.◌∷◌ c s))) [
    | inl e ↦
        let rest = substitute_none s r (ground (arith, e, h)) in
        rw (substitute, e) (ap (λ (p : String × Redactor). (String.◌∷◌ c p.0, p.1)) rest)
    | inr (m, e) ↦ ground (arith, e, h)
  ]

  pub visit_text-IsFaithful :
      (path s : String) (r : Redactor) → IsFaithful (str s) r (visit_text decimal path s r)
  unfolding visit_text
  visit_text-IsFaithful path s r = elim (Bool-cases (has_raw_pointer s)) [
    | inl e ↦
        let put = substitute decimal 0 s r in
        rw e (
          noted-IsFaithful (str s) (str put.0) r (note "POINTER_REDACTED" path put.1)
            "POINTER_REDACTED" path
            (ap (λ l. l ++ record { code = "POINTER_REDACTED"; path = path } ∷ [])
              (substitute-diagnostics 0 s r)))
    | inr e ↦ rw e (rw (substitute_none s r e) (same-IsFaithful (str s) r))
  ]
