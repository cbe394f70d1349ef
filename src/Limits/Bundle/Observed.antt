-- ===== src/Limits/Bundle/Observed.antt =====
-- What a tracker holds after it has observed several limits.
use kcd2_codex_toolkit.Base.{
  ℕ, max, Bool, true, List, [], ◌∷◌, ◌==◌, if◌then◌else◌, elem, leb, Result, ok, err, ◌≡◌, ◌⊎◌, inl,
  inr, refl, sym, ap, ◌∙◌, subst, arith, Bool-cases,
}
use kcd2_codex_toolkit.Base.Json.{pos, in_range}
use kcd2_codex_toolkit.Base.Exec.{after}
use kcd2_codex_toolkit.Limits.{integer_max, LimitName, limit_name_has_eq, Error, bad_count}
use kcd2_codex_toolkit.Limits.Tracker.{
  Tracker, observe, set_usage, recount, recorded, require_count,
}
use kcd2_codex_toolkit.Limits.Tracker.Sound.{IsSound, observe-IsSound}
use kcd2_codex_toolkit.Limits.Bundle.{observe_all}

-- What an observation leaves, where it is accepted and where it raises.
observe-cases :
    (name : LimitName) (n : ℕ) (t : Tracker)
    → (observe name (pos n) t ≡ (ok (leb n (t.limits name)), recorded name n t))
      ⊎ (observe name (pos n) t ≡ (err (bad_count name), t))
unfolding observe require_count in_range set_usage recount recorded
observe-cases name n t = elim (Bool-cases (leb n integer_max)) [
  | inl e ↦ inl (ground (arith, e))
  | inr e ↦ inr (ground (arith, e))
]

-- What stands behind observations that are all accepted: the limits of before, and the larger usage.
pub record IsObserved (counts : LimitName → ℕ) (names : List LimitName) (t u : Tracker)
    : Type 0 where
  pub limits : u.limits ≡ t.limits
  pub usage :
      (name : LimitName)
      → u.usage name ≡ (if elem name names then max (t.usage name) (counts name) else t.usage name)
  pub sound : IsSound t → IsSound u

recorded-limits : (name : LimitName) (n : ℕ) (t : Tracker) → (recorded name n t).limits ≡ t.limits
unfolding recorded
recorded-limits name n t = refl

recorded-usage :
    (counts : LimitName → ℕ) (name other : LimitName) (rest : List LimitName) (t : Tracker)
    → (if elem other rest
        then max ((recorded name (counts name) t).usage other) (counts other)
        else (recorded name (counts name) t).usage other)
      ≡ (if elem other (name ∷ rest) then max (t.usage other) (counts other) else t.usage other)
unfolding recorded elem
recorded-usage counts name other rest t = elim (Bool-cases (name == other)) [
  | inl e ↦
      let same : name ≡ other = (limit_name_has_eq.eq_iff name other).0 e in
      let counted : counts name ≡ counts other = ap counts same in
      let used : t.usage name ≡ t.usage other = ap t.usage same in
      let flipped : (other == name) ≡ true = (limit_name_has_eq.eq_iff other name).1 (sym same) in
      elim (Bool-cases (elem other rest)) [
        | inl m ↦ rw (e, m, flipped) (omega (arith, counted, used))
        | inr m ↦ rw (e, m, flipped) (omega (arith, counted, used))
      ]
  | inr e ↦ elim (Bool-cases (other == name)) [
    | inl flipped ↦
        let same : name ≡ other = sym ((limit_name_has_eq.eq_iff other name).0 flipped) in
        let yes_ = (limit_name_has_eq.eq_iff name other).1 same in ground (arith, e, yes_)
    | inr flipped ↦ rw (e, flipped) refl
  ]
]

pub observe_all-IsObserved :
    (counts : LimitName → ℕ) (names : List LimitName) (t u : Tracker)
    → observe_all counts names t ≡ (ok tt, u)
    → IsObserved counts names t u
unfolding elem
observe_all-IsObserved counts [] t u h =
    let same : t ≡ u = ap (λ (p : Result Error Unit × Tracker). p.1) h in
    subst (IsObserved counts [] t) same
      (record { limits = refl; usage = λ name. refl; sound = λ s. s })
observe_all-IsObserved counts (name ∷ rest) t u h = elim (observe-cases name (counts name) t) [
  | inl done ↦
      let next : observe_all counts rest (recorded name (counts name) t) ≡ (ok tt, u) =
        sym (ap (λ (p : Result Error Bool × Tracker). after p (λ _. observe_all counts rest)) done)
        ∙ h in
      let more = observe_all-IsObserved counts rest (recorded name (counts name) t) u next in
      record {
        limits = more.limits ∙ recorded-limits name (counts name) t;
        usage = λ other. more.usage other ∙ recorded-usage counts name other rest t;
        sound = λ s. more.sound (
            subst IsSound (ap (λ (p : Result Error Bool × Tracker). p.1) done)
              (observe-IsSound t name (pos (counts name)) s));
      }
  | inr done ↦
      let stopped : Result Error Unit × Tracker = (err (bad_count name), t) in
      let no : stopped ≡ (ok tt, u) =
        sym (ap (λ (p : Result Error Bool × Tracker). after p (λ _. observe_all counts rest)) done)
        ∙ h in
      let no_ : stopped.0 ≡ ok tt = ap (λ (p : Result Error Unit × Tracker). p.0) no in
      ground (arith, no_)
]
