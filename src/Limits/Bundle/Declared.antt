-- ===== src/Limits/Bundle/Declared.antt =====
-- The limits that a bundle declares.
use kcd2_codex_toolkit.Base.{
  ℕ, ◌≤◌, ◌&&◌, text_has_eq, Option, none, some, leb, leb→le, Result, ok, err, require, >>=-eq-ok,
  ok-same, ◌≡◌, inl, inr, refl, ap, ◌∙◌, subst, arith, Bool-cases, Option-cases, &&-true,
}
use kcd2_codex_toolkit.Base.Json.{
  ℤ, Json, null, bool, int, str, arr, obj, Fields, get, names, pos, negsuc, in_range,
}
use kcd2_codex_toolkit.Base.Json.Values.{in_range-eq}
use kcd2_codex_toolkit.Limits.{
  LimitName, limit_name_has_eq, max_events, max_captures, max_event_families, max_total_bytes,
  max_fields, max_string_chars, max_memory_region_bytes, Error, minimum, hard_ceiling, check_limit,
  ProbeLimits, probe_limits,
}
use kcd2_codex_toolkit.Limits.Bundle.{
  limit_names_differ, raising, are_limit_names, limit_key, integer_or_below, from_mapping, events,
}

minimum-positive : (name : LimitName) → 1 ≤ minimum name
minimum-positive max_events = omega arith
minimum-positive max_captures = omega arith
minimum-positive max_event_families = omega arith
minimum-positive max_total_bytes = omega arith
minimum-positive max_fields = omega arith
minimum-positive max_string_chars = omega arith
minimum-positive max_memory_region_bytes = omega arith

in_range-least : (lo hi : ℕ) (n : ℤ) (k : ℕ) → in_range lo hi n ≡ some k → lo ≤ k
unfolding in_range
in_range-least lo hi (pos n) k h = elim (Bool-cases (leb lo n && leb n hi)) [
  | inl e ↦
      let small = leb→le lo n (&&-true (leb lo n) (leb n hi) e).0 in ground (arith, e, h, small)
  | inr e ↦ ground (arith, e, h)
]
in_range-least lo hi (negsuc n) k h = ground (arith, h)

check_limit-positive :
    (given : LimitName → ℤ) (name : LimitName) (n : ℕ) → check_limit given name ≡ ok n → 1 ≤ n
unfolding check_limit
check_limit-positive given name n h =
    elim (Option-cases (in_range (minimum name) (hard_ceiling name) (given name))) [
      | inl e ↦ ground (arith, e, h)
      | inr (k, e) ↦
          let least = in_range-least (minimum name) (hard_ceiling name) (given name) k e in
          let same : k ≡ n = ground (arith, e, h) in
          let one = minimum-positive name in omega (arith, least, one, same)
    ]

raising-ok : {A : Type 0} (r : Result Error A) (a : A) → raising r ≡ ok a → r ≡ ok a
raising-ok (ok x) a h = ap ok (ok-same _ refl h)
raising-ok (err e) a h = ground (arith, h)

check_limit-eq :
    (given : LimitName → ℤ) (name : LimitName) (n : ℕ)
    → check_limit given name ≡ ok n
    → given name ≡ pos n
unfolding check_limit
check_limit-eq given name n h =
    elim (Option-cases (in_range (minimum name) (hard_ceiling name) (given name))) [
      | inl e ↦ ground (arith, e, h)
      | inr (k, e) ↦
          let same : k ≡ n = ground (arith, e, h) in
          in_range-eq (minimum name) (hard_ceiling name) (given name) k e ∙ ap pos same
    ]

integer_or_below-eq :
    (v : Option Json) (n : ℕ) → integer_or_below v ≡ pos n → v ≡ some (int (pos n))
integer_or_below-eq none n h = ground (arith, h)
integer_or_below-eq (some null) n h = ground (arith, h)
integer_or_below-eq (some (bool b)) n h = ground (arith, h)
integer_or_below-eq (some (int k)) n h = ap (λ x. some (int x)) h
integer_or_below-eq (some (str s)) n h = ground (arith, h)
integer_or_below-eq (some (arr x)) n h = ground (arith, h)
integer_or_below-eq (some (obj x)) n h = ground (arith, h)

-- Each limit is the integer under its name.
pub record IsDeclared (values : Fields) (limits : ProbeLimits) : Type 0 where
  pub events : get "max_events" values ≡ some (int (pos (limits max_events)))
  pub captures : get "max_captures" values ≡ some (int (pos (limits max_captures)))
  pub families : get "max_event_families" values ≡ some (int (pos (limits max_event_families)))
  pub bytes : get "max_total_bytes" values ≡ some (int (pos (limits max_total_bytes)))
  pub fields : get "max_fields" values ≡ some (int (pos (limits max_fields)))
  pub chars : get "max_string_chars" values ≡ some (int (pos (limits max_string_chars)))
  pub memory :
      get "max_memory_region_bytes" values ≡ some (int (pos (limits max_memory_region_bytes)))

probe_limits-IsDeclared :
    (values : Fields) (limits : ProbeLimits)
    → probe_limits (λ name. integer_or_below (get (limit_key name) values)) ≡ ok limits
    → IsDeclared values limits
unfolding probe_limits
probe_limits-IsDeclared values limits h =
    let given : LimitName → ℤ = λ name. integer_or_below (get (limit_key name) values) in
    let (events, e, h) = >>=-eq-ok (check_limit given max_events) _ h in
    let (captures, c, h) = >>=-eq-ok (check_limit given max_captures) _ h in
    let (families, f, h) = >>=-eq-ok (check_limit given max_event_families) _ h in
    let (bytes, b, h) = >>=-eq-ok (check_limit given max_total_bytes) _ h in
    let (fields, g, h) = >>=-eq-ok (check_limit given max_fields) _ h in
    let (chars, s, h) = >>=-eq-ok (check_limit given max_string_chars) _ h in
    let (memory, m, h) = >>=-eq-ok (check_limit given max_memory_region_bytes) _ h in
    let at_ : (name : LimitName) (n : ℕ)
        → check_limit given name ≡ ok n
        → get (limit_key name) values ≡ some (int (pos n)) =
      λ name n x.
        integer_or_below-eq (get (limit_key name) values) n (check_limit-eq given name n x) in
    subst (IsDeclared values) (ok-same _ refl h) (record {
      events = at_ max_events events e;
      captures = at_ max_captures captures c;
      families = at_ max_event_families families f;
      bytes = at_ max_total_bytes bytes b;
      fields = at_ max_fields fields g;
      chars = at_ max_string_chars chars s;
      memory = at_ max_memory_region_bytes memory m;
    })

pub from_mapping-IsDeclared :
    (values : Fields) (limits : ProbeLimits)
    → from_mapping values ≡ ok limits
    → IsDeclared values limits
unfolding from_mapping
from_mapping-IsDeclared values limits h =
    let (_, _, h) = >>=-eq-ok (require (are_limit_names (names values)) limit_names_differ) _ h in
    probe_limits-IsDeclared values limits
      (raising-ok (probe_limits (λ name. integer_or_below (get (limit_key name) values))) limits h)

probe_limits-positive :
    (given : LimitName → ℤ) (limits : ProbeLimits)
    → probe_limits given ≡ ok limits
    → (name : LimitName) → 1 ≤ limits name
unfolding probe_limits
probe_limits-positive given limits h =
    let (events, e, h) = >>=-eq-ok (check_limit given max_events) _ h in
    let (captures, c, h) = >>=-eq-ok (check_limit given max_captures) _ h in
    let (families, f, h) = >>=-eq-ok (check_limit given max_event_families) _ h in
    let (bytes, b, h) = >>=-eq-ok (check_limit given max_total_bytes) _ h in
    let (fields, g, h) = >>=-eq-ok (check_limit given max_fields) _ h in
    let (chars, s, h) = >>=-eq-ok (check_limit given max_string_chars) _ h in
    let (memory, m, h) = >>=-eq-ok (check_limit given max_memory_region_bytes) _ h in
    let same = ok-same _ refl h in
    subst (λ (l : ProbeLimits). (name : LimitName) → 1 ≤ l name) same
      (elim [
        | max_events ↦ check_limit-positive given max_events events e
        | max_captures ↦ check_limit-positive given max_captures captures c
        | max_event_families ↦ check_limit-positive given max_event_families families f
        | max_total_bytes ↦ check_limit-positive given max_total_bytes bytes b
        | max_fields ↦ check_limit-positive given max_fields fields g
        | max_string_chars ↦ check_limit-positive given max_string_chars chars s
        | max_memory_region_bytes ↦ check_limit-positive given max_memory_region_bytes memory m
      ])

pub from_mapping-positive :
    (values : Fields) (limits : ProbeLimits)
    → from_mapping values ≡ ok limits
    → (name : LimitName) → 1 ≤ limits name
unfolding from_mapping
from_mapping-positive values limits h =
    let (_, _, h) = >>=-eq-ok (require (are_limit_names (names values)) limit_names_differ) _ h in
    probe_limits-positive (λ name. integer_or_below (get (limit_key name) values)) limits
      (raising-ok (probe_limits (λ name. integer_or_below (get (limit_key name) values))) limits h)
