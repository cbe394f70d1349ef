-- ===== src/Limits/Tracker/Absence.antt =====
-- When a tracker lets a probe claim that something is absent.
use kcd2_codex_toolkit.Base.{
  ℕ, ◌≤◌, ◌<◌, true, Option, some, List, [], ◌∷◌, ltb→lt, lt→ltb, ◌&&◌, nat_has_eq, is_empty, ok,
  All, ◌≡◌, ◌↔◌, refl, sym, ◌∙◌, arith,
}
use kcd2_codex_toolkit.Base.Json.{ℤ, pos, negsuc, in_range}
use kcd2_codex_toolkit.Limits.{
  integer_max, LimitName, max_events, max_captures, max_event_families, max_total_bytes, max_fields,
  max_string_chars, max_memory_region_bytes, limit_name_has_eq, ProbeLimits, check_limit, minimum,
  hard_ceiling,
}
use kcd2_codex_toolkit.Limits.Tracker.{
  Tracker, LimitDiagnostic, limit_saturated, new_tracker, present, sorted_names, state, observe,
  recorded, set_usage, recount, require_count,
}
use kcd2_codex_toolkit.Limits.Tracker.Sound.{IsSound, is_none}

in_range-least : (lo hi n : ℕ) (v : ℤ) → in_range lo hi v ≡ some n → lo ≤ n
unfolding in_range
in_range-least lo hi n (pos m) h = ground arith
in_range-least lo hi n (negsuc m) h = cc

minimum-positive : (name : LimitName) → 1 ≤ minimum name
minimum-positive max_events = omega arith
minimum-positive max_captures = omega arith
minimum-positive max_event_families = omega arith
minimum-positive max_total_bytes = omega arith
minimum-positive max_fields = omega arith
minimum-positive max_string_chars = omega arith
minimum-positive max_memory_region_bytes = omega arith

check_limit-positive :
    (given : LimitName → ℤ) (name : LimitName) (n : ℕ) → check_limit given name ≡ ok n → 1 ≤ n
unfolding check_limit
check_limit-positive given name n h =
    ground (
      arith,
      minimum-positive name,
      in_range-least (minimum name) (hard_ceiling name) n (given name),
    )

present-is_empty :
    (diagnostics : LimitName → Option LimitDiagnostic) (name : LimitName) (names : List LimitName)
    → is_empty (present diagnostics (name ∷ names))
      ≡ (is_none (diagnostics name) && is_empty (present diagnostics names))
unfolding present
present-is_empty diagnostics name names = ground arith

present-none :
    (diagnostics : LimitName → Option LimitDiagnostic) (names : List LimitName)
    → ((name : LimitName) → is_none (diagnostics name) ≡ true)
    → is_empty (present diagnostics names) ≡ true
unfolding present
present-none diagnostics [] h = refl
present-none diagnostics (name ∷ names) h =
    ground
      (arith, present-is_empty diagnostics name names, h name, present-none diagnostics names h)

none-present :
    (diagnostics : LimitName → Option LimitDiagnostic) (names : List LimitName)
    → is_empty (present diagnostics names) ≡ true
    → All (λ name. is_none (diagnostics name) ≡ true) names
none-present diagnostics [] h = tt
none-present diagnostics (name ∷ names) h = (
  ground (arith, present-is_empty diagnostics name names, h),
  none-present diagnostics names (ground (arith, present-is_empty diagnostics name names, h)),
)

all_names : (P : LimitName → Type 0) → All P sorted_names → (name : LimitName) → P name
all_names P h max_captures = h.0
all_names P h max_event_families = h.1.0
all_names P h max_events = h.1.1.0
all_names P h max_fields = h.1.1.1.0
all_names P h max_memory_region_bytes = h.1.1.1.1.0
all_names P h max_string_chars = h.1.1.1.1.1.0
all_names P h max_total_bytes = h.1.1.1.1.1.1.0

-- A fresh tracker satisfies the invariant when no limit is zero.
pub new_tracker-IsSound :
    (limits : ProbeLimits) → ((name : LimitName) → 1 ≤ limits name) → IsSound (new_tracker limits)
new_tracker-IsSound limits h = record {
  in_bounds = λ name. omega arith;
  reported = λ name. sym (lt→ltb 0 (limits name) (h name));
}

-- Absence may be claimed exactly while every counter is below its limit.
pub absence_claim_allowed_iff :
    (t : Tracker)
    → IsSound t
    → (state t).absence_claim_allowed ≡ true ↔ ((name : LimitName) → t.usage name < t.limits name)
unfolding state
absence_claim_allowed_iff t s = (
  (λ h name. ltb→lt (t.usage name) (t.limits name) (
      sym (s.reported name)
      ∙ all_names (λ name. is_none (t.diagnostics name) ≡ true)
          (none-present t.diagnostics sorted_names h) name)),
  (λ h.
      present-none t.diagnostics sorted_names
        (λ name. s.reported name ∙ lt→ltb (t.usage name) (t.limits name) (h name))),
)

-- Observing a value equal to the limit replaces the diagnostic of a limit that was exceeded before: the state
-- reports saturation, with the smaller value, although the counter keeps the larger one.
pub observe_saturates :
    (t : Tracker) (name : LimitName)
    → t.limits name ≤ integer_max
    → t.limits name ≤ t.usage name
    → ((observe name (pos (t.limits name)) t).1.usage name ≡ t.usage name)
      × ((observe name (pos (t.limits name)) t).1.diagnostics name
          ≡ some (record {
            code = limit_saturated;
            limit_name = name;
            observed = t.limits name;
            limit = t.limits name;
          }))
unfolding observe set_usage recount recorded require_count in_range
observe_saturates t name h u = ground (arith, limit_name_has_eq.eq_iff name name)
