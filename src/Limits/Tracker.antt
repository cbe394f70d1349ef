-- ===== src/Limits/Tracker.antt =====
-- `ProbeLimitTracker` and the state that it reports. A counter is a Python `int`, so a negative or
-- oversized argument is refused where the source refuses it.
pub mod Sound
pub mod Absence
pub mod Reach
use kcd2_codex_toolkit.Base.{
  ℕ, ◌+◌, ◌-◌, max, String, Bool, true, false, not, ◌&&◌, Option, none, some, List, [], ◌∷◌, ◌++◌,
  leb, ltb, if◌then◌else◌, ◌==◌, text_has_eq, nat_has_eq, elem, length, len, is_empty, Result, ok,
  err, refuse,
}
use kcd2_codex_toolkit.Base.Json.{ℤ, in_range}
use kcd2_codex_toolkit.Base.Exec.{Exec, ◌>>=◌, ◌>>◌, pure, lift, modify, gets}
use kcd2_codex_toolkit.Limits.{
  integer_max, LimitName, max_events, max_captures, max_event_families, max_total_bytes, max_fields,
  max_string_chars, max_memory_region_bytes, limit_name_has_eq, limit_name_discrete, ProbeLimits,
  Error, bad_count, counter_overflow, bad_family,
}

pub data LimitCode : Type 0 where
  limit_saturated limit_exceeded : LimitCode

pub record LimitDiagnostic : Type 0 where
  pub code : LimitCode
  pub limit_name : LimitName
  pub observed : ℕ
  pub limit : ℕ

pub record Tracker : Type 0 where
  pub limits : ProbeLimits
  pub usage : LimitName → ℕ
  pub families : List String
  pub diagnostics : LimitName → Option LimitDiagnostic

abbrev pub new_tracker : ProbeLimits → Tracker
new_tracker limits = record {
  limits = limits;
  usage = λ name. 0;
  families = [];
  diagnostics = λ name. none;
}

abbrev pub Action : Type 0 → Type 0
Action = Exec Error Tracker

-- `self._usage[name] = value`
abbrev pub assign : {A : Type 0} → (LimitName → A) → LimitName → A → LimitName → A
assign f name value other = if name == other then value else f other

-- `_require_count`
unfoldable pub require_count : ℤ → LimitName → Result Error ℕ
unfolding in_range
require_count value name = elim (in_range 0 integer_max value) [
  | none ↦ err (bad_count name)
  | some n ↦ ok n
]

-- `_require_count`, for a value that the tracker has computed itself
unfoldable pub recount : ℕ → LimitName → Result Error Unit
recount value name = if leb value integer_max then ok tt else err (bad_count name)

unfoldable pub require_increment_capacity : LimitName → ℕ → Action Unit
require_increment_capacity name increment t =
    if ltb (integer_max - t.usage name) increment
    then (err (counter_overflow name), t)
    else (ok tt, t)

-- What `_set_usage` writes.
unfoldable pub recorded : LimitName → ℕ → Tracker → Tracker
recorded name observed t =
    let limit = t.limits name in
    record t {
      usage = assign t.usage name (max (t.usage name) observed);
      diagnostics =
          if leb limit observed
          then assign t.diagnostics name (
              some (record {
                code = if observed == limit then limit_saturated else limit_exceeded;
                limit_name = name;
                observed = observed;
                limit = limit;
              }))
          else t.diagnostics;
    }

-- `_set_usage`
unfoldable pub set_usage : LimitName → ℕ → Action Bool
unfolding recount
set_usage name observed = do
  lift (recount observed name)
  modify (recorded name observed)
  gets (λ t. leb observed (t.limits name))

-- `_increment`
unfoldable pub increment : LimitName → ℕ → Action Bool
unfolding recount
increment name amount = do
  lift (recount amount name)
  require_increment_capacity name amount
  used ← gets (λ t. t.usage name)
  set_usage name (used + amount)

-- `self._families.add(event_family)`
unfoldable pub add_family : String → Tracker → Tracker
add_family family t = record t {
  families = if elem family t.families then t.families else t.families ++ family ∷ [];
}

-- The writes at the end of both `consume_*` methods.
unfoldable pub set_sizes : ℕ → ℕ → ℕ → Action Bool
set_sizes fields chars memory = do
  a ← set_usage max_fields fields
  b ← set_usage max_string_chars chars
  c ← set_usage max_memory_region_bytes memory
  pure (c && b && a)

-- The part of `consume_event` behind its checks.
unfoldable pub write_event : String → ℕ → ℕ → ℕ → ℕ → Action Bool
unfolding set_sizes
write_event family bytes fields chars memory = do
  modify (add_family family)
  families ← gets (λ t. length t.families)
  a ← set_usage max_event_families families
  b ← increment max_events 1
  c ← increment max_total_bytes bytes
  d ← set_sizes fields chars memory
  pure (d && c && b && a)

unfoldable pub consume_event : String → ℤ → ℤ → ℤ → ℤ → Action Bool
unfolding require_count
consume_event event_family encoded_bytes fields maximum_string_chars memory_region_bytes = do
  lift (refuse (len event_family == 0) bad_family)
  bytes ← lift (require_count encoded_bytes max_total_bytes)
  fields ← lift (require_count fields max_fields)
  chars ← lift (require_count maximum_string_chars max_string_chars)
  memory ← lift (require_count memory_region_bytes max_memory_region_bytes)
  require_increment_capacity max_events 1
  require_increment_capacity max_total_bytes bytes
  write_event event_family bytes fields chars memory

-- The part of `consume_capture` behind its checks.
unfoldable pub write_capture : ℕ → ℕ → ℕ → ℕ → Action Bool
unfolding set_sizes
write_capture bytes fields chars memory = do
  a ← increment max_captures 1
  b ← increment max_total_bytes bytes
  c ← set_sizes fields chars memory
  pure (c && b && a)

unfoldable pub consume_capture : ℤ → ℤ → ℤ → ℤ → Action Bool
unfolding require_count
consume_capture encoded_bytes fields maximum_string_chars memory_region_bytes = do
  bytes ← lift (require_count encoded_bytes max_total_bytes)
  fields ← lift (require_count fields max_fields)
  chars ← lift (require_count maximum_string_chars max_string_chars)
  memory ← lift (require_count memory_region_bytes max_memory_region_bytes)
  require_increment_capacity max_captures 1
  require_increment_capacity max_total_bytes bytes
  write_capture bytes fields chars memory

-- `observe`; every `LimitName` is a known name
unfoldable pub observe : LimitName → ℤ → Action Bool
unfolding require_count
observe name observed = do n ← lift (require_count observed name); set_usage name n

pub record ProbeLimitState : Type 0 where
  pub usage : LimitName → ℕ
  pub diagnostics : List LimitDiagnostic
  pub absence_claim_allowed : Bool
  pub verdict : String

-- `sorted(self._diagnostics)`: the names in alphabetical order
abbrev pub sorted_names : List LimitName
sorted_names =
    max_captures ∷ max_event_families ∷ max_events ∷ max_fields ∷ max_memory_region_bytes
    ∷ max_string_chars ∷ max_total_bytes ∷ []

unfoldable pub present :
    (LimitName → Option LimitDiagnostic) → List LimitName → List LimitDiagnostic
present diagnostics [] = []
present diagnostics (name ∷ rest) = elim (diagnostics name) [
  | none ↦ present diagnostics rest
  | some d ↦ d ∷ present diagnostics rest
]

unfoldable pub state : Tracker → ProbeLimitState
unfolding present
state t =
    let diagnostics = present t.diagnostics sorted_names in
    let complete = is_empty diagnostics in
    record {
      usage = t.usage;
      diagnostics = diagnostics;
      absence_claim_allowed = complete;
      verdict = if complete then "not_evaluated" else "capture_inconclusive";
    }
