-- ===== src/Limits.antt =====
-- runtime/src/kcd2_native_probes/limits.py: the aggregate limits of a probe, and the tracker that
-- counts one capture against them.
pub mod Tracker
pub mod Redaction
pub mod Measure
pub mod Bundle
pub mod Tests
use kcd2_codex_toolkit.Base.{
  ℕ, ◌*◌, ◌-◌, ◌^◌, String, Bool, true, false, Option, none, some, List, [], ◌∷◌, Eq,
  eq_of_discrete, Result, ok, err, ◌>>=◌,
}
use kcd2_codex_toolkit.Base.Json.{ℤ, in_range}

abbrev pub integer_max : ℕ
integer_max = 2 ^ 63 - 1

-- The names of the limits, in the order of `HARD_CEILINGS`.
pub data LimitName : Type 0 where
  max_events max_captures max_event_families max_total_bytes max_fields : LimitName
  max_string_chars max_memory_region_bytes : LimitName

unfoldable pub limit_name_discrete : Discrete LimitName
limit_name_discrete = hlevel

instance abbrev pub limit_name_has_eq : Eq LimitName
unfolding limit_name_discrete
limit_name_has_eq = eq_of_discrete limit_name_discrete

abbrev pub default_limit : LimitName → ℕ
default_limit max_events = 10_000
default_limit max_captures = 1_000
default_limit max_event_families = 32
default_limit max_total_bytes = 64 * 1024 * 1024
default_limit max_fields = 32
default_limit max_string_chars = 4096
default_limit max_memory_region_bytes = 4096

abbrev pub hard_ceiling : LimitName → ℕ
hard_ceiling max_events = 100_000
hard_ceiling max_captures = 10_000
hard_ceiling max_event_families = 128
hard_ceiling max_total_bytes = 512 * 1024 * 1024
hard_ceiling max_fields = 128
hard_ceiling max_string_chars = 65_536
hard_ceiling max_memory_region_bytes = 4096

-- `1024 if name == "max_total_bytes" else 1`
abbrev pub minimum : LimitName → ℕ
minimum max_total_bytes = 1024
minimum _ = 1

pub data Error : Type 0 where
  bad_limit bad_count counter_overflow : LimitName → Error
  bad_family : Error

-- A frozen dataclass with a field for each name, as the function that `getattr` reads it by.
abbrev pub ProbeLimits : Type 0
ProbeLimits = LimitName → ℕ

check_limit : (LimitName → ℤ) → LimitName → Result Error ℕ
unfolding in_range
check_limit given name = elim (in_range (minimum name) (hard_ceiling name) (given name)) [
  | none ↦ err (bad_limit name)
  | some n ↦ ok n
]

-- `ProbeLimits.__post_init__`
unfoldable pub probe_limits : (LimitName → ℤ) → Result Error ProbeLimits
unfolding check_limit
probe_limits given = do
  events ← check_limit given max_events
  captures ← check_limit given max_captures
  families ← check_limit given max_event_families
  bytes ← check_limit given max_total_bytes
  fields ← check_limit given max_fields
  chars ← check_limit given max_string_chars
  memory ← check_limit given max_memory_region_bytes
  ok (elim [
    | max_events ↦ events
    | max_captures ↦ captures
    | max_event_families ↦ families
    | max_total_bytes ↦ bytes
    | max_fields ↦ fields
    | max_string_chars ↦ chars
    | max_memory_region_bytes ↦ memory
  ])
