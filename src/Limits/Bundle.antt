-- ===== src/Limits/Bundle.antt =====
-- runtime/src/kcd2_native_probes/limits.py, `evaluate_probe_bundle_limits`: a whole bundle is measured against
-- the limits that it declares. `encoded_size` stands for the bytes of its canonical JSON.
pub mod Observed
pub mod Named
pub mod Declared
pub mod Allowed
pub mod Tests
use kcd2_codex_toolkit.Base.{
  ℕ, String, Bool, true, false, ◌&&◌, Option, none, some, List, [], ◌∷◌, length, all_of, elem,
  set_of, text_has_eq, Result, ok, err, ◌>>=◌, require,
}
use kcd2_codex_toolkit.Base.Json.{
  Json, int, str, obj, ℤ, pos, negsuc, Items, nil, cons, Fields, get, names, count, object_in,
  array_in,
}
use kcd2_codex_toolkit.Base.Exec.{after, pure}
use kcd2_codex_toolkit.Limits.{
  LimitName, max_events, max_captures, max_event_families, max_total_bytes, max_fields,
  max_string_chars, max_memory_region_bytes, Error, ProbeLimits, probe_limits,
}
use kcd2_codex_toolkit.Limits.Tracker.{
  Tracker, new_tracker, Action, observe, ProbeLimitState, state,
}
use kcd2_codex_toolkit.Limits.Measure.{measure_json}

-- `ValueError`
pub data BundleError : Type 0 where
  no_limits limit_names_differ : BundleError
  raised : Error → BundleError

abbrev pub raising : {A : Type 0} → Result Error A → Result BundleError A
raising (ok a) = ok a
raising (err e) = err (raised e)

abbrev pub limit_names : List LimitName
limit_names =
    max_events ∷ max_captures ∷ max_event_families ∷ max_total_bytes ∷ max_fields ∷ max_string_chars
    ∷ max_memory_region_bytes ∷ []

abbrev pub limit_key : LimitName → String
limit_key max_events = "max_events"
limit_key max_captures = "max_captures"
limit_key max_event_families = "max_event_families"
limit_key max_total_bytes = "max_total_bytes"
limit_key max_fields = "max_fields"
limit_key max_string_chars = "max_string_chars"
limit_key max_memory_region_bytes = "max_memory_region_bytes"

abbrev pub limit_keys : List LimitName → List String
limit_keys [] = []
limit_keys (name ∷ rest) = limit_key name ∷ limit_keys rest

-- The value of a limit; what is no integer is refused as one that is out of range.
abbrev pub integer_or_below : Option Json → ℤ
integer_or_below (some (int n)) = n
integer_or_below _ = negsuc 0

-- `supplied != expected`, which it refuses
abbrev pub are_limit_names : List String → Bool
are_limit_names supplied =
    all_of (λ key. elem key (limit_keys limit_names)) supplied
    && all_of (λ key. elem key supplied) (limit_keys limit_names)

-- `ProbeLimits.from_mapping`
unfoldable pub from_mapping : Fields → Result BundleError ProbeLimits
from_mapping values = require (are_limit_names (names values)) limit_names_differ >>= λ _.
    raising (probe_limits (λ name. integer_or_below (get (limit_key name) values)))

abbrev pub captures_in : Fields → Items
captures_in bundle = elim (array_in (get "captures" bundle)) [
  | none ↦ nil
  | some captures ↦ captures
]

-- The families of the captures that are objects and name one.
abbrev pub event_of : Json → Option Json
event_of (obj capture) = get "event" capture
event_of _ = none

abbrev pub with_event : Option Json → List String → List String
with_event (some (str event)) rest = event ∷ rest
with_event _ rest = rest

abbrev pub events : Items → List String
events nil = []
events (cons x xs) = with_event (event_of x) (events xs)

-- `tracker.observe` of each limit, in their order
abbrev pub observe_all : (LimitName → ℕ) → List LimitName → Action Unit
observe_all counts [] t = (ok tt, t)
observe_all counts (name ∷ rest) t =
    after (observe name (pos (counts name)) t) (λ _. observe_all counts rest)

-- The state of a tracker that has observed them all.
abbrev pub state_of : Result Error Unit × Tracker → Result Error ProbeLimitState
state_of (ok u, t) = ok (state t)
state_of (err e, t) = err e

module _ (encoded_size : Json → ℕ) where
  -- What is observed of a bundle.
  abbrev pub bundle_counts : Fields → LimitName → ℕ
  bundle_counts bundle max_events = count (captures_in bundle)
  bundle_counts bundle max_captures = count (captures_in bundle)
  bundle_counts bundle max_event_families = length (set_of (events (captures_in bundle)))
  bundle_counts bundle max_total_bytes = encoded_size (obj bundle)
  bundle_counts bundle max_fields = (measure_json (obj bundle)).fields
  bundle_counts bundle max_string_chars = (measure_json (obj bundle)).string_chars
  bundle_counts bundle max_memory_region_bytes = (measure_json (obj bundle)).memory

  unfoldable pub evaluate_probe_bundle_limits : Fields → Result BundleError ProbeLimitState
  evaluate_probe_bundle_limits bundle = elim (object_in (get "limits" bundle)) [
    | none ↦ err no_limits
    | some values ↦ from_mapping values >>= λ limits.
        raising (state_of (observe_all (bundle_counts bundle) limit_names (new_tracker limits)))
  ]
