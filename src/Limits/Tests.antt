-- ===== src/Limits/Tests.antt =====
-- A tracker with the default limits, at which the theorems apply.
use kcd2_codex_toolkit.Base.{◌≤◌, ◌<◌, true, some, ◌≡◌, ◌↔◌, arith}
use kcd2_codex_toolkit.Base.Json.{pos}
use kcd2_codex_toolkit.Limits.{
  LimitName, max_events, max_captures, max_event_families, max_total_bytes, max_fields,
  max_string_chars, max_memory_region_bytes, default_limit,
}
use kcd2_codex_toolkit.Limits.Tracker.{
  Tracker, new_tracker, limit_saturated, consume_event, consume_capture, observe, state,
}
use kcd2_codex_toolkit.Limits.Tracker.Sound.{IsSound}
use kcd2_codex_toolkit.Limits.Tracker.Reach.{
  called, fresh, consumes_event, consumes_capture, observes, Reach-IsSound,
}
use kcd2_codex_toolkit.Limits.Tracker.Absence.{
  new_tracker-IsSound, absence_claim_allowed_iff, observe_saturates,
}

default_positive : (name : LimitName) → 1 ≤ default_limit name
default_positive max_events = omega arith
default_positive max_captures = omega arith
default_positive max_event_families = omega arith
default_positive max_total_bytes = omega arith
default_positive max_fields = omega arith
default_positive max_string_chars = omega arith
default_positive max_memory_region_bytes = omega arith

abbrev a_tracker : Tracker
a_tracker = new_tracker default_limit

a_tracker-IsSound : IsSound a_tracker
a_tracker-IsSound = new_tracker-IsSound default_limit default_positive

-- A tracker that has seen more fields than its limit.
abbrev full : Tracker
full = record a_tracker { usage = λ name. 100_000_000 }

new_tracker-IsSound_example : IsSound (new_tracker default_limit)
new_tracker-IsSound_example = new_tracker-IsSound default_limit default_positive

-- An event, an observation beyond the limit and a capture, one after the other.
abbrev after_event : Tracker
after_event = (consume_event "hit" (pos 200) (pos 4) (pos 32) (pos 16) a_tracker).1

abbrev after_observation : Tracker
after_observation = (observe max_fields (pos 40) after_event).1

Reach-IsSound_example :
    IsSound ((consume_capture (pos 200) (pos 4) (pos 32) (pos 16) after_observation).1)
Reach-IsSound_example =
    Reach-IsSound default_limit
      ((consume_capture (pos 200) (pos 4) (pos 32) (pos 16) after_observation).1) default_positive
      (called
        (called (called fresh (consumes_event "hit" (pos 200) (pos 4) (pos 32) (pos 16)))
          (observes max_fields (pos 40)))
        (consumes_capture (pos 200) (pos 4) (pos 32) (pos 16)))

absence_claim_allowed_iff_example :
    (state a_tracker).absence_claim_allowed ≡ true
    ↔ ((name : LimitName) → a_tracker.usage name < a_tracker.limits name)
absence_claim_allowed_iff_example = absence_claim_allowed_iff a_tracker a_tracker-IsSound

observe_saturates_example :
    ((observe max_fields (pos 32) full).1.usage max_fields ≡ 100_000_000)
    × ((observe max_fields (pos 32) full).1.diagnostics max_fields
        ≡ some
            (record { code = limit_saturated; limit_name = max_fields; observed = 32; limit = 32 }))
observe_saturates_example = observe_saturates full max_fields (omega arith) (omega arith)
