-- ===== src/Limits/Tracker/Reach.antt =====
-- The trackers that the methods reach, in any order and whether they raise or not.
use kcd2_codex_toolkit.Base.{◌≤◌, String}
use kcd2_codex_toolkit.Base.Json.{ℤ}
use kcd2_codex_toolkit.Limits.{LimitName, ProbeLimits}
use kcd2_codex_toolkit.Limits.Tracker.{
  Tracker, new_tracker, consume_event, consume_capture, observe,
}
use kcd2_codex_toolkit.Limits.Tracker.Sound.{
  IsSound, consume_event-IsSound, consume_capture-IsSound, observe-IsSound,
}
use kcd2_codex_toolkit.Limits.Tracker.Absence.{new_tracker-IsSound}

-- One call of a method.
pub data Call (t : Tracker) : Tracker → Type 0 where
  consumes_event :
      (family : String) (bytes fields chars memory : ℤ)
      → Call t ((consume_event family bytes fields chars memory t).1)
  consumes_capture :
      (bytes fields chars memory : ℤ) → Call t ((consume_capture bytes fields chars memory t).1)
  observes : (name : LimitName) (n : ℤ) → Call t ((observe name n t).1)

pub data Reach (limits : ProbeLimits) : Tracker → Type 0 where
  fresh : Reach limits (new_tracker limits)
  called : {t u : Tracker} → Reach limits t → Call t u → Reach limits u

-- Whatever methods are called on a fresh tracker whose limits are positive, and whether they raise
-- or not: its counters stay in range, and there is a diagnostic exactly for the limits reached.
pub Reach-IsSound :
    (limits : ProbeLimits) (t : Tracker)
    → ((name : LimitName) → 1 ≤ limits name)
    → Reach limits t
    → IsSound t
Reach-IsSound limits _ positive fresh = new_tracker-IsSound limits positive
Reach-IsSound limits _ positive
      (called {t} before (consumes_event family bytes fields chars memory)) =
    consume_event-IsSound t family bytes fields chars memory
      (Reach-IsSound limits t positive before)
Reach-IsSound limits _ positive (called {t} before (consumes_capture bytes fields chars memory)) =
    consume_capture-IsSound t bytes fields chars memory (Reach-IsSound limits t positive before)
Reach-IsSound limits _ positive (called {t} before (observes name n)) =
    observe-IsSound t name n (Reach-IsSound limits t positive before)
