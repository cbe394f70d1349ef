-- ===== src/Limits/Bundle/Allowed.antt =====
-- When the state of a bundle allows a claim of absence.
use kcd2_codex_toolkit.Base.{ℕ, ◌<◌, String, List, length, text_has_eq}
use kcd2_codex_toolkit.Base.Json.{Json, obj, Items, Fields, count}
use kcd2_codex_toolkit.Limits.{
  max_events, max_captures, max_event_families, max_total_bytes, max_fields, max_string_chars,
  max_memory_region_bytes, ProbeLimits,
}
use kcd2_codex_toolkit.Limits.Tracker.{Tracker}
use kcd2_codex_toolkit.Limits.Bundle.{events}
use kcd2_codex_toolkit.Limits.Measure.Reference.{largest}

-- The seven measures of a bundle are below their limits: the captures, counted twice, the families,
-- the size, and the largest fields, text and memory region that a recursion over the bundle finds.
pub record IsBelow (encoded_size : Json → ℕ) (bundle : Fields) (captured : Items)
    (families : List String) (limits : ProbeLimits) : Type 0 where
  pub events : count captured < limits max_events
  pub captures : count captured < limits max_captures
  pub named : length families < limits max_event_families
  pub bytes : encoded_size (obj bundle) < limits max_total_bytes
  pub fields : (largest (obj bundle)).fields < limits max_fields
  pub chars : (largest (obj bundle)).string_chars < limits max_string_chars
  pub memory : (largest (obj bundle)).memory < limits max_memory_region_bytes
