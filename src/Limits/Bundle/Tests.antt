-- ===== src/Limits/Bundle/Tests.antt =====
-- A bundle with two captures of one family.
use kcd2_codex_toolkit.Base.{ℕ, text_has_eq, Result, ok, err, ◌≡◌, refl}
use kcd2_codex_toolkit.Base.Json.{Json, int, str, arr, obj, pos, Fields, nil, cons, end, field, get}
use kcd2_codex_toolkit.Limits.{default_limit}
use kcd2_codex_toolkit.Limits.Tracker.{new_tracker, ProbeLimitState, state}
use kcd2_codex_toolkit.Limits.Measure.{measured, pushed, weight, measure_json}
use kcd2_codex_toolkit.Limits.Measure.Reference.{largest, measure_json-largest}
use kcd2_codex_toolkit.Limits.Bundle.{BundleError, evaluate_probe_bundle_limits}

abbrev a_hundred : Json → ℕ
a_hundred value = 100

abbrev declared : Fields
declared = field "max_events" (int (pos 10)) (
    field "max_captures" (int (pos 10)) (
      field "max_event_families" (int (pos 4)) (
        field "max_total_bytes" (int (pos 2048)) (
          field "max_fields" (int (pos 8)) (
            field "max_string_chars" (int (pos 100))
              (field "max_memory_region_bytes" (int (pos 64)) end))))))

abbrev a_capture : Json
a_capture =
    obj (
      field "event" (str "hit") (field "bytes" (int (pos 16)) (field "bytes_hex" (str "00ff") end)))

abbrev a_bundle : Fields
a_bundle =
    field "limits" (obj declared) (field "captures" (arr (cons a_capture (cons a_capture nil))) end)

abbrev state_or_new : Result BundleError ProbeLimitState → ProbeLimitState
state_or_new (ok s) = s
state_or_new (err e) = state (new_tracker default_limit)

abbrev evaluated : Result BundleError ProbeLimitState
evaluated = evaluate_probe_bundle_limits a_hundred a_bundle

the_memory_is_measured : (measure_json (obj a_bundle)).memory ≡ 16
unfolding measure_json measured pushed weight get
the_memory_is_measured = refl

measure_json-largest_example : measure_json (obj a_bundle) ≡ largest (obj a_bundle)
measure_json-largest_example = measure_json-largest (obj a_bundle)
