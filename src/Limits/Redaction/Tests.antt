-- ===== src/Limits/Redaction/Tests.antt =====
-- A value with a secret, a pointer under its name and a pointer inside a text.
use kcd2_codex_toolkit.Base.{
  ℕ, String, true, List, [], ◌∷◌, elem, sort_by, set_of, insert_by, lower, is_hex, ok, ◌≡◌, refl,
  text_has_eq,
}
use kcd2_codex_toolkit.Base.Json.{Json, null, bool, str, arr, obj, nil, cons, end, field}
use kcd2_codex_toolkit.Limits.Redaction.Pattern.{
  hex_run, raw_pointer_length, is_raw_pointer, has_raw_pointer, folded, behind_word, is_word_end,
  starts_word, has_word, is_pointer_name,
}
use kcd2_codex_toolkit.Limits.Redaction.{
  RedactionDiagnostic, sort_json, token, substitute, canonical_scalar, visit_text, visit_named,
  visit, redact_probe_output,
}
use kcd2_codex_toolkit.Limits.Redaction.Hidden.{IsRedacted, redact_probe_output-IsRedacted}
use kcd2_codex_toolkit.Limits.Redaction.Unchanged.{redact_probe_output_unchanged}

abbrev one_digit : ℕ → ℕ → String
one_digit width n = "1"

abbrev no_dump : Json → String
no_dump value = "dumped"

abbrev raw_value : Json
raw_value = obj (
    field "owner_ptr" (str "0x7FF612345678") (
      field "note" (str "at 0x7ff612345678 again")
        (field "key" (str "secret") (field "address" null end))))

abbrev redacted_value : Json
redacted_value = obj (
    field "address" null (
      field "key" (str "[REDACTED]") (
        field "note" (str "at pointer:redacted:1 again")
          (field "owner_ptr" (str "pointer:redacted:1") end))))

the_value_is_visited :
    visit no_dump one_digit
      ("key" ∷ [])
      []
      "$"
      (sort_json raw_value)
      (record { pointer_tokens = []; diagnostics = [] })
    ≡ ok (
      redacted_value,
      record {
        pointer_tokens = "0x7ff612345678" ∷ [];
        diagnostics =
            record { code = "SENSITIVE_FIELD_REDACTED"; path = "$.key" }
            ∷ record { code = "POINTER_REDACTED"; path = "$.note" }
            ∷ record { code = "POINTER_REDACTED"; path = "$.owner_ptr" }
            ∷ [];
      },
    )
unfolding visit visit_named visit_text substitute token canonical_scalar sort_json hex_run
    raw_pointer_length is_raw_pointer has_raw_pointer folded behind_word is_word_end starts_word
    has_word is_pointer_name elem lower is_hex
the_value_is_visited = refl

abbrev hidden_value : Json
hidden_value = obj (field "owner_ptr" (str "pointer:redacted:1") end)

abbrev reported : List RedactionDiagnostic
reported = record { code = "POINTER_REDACTED"; path = "$.owner_ptr" } ∷ []

the_pointer_is_hidden :
    redact_probe_output no_dump one_digit
      ("key" ∷ [])
      []
      (obj (field "owner_ptr" (str "0x7FF612345678") end))
    ≡ ok (hidden_value, reported)
unfolding redact_probe_output visit visit_named token canonical_scalar sort_json sort_by insert_by
    set_of hex_run raw_pointer_length is_raw_pointer folded behind_word is_word_end starts_word
    has_word is_pointer_name elem lower is_hex
the_pointer_is_hidden = refl

redact_probe_output-IsRedacted_example : IsRedacted one_digit ("key" ∷ []) [] hidden_value
redact_probe_output-IsRedacted_example =
    redact_probe_output-IsRedacted one_digit ("key" ∷ []) [] no_dump
      (obj (field "owner_ptr" (str "0x7FF612345678") end)) hidden_value reported
      the_pointer_is_hidden

abbrev plain_value : Json
plain_value = obj (field "b" (bool true) (field "a" (arr (cons (str "x") nil)) end))

nothing_is_reported :
    redact_probe_output no_dump one_digit ("key" ∷ []) [] plain_value
    ≡ ok (sort_json plain_value, [])
unfolding redact_probe_output visit visit_named visit_text substitute sort_json sort_by insert_by
    set_of hex_run raw_pointer_length has_raw_pointer folded behind_word is_word_end starts_word
    has_word is_pointer_name elem
nothing_is_reported = refl

redact_probe_output_unchanged_example : sort_json plain_value ≡ sort_json plain_value
redact_probe_output_unchanged_example =
    redact_probe_output_unchanged one_digit no_dump ("key" ∷ []) [] plain_value
      (sort_json plain_value) nothing_is_reported
