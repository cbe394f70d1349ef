-- ===== src/Limits/Measure.antt =====
-- runtime/src/kcd2_native_probes/limits.py, `_measure_json`: the largest fields, text and memory region
-- in a JSON value, by a stack of the items that are left.
pub mod Reference
use kcd2_codex_toolkit.Base.{
  ℕ, zero, suc, ◌+◌, ◌≤◌, max, String, Bool, true, false, Option, none, some, List, [], ◌∷◌,
  if◌then◌else◌, ◌==◌, text_has_eq, len, ◌≡◌, refl, sym, ap, ◌∙◌, subst, arith, Bool-cases, inl,
  inr,
}
use kcd2_codex_toolkit.Base.Json.{
  Json, null, bool, int, str, arr, obj, ℤ, pos, negsuc, Items, nil, cons, Fields, end, field, get,
  size, object_in,
}

-- `maximum_fields`, `maximum_string_chars` and `maximum_memory`
pub record Measures : Type 0 where
  pub fields : ℕ
  pub string_chars : ℕ
  pub memory : ℕ

abbrev pub nothing : Measures
nothing = record { fields = 0; string_chars = 0; memory = 0 }

abbrev pub fields_in : Option Json → ℕ
fields_in value = elim (object_in value) [ none ↦ 0 | some inner ↦ size inner ]

-- `bytes`, where it is an integer that is not negative, beside a `bytes_hex`
abbrev pub memory_in : Option Json → Option Json → ℕ
memory_in (some hex) (some (int (pos n))) = n
memory_in _ _ = 0

-- The body of the loop on the maxima.
unfoldable pub measured : Json → Measures → Measures
measured (obj inner) m = record m {
  fields = max m.fields (fields_in (get "fields" inner));
  memory = max m.memory (memory_in (get "bytes_hex" inner) (get "bytes" inner));
}
measured (str s) m = record m { string_chars = max m.string_chars (len s) }
measured _ m = m

abbrev pub push_items : Items → List Json → List Json
push_items nil stack = stack
push_items (cons x xs) stack = push_items xs (x ∷ stack)

abbrev pub push_fields : Fields → List Json → List Json
push_fields end stack = stack
push_fields (field k v rest) stack =
    push_fields rest (if k == "bytes_hex" then stack else v ∷ stack)

-- The body of the loop on the stack.
unfoldable pub pushed : Json → List Json → List Json
pushed (obj inner) stack = push_fields inner stack
pushed (arr xs) stack = push_items xs stack
pushed _ stack = stack

-- The loop, for so many turns
abbrev pub measure_stack : ℕ → List Json → Measures → Measures
measure_stack zero stack m = m
measure_stack (suc left) [] m = m
measure_stack (suc left) (item ∷ stack) m = measure_stack left (pushed item stack) (measured item m)

-- The number of values in a value.
unfoldable mutual
  pub weight : Json → ℕ
  weight (obj inner) = suc (weight_fields inner)
  weight (arr xs) = suc (weight_items xs)
  weight _ = 1

  pub weight_items : Items → ℕ
  weight_items nil = 0
  weight_items (cons x xs) = weight x + weight_items xs

  pub weight_fields : Fields → ℕ
  weight_fields end = 0
  weight_fields (field k v rest) = weight v + weight_fields rest

-- `_measure_json`, which takes each value from the stack once
unfoldable pub measure_json : Json → Measures
measure_json value = measure_stack (weight value) (value ∷ []) nothing
