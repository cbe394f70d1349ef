-- ===== src/Limits/Measure/Reference.antt =====
-- The measurement by a stack against one by recursion.
use kcd2_codex_toolkit.Base.{
  ℕ, zero, suc, ◌+◌, ◌≤◌, max, List, [], ◌∷◌, if◌then◌else◌, ◌==◌, text_has_eq, ◌≡◌, refl, sym, ap,
  ◌∙◌, arith, Bool-cases, inl, inr,
}
use kcd2_codex_toolkit.Base.Json.{
  Json, null, bool, int, str, arr, obj, Items, nil, cons, Fields, end, field,
}
use kcd2_codex_toolkit.Limits.Measure.{
  Measures, nothing, measured, push_items, push_fields, pushed, measure_stack, weight, weight_items,
  weight_fields, measure_json,
}

-- The larger of each measure.
abbrev pub join : Measures → Measures → Measures
join a b = record {
  fields = max a.fields b.fields;
  string_chars = max a.string_chars b.string_chars;
  memory = max a.memory b.memory;
}

-- The measures of a value and of all that it holds, but what stands under `bytes_hex`.
unfoldable mutual
  pub largest : Json → Measures
  largest (obj inner) = join (measured (obj inner) nothing) (largest_fields inner)
  largest (arr xs) = largest_items xs
  largest (str s) = measured (str s) nothing
  largest _ = nothing

  pub largest_items : Items → Measures
  largest_items nil = nothing
  largest_items (cons x xs) = join (largest x) (largest_items xs)

  pub largest_fields : Fields → Measures
  largest_fields end = nothing
  largest_fields (field k v rest) =
      let more = largest_fields rest in if k == "bytes_hex" then more else join (largest v) more

same_measures :
    (a b : Measures)
    → a.fields ≡ b.fields
    → a.string_chars ≡ b.string_chars
    → a.memory ≡ b.memory
    → a ≡ b
same_measures a b f s m = λ i. record { fields = f i; string_chars = s i; memory = m i }

join-join : (a b c : Measures) → join (join a b) c ≡ join a (join b c)
join-join a b c = same_measures _ _ (omega arith) (omega arith) (omega arith)

join_comm : (a b : Measures) → join a b ≡ join b a
join_comm a b = same_measures _ _ (omega arith) (omega arith) (omega arith)

join-nothing : (a : Measures) → join a nothing ≡ a
join-nothing a = same_measures _ _ (omega arith) (omega arith) (omega arith)

join_middle : (a b c : Measures) → join a (join b c) ≡ join b (join a c)
join_middle a b c = same_measures _ _ (omega arith) (omega arith) (omega arith)

measured-join : (v : Json) (m : Measures) → measured v m ≡ join m (measured v nothing)
unfolding measured
measured-join (obj inner) m = same_measures _ _ (omega arith) (omega arith) (omega arith)
measured-join (arr xs) m = sym (join-nothing m)
measured-join (str s) m = same_measures _ _ (omega arith) (omega arith) (omega arith)
measured-join null m = sym (join-nothing m)
measured-join (bool b) m = sym (join-nothing m)
measured-join (int n) m = sym (join-nothing m)

largest_stack : List Json → Measures
largest_stack [] = nothing
largest_stack (x ∷ xs) = join (largest x) (largest_stack xs)

weights : List Json → ℕ
weights [] = 0
weights (x ∷ xs) = weight x + weights xs

push_items-largest :
    (xs : Items) (stack : List Json)
    → largest_stack (push_items xs stack) ≡ join (largest_items xs) (largest_stack stack)
unfolding largest largest_stack
push_items-largest nil stack = same_measures _ _ (omega arith) (omega arith) (omega arith)
push_items-largest (cons x xs) stack =
    push_items-largest xs (x ∷ stack)
    ∙ join_middle (largest_items xs) (largest x) (largest_stack stack)
    ∙ sym (join-join (largest x) (largest_items xs) (largest_stack stack))

push_fields-largest :
    (inner : Fields) (stack : List Json)
    → largest_stack (push_fields inner stack) ≡ join (largest_fields inner) (largest_stack stack)
unfolding largest largest_stack
push_fields-largest end stack = same_measures _ _ (omega arith) (omega arith) (omega arith)
push_fields-largest (field k v rest) stack = elim (Bool-cases (k == "bytes_hex")) [
  | inl e ↦ rw e (push_fields-largest rest stack)
  | inr e ↦ rw e (
      push_fields-largest rest (v ∷ stack)
      ∙ join_middle (largest_fields rest) (largest v) (largest_stack stack)
      ∙ sym (join-join (largest v) (largest_fields rest) (largest_stack stack)))
]

push_items-weights :
    (xs : Items) (stack : List Json)
    → weights (push_items xs stack) ≡ weight_items xs + weights stack
unfolding weight weights
push_items-weights nil stack = omega arith
push_items-weights (cons x xs) stack = omega (arith, push_items-weights xs (x ∷ stack))

push_fields-weights :
    (inner : Fields) (stack : List Json)
    → weights (push_fields inner stack) ≤ weight_fields inner + weights stack
unfolding weight weights
push_fields-weights end stack = omega arith
push_fields-weights (field k v rest) stack = elim (Bool-cases (k == "bytes_hex")) [
  | inl e ↦ let more = push_fields-weights rest stack in rw e (omega (arith, more))
  | inr e ↦ let more = push_fields-weights rest (v ∷ stack) in rw e (omega (arith, more))
]

pushed-weights :
    (v : Json) (stack : List Json) → suc (weights (pushed v stack)) ≤ weight v + weights stack
unfolding pushed weight
pushed-weights (obj inner) stack = let more = push_fields-weights inner stack in omega (arith, more)
pushed-weights (arr xs) stack = let more = push_items-weights xs stack in omega (arith, more)
pushed-weights (str s) stack = omega arith
pushed-weights null stack = omega arith
pushed-weights (bool b) stack = omega arith
pushed-weights (int n) stack = omega arith

pushed-largest :
    (v : Json) (stack : List Json)
    → join (measured v nothing) (largest_stack (pushed v stack))
      ≡ join (largest v) (largest_stack stack)
unfolding pushed largest measured
pushed-largest (obj inner) stack =
    ap (join (measured (obj inner) nothing)) (push_fields-largest inner stack)
    ∙ sym (join-join (measured (obj inner) nothing) (largest_fields inner) (largest_stack stack))
pushed-largest (arr xs) stack = join_comm nothing _ ∙ join-nothing _ ∙ push_items-largest xs stack
pushed-largest (str s) stack = refl
pushed-largest null stack = refl
pushed-largest (bool b) stack = refl
pushed-largest (int n) stack = refl

measure_stack-largest :
    (left : ℕ) (stack : List Json) (m : Measures)
    → weights stack ≤ left
    → measure_stack left stack m ≡ join m (largest_stack stack)
unfolding largest_stack weights
measure_stack-largest zero [] m few = sym (join-nothing m)
measure_stack-largest zero (v ∷ stack) m few =
    let turn = pushed-weights v stack in absurd (omega (arith, turn, few))
measure_stack-largest (suc left) [] m few = sym (join-nothing m)
measure_stack-largest (suc left) (v ∷ stack) m few =
    let turn = pushed-weights v stack in
    measure_stack-largest left (pushed v stack) (measured v m) (omega (arith, turn, few))
    ∙ ap (λ x. join x (largest_stack (pushed v stack))) (measured-join v m)
    ∙ join-join m (measured v nothing) (largest_stack (pushed v stack))
    ∙ ap (join m) (pushed-largest v stack)

-- The loop over the stack ends, with the largest measures that the recursion over the value finds: as
-- many turns are enough as there are values in the value.
pub measure_json-largest : (value : Json) → measure_json value ≡ largest value
unfolding measure_json largest_stack weights
measure_json-largest value =
    measure_stack-largest (weight value) (value ∷ []) nothing (omega arith)
    ∙ same_measures _ _ (omega arith) (omega arith) (omega arith)
