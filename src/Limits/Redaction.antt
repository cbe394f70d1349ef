-- ===== src/Limits/Redaction.antt =====
-- runtime/src/kcd2_native_probes/limits.py, `redact_probe_output`: sensitive values and raw pointers
-- are taken out of a JSON value. `dumps` stands for `json.dumps` of a scalar and `decimal` for the
-- decimal digits of a number, with at least so many of them.
pub mod Pattern
pub mod Hidden
pub mod Faithful
pub mod Unchanged
pub mod Tests
use Prim.Native.String
use kcd2_codex_toolkit.Base.{
  ℕ, zero, suc, ◌+◌, String, ◌<>◌, Bool, true, false, ◌&&◌, ◌||◌, Option, none, some, List, [], ◌∷◌,
  ◌++◌, if◌then◌else◌, ◌==◌, text_has_eq, elem, length, lower, str_leb, sort_by, set_of, not, Eq,
  eq_of_discrete, text_discrete, Result, ok, err, ◌>>=◌,
}
use kcd2_codex_toolkit.Base.Json.{
  Json, null, bool, int, str, arr, obj, Items, nil, cons, Fields, end, field,
}
use kcd2_codex_toolkit.Limits.Redaction.Pattern.{
  is_raw_pointer, raw_pointer_length, has_raw_pointer, taken, is_pointer_name,
}

-- `RedactionDiagnostic`; its message only explains the code.
pub record RedactionDiagnostic : Type 0 where
  pub code : String
  pub path : String

-- `pointer_tokens` in the order in which they were given, and `diagnostics`
pub record Redactor : Type 0 where
  pub pointer_tokens : List String
  pub diagnostics : List RedactionDiagnostic

abbrev pub position : String → List String → Option ℕ
position raw [] = none
position raw (x ∷ rest) =
    if x == raw then some 0 else (elim (position raw rest) [ none ↦ none | some n ↦ some (suc n) ])

abbrev pub note : String → String → Redactor → Redactor
note code path r = record r {
  diagnostics = r.diagnostics ++ record { code = code; path = path } ∷ [];
}

unfoldable pub diagnostic_discrete : Discrete RedactionDiagnostic
unfolding text_discrete
diagnostic_discrete = hlevel text_discrete

instance abbrev pub diagnostic_has_eq : Eq RedactionDiagnostic
unfolding diagnostic_discrete
diagnostic_has_eq = eq_of_discrete diagnostic_discrete

-- The order of `sorted(unique)`
abbrev pub diagnostic_leb : RedactionDiagnostic → RedactionDiagnostic → Bool
diagnostic_leb a b = if a.code == b.code then str_leb a.path b.path else str_leb a.code b.code

-- `ValueError`: a pointer field whose value is no scalar
pub data NotScalar : Type 0 where
  not_scalar : NotScalar

-- A field, where its name stands in the order of the names.
abbrev pub insert_field : String → Json → Fields → Fields
insert_field key value end = field key value end
insert_field key value (field k v rest) =
    if str_leb key k
    then field key value (field k v rest)
    else field k v (insert_field key value rest)

-- `sorted(item)` at every object, so that the fields are visited as they stand.
unfoldable mutual
  pub sort_json : Json → Json
  sort_json (arr xs) = arr (sort_items xs)
  sort_json (obj fields) = obj (sort_fields fields)
  sort_json value = value

  pub sort_items : Items → Items
  sort_items nil = nil
  sort_items (cons x xs) = cons (sort_json x) (sort_items xs)

  pub sort_fields : Fields → Fields
  sort_fields end = end
  sort_fields (field k v rest) = insert_field k (sort_json v) (sort_fields rest)

abbrev pub is_null : Json → Bool
is_null null = true
is_null _ = false

module _ (decimal : ℕ → ℕ → String) where
  abbrev pub token_text : ℕ → String
  token_text n = "pointer:redacted:" <> decimal 4 (n + 1)

  -- `token`
  unfoldable pub token : String → Redactor → String × Redactor
  token raw r = elim (position raw r.pointer_tokens) [
    | some n ↦ (token_text n, r)
    | none ↦ (
      token_text (length r.pointer_tokens),
      record r { pointer_tokens = r.pointer_tokens ++ raw ∷ [] },
    )
  ]

  -- `RAW_POINTER_RE.sub(replace, item)`, behind the characters of the match before
  unfoldable pub substitute : ℕ → String → Redactor → String × Redactor
  substitute (suc left) String.[] r = (String.[], r)
  substitute (suc left) (String.◌∷◌ c s) r = substitute left s r
  substitute zero String.[] r = (String.[], r)
  substitute zero (String.◌∷◌ c s) r = elim (raw_pointer_length (String.◌∷◌ c s)) [
    | zero ↦ (let rest = substitute zero s r in (String.◌∷◌ c rest.0, rest.1))
    | suc n ↦
        (let put = token (lower (taken (suc n) (String.◌∷◌ c s))) r in
          let rest = substitute n s put.1 in (put.0 <> rest.0, rest.1))
  ]

  -- `_canonical_scalar`
  unfoldable pub canonical_scalar : (Json → String) → Json → Result NotScalar String
  canonical_scalar dumps (arr xs) = err not_scalar
  canonical_scalar dumps (obj fields) = err not_scalar
  canonical_scalar dumps (str s) = ok (if is_raw_pointer s then lower s else dumps (str s))
  canonical_scalar dumps value = ok (dumps value)

  -- The pointer that a value is, noted at its path
  abbrev pub put_token : String → Redactor → String → Json × Redactor
  put_token path r raw = let put = token raw (note "POINTER_REDACTED" path r) in (str put.0, put.1)

  -- The text of an item, noted at its path where a pointer was found
  unfoldable pub visit_text : String → String → Redactor → Json × Redactor
  visit_text path s r =
      let put = substitute 0 s r in
      (str put.0, if has_raw_pointer s then note "POINTER_REDACTED" path put.1 else put.1)

module _ (dumps : Json → String) (decimal : ℕ → ℕ → String) (sensitive pointers : List String) where
  -- `visit` of an item with a name; what the visit of the item itself comes to is `visited`.
  unfoldable pub visit_named :
      String
      → String
      → Json
      → Redactor
      → Result NotScalar (Json × Redactor)
      → Result NotScalar (Json × Redactor)
  visit_named path name v r visited =
      if elem name sensitive
      then ok (str "[REDACTED]", note "SENSITIVE_FIELD_REDACTED" path r)
      else if (elem name pointers || is_pointer_name name) && not (is_null v)
      then (canonical_scalar decimal dumps v >>= λ raw. ok (put_token decimal path r raw))
      else visited

  -- `visit`, of an item without a name, of the items of an array, and of the fields of an object
  unfoldable mutual
    pub visit : String → Json → Redactor → Result NotScalar (Json × Redactor)
    visit path (obj fields) r =
        visit_fields path fields r >>= λ (done : Fields × Redactor). ok (obj done.0, done.1)
    visit path (arr xs) r =
        visit_items path 0 xs r >>= λ (done : Items × Redactor). ok (arr done.0, done.1)
    visit path (str s) r = ok (visit_text decimal path s r)
    visit path null r = ok (null, r)
    visit path (bool b) r = ok (bool b, r)
    visit path (int n) r = ok (int n, r)

    pub visit_items : String → ℕ → Items → Redactor → Result NotScalar (Items × Redactor)
    visit_items path index nil r = ok (nil, r)
    visit_items path index (cons x xs) r =
        visit (path <> "[" <> decimal 1 index <> "]") x r >>= λ (done : Json × Redactor).
        visit_items path (suc index) xs done.1 >>= λ (more : Items × Redactor).
        ok (cons done.0 more.0, more.1)

    pub visit_fields : String → Fields → Redactor → Result NotScalar (Fields × Redactor)
    visit_fields path end r = ok (end, r)
    visit_fields path (field k v rest) r =
        visit_named (path <> "." <> k) k v r (visit (path <> "." <> k) v r)
        >>= λ (done : Json × Redactor).
            visit_fields path rest done.1 >>= λ (more : Fields × Redactor).
            ok (field k done.0 more.0, more.1)

  -- `redact_probe_output`
  unfoldable pub redact_probe_output : Json → Result NotScalar (Json × List RedactionDiagnostic)
  redact_probe_output value =
      visit "$" (sort_json value) (record { pointer_tokens = []; diagnostics = [] })
      >>= λ (done : Json × Redactor).
          ok (done.0, sort_by diagnostic_leb (set_of done.1.diagnostics))
