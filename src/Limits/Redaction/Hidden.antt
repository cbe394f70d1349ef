-- ===== src/Limits/Redaction/Hidden.antt =====
-- Where a redacted value holds what: no sensitive value, and tokens in the place of pointers.
use kcd2_codex_toolkit.Base.{
  ℕ, suc, String, ◌<>◌, true, false, ◌||◌, List, [], length, elem, text_has_eq, Result, ok, ◌>>=◌,
  >>=-eq-ok, ok-same, ◌≡◌, ◌⊎◌, inl, inr, refl, ap, subst, arith, Bool-cases, Option-cases,
}
use kcd2_codex_toolkit.Base.Json.{
  Json, null, bool, int, str, arr, obj, Items, nil, cons, Fields, end, field,
}
use kcd2_codex_toolkit.Limits.Redaction.Pattern.{is_pointer_name}
use kcd2_codex_toolkit.Limits.Redaction.{
  Redactor, RedactionDiagnostic, NotScalar, is_null, token_text, token, put_token, note, position,
  canonical_scalar, visit_text, sort_json, visit_named, visit, visit_items, visit_fields,
  redact_probe_output,
}

module _ (decimal : ℕ → ℕ → String) (sensitive pointers : List String) where
  abbrev pub IsPointerName : String → Type 0
  IsPointerName name = (elem name pointers || is_pointer_name name) ≡ true

  -- No value but the mark under a sensitive name, and none but a token or null under a pointer's.
  pub record IsMasked (name : String) (v : Json) : Type 0 where
    pub marked : elem name sensitive ≡ true → v ≡ str "[REDACTED]"
    pub tokened :
        elem name sensitive ≡ false
        → IsPointerName name
        → (v ≡ null) ⊎ ((n : ℕ) × (v ≡ str (token_text decimal n)))

  -- Every field at every depth is masked.
  unfoldable mutual
    pub IsRedacted : Json → Type 0
    IsRedacted (arr xs) = AreRedacted xs
    IsRedacted (obj fields) = AreMasked fields
    IsRedacted _ = Unit

    pub AreRedacted : Items → Type 0
    AreRedacted nil = Unit
    AreRedacted (cons x xs) = IsRedacted x × AreRedacted xs

    pub AreMasked : Fields → Type 0
    AreMasked end = Unit
    AreMasked (field k v rest) = IsMasked k v × IsRedacted v × AreMasked rest

  -- A name and the value that stands under it.
  abbrev IsKept : String → Json → Type 0
  IsKept name v = IsMasked name v × IsRedacted v

  mark-IsKept : (name : String) → elem name sensitive ≡ true → IsKept name (str "[REDACTED]")
  unfolding IsRedacted
  mark-IsKept name h =
      (record { marked = λ _. refl; tokened = λ open_ _. ground (arith, h, open_) }, tt)

  token_is_numbered :
      (raw : String) (r : Redactor) → (n : ℕ) × ((token decimal raw r).0 ≡ token_text decimal n)
  unfolding token
  token_is_numbered raw r = elim (Option-cases (position raw r.pointer_tokens)) [
    | inl e ↦ (length r.pointer_tokens, rw (token, e) refl)
    | inr (n, e) ↦ (n, rw (token, e) refl)
  ]

  token-IsKept :
      (name text : String) (r : Redactor)
      → elem name sensitive ≡ false
      → IsKept name (str (token decimal text r).0)
  unfolding IsRedacted
  token-IsKept name text r h = (
    record {
      marked = λ closed. ground (arith, h, closed);
      tokened = λ _ _. let (n, numbered) = token_is_numbered text r in inr (n, ap str numbered);
    },
    tt,
  )

  null-IsKept :
      (name : String) (v : Json) → elem name sensitive ≡ false → is_null v ≡ true → IsKept name v
  unfolding IsRedacted
  null-IsKept name null h e =
      (record { marked = λ closed. ground (arith, h, closed); tokened = λ _ _. inl refl }, tt)
  null-IsKept name (bool b) h e = cc
  null-IsKept name (int n) h e = cc
  null-IsKept name (str s) h e = cc
  null-IsKept name (arr xs) h e = cc
  null-IsKept name (obj fields) h e = cc

  plain-IsKept :
      (name : String) (v : Json)
      → elem name sensitive ≡ false
      → (elem name pointers || is_pointer_name name) ≡ false
      → IsRedacted v
      → IsKept name v
  plain-IsKept name v h e redacted = (
    record {
      marked = λ closed. ground (arith, h, closed);
      tokened = λ _ named. ground (arith, e, named);
    },
    redacted,
  )

  module _ (dumps : Json → String) where
    visit_named-IsKept :
        (path name : String) (v : Json) (r : Redactor)
        (visited : Result NotScalar (Json × Redactor)) (done : Json × Redactor)
        → ((after : Json × Redactor) → visited ≡ ok after → IsRedacted after.0)
        → (is_null v ≡ true → visited ≡ ok (v, r))
        → visit_named dumps decimal sensitive pointers path name v r visited ≡ ok done
        → IsKept name done.0
    unfolding visit_named
    visit_named-IsKept path name v r visited done redacted stays h =
        elim (Bool-cases (elem name sensitive)) [
          | inl e ↦
              let same : (str "[REDACTED]", note "SENSITIVE_FIELD_REDACTED" path r) ≡ done =
                ok-same {E = NotScalar} _ refl (ground (arith, e, h)) in
              subst (λ (d : Json × Redactor). IsKept name d.0) same (mark-IsKept name e)
          | inr e ↦ elim (Bool-cases (elem name pointers || is_pointer_name name)) [
            | inr p ↦ plain-IsKept name done.0 e p (redacted done (ground (arith, e, p, h)))
            | inl p ↦ elim (Bool-cases (is_null v)) [
              | inl n ↦
                  let gone : visited ≡ ok done = ground (arith, e, p, n, h) in
                  let same : (v, r) ≡ done = ok-same _ (stays n) gone in
                  subst (λ (d : Json × Redactor). IsKept name d.0) same (null-IsKept name v e n)
              | inr n ↦
                  let put : (canonical_scalar decimal dumps v >>= λ raw.
                  ok (put_token decimal path r raw))
                      ≡ ok done =
                    ground (arith, e, p, n, h) in
                  let (raw, _, last) = >>=-eq-ok (canonical_scalar decimal dumps v) _ put in
                  let same : put_token decimal path r raw ≡ done = ok-same _ refl last in
                  subst (λ (d : Json × Redactor). IsKept name d.0) same
                    (token-IsKept name raw (note "POINTER_REDACTED" path r) e)
            ]
          ]
        ]

    visit_null :
        (path : String) (v : Json) (r : Redactor)
        → is_null v ≡ true
        → visit dumps decimal sensitive pointers path v r ≡ ok (v, r)
    unfolding visit
    visit_null path null r h = refl
    visit_null path (bool b) r h = cc
    visit_null path (int n) r h = cc
    visit_null path (str s) r h = cc
    visit_null path (arr xs) r h = cc
    visit_null path (obj fields) r h = cc

    mutual
      unfolding visit IsRedacted visit_text

      visit-IsRedacted :
          (path : String) (v : Json) (r : Redactor) (done : Json × Redactor)
          → visit dumps decimal sensitive pointers path v r ≡ ok done
          → IsRedacted done.0
      visit-IsRedacted path null r done h =
          subst (λ (d : Json × Redactor). IsRedacted d.0) (ok-same _ refl h) tt
      visit-IsRedacted path (bool b) r done h =
          subst (λ (d : Json × Redactor). IsRedacted d.0) (ok-same _ refl h) tt
      visit-IsRedacted path (int n) r done h =
          subst (λ (d : Json × Redactor). IsRedacted d.0) (ok-same _ refl h) tt
      visit-IsRedacted path (str s) r done h =
          subst (λ (d : Json × Redactor). IsRedacted d.0) (ok-same _ refl h) tt
      visit-IsRedacted path (arr xs) r done h =
          let (after, visited, h) =
            >>=-eq-ok (visit_items dumps decimal sensitive pointers path 0 xs r) _ h in
          subst (λ (d : Json × Redactor). IsRedacted d.0) (ok-same _ refl h)
            (visit_items-AreRedacted path 0 xs r after visited)
      visit-IsRedacted path (obj fields) r done h =
          let (after, visited, h) =
            >>=-eq-ok (visit_fields dumps decimal sensitive pointers path fields r) _ h in
          subst (λ (d : Json × Redactor). IsRedacted d.0) (ok-same _ refl h)
            (visit_fields-AreMasked path fields r after visited)

      visit_items-AreRedacted :
          (path : String) (index : ℕ) (xs : Items) (r : Redactor) (done : Items × Redactor)
          → visit_items dumps decimal sensitive pointers path index xs r ≡ ok done
          → AreRedacted done.0
      visit_items-AreRedacted path index nil r done h =
          subst (λ (d : Items × Redactor). AreRedacted d.0) (ok-same _ refl h) tt
      visit_items-AreRedacted path index (cons x xs) r done h =
          let (one, visited, h) =
            >>=-eq-ok
              (visit dumps decimal sensitive pointers (path <> "[" <> decimal 1 index <> "]") x r) _
              h in
          let (more, visited_, h) =
            >>=-eq-ok (visit_items dumps decimal sensitive pointers path (suc index) xs one.1) _
              h in
          subst (λ (d : Items × Redactor). AreRedacted d.0) (ok-same _ refl h)
            (
              visit-IsRedacted (path <> "[" <> decimal 1 index <> "]") x r one visited,
              visit_items-AreRedacted path (suc index) xs one.1 more visited_,
            )

      visit_fields-AreMasked :
          (path : String) (fields : Fields) (r : Redactor) (done : Fields × Redactor)
          → visit_fields dumps decimal sensitive pointers path fields r ≡ ok done
          → AreMasked done.0
      visit_fields-AreMasked path end r done h =
          subst (λ (d : Fields × Redactor). AreMasked d.0) (ok-same _ refl h) tt
      visit_fields-AreMasked path (field k v rest) r done h =
          let inner = path <> "." <> k in
          let (one, visited, h) =
            >>=-eq-ok
              (visit_named dumps decimal sensitive pointers inner k v r
                (visit dumps decimal sensitive pointers inner v r))
              _ h in
          let (more, visited_, h) =
            >>=-eq-ok (visit_fields dumps decimal sensitive pointers path rest one.1) _ h in
          let (masked, redacted) =
            visit_named-IsKept inner k v r (visit dumps decimal sensitive pointers inner v r) one
              (visit-IsRedacted inner v r) (visit_null inner v r) visited in
          subst (λ (d : Fields × Redactor). AreMasked d.0) (ok-same _ refl h)
            (masked, redacted, visit_fields-AreMasked path rest one.1 more visited_)

    -- What the redaction returns has, at every depth, no value but the mark under a sensitive name,
    -- and under the name of a pointer that is not sensitive none but null or a token.
    pub redact_probe_output-IsRedacted :
        (value out : Json) (diagnostics : List RedactionDiagnostic)
        → redact_probe_output dumps decimal sensitive pointers value ≡ ok (out, diagnostics)
        → IsRedacted out
    unfolding redact_probe_output
    redact_probe_output-IsRedacted value out diagnostics h =
        let start : Redactor = record { pointer_tokens = []; diagnostics = [] } in
        let (done, visited, h) =
          >>=-eq-ok (visit dumps decimal sensitive pointers "$" (sort_json value) start) _ h in
        let same = ok-same _ refl h in
        subst IsRedacted (ap (λ (d : Json × List RedactionDiagnostic). d.0) same)
          (visit-IsRedacted "$" (sort_json value) start done visited)
