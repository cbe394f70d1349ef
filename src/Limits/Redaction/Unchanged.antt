-- ===== src/Limits/Redaction/Unchanged.antt =====
-- A redaction that reports nothing has changed nothing.
use kcd2_codex_toolkit.Limits.Redaction.Faithful.{
  IsFaithful, noted-IsFaithful, same-IsFaithful, token-diagnostics, visit_text-IsFaithful,
  length_zero, set_of-nil,
}
use kcd2_codex_toolkit.Base.{
  ℕ, suc, String, ◌<>◌, not, ◌&&◌, ◌||◌, List, [], length, elem, text_has_eq, sort_by, set_of,
  length-sort_by, Result, ok, ◌>>=◌, >>=-eq-ok, ok-same, ◌≡◌, inl, inr, refl, sym, ap, ◌∙◌, subst,
  arith, Bool-cases,
}
use kcd2_codex_toolkit.Base.Json.{
  Json, null, bool, int, str, arr, obj, Items, nil, cons, Fields, end, field,
}
use kcd2_codex_toolkit.Limits.Redaction.Pattern.{is_pointer_name}
use kcd2_codex_toolkit.Limits.Redaction.{
  Redactor, RedactionDiagnostic, diagnostic_has_eq, diagnostic_leb, NotScalar, is_null, put_token,
  note, canonical_scalar, sort_json, visit_named, visit, visit_items, visit_fields,
  redact_probe_output,
}

module _ (decimal : ℕ → ℕ → String) (dumps : Json → String) (sensitive pointers : List String) where
  visit_named-IsFaithful :
      (path name : String) (v : Json) (r : Redactor) (visited : Result NotScalar (Json × Redactor))
      (done : Json × Redactor)
      → ((after : Json × Redactor) → visited ≡ ok after → IsFaithful v r after)
      → visit_named dumps decimal sensitive pointers path name v r visited ≡ ok done
      → IsFaithful v r done
  unfolding visit_named
  visit_named-IsFaithful path name v r visited done faithful h =
      elim (Bool-cases (elem name sensitive)) [
        | inl e ↦
            let same : (str "[REDACTED]", note "SENSITIVE_FIELD_REDACTED" path r) ≡ done =
              ok-same {E = NotScalar} _ refl (ground (arith, e, h)) in
            subst (IsFaithful v r) same (
              noted-IsFaithful v (str "[REDACTED]") r (note "SENSITIVE_FIELD_REDACTED" path r)
                "SENSITIVE_FIELD_REDACTED" path refl)
        | inr e ↦
            elim (Bool-cases ((elem name pointers || is_pointer_name name) && not (is_null v))) [
              | inr p ↦ faithful done (ground (arith, e, p, h))
              | inl p ↦
                  let put : (canonical_scalar decimal dumps v >>= λ raw.
                  ok (put_token decimal path r raw))
                      ≡ ok done =
                    ground (arith, e, p, h) in
                  let (raw, _, last) = >>=-eq-ok (canonical_scalar decimal dumps v) _ put in
                  let same : put_token decimal path r raw ≡ done = ok-same _ refl last in
                  subst (IsFaithful v r) same (
                    noted-IsFaithful v (put_token decimal path r raw).0 r
                      (put_token decimal path r raw).1 "POINTER_REDACTED" path
                      (token-diagnostics decimal raw (note "POINTER_REDACTED" path r)))
            ]
      ]

  -- One step after another.
  both-IsFaithful :
      {A B C : Type 0} (join : A → B → C) (x : A) (y : B) (r : Redactor) (one : A × Redactor)
      (more : B × Redactor)
      → IsFaithful x r one
      → IsFaithful y one.1 more
      → IsFaithful (join x y) r (join one.0 more.0, more.1)
  both-IsFaithful join x y r one more f g =
      let first = f.grown in
      let second = g.grown in
      record {
        grown = omega (arith, first, second);
        unchanged = λ h.
            let stays : length one.1.diagnostics ≡ length r.diagnostics =
              omega (arith, first, second, h) in
            let stays_ : length more.1.diagnostics ≡ length one.1.diagnostics =
              omega (arith, first, second, h) in
            λ i. join (f.unchanged stays i) (g.unchanged stays_ i);
      }

  mutual
    unfolding visit

    visit-IsFaithful :
        (path : String) (v : Json) (r : Redactor) (done : Json × Redactor)
        → visit dumps decimal sensitive pointers path v r ≡ ok done
        → IsFaithful v r done
    visit-IsFaithful path null r done h =
        subst (IsFaithful null r) (ok-same _ refl h) (same-IsFaithful null r)
    visit-IsFaithful path (bool b) r done h =
        subst (IsFaithful (bool b) r) (ok-same _ refl h) (same-IsFaithful (bool b) r)
    visit-IsFaithful path (int n) r done h =
        subst (IsFaithful (int n) r) (ok-same _ refl h) (same-IsFaithful (int n) r)
    visit-IsFaithful path (str s) r done h =
        subst (IsFaithful (str s) r) (ok-same _ refl h) (visit_text-IsFaithful decimal path s r)
    visit-IsFaithful path (arr xs) r done h =
        let (after, visited, h) =
          >>=-eq-ok (visit_items dumps decimal sensitive pointers path 0 xs r) _ h in
        let inner = visit_items-IsFaithful path 0 xs r after visited in
        subst (IsFaithful (arr xs) r) (ok-same _ refl h)
          (record { grown = inner.grown; unchanged = λ e. ap arr (inner.unchanged e) })
    visit-IsFaithful path (obj fields) r done h =
        let (after, visited, h) =
          >>=-eq-ok (visit_fields dumps decimal sensitive pointers path fields r) _ h in
        let inner = visit_fields-IsFaithful path fields r after visited in
        subst (IsFaithful (obj fields) r) (ok-same _ refl h)
          (record { grown = inner.grown; unchanged = λ e. ap obj (inner.unchanged e) })

    visit_items-IsFaithful :
        (path : String) (index : ℕ) (xs : Items) (r : Redactor) (done : Items × Redactor)
        → visit_items dumps decimal sensitive pointers path index xs r ≡ ok done
        → IsFaithful xs r done
    visit_items-IsFaithful path index nil r done h =
        subst (IsFaithful nil r) (ok-same _ refl h) (same-IsFaithful nil r)
    visit_items-IsFaithful path index (cons x xs) r done h =
        let (one, visited, h) =
          >>=-eq-ok
            (visit dumps decimal sensitive pointers (path <> "[" <> decimal 1 index <> "]") x r) _
            h in
        let (more, visited_, h) =
          >>=-eq-ok (visit_items dumps decimal sensitive pointers path (suc index) xs one.1) _ h in
        subst (IsFaithful (cons x xs) r) (ok-same _ refl h) (
          both-IsFaithful cons x xs r one more
            (visit-IsFaithful (path <> "[" <> decimal 1 index <> "]") x r one visited)
            (visit_items-IsFaithful path (suc index) xs one.1 more visited_))

    visit_fields-IsFaithful :
        (path : String) (fields : Fields) (r : Redactor) (done : Fields × Redactor)
        → visit_fields dumps decimal sensitive pointers path fields r ≡ ok done
        → IsFaithful fields r done
    visit_fields-IsFaithful path end r done h =
        subst (IsFaithful end r) (ok-same _ refl h) (same-IsFaithful end r)
    visit_fields-IsFaithful path (field k v rest) r done h =
        let inner = path <> "." <> k in
        let (one, visited, h) =
          >>=-eq-ok
            (visit_named dumps decimal sensitive pointers inner k v r
              (visit dumps decimal sensitive pointers inner v r))
            _ h in
        let (more, visited_, h) =
          >>=-eq-ok (visit_fields dumps decimal sensitive pointers path rest one.1) _ h in
        subst (IsFaithful (field k v rest) r) (ok-same _ refl h) (
          both-IsFaithful (field k) v rest r one more
            (visit_named-IsFaithful inner k v r (visit dumps decimal sensitive pointers inner v r)
              one (visit-IsFaithful inner v r) visited)
            (visit_fields-IsFaithful path rest one.1 more visited_))

  -- A redaction that reports nothing returns the value as it was given, with the fields of each
  -- object in the order of their names.
  pub redact_probe_output_unchanged :
      (value out : Json)
      → redact_probe_output dumps decimal sensitive pointers value ≡ ok (out, [])
      → out ≡ sort_json value
  unfolding redact_probe_output
  redact_probe_output_unchanged value out h =
      let start : Redactor = record { pointer_tokens = []; diagnostics = [] } in
      let (done, visited, h) =
        >>=-eq-ok (visit dumps decimal sensitive pointers "$" (sort_json value) start) _ h in
      let same : (done.0, sort_by diagnostic_leb (set_of done.1.diagnostics)) ≡ (out, []) =
        ok-same _ refl h in
      let none_ : done.1.diagnostics ≡ [] = set_of-nil done.1.diagnostics (
        length_zero (set_of done.1.diagnostics) (
          sym (length-sort_by diagnostic_leb (set_of done.1.diagnostics))
          ∙ ap (λ (d : Json × List RedactionDiagnostic). length d.1) same)) in
      sym (ap (λ (d : Json × List RedactionDiagnostic). d.0) same)
      ∙ (visit-IsFaithful "$" (sort_json value) start done visited).unchanged (ap length none_)
