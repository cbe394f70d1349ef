-- ===== src/Correlation/Entry.antt =====
-- What the loop over the contracts does with one to which it objects nothing.
use kcd2_codex_toolkit.Correlation.Clean.{
  is_clean, add_one-is_clean, add_all-is_clean, if-is_clean, some_same,
}
use kcd2_codex_toolkit.Base.{
  ℕ, String, ◌<>◌, true, false, some, ◌∷◌, if◌then◌else◌, text_has_eq, elem, ◌≡◌, inl, inr, sym, ap,
  ◌∙◌, arith, Option-cases,
}
use kcd2_codex_toolkit.Base.Json.{Json, str, obj, Fields, get, text_in, object_in}
use kcd2_codex_toolkit.Base.Json.Values.{object_in-eq}
use kcd2_codex_toolkit.Correlation.Proof.{bounded_name}
use kcd2_codex_toolkit.Correlation.Contract.{validate_correlation}
use kcd2_codex_toolkit.Correlation.Correlated.{
  IsCorrelated, validate_correlation-IsCorrelated, bounded_string-eq,
}
use kcd2_codex_toolkit.Correlation.Report.{
  Collector, add_all, report_one, Progress, text_or, settled, validate_entry_fields, validate_entry,
}

module _ (casefold : String → String) (decimal : ℕ → String) where
  -- What the loop does with a contract to which it objects nothing.
  validate_fields-is_clean :
      (module_sha256 path : String) (index : ℕ) (contract : Fields) (before after : Progress)
      → validate_entry_fields casefold decimal module_sha256 path index contract before ≡ some after
      → is_clean after.collector ≡ true
      → (is_clean before.collector ≡ true)
        × ((id : String) × (get "correlation_id" contract ≡ some (str id))
            × (elem id before.seen_ids ≡ false)
            × (after.seen_ids ≡ id ∷ before.seen_ids)
            × IsCorrelated casefold module_sha256 contract)
  unfolding validate_entry_fields
  validate_fields-is_clean module_sha256 path index contract before after h clean =
      let id =
        text_or ("invalid-" <> decimal index) (bounded_name (get "correlation_id" contract)) in
      let c : Collector =
        if elem id before.seen_ids
        then report_one before.collector "CORRELATION_ID_DUPLICATE" (path <> ".correlation_id")
        else before.collector in
      elim (Option-cases (validate_correlation casefold contract module_sha256 path)) [
        | inl e ↦ ground (arith, e, h)
        | inr (added, e) ↦
            let same : settled before (add_all c added) (id ∷ before.seen_ids) id
                  (text_or "invalid" (text_in (get "strategy" contract)))
                ≡ after =
              ground (arith, e, h) in
            let (clean_before, nothing) =
              add_all-is_clean c added (ap (λ (p : Progress). is_clean p.collector) same ∙ clean) in
            let (correlated, named) =
              validate_correlation-IsCorrelated casefold module_sha256 contract path
                (e ∙ ap some nothing) in
            let (s, found, _, bounded) =
              bounded_string-eq 128 (get "correlation_id" contract) named in
            let is_id : id ≡ s = ap (text_or ("invalid-" <> decimal index)) bounded in
            let (fresh, clean_first) =
              if-is_clean (elem id before.seen_ids) before.collector "CORRELATION_ID_DUPLICATE"
                (path <> ".correlation_id") clean_before in
            (
              clean_first,
              (
                id,
                found ∙ ap (λ x. some (str x)) (sym is_id),
                fresh,
                sym (ap (λ (p : Progress). p.seen_ids) same),
                correlated,
              ),
            )
      ]

  pub validate_entry-is_clean :
      (module_sha256 collection_path : String) (index : ℕ) (x : Json) (before after : Progress)
      → validate_entry casefold decimal module_sha256 collection_path index x before ≡ some after
      → is_clean after.collector ≡ true
      → (is_clean before.collector ≡ true)
        × ((contract : Fields) × (id : String) × (x ≡ obj contract)
            × (get "correlation_id" contract ≡ some (str id))
            × (elem id before.seen_ids ≡ false)
            × (after.seen_ids ≡ id ∷ before.seen_ids)
            × IsCorrelated casefold module_sha256 contract)
  validate_entry-is_clean module_sha256 collection_path index x before after h clean =
      elim (Option-cases (object_in (some x))) [
        | inl e ↦
            let c =
              report_one before.collector "CORRELATION_TYPE_INVALID"
                (collection_path <> "[" <> decimal index <> "]") in
            let same : settled before c before.seen_ids ("invalid-" <> decimal index) "invalid"
                ≡ after =
              ground (arith, e, h) in
            let dirty = add_one-is_clean before.collector (record {
              code = "CORRELATION_TYPE_INVALID";
              path = collection_path <> "[" <> decimal index <> "]";
            }) in
            let stays : is_clean c ≡ true =
              ap (λ (p : Progress). is_clean p.collector) same ∙ clean in
            ground (arith, dirty, stays)
        | inr (contract, e) ↦
            let body : validate_entry_fields casefold decimal module_sha256
                  (collection_path <> "[" <> decimal index <> "]") index contract before
                ≡ some after =
              ground (arith, e, h) in
            let (first, (id, found, fresh, seen, correlated)) =
              validate_fields-is_clean module_sha256
                (collection_path <> "[" <> decimal index <> "]") index contract before after body
                clean in
            let same : some x ≡ some (obj contract) = object_in-eq (some x) contract e in
            (first, (contract, id, some_same same, found, fresh, seen, correlated))
      ]
