-- ===== src/Correlation/Valid.antt =====
-- A report is valid only where every contract of the document is proven.
use kcd2_codex_toolkit.Correlation.Clean.{
  is_clean, unless-is_clean, some-is_clean, some_same, entries-eq,
}
use kcd2_codex_toolkit.Base.{
  ℕ, zero, suc, ◌≤◌, String, Bool, true, false, not, some, List, [], ◌∷◌, leb, leb→le, text_has_eq,
  elem, is_empty, ◌≡◌, inl, inr, ap, ◌∙◌, subst, arith, Option-cases, &&-true,
}
use kcd2_codex_toolkit.Base.Json.{str, arr, obj, Items, nil, cons, Fields, get, count}
use kcd2_codex_toolkit.Correlation.Proof.{in_set}
use kcd2_codex_toolkit.Correlation.Correlated.{IsCorrelated}
use kcd2_codex_toolkit.Correlation.Report.{
  new_collector, CorrelationReport, report, document_module_sha256, versions, collection,
  entries_in, Progress, text_or, validate_entry, validate_entries, check_document,
  validate_native_stage_correlation,
}
use kcd2_codex_toolkit.Correlation.Entry.{validate_entry-is_clean}

module _ (casefold : String → String) (decimal : ℕ → String) where
  -- Each contract is correlated, and its identifier is not one of those before.
  abbrev pub AreCorrelated : String → List String → Items → Type 0
  AreCorrelated module_sha256 seen nil = Unit
  AreCorrelated module_sha256 seen (cons x xs) =
      (contract : Fields) × (id : String) × (x ≡ obj contract)
      × (get "correlation_id" contract ≡ some (str id))
      × (elem id seen ≡ false)
      × (IsCorrelated casefold module_sha256 contract × AreCorrelated module_sha256 (id ∷ seen) xs)

  validate_entries-is_clean :
      (module_sha256 collection_path : String) (index left : ℕ) (xs : Items)
      (before after : Progress)
      → validate_entries casefold decimal module_sha256 collection_path index left xs before
        ≡ some after
      → is_clean after.collector ≡ true
      → is_clean before.collector ≡ true
  validate_entries-is_clean module_sha256 collection_path index zero xs before after h clean =
      ap (λ (p : Progress). is_clean p.collector) (some_same h) ∙ clean
  validate_entries-is_clean module_sha256 collection_path index (suc left) nil before after h
        clean =
      ap (λ (p : Progress). is_clean p.collector) (some_same h) ∙ clean
  validate_entries-is_clean module_sha256 collection_path index (suc left) (cons x xs) before after
        h clean =
      elim (Option-cases
        (validate_entry casefold decimal module_sha256 collection_path index x before)) [
          | inl e ↦ ground (arith, e, h)
          | inr (next, e) ↦
              let rest : validate_entries casefold decimal module_sha256 collection_path (suc index)
                    left xs next
                  ≡ some after =
                ground (arith, e, h) in
              let stays =
                validate_entries-is_clean module_sha256 collection_path (suc index) left xs next
                  after rest clean in
              (validate_entry-is_clean casefold decimal module_sha256 collection_path index x before
                next e stays).0
        ]

  validate_entries-AreCorrelated :
      (module_sha256 collection_path : String) (index left : ℕ) (xs : Items)
      (before after : Progress)
      → validate_entries casefold decimal module_sha256 collection_path index left xs before
        ≡ some after
      → count xs ≤ left
      → is_clean after.collector ≡ true
      → AreCorrelated module_sha256 before.seen_ids xs
  validate_entries-AreCorrelated module_sha256 collection_path index zero nil before after h few
        clean =
      tt
  validate_entries-AreCorrelated module_sha256 collection_path index zero (cons x xs) before after h
        few clean =
      absurd (omega (arith, few))
  validate_entries-AreCorrelated module_sha256 collection_path index (suc left) nil before after h
        few clean =
      tt
  validate_entries-AreCorrelated module_sha256 collection_path index (suc left) (cons x xs) before
        after h few clean =
      elim (Option-cases
        (validate_entry casefold decimal module_sha256 collection_path index x before)) [
          | inl e ↦ ground (arith, e, h)
          | inr (next, e) ↦
              let rest : validate_entries casefold decimal module_sha256 collection_path (suc index)
                    left xs next
                  ≡ some after =
                ground (arith, e, h) in
              let clean_next =
                validate_entries-is_clean module_sha256 collection_path (suc index) left xs next
                  after rest clean in
              let others =
                validate_entries-AreCorrelated module_sha256 collection_path (suc index) left xs
                  next after rest (omega (arith, few)) clean in
              let (_, (contract, id, same, found, fresh, seen, correlated)) =
                validate_entry-is_clean casefold decimal module_sha256 collection_path index x
                  before next e clean_next in
              (
                contract,
                id,
                same,
                found,
                fresh,
                (correlated, subst (λ ids. AreCorrelated module_sha256 ids xs) seen others),
              )
        ]

  check_document-is_clean :
      (n : ℕ) (known : Bool) (document : Fields)
      → is_clean (check_document casefold decimal n known document) ≡ true
      → (known ≡ true)
        × ((s : String) × (document_module_sha256 document ≡ some s))
        × (1 ≤ count (entries_in (collection document).1))
        × (count (entries_in (collection document).1) ≤ 64)
  unfolding check_document
  check_document-is_clean n known document h =
      let entries = entries_in (collection document).1 in
      let (few, h) =
        unless-is_clean (leb (count entries) 64) _ "CORRELATION_COLLECTION_LIMIT"
          (collection document).0 h in
      let (there, h) =
        unless-is_clean (leb 1 (count entries)) _ "CORRELATION_COLLECTION_INVALID"
          (collection document).0 h in
      let (identified, h) =
        some-is_clean (document_module_sha256 document) _ "MODULE_IDENTITY_INVALID"
          "$.module_sha256" h in
      let (version, _) =
        unless-is_clean known (new_collector n) "SCHEMA_VERSION_INVALID" "$.schema_version" h in
      (version, identified, leb→le 1 (count entries) there, leb→le (count entries) 64 few)

  -- A valid report needs a document that names its module by a digest and holds from 1 to 64
  -- contracts with different identifiers, each of which names two stages and a strategy that is
  -- proven for that module, by a debugger receipt where the stages differ.
  pub report_valid-AreCorrelated :
      (max_diagnostics : ℕ) (document : Fields) (r : CorrelationReport)
      → validate_native_stage_correlation casefold decimal max_diagnostics document ≡ some r
      → r.valid ≡ true
      → (module_sha256 : String) × (xs : Items) × (document_module_sha256 document
          ≡ some module_sha256)
        × ((collection document).1 ≡ some (arr xs))
        × (1 ≤ count xs)
        × (count xs ≤ 64)
        × AreCorrelated module_sha256 [] xs
  unfolding validate_native_stage_correlation report
  report_valid-AreCorrelated max_diagnostics document r h valid =
      elim (Option-cases (in_set versions (get "schema_version" document))) [
        | inl e ↦ ground (arith, e, h)
        | inr (known, e) ↦
            let start : Progress = record {
              collector = check_document casefold decimal max_diagnostics known document;
              seen_ids = [];
              results = [];
            } in
            let entries = entries_in (collection document).1 in
            elim (Option-cases (
              validate_entries casefold decimal (text_or "" (document_module_sha256 document))
                (collection document).0 0 64 entries start)) [
                  | inl e' ↦ ground (arith, e, e', h)
                  | inr (p, e') ↦
                      let same : report p.collector p.results ≡ r = ground (arith, e, e', h) in
                      let (clean, _) =
                        &&-true (is_clean p.collector) (not (is_empty p.results))
                          (ap (λ (x : CorrelationReport). x.valid) same ∙ valid) in
                      let m = text_or "" (document_module_sha256 document) in
                      let at_start =
                        validate_entries-is_clean m (collection document).0 0 64 entries start p e'
                          clean in
                      let (_, (digest, identified), there, few) =
                        check_document-is_clean max_diagnostics known document at_start in
                      let (xs, array) = entries-eq (collection document).1 there in
                      let all =
                        validate_entries-AreCorrelated m (collection document).0 0 64 entries start
                          p e' few clean in
                      let is_xs : entries ≡ xs = ap entries_in array in
                      (
                        digest,
                        xs,
                        identified,
                        array,
                        subst (λ ys. 1 ≤ count ys) is_xs there,
                        subst (λ ys. count ys ≤ 64) is_xs few,
                        subst (λ d. AreCorrelated d [] xs) (ap (text_or "") identified)
                            (subst (AreCorrelated m []) is_xs all),
                      )
                ]
      ]
