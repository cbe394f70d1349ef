-- ===== src/Correlation/Tests.antt =====
-- A document with one contract, of two stages in one owner.
use kcd2_codex_toolkit.Base.{
  ℕ, ◌≤◌, String, true, false, some, [], ◌∷◌, text_has_eq, nat_has_eq, elem, all_chars, is_hex,
  is_sha256, lower, strip_prefix, ◌≡◌, refl,
}
use kcd2_codex_toolkit.Base.Json.{
  bool, str, arr, obj, Items, nil, cons, Fields, end, field, get, count,
}
use kcd2_codex_toolkit.Deployment.Tests.{zeros}
use kcd2_codex_toolkit.Correlation.Proof.{
  ◌⊕◌, in_set, bounded_string, is_rva, same_hash, is_citation, valid_evidence, validate_location,
  validate_owner,
}
use kcd2_codex_toolkit.Correlation.Contract.{
  strategy_of, chosen_strategy, stage_of, validate_stage, are_observations, is_owner_proven,
  validate_strategy, validate_by, validate_correlation,
}
use kcd2_codex_toolkit.Correlation.Report.{
  CorrelationReport, add_one, report, document_module_sha256, collection, validate_entry_fields,
  check_document, validate_native_stage_correlation,
}
use kcd2_codex_toolkit.Correlation.Valid.{AreCorrelated, report_valid-AreCorrelated}

abbrev pub same_text : String → String
same_text s = s

abbrev pub zero_always : ℕ → String
zero_always n = "0"

abbrev a_stage : String → Fields
a_stage hook = field "stage_id" (str "enter") (field "hook_id" (str hook) end)

abbrev a_citation : Fields
a_citation = field "evidence_class" (str "static") (
    field "module_sha256" (str zeros) (
      field "artifact" (str "WHGame.dll")
        (field "locator" (str "0x10") (field "claim" (str "owns the query") end))))

abbrev an_owner : Fields
an_owner = field "module_sha256" (str zeros) (
    field "function_rva" (str "0x1A2b") (
      field "owns_query" (bool true) (
        field "owns_output" (bool true)
          (field "static_evidence" (arr (cons (obj a_citation) nil)) end))))

abbrev a_contract : Fields
a_contract = field "correlation_id" (str "c1") (
    field "source_stage" (obj (a_stage "query")) (
      field "target_stage" (obj (a_stage "query")) (
        field "strategy" (str "same_owner_function") (
          field "observations"
            (obj (
              field "same_thread" (bool true)
                (field "same_pointer" (bool false) (field "tls_storage" (bool false) end))))
            (field "owner_function" (obj an_owner) end)))))

abbrev pub a_document : Fields
a_document =
    field "schema_version" (str "kcd2.native-stage-correlation.v1") (
      field "module_sha256" (str zeros)
        (field "correlations" (arr (cons (obj a_contract) nil)) end))

abbrev pub a_report : CorrelationReport
a_report = record {
  valid = true;
  correlations =
      record {
        correlation_id = "c1";
        strategy = "same_owner_function";
        valid = true;
        diagnostics = [];
      }
      ∷ [];
  diagnostics = [];
  diagnostics_truncated = false;
}

pub the_document_is_valid :
    validate_native_stage_correlation same_text zero_always 256 a_document ≡ some a_report
unfolding validate_native_stage_correlation report validate_entry_fields check_document
    document_module_sha256 collection add_one validate_correlation validate_by validate_strategy
    is_owner_proven are_observations validate_stage stage_of chosen_strategy strategy_of
    validate_owner validate_location valid_evidence is_citation same_hash is_rva bounded_string
    in_set ◌⊕◌ get elem is_sha256 all_chars is_hex lower strip_prefix
the_document_is_valid = refl

report_valid-AreCorrelated_example :
    (module_sha256 : String) × (xs : Items) × (document_module_sha256 a_document
      ≡ some module_sha256)
    × ((collection a_document).1 ≡ some (arr xs))
    × (1 ≤ count xs)
    × (count xs ≤ 64)
    × AreCorrelated same_text zero_always module_sha256 [] xs
report_valid-AreCorrelated_example =
    report_valid-AreCorrelated same_text zero_always 256 a_document a_report the_document_is_valid
      refl
