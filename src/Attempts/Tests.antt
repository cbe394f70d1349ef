-- ===== src/Attempts/Tests.antt =====
-- An attempt whose receipts are their documents, unencoded, at which the theorems apply.
use kcd2_codex_toolkit.Base.{
  List, ◌<◌, ◌≤◌, ◌++◌, ℕ, leb→le, String, true, false, Option, none, some, [], ◌∷◌, map, elem,
  lower, is_sha256, all_chars, is_hex, insert_by, sort_by, sort_texts, ok, All, text_has_eq, ◌≡◌,
  refl, sym, subst, arith,
}
use kcd2_codex_toolkit.Deployment.Tests.{zeros}
use kcd2_codex_toolkit.Attempts.Phase.{
  AttemptPhase, file_name, is_terminal, created, source_prepared,
}
use kcd2_codex_toolkit.Attempts.Receipt.{
  Document, ReceiptFile, schema_version, same_optional, check_order, check_reason, check_input,
  check_document, checked_digest, read_receipt, check_receipt,
}
use kcd2_codex_toolkit.Attempts.Load.{
  AttemptDirectory, DiskFile, TransactionAttempt, Limits, by_name, load_attempt,
}
use kcd2_codex_toolkit.Attempts.Artifacts.{
  verify_artifact, verify_items, verify_recorded_artifacts, artifact_ledger,
}
use kcd2_codex_toolkit.Attempts.Artifacts.Verified.{IsHashed, artifact_ledger-verify_items}
use kcd2_codex_toolkit.Attempts.Record.{write_phase_receipt, record_attempt_phase}
use kcd2_codex_toolkit.Attempts.Record.Advance.{record_attempt_phase-load}
use kcd2_codex_toolkit.Attempts.Record.Chain.{load_attempt-fixed_by_hash}
use kcd2_codex_toolkit.Attempts.Record.Places.{position}
use kcd2_codex_toolkit.Attempts.Record.Walked.{load_attempt-bounds}
use kcd2_codex_toolkit.Attempts.Record.Recorded.{record_attempt_phase_advances}
use kcd2_codex_toolkit.Attempts.Open.{
  attempt_number, attempt_directories, latest, validate_limits, continue_attempt, open_from,
  open_transaction_attempt,
}
use kcd2_codex_toolkit.Attempts.Open.Opened.{IsOpened, open_transaction_attempt-IsOpened}

abbrev plain : Document → Document
plain d = d

abbrev read_plain : Document → Option Document
read_plain d = some d

abbrev by_phase : Document → String
by_phase d = d.phase

abbrev no_bytes : Document → ℕ
no_bytes d = 1

abbrev some_limits : Limits
some_limits = record { max_files = 10; max_bytes = 100 }

abbrev first_document : Document
first_document = record {
  schema_version = schema_version;
  attempt_id = "attempt-001";
  input_sha256 = zeros;
  phase = "CREATED";
  previous_receipt_sha256 = none;
  artifacts = [];
  reason = none;
}

abbrev a_file : DiskFile
a_file = record { resolved = "out"; is_inside = true; is_plain = true; bytes = 7; sha256 = zeros }

abbrev a_directory : AttemptDirectory Document
a_directory = record {
  name = "attempt-001";
  is_plain = true;
  receipts = record { name = "000-created.json"; payload = first_document; is_plain = true } ∷ [];
  others = record { bytes = 7; is_file = true; is_reparse = false } ∷ [];
  disk = λ path. some a_file;
}

abbrev an_attempt : TransactionAttempt
an_attempt = record {
  attempt_id = "attempt-001";
  input_sha256 = zeros;
  phase = created;
  last_receipt = "000-created.json";
  last_receipt_sha256 = "CREATED";
  resumed = false;
}

abbrev second_document : Document
second_document = record {
  schema_version = schema_version;
  attempt_id = "attempt-001";
  input_sha256 = zeros;
  phase = "SOURCE_PREPARED";
  previous_receipt_sha256 = some "CREATED";
  artifacts = record { path = "out"; sha256 = zeros; bytes = 7 } ∷ [];
  reason = none;
}

abbrev next_directory : AttemptDirectory Document
next_directory = record a_directory {
  receipts =
      record { name = "000-created.json"; payload = first_document; is_plain = true }
      ∷ record { name = "010-source_prepared.json"; payload = second_document; is_plain = true }
      ∷ [];
}

abbrev next_attempt : TransactionAttempt
next_attempt = record an_attempt {
  phase = source_prepared;
  last_receipt = "010-source_prepared.json";
  last_receipt_sha256 = "SOURCE_PREPARED";
}

an_attempt_loads : load_attempt read_plain by_phase no_bytes some_limits a_directory ≡ ok an_attempt
unfolding load_attempt check_receipt read_receipt check_document checked_digest check_input
    same_optional check_order check_reason insert_by sort_by is_sha256 all_chars is_hex elem lower
an_attempt_loads = refl

next_is_recorded :
    record_attempt_phase plain read_plain by_phase no_bytes some_limits a_directory an_attempt
      source_prepared
      ("out" ∷ [])
      none
    ≡ ok (next_directory, next_attempt)
unfolding record_attempt_phase write_phase_receipt artifact_ledger verify_recorded_artifacts
    verify_artifact load_attempt check_receipt read_receipt check_document checked_digest
    check_input same_optional check_order check_reason insert_by sort_by sort_texts is_sha256
    all_chars is_hex elem lower
next_is_recorded = refl

record_attempt_phase-load_example :
    load_attempt read_plain by_phase no_bytes some_limits next_directory ≡ ok next_attempt
record_attempt_phase-load_example =
    record_attempt_phase-load plain read_plain by_phase no_bytes some_limits a_directory
      next_directory an_attempt next_attempt source_prepared ("out" ∷ []) none (λ d. refl)
      next_is_recorded (leb→le 1 65_536 refl, (leb→le 1 65_536 refl, tt)) refl

next_attempt_loads :
    load_attempt read_plain by_phase no_bytes some_limits next_directory ≡ ok next_attempt
unfolding load_attempt check_receipt read_receipt check_document checked_digest check_input
    same_optional check_order check_reason insert_by sort_by is_sha256 all_chars is_hex elem lower
next_attempt_loads = refl

abbrev cleaned : AttemptDirectory Document
cleaned = record next_directory { others = [] }

cleaned_loads : load_attempt read_plain by_phase no_bytes some_limits cleaned ≡ ok next_attempt
unfolding load_attempt check_receipt read_receipt check_document checked_digest check_input
    same_optional check_order check_reason insert_by sort_by is_sha256 all_chars is_hex elem lower
cleaned_loads = refl

phases_differ : first_document.phase ≡ second_document.phase → first_document ≡ second_document
phases_differ h =
    let clash : false ≡ true =
      (text_has_eq.eq_iff first_document.phase second_document.phase).1 h in
    cc

next_IsClashFree :
    All
      (λ (f : ReceiptFile Document).
        All
          (λ (g : ReceiptFile Document).
            by_phase f.payload ≡ by_phase g.payload → f.payload ≡ g.payload)
          (by_name cleaned.receipts))
      (by_name next_directory.receipts)
unfolding insert_by sort_by
next_IsClashFree =
    ((λ h. refl, (phases_differ, tt)), ((λ h. sym (phases_differ (sym h)), (λ h. refl, tt)), tt))

load_attempt-fixed_by_hash_example :
    map (λ (f : ReceiptFile Document). f.payload) (by_name next_directory.receipts)
    ≡ map (λ (f : ReceiptFile Document). f.payload) (by_name cleaned.receipts)
load_attempt-fixed_by_hash_example =
    load_attempt-fixed_by_hash read_plain by_phase no_bytes some_limits next_directory cleaned
      next_attempt next_attempt next_IsClashFree next_attempt_loads cleaned_loads refl

the_disk_IsHashed : IsHashed a_directory.disk
unfolding IsHashed is_sha256 all_chars is_hex lower
the_disk_IsHashed path file h =
    let same : a_file ≡ file = ground (arith, h) in
    subst (λ (f : DiskFile). (is_sha256 f.sha256 ≡ true) × (lower f.sha256 ≡ f.sha256)) same
      (refl, refl)

a_ledger :
    artifact_ledger a_directory some_limits ("out" ∷ [])
    ≡ ok (record { path = "out"; sha256 = zeros; bytes = 7 } ∷ [])
unfolding artifact_ledger insert_by sort_by sort_texts elem
a_ledger = refl

artifact_ledger-verify_items_example :
    (bytes : ℕ) × (verify_items a_directory some_limits
        (0, 0)
        (record { path = "out"; sha256 = zeros; bytes = 7 } ∷ [])
      ≡ ok (1, bytes))
artifact_ledger-verify_items_example =
    artifact_ledger-verify_items a_directory some_limits ("out" ∷ [])
      (record { path = "out"; sha256 = zeros; bytes = 7 } ∷ []) the_disk_IsHashed a_ledger

record_attempt_phase_advances_example :
    (current : TransactionAttempt) × (file : ReceiptFile Document) × (load_attempt read_plain
        by_phase no_bytes some_limits a_directory
      ≡ ok current)
    × (current.last_receipt_sha256 ≡ "CREATED")
    × (is_terminal current.phase ≡ false)
    × (position current.phase < 2)
    × (source_prepared ≡ source_prepared)
    × ("attempt-001" ≡ current.attempt_id)
    × (zeros ≡ current.input_sha256)
    × (file.name ≡ "010-source_prepared.json")
    × (next_directory.receipts ≡ a_directory.receipts ++ file ∷ [])
record_attempt_phase_advances_example =
    record_attempt_phase_advances plain read_plain by_phase no_bytes some_limits a_directory
      next_directory an_attempt next_attempt source_prepared ("out" ∷ []) none next_is_recorded

load_attempt-bounds_example :
    (1 ≤ 2)
    × (2 ≤ 2)
    × All
        (λ (f : ReceiptFile Document).
          (p : AttemptPhase) × (f.name ≡ file_name p) × (position p ≤ 2))
        next_directory.receipts
load_attempt-bounds_example =
    load_attempt-bounds read_plain by_phase no_bytes some_limits next_directory next_attempt
      next_attempt_loads

no_disk : String → Option DiskFile
no_disk path = none

abbrev resumed_attempt : TransactionAttempt
resumed_attempt = record an_attempt { resumed = true }

the_root_opens :
    open_transaction_attempt plain read_plain by_phase no_bytes some_limits 3 no_disk
      (a_directory ∷ [])
      zeros
    ≡ ok (a_directory ∷ [], resumed_attempt)
unfolding open_transaction_attempt continue_attempt open_from validate_limits attempt_directories
    attempt_number verify_recorded_artifacts verify_artifact load_attempt check_receipt read_receipt
    check_document checked_digest check_input same_optional check_order check_reason insert_by
    sort_by is_sha256 all_chars is_hex elem lower
the_root_opens = refl

the_opening_resumes :
    (entries : List (ℕ × AttemptDirectory Document)) × (attempt_directories 3 (a_directory ∷ [])
      ≡ ok entries)
    × IsOpened plain read_plain by_phase no_bytes some_limits 3
        (a_directory ∷ [])
        (lower zeros)
        (latest entries)
        (a_directory ∷ [])
        resumed_attempt
the_opening_resumes =
    open_transaction_attempt-IsOpened plain read_plain by_phase no_bytes some_limits 3 no_disk
      (a_directory ∷ []) (a_directory ∷ []) zeros resumed_attempt the_root_opens
