-- ===== src/Attempts/Record.antt =====
-- `record_attempt_phase`: one more receipt behind those that are there.
pub mod Places
pub mod Walked
pub mod Chain
pub mod Written
pub mod Recorded
pub mod Advance
use kcd2_codex_toolkit.Base.{
  ℕ, ◌+◌, suc, String, ◌<>◌, Bool, true, false, not, ◌&&◌, ◌||◌, Option, none, some, List, [], ◌∷◌,
  ◌++◌, leb, ltb, if◌then◌else◌, ◌==◌, text_has_eq, any_of, Result, ok, err, ◌>>=◌, ◌>>◌, require,
  refuse,
}
use kcd2_codex_toolkit.Attempts.Phase.{
  AttemptPhase, ordinal, phase_name, file_name, is_failed, is_terminal, is_created, failed, Error,
  bad_failed_reason, not_monotone, reserved_reason, receipt_exists, advanced_outside,
  terminal_attempt,
}
use kcd2_codex_toolkit.Attempts.Receipt.{
  Document, ReceiptFile, Artifact, schema_version, is_bounded_reason, is_given,
}
use kcd2_codex_toolkit.Attempts.Load.{AttemptDirectory, TransactionAttempt, Limits, load_attempt}
use kcd2_codex_toolkit.Attempts.Artifacts.{artifact_ledger, verify_recorded_artifacts}

-- The tests of the phase that is asked for.
abbrev pub check_phase : AttemptPhase → AttemptPhase → Option String → Result Error Unit
check_phase current phase reason =
    if is_failed phase
    then require (is_bounded_reason reason) bad_failed_reason
    else if leb (ordinal phase) (ordinal current) || is_created phase
    then err not_monotone
    else refuse (is_given reason) reserved_reason

module _ {Payload : Type 0} (encode : Document → Payload) (decode : Payload → Option Document)
    (sha256 : Payload → String) (size : Payload → ℕ) where
  -- The document of `_write_phase_receipt`
  abbrev pub document_of :
      String → String → AttemptPhase → Option String → List Artifact → Option String → Document
  document_of attempt_id input_sha256 phase previous artifacts reason = record {
    schema_version = schema_version;
    attempt_id = attempt_id;
    input_sha256 = input_sha256;
    phase = phase_name phase;
    previous_receipt_sha256 = previous;
    artifacts = artifacts;
    reason = reason;
  }

  abbrev pub receipt_file : AttemptPhase → Document → ReceiptFile Payload
  receipt_file phase document = record {
    name = file_name phase;
    payload = encode document;
    is_plain = true;
  }

  -- `_write_phase_receipt`: the directory with the receipt, and the hash of its payload
  unfoldable pub write_phase_receipt :
      AttemptDirectory Payload
      → AttemptPhase
      → Document
      → Result Error (AttemptDirectory Payload × String)
  write_phase_receipt dir phase document = do
    refuse (any_of (λ (f : ReceiptFile Payload). f.name == file_name phase) dir.receipts)
        receipt_exists
    ok (
      record dir { receipts = dir.receipts ++ receipt_file phase document ∷ [] },
      sha256 (encode document),
    )

  -- The attempt as its owner sees it behind the receipt.
  abbrev pub advanced : TransactionAttempt → AttemptPhase → String → TransactionAttempt
  advanced current phase hash = record current {
    phase = phase;
    last_receipt = file_name phase;
    last_receipt_sha256 = hash;
    resumed = false;
  }

  unfoldable pub record_attempt_phase :
      Limits
      → AttemptDirectory Payload
      → TransactionAttempt
      → AttemptPhase
      → List String
      → Option String
      → Result Error (AttemptDirectory Payload × TransactionAttempt)
  record_attempt_phase limits dir attempt phase artifacts reason = do
    current ← load_attempt decode sha256 size limits dir
    verify_recorded_artifacts decode sha256 size limits dir
    require (current.last_receipt_sha256 == attempt.last_receipt_sha256) advanced_outside
    refuse (is_terminal current.phase) terminal_attempt
    check_phase current.phase phase reason
    ledger ← artifact_ledger dir limits artifacts
    written ← write_phase_receipt dir phase (
        document_of current.attempt_id current.input_sha256 phase (some current.last_receipt_sha256)
          ledger reason)
    ok (written.0, advanced current phase written.1)

  unfoldable pub fail_transaction_attempt :
      Limits
      → AttemptDirectory Payload
      → TransactionAttempt
      → String
      → Result Error (AttemptDirectory Payload × TransactionAttempt)
  fail_transaction_attempt limits dir attempt reason =
      record_attempt_phase limits dir attempt failed [] (some reason)
