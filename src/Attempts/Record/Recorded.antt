-- ===== src/Attempts/Record/Recorded.antt =====
-- What a recording that succeeds has done.
use kcd2_codex_toolkit.Base.{
  ℕ, ◌<◌, String, false, Option, some, List, [], ◌∷◌, ◌++◌, ◌==◌, text_has_eq, Result, ok, require,
  refuse, require-eq-ok, refuse-eq-ok, >>=-eq-ok, ◌≡◌, refl, sym, ap, ◌∙◌, arith,
}
use kcd2_codex_toolkit.Attempts.Phase.{
  AttemptPhase, is_terminal, file_name, Error, advanced_outside, terminal_attempt,
}
use kcd2_codex_toolkit.Attempts.Receipt.{Document, Artifact, ReceiptFile}
use kcd2_codex_toolkit.Attempts.Load.{AttemptDirectory, TransactionAttempt, Limits, load_attempt}
use kcd2_codex_toolkit.Attempts.Artifacts.{artifact_ledger, verify_recorded_artifacts}
use kcd2_codex_toolkit.Attempts.Record.{
  check_phase, document_of, receipt_file, write_phase_receipt, advanced, record_attempt_phase,
}
use kcd2_codex_toolkit.Attempts.Record.Places.{position, check_order-place}
use kcd2_codex_toolkit.Attempts.Record.Written.{check_order-next}

module _ {Payload : Type 0} (encode : Document → Payload) (decode : Payload → Option Document)
    (sha256 : Payload → String) (size : Payload → ℕ) where
  pub ok-injective :
      {D X : Type 0} {d d' : D} {x x' : X} (r : Result Error (D × X))
      → r ≡ ok (d, x)
      → r ≡ ok (d', x')
      → (d ≡ d') × (x ≡ x')
  ok-injective r h h' = (ground (arith, h, h'), ground (arith, h, h'))

  pub write_phase_receipt-eq-ok :
      (dir dir' : AttemptDirectory Payload) (phase : AttemptPhase) (d : Document) (hash : String)
      → write_phase_receipt encode decode sha256 size dir phase d ≡ ok (dir', hash)
      → (dir' ≡ record dir {
        receipts = dir.receipts ++ receipt_file encode decode sha256 size phase d ∷ [];
      })
        × (hash ≡ sha256 (encode d))
  unfolding write_phase_receipt
  write_phase_receipt-eq-ok dir dir' phase d hash h = ground (arith, h)

  -- What a recording that succeeds has done.
  pub record_attempt_phase-eq-ok :
      (limits : Limits) (dir dir' : AttemptDirectory Payload) (a a' : TransactionAttempt)
      (phase : AttemptPhase) (artifacts : List String) (reason : Option String)
      → record_attempt_phase encode decode sha256 size limits dir a phase artifacts reason
        ≡ ok (dir', a')
      → (current : TransactionAttempt) × (ledger : List Artifact) × (load_attempt decode sha256 size
            limits dir
          ≡ ok current)
        × (current.last_receipt_sha256 ≡ a.last_receipt_sha256)
        × (is_terminal current.phase ≡ false)
        × (check_phase current.phase phase reason ≡ ok tt)
        × (let d =
              document_of encode decode sha256 size current.attempt_id current.input_sha256 phase
                (some current.last_receipt_sha256)
                ledger
                reason in
            (dir' ≡ record dir {
              receipts = dir.receipts ++ receipt_file encode decode sha256 size phase d ∷ [];
            })
            × (a' ≡ advanced encode decode sha256 size current phase (sha256 (encode d))))
  unfolding record_attempt_phase
  record_attempt_phase-eq-ok limits dir dir' a a' phase artifacts reason h =
      let (current, loaded, h) = >>=-eq-ok (load_attempt decode sha256 size limits dir) _ h in
      let (_, _, h) = >>=-eq-ok (verify_recorded_artifacts decode sha256 size limits dir) _ h in
      let (_, same, h) =
        >>=-eq-ok (require (current.last_receipt_sha256 == a.last_receipt_sha256) advanced_outside)
          _ h in
      let (_, unfinished, h) =
        >>=-eq-ok (refuse (is_terminal current.phase) terminal_attempt) _ h in
      let (_, allowed, h) = >>=-eq-ok (check_phase current.phase phase reason) _ h in
      let (ledger, _, h) = >>=-eq-ok (artifact_ledger dir limits artifacts) _ h in
      let d =
        document_of encode decode sha256 size current.attempt_id current.input_sha256 phase
          (some current.last_receipt_sha256) ledger reason in
      let ((next_dir, hash), write, h) =
        >>=-eq-ok (write_phase_receipt encode decode sha256 size dir phase d) _ h in
      let same_pair =
        ok-injective (ok (next_dir, advanced encode decode sha256 size current phase hash)) refl
          h in
      let (e, e') = write_phase_receipt-eq-ok dir next_dir phase d hash write in
      (
        current,
        ledger,
        loaded,
        (text_has_eq.eq_iff current.last_receipt_sha256 a.last_receipt_sha256).0
            (require-eq-ok _ advanced_outside same),
        refuse-eq-ok (is_terminal current.phase) terminal_attempt unfinished,
        allowed,
        (
          sym same_pair.0 ∙ e,
          sym same_pair.1 ∙ ap (advanced encode decode sha256 size current phase) e',
        ),
      )

  -- A recording that succeeds starts from the attempt that the directory holds, which is the caller's
  -- and has not ended. It moves to a later phase, keeps the identifier and the input, and adds one
  -- receipt, named for the phase, behind those that are there.
  pub record_attempt_phase_advances :
      (limits : Limits) (dir dir' : AttemptDirectory Payload) (a a' : TransactionAttempt)
      (phase : AttemptPhase) (artifacts : List String) (reason : Option String)
      → record_attempt_phase encode decode sha256 size limits dir a phase artifacts reason
        ≡ ok (dir', a')
      → (current : TransactionAttempt) × (file : ReceiptFile Payload) × (load_attempt decode sha256
            size limits dir
          ≡ ok current)
        × (current.last_receipt_sha256 ≡ a.last_receipt_sha256)
        × (is_terminal current.phase ≡ false)
        × (position current.phase < position phase)
        × (a'.phase ≡ phase)
        × (a'.attempt_id ≡ current.attempt_id)
        × (a'.input_sha256 ≡ current.input_sha256)
        × (file.name ≡ file_name phase)
        × (dir'.receipts ≡ dir.receipts ++ file ∷ [])
  record_attempt_phase_advances limits dir dir' a a' phase artifacts reason h =
      let (current, ledger, loaded, same, unfinished, allowed, (e, e')) =
        record_attempt_phase-eq-ok limits dir dir' a a' phase artifacts reason h in
      let d =
        document_of encode decode sha256 size current.attempt_id current.input_sha256 phase
          (some current.last_receipt_sha256) ledger reason in
      let more =
        check_order-place (some current.phase) phase
          (check_order-next current.phase phase reason unfinished allowed).0 in
      (
        current,
        receipt_file encode decode sha256 size phase d,
        loaded,
        same,
        unfinished,
        omega (arith, more),
        ap (λ (x : TransactionAttempt). x.phase) e',
        ap (λ (x : TransactionAttempt). x.attempt_id) e',
        ap (λ (x : TransactionAttempt). x.input_sha256) e',
        refl,
        ap (λ (x : AttemptDirectory Payload). x.receipts) e,
      )
