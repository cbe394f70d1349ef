-- ===== src/Attempts/Record/Written.antt =====
-- A receipt that is written is one that the walk accepts behind the others.
use kcd2_codex_toolkit.Base.{
  ℕ, ◌≤◌, String, true, false, Option, some, List, ◌==◌, text_has_eq, is_sha256, lower, ok, ◌≡◌,
  refl, ap, ◌∙◌, arith,
}
use kcd2_codex_toolkit.Attempts.Phase.{AttemptPhase, phase_name, phases, named_among, is_terminal}
use kcd2_codex_toolkit.Attempts.Receipt.{
  Document, ReceiptFile, Artifact, Walk, schema_version, same_optional, check_order, check_reason,
  check_input, check_document, checked_digest, read_receipt, check_receipt,
}
use kcd2_codex_toolkit.Attempts.Record.{check_phase, document_of, receipt_file}
use kcd2_codex_toolkit.Attempts.Record.Places.{named_among_self}

pub check_order-next :
    (last next : AttemptPhase) (reason : Option String)
    → is_terminal last ≡ false
    → check_phase last next reason ≡ ok tt
    → (check_order (some last) next ≡ ok tt) × (check_reason next reason ≡ ok tt)
unfolding check_order check_reason
check_order-next last next reason unfinished h =
    (ground (arith, unfinished, h), ground (arith, unfinished, h))

pub check_document-next :
    (id previous input : String) (last next : AttemptPhase) (ledger : List Artifact)
    (reason : Option String) (hash : String)
    → is_sha256 input ≡ true
    → lower input ≡ input
    → is_terminal last ≡ false
    → check_phase last next reason ≡ ok tt
    → check_document id
        (record { previous = some previous; input_sha256 = some input; phase = some last })
        next
        (record {
          schema_version = schema_version;
          attempt_id = id;
          input_sha256 = input;
          phase = phase_name next;
          previous_receipt_sha256 = some previous;
          artifacts = ledger;
          reason = reason;
        })
        hash
      ≡ ok (record { previous = some hash; input_sha256 = some input; phase = some next })
unfolding check_document checked_digest check_input same_optional
check_document-next id previous input last next ledger reason hash hex low unfinished allowed =
    let (order, bounded) = check_order-next last next reason unfinished allowed in
    rw
      (
        (text_has_eq.eq_iff (phase_name next) (phase_name next)).1 refl,
        (text_has_eq.eq_iff id id).1 refl,
        hex,
        low,
        (text_has_eq.eq_iff input input).1 refl,
        (text_has_eq.eq_iff previous previous).1 refl,
        order,
        bounded,
      )
      refl

module _ {Payload : Type 0} (encode : Document → Payload) (decode : Payload → Option Document)
    (sha256 : Payload → String) (size : Payload → ℕ) where
  read_receipt-receipt_file :
      (next : AttemptPhase) (d : Document)
      → decode (encode d) ≡ some d
      → (d.schema_version == schema_version) ≡ true
      → size (encode d) ≤ 65_536
      → read_receipt decode sha256 size (receipt_file encode decode sha256 size next d)
        ≡ ok (d, sha256 (encode d))
  unfolding read_receipt
  read_receipt-receipt_file next d law schema small = ground (arith, law, schema, small)

  pub check_receipt-named :
      (id : String) (v : Walk) (f : ReceiptFile Payload) (p : AttemptPhase) (d : Document)
      (hash : String)
      → read_receipt decode sha256 size f ≡ ok (d, hash)
      → named_among f.name phases ≡ some p
      → check_receipt decode sha256 size id v f ≡ check_document id v p d hash
  unfolding check_receipt
  check_receipt-named id v f p d hash read named = ground (arith, read, named)

  -- The receipt that is written is one that the walk accepts behind the others.
  pub check_receipt-receipt_file :
      (v : Walk) (id previous input : String) (last next : AttemptPhase) (ledger : List Artifact)
      (reason : Option String)
      → ((d : Document) → decode (encode d) ≡ some d)
      → let d = document_of encode decode sha256 size id input next (some previous) ledger reason in
        size (encode d) ≤ 65_536
        → v ≡ record { previous = some previous; input_sha256 = some input; phase = some last }
        → is_sha256 input ≡ true
        → lower input ≡ input
        → is_terminal last ≡ false
        → check_phase last next reason ≡ ok tt
        → check_receipt decode sha256 size id v (receipt_file encode decode sha256 size next d)
          ≡ ok (record {
            previous = some (sha256 (encode d));
            input_sha256 = some input;
            phase = some next;
          })
  check_receipt-receipt_file v id previous input last next ledger reason law small e hex low
        unfinished allowed =
      let d = document_of encode decode sha256 size id input next (some previous) ledger reason in
      check_receipt-named id v (receipt_file encode decode sha256 size next d) next d
        (sha256 (encode d)) (read_receipt-receipt_file next d (law d) refl small)
        (named_among_self next)
      ∙ ap (λ u. check_document id u next d (sha256 (encode d))) e
      ∙ check_document-next id previous input last next ledger reason (sha256 (encode d)) hex low
          unfinished allowed
