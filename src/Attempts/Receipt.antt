-- ===== src/Attempts/Receipt.antt =====
-- A phase receipt on disk and the walk over the receipts of an attempt. The JSON codec, the hash and
-- the size of a payload in bytes are parameters.
use kcd2_codex_toolkit.Base.{
  ℕ, String, Bool, true, false, ◌&&◌, ◌||◌, Option, none, some, List, [], ◌∷◌, leb, ltb,
  if◌then◌else◌, ◌==◌, text_has_eq, is_sha256, lower, len_in, Result, ok, err, ◌>>=◌, ◌>>◌, require,
  refuse,
}
use kcd2_codex_toolkit.Attempts.Phase.{
  AttemptPhase, ordinal, phase_name, phases, is_failed, is_terminal, is_created, named_among, Error,
  bad_digest, bad_receipt, bad_json, bad_schema, bad_filename, body_differs, attempt_differs,
  input_changed, broken_chain, not_created_first, after_terminal, bad_order, bad_failed_reason,
  unexpected_reason,
}

pub record Artifact : Type 0 where
  pub path : String
  pub sha256 : String
  pub bytes : ℕ

-- The members of a receipt's JSON object; the reader refuses an object with others.
pub record Document : Type 0 where
  pub schema_version : String
  pub attempt_id : String
  pub input_sha256 : String
  pub phase : String
  pub previous_receipt_sha256 : Option String
  pub artifacts : List Artifact
  pub reason : Option String

pub record ReceiptFile (Payload : Type 0) : Type 0 where
  pub name : String
  pub payload : Payload
  pub is_plain : Bool

abbrev pub schema_version : String
schema_version = "kcd2.transaction-attempt-phase.v1"

-- `_digest`
unfoldable pub checked_digest : String → String → Result Error String
checked_digest value field = do require (is_sha256 value) (bad_digest field); ok (lower value)

-- `isinstance(reason, str) and 1 <= len(reason) <= 2048`
abbrev pub is_bounded_reason : Option String → Bool
is_bounded_reason none = false
is_bounded_reason (some reason) = len_in 1 2048 reason

abbrev pub is_given : {A : Type 0} → Option A → Bool
is_given none = false
is_given (some a) = true

-- The variables of the loop of `_load_attempt`.
pub record Walk : Type 0 where
  pub previous : Option String
  pub input_sha256 : Option String
  pub phase : Option AttemptPhase

abbrev pub at_start : Walk
at_start = record { previous = none; input_sha256 = none; phase = none }

unfoldable pub same_optional : Option String → Option String → Bool
same_optional none none = true
same_optional (some s) (some t) = s == t
same_optional _ _ = false

-- The tests of a receipt's phase against the phase before it.
unfoldable pub check_order : Option AttemptPhase → AttemptPhase → Result Error Unit
check_order none next = require (is_created next) not_created_first
check_order (some last) next = do
  refuse (is_terminal last) after_terminal
  require (is_failed next || ltb (ordinal last) (ordinal next)) bad_order

unfoldable pub check_reason : AttemptPhase → Option String → Result Error Unit
check_reason phase reason =
    if is_failed phase
    then require (is_bounded_reason reason) bad_failed_reason
    else refuse (is_given reason) unexpected_reason

unfoldable pub check_input : Option String → String → Result Error Unit
check_input none current = ok tt
check_input (some input) current = require (input == current) input_changed

-- The tests of the loop of `_load_attempt` on a receipt's document and phase, for the directory's name.
unfoldable pub check_document : String → Walk → AttemptPhase → Document → String → Result Error Walk
check_document attempt_id walk phase document hash = do
  require (document.phase == phase_name phase) body_differs
  require (document.attempt_id == attempt_id) attempt_differs
  current ← checked_digest document.input_sha256 "phase input_sha256"
  check_input walk.input_sha256 current
  require (same_optional document.previous_receipt_sha256 walk.previous) broken_chain
  check_order walk.phase phase
  check_reason phase document.reason
  ok (record { previous = some hash; input_sha256 = some current; phase = some phase })

module _ {Payload : Type 0} (decode : Payload → Option Document) (sha256 : Payload → String)
    (size : Payload → ℕ) where
  -- `_read_receipt`
  unfoldable pub read_receipt : ReceiptFile Payload → Result Error (Document × String)
  read_receipt file = do
    require (file.is_plain && leb (size file.payload) 65_536) bad_receipt
    elim (decode file.payload) [
      | none ↦ err bad_json
      | some document ↦
          if document.schema_version == schema_version
          then ok (document, sha256 file.payload)
          else err bad_schema
    ]

  -- The body of the loop of `_load_attempt`.
  unfoldable pub check_receipt : String → Walk → ReceiptFile Payload → Result Error Walk
  check_receipt attempt_id walk file = do
    read ← read_receipt file
    elim (named_among file.name phases) [
      | none ↦ err bad_filename
      | some phase ↦ check_document attempt_id walk phase read.0 read.1
    ]

  abbrev pub walk_receipts : String → Walk → List (ReceiptFile Payload) → Result Error Walk
  walk_receipts attempt_id walk [] = ok walk
  walk_receipts attempt_id walk (file ∷ rest) =
      check_receipt attempt_id walk file >>= λ next. walk_receipts attempt_id next rest
