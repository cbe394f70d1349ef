-- ===== src/Attempts/Open.antt =====
-- `open_transaction_attempt`: resume the last attempt of a root or start the next one. A root is the
-- list of what its directory holds, in any order.
pub mod Opened
use Prim.Native.Nat.{◌/◌, ◌%◌, ◌-◌}
use Prim.Native.Char.{code}
use Prim.Native.String
use kcd2_codex_toolkit.Base.{
  ℕ, zero, suc, ◌+◌, ◌*◌, String, ◌<>◌, Bool, true, false, not, ◌&&◌, Option, none, some, List, [],
  ◌∷◌, ◌++◌, leb, if◌then◌else◌, ◌==◌, text_has_eq, nat_has_eq, sort_by, Result, ok, err, ◌>>=◌,
  ◌>>◌, require, refuse,
}
use kcd2_codex_toolkit.Attempts.Phase.{
  AttemptPhase, created, is_failed, file_name, Error, bad_limit, undeclared_content, not_plain,
  number_out_of_bound, not_contiguous, different_inputs, attempts_exhausted,
}
use kcd2_codex_toolkit.Attempts.Receipt.{Document, checked_digest}
use kcd2_codex_toolkit.Attempts.Load.{
  AttemptDirectory, DiskFile, TransactionAttempt, Limits, load_attempt,
}
use kcd2_codex_toolkit.Attempts.Artifacts.{verify_recorded_artifacts}
use kcd2_codex_toolkit.Attempts.Record.{document_of, write_phase_receipt}

abbrev nth_text : ℕ → List String → String
nth_text n [] = ""
nth_text zero (t ∷ rest) = t
nth_text (suc n) (t ∷ rest) = nth_text n rest

abbrev digit_text : ℕ → String
digit_text n = nth_text n ("0" ∷ "1" ∷ "2" ∷ "3" ∷ "4" ∷ "5" ∷ "6" ∷ "7" ∷ "8" ∷ "9" ∷ [])

-- `f"attempt-{number:03d}"`, for a number of at most three digits
unfoldable pub attempt_name : ℕ → String
attempt_name n =
    "attempt-" <> digit_text (n / 100) <> digit_text (n / 10 % 10) <> digit_text (n % 10)

abbrev digit_of : ℕ → Option ℕ
digit_of c = if leb 48 c && leb c 57 then some (c - 48) else none

abbrev number_of_digits : Option ℕ → Option ℕ → Option ℕ → Option ℕ
number_of_digits (some a) (some b) (some c) = some (a * 100 + b * 10 + c)
number_of_digits _ _ _ = none

abbrev three_digits : String → Option ℕ
three_digits (String.◌∷◌ a (String.◌∷◌ b (String.◌∷◌ c String.[]))) =
    number_of_digits (digit_of (code a)) (digit_of (code b)) (digit_of (code c))
three_digits _ = none

-- What is behind a prefix, character by character.
abbrev after_prefix : String → String → Option String
after_prefix String.[] s = some s
after_prefix (String.◌∷◌ p prefix) String.[] = none
after_prefix (String.◌∷◌ p prefix) (String.◌∷◌ c s) =
    if code p == code c then after_prefix prefix s else none

-- The number that `_ATTEMPT` reads from a name.
unfoldable pub attempt_number : String → Option ℕ
attempt_number name = elim (after_prefix "attempt-" name) [
  | none ↦ none
  | some digits ↦ three_digits digits
]

-- The loop of `_attempt_directories`
abbrev pub numbered :
    {Payload : Type 0}
    → ℕ
    → List (AttemptDirectory Payload)
    → Result Error (List (ℕ × AttemptDirectory Payload))
numbered max_attempts [] = ok []
numbered max_attempts (child ∷ rest) = elim (attempt_number child.name) [
  | none ↦ err undeclared_content
  | some n ↦
      require child.is_plain not_plain
      >> require (leb 1 n && leb n max_attempts) number_out_of_bound
      >> (numbered max_attempts rest >>= λ more. ok ((n, child) ∷ more))
]

abbrev pub counts_from : {Payload : Type 0} → ℕ → List (ℕ × AttemptDirectory Payload) → Bool
counts_from n [] = true
counts_from n ((k, child) ∷ rest) = k == n && counts_from (suc n) rest

-- `_attempt_directories`
unfoldable pub attempt_directories :
    {Payload : Type 0}
    → ℕ
    → List (AttemptDirectory Payload)
    → Result Error (List (ℕ × AttemptDirectory Payload))
attempt_directories max_attempts root = numbered max_attempts root >>= λ found.
    (let entries = sort_by (λ a b. leb a.0 b.0) found in
      require (counts_from 1 entries) not_contiguous >> ok entries)

-- `attempts[-1]`
abbrev pub latest :
    {Payload : Type 0} → List (ℕ × AttemptDirectory Payload) → Option (ℕ × AttemptDirectory Payload)
latest [] = none
latest (e ∷ rest) = elim (latest rest) [ none ↦ some e | some last ↦ some last ]

-- `_validate_limits`
unfoldable pub validate_limits : ℕ → Limits → Result Error Unit
validate_limits max_attempts limits = do
  require (leb 1 max_attempts && leb max_attempts 999) (bad_limit "max_attempts")
  require (leb 1 limits.max_files && leb limits.max_files 16_384) (bad_limit "max_files")
  require (leb 1 limits.max_bytes && leb limits.max_bytes 2_147_483_648) (bad_limit "max_bytes")

module _ {Payload : Type 0} (encode : Document → Payload) (decode : Payload → Option Document)
    (sha256 : Payload → String) (size : Payload → ℕ) where
  -- The directory of a number as `mkdir` leaves it; `disk` is what paths lead to, as seen from it.
  abbrev pub empty_attempt : (String → Option DiskFile) → ℕ → AttemptDirectory Payload
  empty_attempt disk n = record {
    name = attempt_name n;
    is_plain = true;
    receipts = [];
    others = [];
    disk = disk;
  }

  -- The attempt of a number, behind its first receipt.
  unfoldable pub start_attempt :
      (String → Option DiskFile)
      → ℕ
      → List (AttemptDirectory Payload)
      → String
      → ℕ
      → Result Error (List (AttemptDirectory Payload) × TransactionAttempt)
  start_attempt disk max_attempts root digest n = do
    require (leb n max_attempts) attempts_exhausted
    written ←
        write_phase_receipt encode decode sha256 size (empty_attempt disk n) created
          (document_of encode decode sha256 size (attempt_name n) digest created none [] none)
    ok (
      root ++ written.0 ∷ [],
      record {
        attempt_id = attempt_name n;
        input_sha256 = digest;
        phase = created;
        last_receipt = file_name created;
        last_receipt_sha256 = written.1;
        resumed = false;
      },
    )

  -- What is done behind the load of the last attempt.
  unfoldable pub continue_attempt :
      Limits
      → ℕ
      → (String → Option DiskFile)
      → List (AttemptDirectory Payload)
      → String
      → ℕ
      → AttemptDirectory Payload
      → TransactionAttempt
      → Result Error (List (AttemptDirectory Payload) × TransactionAttempt)
  continue_attempt limits max_attempts disk root digest n dir a =
      if a.input_sha256 == digest && not (is_failed a.phase)
      then verify_recorded_artifacts decode sha256 size limits dir
        >> ok (root, record a { resumed = true })
      else if not (is_failed a.phase) && not (a.input_sha256 == digest)
      then err different_inputs
      else start_attempt disk max_attempts root digest (suc n)

  unfoldable pub open_from :
      Limits
      → ℕ
      → (String → Option DiskFile)
      → List (AttemptDirectory Payload)
      → String
      → Option (ℕ × AttemptDirectory Payload)
      → Result Error (List (AttemptDirectory Payload) × TransactionAttempt)
  open_from limits max_attempts disk root digest none =
      start_attempt disk max_attempts root digest 1
  open_from limits max_attempts disk root digest (some (n, dir)) =
      load_attempt decode sha256 size limits dir
      >>= continue_attempt limits max_attempts disk root digest n dir

  unfoldable pub open_transaction_attempt :
      Limits
      → ℕ
      → (String → Option DiskFile)
      → List (AttemptDirectory Payload)
      → String
      → Result Error (List (AttemptDirectory Payload) × TransactionAttempt)
  open_transaction_attempt limits max_attempts disk root input_sha256 = do
    digest ← checked_digest input_sha256 "input_sha256"
    validate_limits max_attempts limits
    entries ← attempt_directories max_attempts root
    open_from limits max_attempts disk root digest (latest entries)
