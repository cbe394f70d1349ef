-- ===== src/Attempts/Open/Opened.antt =====
-- What an opening that succeeds has done.
use kcd2_codex_toolkit.Base.{
  ℕ, suc, ◌≤◌, String, true, false, Option, none, some, List, [], ◌∷◌, ◌++◌, leb, leb→le,
  text_has_eq, lower, ok, ◌>>◌, require, require-eq-ok, >>=-eq-ok, ◌≡◌, ◌⊎◌, inl, inr, refl, sym,
  ap, subst, arith, Bool-cases,
}
use kcd2_codex_toolkit.Attempts.Phase.{created, is_failed, attempts_exhausted}
use kcd2_codex_toolkit.Attempts.Receipt.{Document, checked_digest}
use kcd2_codex_toolkit.Attempts.Load.{
  AttemptDirectory, DiskFile, TransactionAttempt, Limits, load_attempt,
}
use kcd2_codex_toolkit.Attempts.Artifacts.{Seen, verify_recorded_artifacts}
use kcd2_codex_toolkit.Attempts.Record.{document_of, write_phase_receipt}
use kcd2_codex_toolkit.Attempts.Record.Recorded.{write_phase_receipt-eq-ok, ok-injective}
use kcd2_codex_toolkit.Attempts.Open.{
  attempt_name, attempt_directories, latest, validate_limits, empty_attempt, start_attempt,
  continue_attempt, open_from, open_transaction_attempt,
}

checked_digest-eq-ok :
    (value field s : String) → checked_digest value field ≡ ok s → s ≡ lower value
unfolding checked_digest
checked_digest-eq-ok value field s h = ground (arith, h)

module _ {Payload : Type 0} (encode : Document → Payload) (decode : Payload → Option Document)
    (sha256 : Payload → String) (size : Payload → ℕ) where
  start_attempt-eq-ok :
      (disk : String → Option DiskFile) (max_attempts : ℕ)
      (root root' : List (AttemptDirectory Payload)) (digest : String) (n : ℕ)
      (a : TransactionAttempt)
      → start_attempt encode decode sha256 size disk max_attempts root digest n ≡ ok (root', a)
      → (dir : AttemptDirectory Payload) × (root' ≡ root ++ dir ∷ [])
        × (dir.name ≡ attempt_name n)
        × (a.attempt_id ≡ attempt_name n)
        × (n ≤ max_attempts)
        × (a.phase ≡ created)
        × (a.input_sha256 ≡ digest)
        × (a.resumed ≡ false)
  unfolding start_attempt
  start_attempt-eq-ok disk max_attempts root root' digest n a h =
      let (_, few, h) = >>=-eq-ok (require (leb n max_attempts) attempts_exhausted) _ h in
      let d = document_of encode decode sha256 size (attempt_name n) digest created none [] none in
      let ((dir, hash), write, h) =
        >>=-eq-ok
          (write_phase_receipt encode decode sha256 size
            (empty_attempt encode decode sha256 size disk n) created d)
          _ h in
      let (e, _) =
        write_phase_receipt-eq-ok encode decode sha256 size
          (empty_attempt encode decode sha256 size disk n) dir created d hash write in
      let (roots, attempts) = ok-injective encode decode sha256 size _ refl h in
      (
        dir,
        sym roots,
        ap (λ (x : AttemptDirectory Payload). x.name) e,
        sym (ap (λ (x : TransactionAttempt). x.attempt_id) attempts),
        leb→le n max_attempts (require-eq-ok _ attempts_exhausted few),
        sym (ap (λ (x : TransactionAttempt). x.phase) attempts),
        sym (ap (λ (x : TransactionAttempt). x.input_sha256) attempts),
        sym (ap (λ (x : TransactionAttempt). x.resumed) attempts),
      )

  -- The last attempt has failed, or there is none; `n` is the number behind it.
  unfoldable pub IsFree : Limits → Option (ℕ × AttemptDirectory Payload) → ℕ → Type 0
  IsFree limits last n =
      ((last ≡ none) × (n ≡ 1))
      ⊎ ((k : ℕ) × (dir : AttemptDirectory Payload) × (b : TransactionAttempt) × (last
            ≡ some (k, dir))
          × (load_attempt decode sha256 size limits dir ≡ ok b)
          × (is_failed b.phase ≡ true)
          × (n ≡ suc k))

  -- The last attempt has the input, has not failed, and what it recorded is on the disk.
  unfoldable pub IsLive :
      Limits → Option (ℕ × AttemptDirectory Payload) → String → TransactionAttempt → Type 0
  IsLive limits last digest a =
      (k : ℕ) × (dir : AttemptDirectory Payload) × (b : TransactionAttempt) × (seen : Seen) × (last
        ≡ some (k, dir))
      × (load_attempt decode sha256 size limits dir ≡ ok b)
      × (verify_recorded_artifacts decode sha256 size limits dir ≡ ok seen)
      × (is_failed b.phase ≡ false)
      × (b.input_sha256 ≡ digest)
      × (a ≡ record b { resumed = true })

  unfoldable pub IsOpened :
      Limits
      → ℕ
      → List (AttemptDirectory Payload)
      → String
      → Option (ℕ × AttemptDirectory Payload)
      → List (AttemptDirectory Payload)
      → TransactionAttempt
      → Type 0
  IsOpened limits max_attempts root digest last root' a =
      ((root' ≡ root) × IsLive limits last digest a)
      ⊎ ((n : ℕ) × (dir : AttemptDirectory Payload) × IsFree limits last n
          × (root' ≡ root ++ dir ∷ [])
          × (dir.name ≡ attempt_name n)
          × (a.attempt_id ≡ attempt_name n)
          × (n ≤ max_attempts)
          × (a.phase ≡ created)
          × (a.input_sha256 ≡ digest)
          × (a.resumed ≡ false))

  continue_attempt-cases :
      (limits : Limits) (max_attempts : ℕ) (disk : String → Option DiskFile)
      (root root' : List (AttemptDirectory Payload)) (digest : String) (n : ℕ)
      (dir : AttemptDirectory Payload) (b a : TransactionAttempt)
      → continue_attempt encode decode sha256 size limits max_attempts disk root digest n dir b
        ≡ ok (root', a)
      → ((b.input_sha256 ≡ digest)
          × (is_failed b.phase ≡ false)
          × (◌>>◌ {B = List (AttemptDirectory Payload) × TransactionAttempt}
                (verify_recorded_artifacts decode sha256 size limits dir)
                (ok (root, record b { resumed = true }))
              ≡ ok (root', a)))
        ⊎ ((is_failed b.phase ≡ true)
            × (start_attempt encode decode sha256 size disk max_attempts root digest (suc n)
                ≡ ok (root', a)))
  unfolding continue_attempt
  continue_attempt-cases limits max_attempts disk root root' digest n dir b a h =
      elim (Bool-cases (is_failed b.phase)) [
        | inl e ↦ inr (e, ground (arith, e, h))
        | inr e ↦ inl (
          ground (arith, e, h, text_has_eq.eq_iff b.input_sha256 digest),
          e,
          ground (arith, e, h),
        )
      ]

  open_from-IsOpened :
      (limits : Limits) (max_attempts : ℕ) (disk : String → Option DiskFile)
      (root root' : List (AttemptDirectory Payload)) (digest : String)
      (last : Option (ℕ × AttemptDirectory Payload)) (a : TransactionAttempt)
      → open_from encode decode sha256 size limits max_attempts disk root digest last
        ≡ ok (root', a)
      → IsOpened limits max_attempts root digest last root' a
  unfolding open_from IsOpened IsLive IsFree
  open_from-IsOpened limits max_attempts disk root root' digest none a h =
      let (dir, e0, e1, e2, e3, e4, e5, e6) =
        start_attempt-eq-ok disk max_attempts root root' digest 1 a h in
      inr (1, dir, inl (refl, refl), e0, e1, e2, e3, e4, e5, e6)
  open_from-IsOpened limits max_attempts disk root root' digest (some (n, dir)) a h =
      let (b, loaded, h) =
        >>=-eq-ok (load_attempt decode sha256 size limits dir)
          (continue_attempt encode decode sha256 size limits max_attempts disk root digest n dir)
          h in
      elim (continue_attempt-cases limits max_attempts disk root root' digest n dir b a h) [
        | inl (same, live, verified) ↦
            let (seen, v, done) =
              >>=-eq-ok (verify_recorded_artifacts decode sha256 size limits dir) _ verified in
            let (roots, attempts) = ok-injective encode decode sha256 size _ refl done in
            inl (sym roots, (n, dir, b, seen, refl, loaded, v, live, same, sym attempts))
        | inr (gone, started) ↦
            let (fresh, e0, e1, e2, e3, e4, e5, e6) =
              start_attempt-eq-ok disk max_attempts root root' digest (suc n) a started in
            inr
              (suc n, fresh, inr (n, dir, b, refl, loaded, gone, refl), e0, e1, e2, e3, e4, e5, e6)
      ]

  -- An opening that succeeds leaves the attempts of the root as they are. Either it resumes the last
  -- one, which has the same input, has not failed and passes the verification of its artifacts; or
  -- there is none or the last one has failed, and it adds the attempt of the next number, within the
  -- limit, in its first phase.
  pub open_transaction_attempt-IsOpened :
      (limits : Limits) (max_attempts : ℕ) (disk : String → Option DiskFile)
      (root root' : List (AttemptDirectory Payload)) (input : String) (a : TransactionAttempt)
      → open_transaction_attempt encode decode sha256 size limits max_attempts disk root input
        ≡ ok (root', a)
      → (entries : List (ℕ × AttemptDirectory Payload)) × (attempt_directories max_attempts root
          ≡ ok entries)
        × IsOpened limits max_attempts root (lower input) (latest entries) root' a
  unfolding open_transaction_attempt
  open_transaction_attempt-IsOpened limits max_attempts disk root root' input a h =
      let (digest, checked, h) = >>=-eq-ok (checked_digest input "input_sha256") _ h in
      let (_, _, h) = >>=-eq-ok (validate_limits max_attempts limits) _ h in
      let (entries, listed, h) = >>=-eq-ok (attempt_directories max_attempts root) _ h in
      (
        entries,
        listed,
        subst (λ (d : String). IsOpened limits max_attempts root d (latest entries) root' a)
            (checked_digest-eq-ok input "input_sha256" digest checked)
            (open_from-IsOpened limits max_attempts disk root root' digest (latest entries) a h),
      )
