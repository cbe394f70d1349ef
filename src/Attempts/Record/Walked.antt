-- ===== src/Attempts/Record/Walked.antt =====
-- What a walk over receipts that succeeds has seen.
use kcd2_codex_toolkit.Base.{
  ℕ, suc, ◌+◌, ◌≤◌, String, true, false, Option, some, List, [], ◌∷◌, ◌++◌, leb, text_has_eq,
  length, length-sort_by, sort_by-All, is_empty, is_sha256, is_sha256-lower, lower, lower-lower,
  All, Result, ok, ◌>>=◌, require, refuse, require-eq-ok, refuse-eq-ok, >>=-eq-ok, ◌≡◌, ◌⊎◌, inl,
  inr, sym, ap, ◌∙◌, subst, arith, Option-cases,
}
use kcd2_codex_toolkit.Attempts.Phase.{
  AttemptPhase, file_name, phases, named_among, Error, bad_root, no_receipts, too_many_receipts,
}
use kcd2_codex_toolkit.Attempts.Receipt.{
  Document, ReceiptFile, Walk, at_start, check_order, check_document, checked_digest, read_receipt,
  check_receipt, walk_receipts,
}
use kcd2_codex_toolkit.Attempts.Load.{
  AttemptDirectory, TransactionAttempt, Limits, by_name, check_tree, tree, load_attempt,
}
use kcd2_codex_toolkit.Attempts.Record.Places.{position, place, check_order-place, named_among-name}

check_document-eq-ok :
    (id : String) (w : Walk) (p : AttemptPhase) (d : Document) (hash : String) (v : Walk)
    → check_document id w p d hash ≡ ok v
    → (is_sha256 d.input_sha256 ≡ true)
      × (check_order w.phase p ≡ ok tt)
      × (v ≡ record {
        previous = some hash;
        input_sha256 = some (lower d.input_sha256);
        phase = some p;
      })
unfolding check_document checked_digest
check_document-eq-ok id w p d hash v h = ground (arith, h)

is_empty-least : {A : Type 0} (l : List A) → is_empty l ≡ false → 1 ≤ length l
is_empty-least [] h = ground (arith, h)
is_empty-least (x ∷ l) h = omega arith

module _ {Payload : Type 0} (decode : Payload → Option Document) (sha256 : Payload → String)
    (size : Payload → ℕ) where
  -- What a receipt that is walked over adds.
  pub check_receipt-eq-ok :
      (id : String) (w : Walk) (f : ReceiptFile Payload) (v : Walk)
      → check_receipt decode sha256 size id w f ≡ ok v
      → (p : AttemptPhase) × (v.phase ≡ some p)
        × (f.name ≡ file_name p)
        × (suc (place w.phase) ≤ position p)
        × ((s : String) × (v.input_sha256 ≡ some s) × (is_sha256 s ≡ true) × (lower s ≡ s))
  unfolding check_receipt
  check_receipt-eq-ok id w f v h =
      let (read, _, checked) = >>=-eq-ok (read_receipt decode sha256 size f) _ h in
      elim (Option-cases (named_among f.name phases)) [
        | inl e ↦ ground (arith, e, checked)
        | inr (p, e) ↦
            let (hex, order, same) =
              check_document-eq-ok id w p read.0 read.1 v (ground (arith, e, checked)) in
            (
              p,
              ap (λ (x : Walk). x.phase) same,
              sym (named_among-name f.name phases p e),
              check_order-place w.phase p order,
              (
                lower read.0.input_sha256,
                ap (λ (x : Walk). x.input_sha256) same,
                is_sha256-lower read.0.input_sha256 hex,
                lower-lower read.0.input_sha256,
              ),
            )
      ]

  -- The input that a walk has fixed is a digest in lower case.
  unfoldable pub IsFixed : Walk → Type 0
  IsFixed v = (s : String) × (v.input_sha256 ≡ some s) × (is_sha256 s ≡ true) × (lower s ≡ s)

  -- Each receipt is named for a phase that the walk has passed.
  unfoldable pub IsPassed : Walk → ReceiptFile Payload → Type 0
  IsPassed v f = (p : AttemptPhase) × (f.name ≡ file_name p) × (position p ≤ place v.phase)

  pub record IsWalked (w v : Walk) (l : List (ReceiptFile Payload)) : Type 0 where
    pub passed : All (IsPassed v) l
    pub counted : length l + place w.phase ≤ place v.phase

  pub walk-IsWalked :
      (id : String) (w v : Walk) (l : List (ReceiptFile Payload))
      → walk_receipts decode sha256 size id w l ≡ ok v
      → IsWalked w v l
  unfolding IsPassed
  walk-IsWalked id w v [] h = record { passed = tt; counted = ground (arith, h) }
  walk-IsWalked id w v (f ∷ l) h =
      let (u, first, rest) = >>=-eq-ok (check_receipt decode sha256 size id w f) _ h in
      let (p, e, name, more, _) = check_receipt-eq-ok id w f u first in
      let walked = walk-IsWalked id u v l rest in
      let counted = walked.counted in
      let here : place u.phase ≡ position p = ap place e in
      record {
        passed = ((p, name, omega (arith, counted, here)), walked.passed);
        counted = omega (arith, counted, here, more);
      }

  pub walk-IsFixed :
      (id : String) (w v : Walk) (l : List (ReceiptFile Payload))
      → (is_empty l ≡ false) ⊎ IsFixed w
      → walk_receipts decode sha256 size id w l ≡ ok v
      → IsFixed v
  unfolding IsFixed
  walk-IsFixed id w v [] (inl e) h = cc
  walk-IsFixed id w v [] (inr fixed) h =
      let same : w ≡ v = ground (arith, h) in subst IsFixed same fixed
  walk-IsFixed id w v (f ∷ l) some_or h =
      let (u, first, rest) = >>=-eq-ok (check_receipt decode sha256 size id w f) _ h in
      let (_, _, _, _, fixed) = check_receipt-eq-ok id w f u first in
      walk-IsFixed id u v l (inr fixed) rest

  pub walk-append_one :
      (id : String) (w v : Walk) (l : List (ReceiptFile Payload)) (f : ReceiptFile Payload)
      → walk_receipts decode sha256 size id w l ≡ ok v
      → walk_receipts decode sha256 size id w (l ++ f ∷ [])
        ≡ check_receipt decode sha256 size id v f
  walk-append_one id w v [] f h = ground (arith, h)
  walk-append_one id w v (g ∷ l) f h =
      let (u, first, rest) = >>=-eq-ok (check_receipt decode sha256 size id w g) _ h in
      ap
        (λ (r : Result Error Walk).
          r >>= λ next. walk_receipts decode sha256 size id next (l ++ f ∷ []))
        first
      ∙ walk-append_one id u v l f rest

  -- What a load that succeeds has found.
  pub load-eq-ok :
      (limits : Limits) (dir : AttemptDirectory Payload) (a : TransactionAttempt)
      → load_attempt decode sha256 size limits dir ≡ ok a
      → (w : Walk) × (walk_receipts decode sha256 size dir.name at_start (by_name dir.receipts)
          ≡ ok w)
        × (dir.is_plain ≡ true)
        × (is_empty dir.receipts ≡ false)
        × (w.previous ≡ some a.last_receipt_sha256)
        × (w.input_sha256 ≡ some a.input_sha256)
        × (w.phase ≡ some a.phase)
        × (a.attempt_id ≡ dir.name)
        × (a.resumed ≡ false)
  unfolding load_attempt
  load-eq-ok limits dir a h =
      let (_, plain, h) = >>=-eq-ok (require dir.is_plain bad_root) _ h in
      let (_, some_receipts, h) = >>=-eq-ok (refuse (is_empty dir.receipts) no_receipts) _ h in
      let (_, few, h) = >>=-eq-ok (require (leb (length dir.receipts) 9) too_many_receipts) _ h in
      let (w, walked, h) =
        >>=-eq-ok (walk_receipts decode sha256 size dir.name at_start (by_name dir.receipts)) _ h in
      let (_, _, h) = >>=-eq-ok (check_tree limits 0 0 (tree decode sha256 size dir)) _ h in
      (
        w,
        walked,
        require-eq-ok dir.is_plain bad_root plain,
        refuse-eq-ok (is_empty dir.receipts) no_receipts some_receipts,
        ground (arith, h),
        ground (arith, h),
        ground (arith, h),
        ground (arith, h),
        ground (arith, h),
      )

  -- A directory that loads holds a receipt, no more of them than the place of its phase, and each of
  -- them has the name of a phase up to that one.
  pub load_attempt-bounds :
      (limits : Limits) (dir : AttemptDirectory Payload) (a : TransactionAttempt)
      → load_attempt decode sha256 size limits dir ≡ ok a
      → (1 ≤ length dir.receipts)
        × (length dir.receipts ≤ position a.phase)
        × All
            (λ (f : ReceiptFile Payload).
              (p : AttemptPhase) × (f.name ≡ file_name p) × (position p ≤ position a.phase))
            dir.receipts
  unfolding IsPassed
  load_attempt-bounds limits dir a h =
      let (w, walked, _, there, _, _, last, _, _) = load-eq-ok limits dir a h in
      let all = walk-IsWalked dir.name at_start w (by_name dir.receipts) walked in
      let at : place w.phase ≡ position a.phase = ap place last in
      let counted = all.counted in
      let sorted : length (by_name dir.receipts) ≡ length dir.receipts =
        length-sort_by _ dir.receipts in
      (
        is_empty-least dir.receipts there,
        omega (arith, counted, at, sorted),
        sort_by-All _ _ dir.receipts (
            subst
              (λ n.
                All
                  (λ (f : ReceiptFile Payload).
                    (p : AttemptPhase) × (f.name ≡ file_name p) × (position p ≤ n))
                  (by_name dir.receipts))
              at all.passed),
      )
