-- ===== src/Attempts/Record/Advance.antt =====
-- A recorded phase is what the next load of the directory finds.
use kcd2_codex_toolkit.Base.{
  ℕ, ◌≤◌, String, true, false, Option, some, List, [], ◌∷◌, ◌++◌, leb, le→leb, text_has_eq, length,
  length-append, length-sort_by, is_empty, is_sha256, lower, str_leb, sort_by-All,
  sort_by-append_last, All, ok, ◌≡◌, inl, refl, sym, ap, ◌∙◌, subst, arith,
}
use kcd2_codex_toolkit.Attempts.Phase.{AttemptPhase, file_name, is_terminal}
use kcd2_codex_toolkit.Attempts.Receipt.{
  Document, ReceiptFile, Artifact, Walk, at_start, check_receipt, walk_receipts,
}
use kcd2_codex_toolkit.Attempts.Load.{
  AttemptDirectory, TransactionAttempt, Limits, by_name, last_name, check_tree, tree, load_attempt,
}
use kcd2_codex_toolkit.Attempts.Record.{
  check_phase, document_of, receipt_file, advanced, record_attempt_phase,
}
use kcd2_codex_toolkit.Attempts.Record.Places.{
  position, place, check_order-place, position-bound, file_name-str_leb,
}
use kcd2_codex_toolkit.Attempts.Record.Walked.{
  IsFixed, IsPassed, walk-IsWalked, walk-IsFixed, walk-append_one, load-eq-ok,
}
use kcd2_codex_toolkit.Attempts.Record.Written.{check_receipt-receipt_file, check_order-next}
use kcd2_codex_toolkit.Attempts.Record.Recorded.{record_attempt_phase-eq-ok}

module _ {Payload : Type 0} (encode : Document → Payload) (decode : Payload → Option Document)
    (sha256 : Payload → String) (size : Payload → ℕ) where
  -- What a load that succeeds needs.
  load-ok :
      (limits : Limits) (dir : AttemptDirectory Payload) (previous input : String)
      (phase : AttemptPhase)
      → dir.is_plain ≡ true
      → is_empty dir.receipts ≡ false
      → leb (length dir.receipts) 9 ≡ true
      → walk_receipts decode sha256 size dir.name at_start (by_name dir.receipts)
        ≡ ok (record { previous = some previous; input_sha256 = some input; phase = some phase })
      → check_tree limits 0 0 (tree decode sha256 size dir) ≡ ok tt
      → load_attempt decode sha256 size limits dir
        ≡ ok (record {
          attempt_id = dir.name;
          input_sha256 = input;
          phase = phase;
          last_receipt = last_name "" (by_name dir.receipts);
          last_receipt_sha256 = previous;
          resumed = false;
        })
  unfolding load_attempt
  load-ok limits dir previous input phase plain there few walked bounded =
      rw (plain, there, few, walked, bounded) refl

  last_name-append_one :
      (name : String) (l : List (ReceiptFile Payload)) (f : ReceiptFile Payload)
      → last_name name (l ++ f ∷ []) ≡ f.name
  last_name-append_one name [] f = refl
  last_name-append_one name (g ∷ l) f = last_name-append_one g.name l f

  below_next :
      (v : Walk) (l : List (ReceiptFile Payload)) (p : AttemptPhase)
      → place v.phase ≤ position p
      → All (IsPassed decode sha256 size v) l
      → All (λ (f : ReceiptFile Payload). str_leb f.name (file_name p) ≡ true) l
  unfolding IsPassed
  below_next v [] p h all = tt
  below_next v (f ∷ l) p h ((q, name, before), all) = (
    ap (λ n. str_leb n (file_name p)) name ∙ file_name-str_leb q p (omega (arith, h, before)),
    below_next v l p h all,
  )

  walk-eta :
      (w : Walk) (previous input : String) (phase : AttemptPhase)
      → w.previous ≡ some previous
      → w.input_sha256 ≡ some input
      → w.phase ≡ some phase
      → w ≡ record { previous = some previous; input_sha256 = some input; phase = some phase }
  walk-eta w previous input phase h h' h'' = cc

  All-last : {A : Type 0} (P : A → Type 0) (l : List A) (x : A) → All P (l ++ x ∷ []) → P x
  All-last P [] x h = h.0
  All-last P (y ∷ l) x h = All-last P l x h.1

  is_empty-length :
      {A : Type 0} (l m : List A) → length l ≡ length m → is_empty m ≡ false → is_empty l ≡ false
  is_empty-length [] [] h e = e
  is_empty-length [] (y ∷ m) h e = ground (arith, h)
  is_empty-length (x ∷ l) m h e = refl

  is_empty-append_one : {A : Type 0} (l : List A) (x : A) → is_empty (l ++ x ∷ []) ≡ false
  is_empty-append_one [] x = refl
  is_empty-append_one (y ∷ l) x = refl

  advanced-eta :
      (a b : TransactionAttempt) (phase : AttemptPhase) (hash : String)
      → b.attempt_id ≡ a.attempt_id
      → b.input_sha256 ≡ a.input_sha256
      → b.phase ≡ phase
      → b.last_receipt ≡ file_name phase
      → b.last_receipt_sha256 ≡ hash
      → b.resumed ≡ false
      → b ≡ advanced encode decode sha256 size a phase hash
  advanced-eta a b phase hash h0 h1 h2 h3 h4 h5 = cc

  -- A load of the directory that has one more receipt, behind those of a load that succeeded.
  load-append_one :
      (limits : Limits) (dir : AttemptDirectory Payload) (a : TransactionAttempt)
      (phase : AttemptPhase) (ledger : List Artifact) (reason : Option String)
      → ((d : Document) → decode (encode d) ≡ some d)
      → load_attempt decode sha256 size limits dir ≡ ok a
      → is_terminal a.phase ≡ false
      → check_phase a.phase phase reason ≡ ok tt
      → let d =
          document_of encode decode sha256 size a.attempt_id a.input_sha256 phase
            (some a.last_receipt_sha256)
            ledger
            reason in
        let after = record dir {
          receipts = dir.receipts ++ receipt_file encode decode sha256 size phase d ∷ [];
        } in
        size (encode d) ≤ 65_536
        → check_tree limits 0 0 (tree decode sha256 size after) ≡ ok tt
        → load_attempt decode sha256 size limits after
          ≡ ok (advanced encode decode sha256 size a phase (sha256 (encode d)))
  unfolding IsFixed
  load-append_one limits dir a phase ledger reason law loaded unfinished allowed small bounded =
      let d =
        document_of encode decode sha256 size a.attempt_id a.input_sha256 phase
          (some a.last_receipt_sha256) ledger reason in
      let f = receipt_file encode decode sha256 size phase d in
      let (w, walked, plain, there, previous, input, last, id, fresh) =
        load-eq-ok decode sha256 size limits dir a loaded in
      let all =
        walk-IsWalked decode sha256 size dir.name at_start w (by_name dir.receipts) walked in
      let (s, fixed, hex, low) =
        walk-IsFixed decode sha256 size dir.name at_start w (by_name dir.receipts)
          (inl (
            is_empty-length (by_name dir.receipts) dir.receipts (length-sort_by _ dir.receipts)
              there))
          walked in
      let same : s ≡ a.input_sha256 = ground (arith, fixed, input) in
      let at : place w.phase ≡ position a.phase = ap place last in
      let more =
        check_order-place (some a.phase) phase
          (check_order-next a.phase phase reason unfinished allowed).0 in
      let behind : by_name (dir.receipts ++ f ∷ []) ≡ by_name dir.receipts ++ f ∷ [] =
        sort_by-append_last (λ (x y : ReceiptFile Payload). str_leb x.name y.name) dir.receipts f
          (sort_by-All _ (λ (x : ReceiptFile Payload). str_leb x.name (file_name phase) ≡ true)
            dir.receipts
            (below_next w (by_name dir.receipts) phase (omega (arith, at, more)) all.passed)) in
      let counted = all.counted in
      let sorted : length (by_name dir.receipts) ≡ length dir.receipts =
        length-sort_by _ dir.receipts in
      let least = position-bound a.phase unfinished in
      let few : leb (length (dir.receipts ++ f ∷ [])) 9 ≡ true =
        le→leb (length (dir.receipts ++ f ∷ [])) 9
          (omega (arith, length-append dir.receipts (f ∷ []), counted, sorted, at, least)) in
      let accepted =
        check_receipt-receipt_file encode decode sha256 size w a.attempt_id a.last_receipt_sha256
          a.input_sha256 a.phase phase ledger reason law small
          (walk-eta w a.last_receipt_sha256 a.input_sha256 a.phase previous input last)
          (ap is_sha256 (sym same) ∙ hex) (ap lower (sym same) ∙ low ∙ same) unfinished allowed in
      load-ok limits (record dir { receipts = dir.receipts ++ f ∷ [] }) (sha256 (encode d))
        a.input_sha256 phase plain (is_empty-append_one dir.receipts f) few
        (ap (walk_receipts decode sha256 size dir.name at_start) behind
          ∙ walk-append_one decode sha256 size dir.name at_start w (by_name dir.receipts) f walked
          ∙ ap (λ i. check_receipt decode sha256 size i w f) (sym id)
          ∙ accepted)
        bounded
      ∙ ap ok (
          advanced-eta a _ phase (sha256 (encode d)) (sym id) refl refl
            (ap (last_name "") behind ∙ last_name-append_one "" (by_name dir.receipts) f) refl refl)

  -- With a codec that reads back what it writes: when a recording succeeds, the receipts that it
  -- leaves are within the reader's 64 KiB and the tree that it leaves is within the limits, the next
  -- load of the directory succeeds and finds the attempt that the recording returned.
  pub record_attempt_phase-load :
      (limits : Limits) (dir dir' : AttemptDirectory Payload) (a a' : TransactionAttempt)
      (phase : AttemptPhase) (artifacts : List String) (reason : Option String)
      → ((d : Document) → decode (encode d) ≡ some d)
      → record_attempt_phase encode decode sha256 size limits dir a phase artifacts reason
        ≡ ok (dir', a')
      → All (λ (f : ReceiptFile Payload). size f.payload ≤ 65_536) dir'.receipts
      → check_tree limits 0 0 (tree decode sha256 size dir') ≡ ok tt
      → load_attempt decode sha256 size limits dir' ≡ ok a'
  record_attempt_phase-load limits dir dir' a a' phase artifacts reason law h small bounded =
      let (current, ledger, loaded, _, unfinished, allowed, (e, e')) =
        record_attempt_phase-eq-ok encode decode sha256 size limits dir dir' a a' phase artifacts
          reason h in
      let size_of =
        All-last (λ (f : ReceiptFile Payload). size f.payload ≤ 65_536) dir.receipts _
          (subst
            (λ (x : AttemptDirectory Payload).
              All (λ (f : ReceiptFile Payload). size f.payload ≤ 65_536) x.receipts)
            e small) in
      let stays =
        subst (λ x. check_tree limits 0 0 (tree decode sha256 size x) ≡ ok tt) e bounded in
      ap (load_attempt decode sha256 size limits) e
      ∙ load-append_one limits dir current phase ledger reason law loaded unfinished allowed size_of
          stays
      ∙ ap ok (sym e')
