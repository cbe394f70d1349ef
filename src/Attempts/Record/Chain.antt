-- ===== src/Attempts/Record/Chain.antt =====
-- The hashes of the receipts: the last one fixes the others.
use kcd2_codex_toolkit.Base.{
  ℕ, String, true, Option, none, some, List, [], ◌∷◌, map, text_has_eq, ok, >>=-eq-ok, All, All-map,
  ◌≡◌, inl, inr, refl, sym, ap, ◌∙◌, subst, arith, Option-cases,
}
use kcd2_codex_toolkit.Attempts.Phase.{AttemptPhase, phases, named_among}
use kcd2_codex_toolkit.Attempts.Receipt.{
  Document, ReceiptFile, Walk, at_start, same_optional, check_document, checked_digest,
  read_receipt, check_receipt, walk_receipts,
}
use kcd2_codex_toolkit.Attempts.Load.{
  AttemptDirectory, TransactionAttempt, Limits, by_name, load_attempt,
}
use kcd2_codex_toolkit.Attempts.Record.Walked.{load-eq-ok}

same_optional-eq : (s t : Option String) → same_optional s t ≡ true → s ≡ t
unfolding same_optional
same_optional-eq none none h = refl
same_optional-eq (some s) (some t) h = ap some ((text_has_eq.eq_iff s t).0 h)
same_optional-eq none (some t) h = ground (arith, h)
same_optional-eq (some s) none h = ground (arith, h)

check_document-linked :
    (id : String) (w : Walk) (p : AttemptPhase) (d : Document) (hash : String) (v : Walk)
    → check_document id w p d hash ≡ ok v
    → (d.previous_receipt_sha256 ≡ w.previous) × (v.previous ≡ some hash)
unfolding check_document checked_digest
check_document-linked id w p d hash v h =
    let linked : same_optional d.previous_receipt_sha256 w.previous ≡ true = ground (arith, h) in
    (same_optional-eq d.previous_receipt_sha256 w.previous linked, ground (arith, h))

-- `onto acc l`: the items of `l`, last one first, in front of `acc`.
abbrev onto : {A : Type 0} → List A → List A → List A
onto acc [] = acc
onto acc (x ∷ l) = onto (x ∷ acc) l

onto-onto : {A : Type 0} (l acc : List A) → onto [] (onto acc l) ≡ onto l acc
onto-onto [] acc = refl
onto-onto (x ∷ l) acc = onto-onto l (x ∷ acc)

map-onto :
    {A B : Type 0} (f : A → B) (acc l : List A) → map f (onto acc l) ≡ onto (map f acc) (map f l)
map-onto f acc [] = refl
map-onto f acc (x ∷ l) = map-onto f (x ∷ acc) l

All-onto : {A : Type 0} (P : A → Type 0) (acc l : List A) → All P acc → All P l → All P (onto acc l)
All-onto P acc [] done all = done
All-onto P acc (x ∷ l) done (here, all) = All-onto P (x ∷ acc) l (here, done) all

abbrev payloads : {Payload : Type 0} → List (ReceiptFile Payload) → List Payload
payloads l = map (λ f. f.payload) l

module _ {Payload : Type 0} (decode : Payload → Option Document) (sha256 : Payload → String)
    (size : Payload → ℕ) where
  read_receipt-eq-ok :
      (f : ReceiptFile Payload) (d : Document) (hash : String)
      → read_receipt decode sha256 size f ≡ ok (d, hash)
      → (decode f.payload ≡ some d) × (hash ≡ sha256 f.payload)
  unfolding read_receipt
  read_receipt-eq-ok f d hash h = ground (arith, h)

  -- The receipts, last one first, each named by the hash in front of it, down to one that names none.
  abbrev IsChained : Option String → List (ReceiptFile Payload) → Type 0
  IsChained last [] = last ≡ none
  IsChained last (f ∷ rest) =
      (last ≡ some (sha256 f.payload))
      × ((d : Document) × (decode f.payload ≡ some d) × IsChained d.previous_receipt_sha256 rest)

  check_receipt-IsChained :
      (id : String) (w : Walk) (f : ReceiptFile Payload) (v : Walk)
      (done : List (ReceiptFile Payload))
      → check_receipt decode sha256 size id w f ≡ ok v
      → IsChained w.previous done
      → IsChained v.previous (f ∷ done)
  unfolding check_receipt
  check_receipt-IsChained id w f v done h chained =
      let ((d, hash), read, checked) = >>=-eq-ok (read_receipt decode sha256 size f) _ h in
      let (decoded, hashed) = read_receipt-eq-ok f d hash read in
      elim (Option-cases (named_among f.name phases)) [
        | inl e ↦ ground (arith, e, checked)
        | inr (p, e) ↦
            let (linked, next) =
              check_document-linked id w p d hash v (ground (arith, e, checked)) in
            (
              next ∙ ap some hashed,
              (d, decoded, subst (λ previous. IsChained previous done) (sym linked) chained),
            )
      ]

  walk-IsChained :
      (id : String) (w v : Walk) (l done : List (ReceiptFile Payload))
      → walk_receipts decode sha256 size id w l ≡ ok v
      → IsChained w.previous done
      → IsChained v.previous (onto done l)
  walk-IsChained id w v [] done h chained =
      let same : w ≡ v = ground (arith, h) in
      subst (λ (u : Walk). IsChained u.previous done) same chained
  walk-IsChained id w v (f ∷ l) done h chained =
      let (u, first, rest) = >>=-eq-ok (check_receipt decode sha256 size id w f) _ h in
      walk-IsChained id u v l (f ∷ done) rest (check_receipt-IsChained id w f u done first chained)

  -- No receipt of the one list has the hash of a different payload of the other.
  abbrev IsClashFree : List (ReceiptFile Payload) → List (ReceiptFile Payload) → Type 0
  IsClashFree l m =
      All
        (λ (f : ReceiptFile Payload).
          All
            (λ (g : ReceiptFile Payload).
              sha256 f.payload ≡ sha256 g.payload → f.payload ≡ g.payload)
            m)
        l

  -- Chains that end in the same hash hold the same payloads.
  chained-payloads :
      (last : Option String) (l m : List (ReceiptFile Payload))
      → IsClashFree l m
      → IsChained last l
      → IsChained last m
      → payloads l ≡ payloads m
  chained-payloads last [] [] no_clash h h' = refl
  chained-payloads last [] (g ∷ m) no_clash h (h', _) = ground (arith, h, h')
  chained-payloads last (f ∷ l) [] no_clash (h, _) h' = ground (arith, h, h')
  chained-payloads last (f ∷ l) (g ∷ m) ((clash, _), no_clash) (h, (d, decoded, rest))
        (h', (d', decoded', rest')) =
      let hashes : sha256 f.payload ≡ sha256 g.payload = ground (arith, h, h') in
      let same = clash hashes in
      let document : d ≡ d' = ground (arith, decoded, decoded', ap decode same) in
      ap (λ s. s ∷ payloads l) same
      ∙ ap (λ rest. g.payload ∷ rest)
          (chained-payloads d'.previous_receipt_sha256 l m
            (All-map l (λ _ (more : All _ (g ∷ m)). more.1) no_clash)
            (subst (λ (x : Document). IsChained x.previous_receipt_sha256 l) document rest) rest')

  -- When no receipt of the one directory has the hash of a different payload of the other: two
  -- directories that load with the same last hash hold the same payloads, in the order of their names.
  pub load_attempt-fixed_by_hash :
      (limits : Limits) (dir dir' : AttemptDirectory Payload) (a a' : TransactionAttempt)
      → All
          (λ (f : ReceiptFile Payload).
            All
              (λ (g : ReceiptFile Payload).
                sha256 f.payload ≡ sha256 g.payload → f.payload ≡ g.payload)
              (by_name dir'.receipts))
          (by_name dir.receipts)
      → load_attempt decode sha256 size limits dir ≡ ok a
      → load_attempt decode sha256 size limits dir' ≡ ok a'
      → a.last_receipt_sha256 ≡ a'.last_receipt_sha256
      → map (λ (f : ReceiptFile Payload). f.payload) (by_name dir.receipts)
        ≡ map (λ (f : ReceiptFile Payload). f.payload) (by_name dir'.receipts)
  load_attempt-fixed_by_hash limits dir dir' a a' no_clash h h' same =
      let (w, walked, _, _, last, _, _, _, _) = load-eq-ok decode sha256 size limits dir a h in
      let (w', walked', _, _, last', _, _, _, _) =
        load-eq-ok decode sha256 size limits dir' a' h' in
      let l = by_name dir.receipts in
      let m = by_name dir'.receipts in
      let ends : w'.previous ≡ w.previous = last' ∙ ap some (sym same) ∙ sym last in
      let equal =
        chained-payloads w.previous (onto [] l) (onto [] m)
          (All-onto _ [] l tt (All-map l (λ _ more. All-onto _ [] m tt more) no_clash))
          (walk-IsChained dir.name at_start w l [] walked refl)
          (subst (λ previous. IsChained previous (onto [] m)) ends
            (walk-IsChained dir'.name at_start w' m [] walked' refl)) in
      sym (onto-onto (payloads l) [])
      ∙ ap (onto []) (
          sym (map-onto (λ (f : ReceiptFile Payload). f.payload) [] l)
          ∙ equal
          ∙ map-onto (λ (f : ReceiptFile Payload). f.payload) [] m)
      ∙ onto-onto (payloads m) []
