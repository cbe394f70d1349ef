-- ===== src/Attempts/Artifacts/Verified.antt =====
-- A ledger that is written from the disk is one that its verification accepts.
use kcd2_codex_toolkit.Base.{
  ℕ, suc, ◌+◌, ◌≤◌, String, true, false, Option, some, List, [], ◌∷◌, leb, leb→le, ltb, text_has_eq,
  nat_has_eq, length, length-sort_by, is_sha256, lower, sort_texts, str_leb, ok, ◌>>=◌, ◌>>◌,
  require, refuse, require-eq-ok, >>=-eq-ok, ◌≡◌, inl, inr, refl, ap, ◌∙◌, arith, Option-cases,
}
use kcd2_codex_toolkit.Attempts.Phase.{escaped_artifact, artifact_bounds, artifact_not_plain}
use kcd2_codex_toolkit.Attempts.Receipt.{Artifact, checked_digest}
use kcd2_codex_toolkit.Attempts.Load.{AttemptDirectory, DiskFile, Limits}
use kcd2_codex_toolkit.Attempts.Artifacts.{
  verify_artifact, verify_items, resolve_all, list_artifacts, artifact_ledger,
}

-- Each file on the disk is known by a digest in lower case, as the hash function prints it.
unfoldable pub IsHashed : (String → Option DiskFile) → Type 0
IsHashed disk =
    (path : String) (file : DiskFile)
    → disk path ≡ some file
    → (is_sha256 file.sha256 ≡ true) × (lower file.sha256 ≡ file.sha256)

-- What an artifact that is listed says of the disk.
list_artifacts-eq-ok :
    {Payload : Type 0} (dir : AttemptDirectory Payload) (limits : Limits) (total : ℕ)
    (path : String) (rest : List String) (ledger : List Artifact)
    → list_artifacts dir limits total (path ∷ rest) ≡ ok ledger
    → (file : DiskFile) × (more : List Artifact) × (dir.disk path ≡ some file)
      × (file.is_inside ≡ true)
      × (file.is_plain ≡ true)
      × (ltb limits.max_bytes (total + file.bytes) ≡ false)
      × (list_artifacts dir limits (total + file.bytes) rest ≡ ok more)
      × (ledger ≡ record { path = path; sha256 = file.sha256; bytes = file.bytes } ∷ more)
list_artifacts-eq-ok dir limits total path rest ledger h = elim (Option-cases (dir.disk path)) [
  | inl e ↦ ground (arith, e, h)
  | inr (file, e) ↦
      let body : (require file.is_inside escaped_artifact)
            >> (require file.is_plain artifact_not_plain)
            >> (refuse (ltb limits.max_bytes (total + file.bytes)) artifact_bounds)
            >> (list_artifacts dir limits (total + file.bytes) rest >>= λ more.
                ok (record { path = path; sha256 = file.sha256; bytes = file.bytes } ∷ more))
          ≡ ok ledger =
        ground (arith, e, h) in
      let (_, listed, tail) =
        >>=-eq-ok
          (require file.is_inside escaped_artifact
            >> require file.is_plain artifact_not_plain
            >> refuse (ltb limits.max_bytes (total + file.bytes)) artifact_bounds)
          _ body in
      let (more, listed_rest, last) =
        >>=-eq-ok (list_artifacts dir limits (total + file.bytes) rest) _ tail in
      (
        file,
        more,
        e,
        ground (arith, listed),
        ground (arith, listed),
        ground (arith, listed),
        listed_rest,
        ground (arith, last),
      )
]

verify_artifact-listed :
    {Payload : Type 0} (dir : AttemptDirectory Payload) (limits : Limits) (seen total : ℕ)
    (path : String) (file : DiskFile)
    → IsHashed dir.disk
    → dir.disk path ≡ some file
    → file.is_inside ≡ true
    → file.is_plain ≡ true
    → ltb limits.max_files (suc seen) ≡ false
    → ltb limits.max_bytes (total + file.bytes) ≡ false
    → verify_artifact dir limits
        (seen, total)
        (record { path = path; sha256 = file.sha256; bytes = file.bytes })
      ≡ ok (suc seen, total + file.bytes)
unfolding verify_artifact IsHashed checked_digest
verify_artifact-listed dir limits seen total path file hashed e inside plain few small =
    let (hex, low) = hashed path file e in
    ground (
      arith,
      e,
      inside,
      plain,
      few,
      small,
      (nat_has_eq.eq_iff file.bytes file.bytes).1 refl,
      hex,
      low,
      (text_has_eq.eq_iff file.sha256 file.sha256).1 refl,
    )

verify_items-listed :
    {Payload : Type 0} (dir : AttemptDirectory Payload) (limits : Limits) (seen total : ℕ)
    (paths : List String) (ledger : List Artifact)
    → IsHashed dir.disk
    → seen + length paths ≤ limits.max_files
    → list_artifacts dir limits total paths ≡ ok ledger
    → (bytes : ℕ) × (verify_items dir limits (seen, total) ledger ≡ ok (seen + length paths, bytes))
verify_items-listed dir limits seen total [] ledger hashed few h =
    let none_left : ledger ≡ [] = ground (arith, h) in
    (
      total,
      ap (verify_items dir limits (seen, total)) none_left ∙ ap (λ n. ok (n, total)) (omega arith),
    )
verify_items-listed dir limits seen total (path ∷ rest) ledger hashed few h =
    let (file, more, e, inside, plain, small, listed, same) =
      list_artifacts-eq-ok dir limits total path rest ledger h in
    let (bytes, verified) =
      verify_items-listed dir limits (suc seen) (total + file.bytes) rest more hashed
        (omega (arith, few)) listed in
    let room : ltb limits.max_files (suc seen) ≡ false = ground (arith, few) in
    (
      bytes,
      ap (verify_items dir limits (seen, total)) same
          ∙ ap (λ r. r >>= λ next. verify_items dir limits next more)
              (verify_artifact-listed dir limits seen total path file hashed e inside plain room
                small)
          ∙ verified
          ∙ ap (λ n. ok (n, bytes)) (omega arith),
    )

length-sort_texts : (texts : List String) → length (sort_texts texts) ≡ length texts
unfolding sort_texts
length-sort_texts texts = length-sort_by str_leb texts

list_artifacts-length :
    {Payload : Type 0} (dir : AttemptDirectory Payload) (limits : Limits) (total : ℕ)
    (paths : List String) (ledger : List Artifact)
    → list_artifacts dir limits total paths ≡ ok ledger
    → length ledger ≡ length paths
list_artifacts-length dir limits total [] ledger h =
    let none_left : ledger ≡ [] = ground (arith, h) in ap length none_left
list_artifacts-length dir limits total (path ∷ rest) ledger h =
    let (file, more, _, _, _, _, listed, same) =
      list_artifacts-eq-ok dir limits total path rest ledger h in
    ap length same
    ∙ ap (λ n. suc n) (list_artifacts-length dir limits (total + file.bytes) rest more listed)

-- Where the disk gives digests in lower case: a ledger that is made from the disk passes the
-- verification against the same disk, and the verification counts each file of the ledger.
pub artifact_ledger-verify_items :
    {Payload : Type 0} (dir : AttemptDirectory Payload) (limits : Limits) (paths : List String)
    (ledger : List Artifact)
    → IsHashed dir.disk
    → artifact_ledger dir limits paths ≡ ok ledger
    → (bytes : ℕ) × (verify_items dir limits (0, 0) ledger ≡ ok (length ledger, bytes))
unfolding artifact_ledger
artifact_ledger-verify_items dir limits paths ledger hashed h =
    let (found, _, h) = >>=-eq-ok (resolve_all dir.disk [] paths) _ h in
    let (_, few, h) =
      >>=-eq-ok (require (leb (length found) limits.max_files) artifact_bounds) _ h in
    let room = leb→le (length found) limits.max_files (require-eq-ok _ artifact_bounds few) in
    let sorted : length (sort_texts found) ≡ length found = length-sort_texts found in
    let (bytes, verified) =
      verify_items-listed dir limits 0 0 (sort_texts found) ledger hashed
        (omega (arith, room, sorted)) h in
    let same : 0 + length (sort_texts found) ≡ length ledger =
      omega (arith, list_artifacts-length dir limits 0 (sort_texts found) ledger h) in
    (bytes, verified ∙ ap (λ n. ok (n, bytes)) same)
