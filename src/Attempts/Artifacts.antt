-- ===== src/Attempts/Artifacts.antt =====
-- The ledger of the files that a phase produced, and its verification against the disk.
pub mod Verified
use kcd2_codex_toolkit.Base.{
  ℕ, ◌+◌, suc, String, Bool, true, false, not, ◌&&◌, ◌||◌, Option, none, some, List, [], ◌∷◌, ◌++◌,
  leb, ltb, if◌then◌else◌, ◌==◌, text_has_eq, nat_has_eq, elem, length, sort_texts, Result, ok, err,
  ◌>>=◌, ◌>>◌, require, refuse,
}
use kcd2_codex_toolkit.Attempts.Phase.{
  Error, missing_artifact, escaped_artifact, artifact_bounds, artifact_drifted, artifact_not_plain,
}
use kcd2_codex_toolkit.Attempts.Receipt.{
  Document, ReceiptFile, Artifact, checked_digest, read_receipt,
}
use kcd2_codex_toolkit.Attempts.Load.{AttemptDirectory, DiskFile, Limits, by_name}

-- The files and bytes seen so far.
abbrev pub Seen : Type 0
Seen = ℕ × ℕ

-- The body of the inner loop of `_verify_recorded_artifacts`; a directory, which the hash cannot open,
-- is refused where a reparse point is.
unfoldable pub verify_artifact :
    {Payload : Type 0} → AttemptDirectory Payload → Limits → Seen → Artifact → Result Error Seen
verify_artifact dir limits (seen, total) item = elim (dir.disk item.path) [
  | none ↦ err missing_artifact
  | some file ↦ (do
    require (file.is_inside && file.is_plain) escaped_artifact
    refuse (ltb limits.max_files (suc seen) || ltb limits.max_bytes (total + file.bytes))
        artifact_bounds
    require (item.bytes == file.bytes) artifact_drifted
    recorded ← checked_digest item.sha256 "artifact sha256"
    require (recorded == file.sha256) artifact_drifted
    ok (suc seen, total + file.bytes))
]

abbrev pub verify_items :
    {Payload : Type 0}
    → AttemptDirectory Payload
    → Limits
    → Seen
    → List Artifact
    → Result Error Seen
verify_items dir limits seen [] = ok seen
verify_items dir limits seen (item ∷ rest) =
    verify_artifact dir limits seen item >>= λ next. verify_items dir limits next rest

module _ {Payload : Type 0} (decode : Payload → Option Document) (sha256 : Payload → String)
    (size : Payload → ℕ) where
  abbrev pub verify_receipts :
      AttemptDirectory Payload → Limits → Seen → List (ReceiptFile Payload) → Result Error Seen
  verify_receipts dir limits seen [] = ok seen
  verify_receipts dir limits seen (file ∷ rest) = read_receipt decode sha256 size file >>= λ read.
      verify_items dir limits seen read.0.artifacts >>= λ next. verify_receipts dir limits next rest

  unfoldable pub verify_recorded_artifacts : Limits → AttemptDirectory Payload → Result Error Seen
  verify_recorded_artifacts limits dir = verify_receipts dir limits (0, 0) (by_name dir.receipts)

-- `{Path(value).resolve(strict=True) for value in paths}`, each resolved path once
abbrev pub resolve_all :
    (String → Option DiskFile) → List String → List String → Result Error (List String)
resolve_all disk found [] = ok found
resolve_all disk found (path ∷ rest) = elim (disk path) [
  | none ↦ err missing_artifact
  | some file ↦
      resolve_all disk (if elem file.resolved found then found else found ++ file.resolved ∷ [])
        rest
]

-- The loop of `_artifact_ledger` over the resolved paths.
abbrev pub list_artifacts :
    {Payload : Type 0}
    → AttemptDirectory Payload
    → Limits
    → ℕ
    → List String
    → Result Error (List Artifact)
list_artifacts dir limits total [] = ok []
list_artifacts dir limits total (path ∷ rest) = elim (dir.disk path) [
  | none ↦ err missing_artifact
  | some file ↦
      (require file.is_inside escaped_artifact)
      >> (require file.is_plain artifact_not_plain)
      >> (refuse (ltb limits.max_bytes (total + file.bytes)) artifact_bounds)
      >> (list_artifacts dir limits (total + file.bytes) rest >>= λ more.
          ok (record { path = path; sha256 = file.sha256; bytes = file.bytes } ∷ more))
]

unfoldable pub artifact_ledger :
    {Payload : Type 0}
    → AttemptDirectory Payload
    → Limits
    → List String
    → Result Error (List Artifact)
artifact_ledger dir limits paths = do
  resolved ← resolve_all dir.disk [] paths
  require (leb (length resolved) limits.max_files) artifact_bounds
  list_artifacts dir limits 0 (sort_texts resolved)
