-- ===== src/Attempts/Load.antt =====
-- `_load_attempt`: an attempt directory and what its receipts say.
use kcd2_codex_toolkit.Base.{
  ℕ, ◌+◌, suc, String, Bool, false, not, ◌&&◌, ◌||◌, Option, none, some, List, [], ◌∷◌, ◌++◌, map,
  leb, ltb, if◌then◌else◌, length, is_empty, sort_by, str_leb, Result, ok, err, ◌>>=◌, ◌>>◌,
  require, refuse,
}
use kcd2_codex_toolkit.Attempts.Phase.{
  AttemptPhase, Error, bad_root, no_receipts, too_many_receipts, tree_reparse, tree_too_large,
}
use kcd2_codex_toolkit.Attempts.Receipt.{Document, ReceiptFile, Walk, at_start, walk_receipts}

-- An entry that `rglob("*")` lists.
pub record TreeEntry : Type 0 where
  pub bytes : ℕ
  pub is_file : Bool
  pub is_reparse : Bool

-- What a path leads to, once resolved.
pub record DiskFile : Type 0 where
  pub resolved : String
  pub is_inside : Bool
  pub is_plain : Bool
  pub bytes : ℕ
  pub sha256 : String

-- A directory below the transaction root: its receipts, what else its tree holds, and the files
-- that paths lead to. `is_plain` says that it is a directory of the root and no reparse point.
pub record AttemptDirectory (Payload : Type 0) : Type 0 where
  pub name : String
  pub is_plain : Bool
  pub receipts : List (ReceiptFile Payload)
  pub others : List TreeEntry
  pub disk : String → Option DiskFile

pub record TransactionAttempt : Type 0 where
  pub attempt_id : String
  pub input_sha256 : String
  pub phase : AttemptPhase
  pub last_receipt : String
  pub last_receipt_sha256 : String
  pub resumed : Bool

pub record Limits : Type 0 where
  pub max_files : ℕ
  pub max_bytes : ℕ

-- `sorted(resolved.glob(...))`
abbrev pub by_name : {Payload : Type 0} → List (ReceiptFile Payload) → List (ReceiptFile Payload)
by_name = sort_by (λ a b. str_leb a.name b.name)

abbrev pub last_name : {Payload : Type 0} → String → List (ReceiptFile Payload) → String
last_name name [] = name
last_name name (file ∷ rest) = last_name file.name rest

-- The loop of `_enforce_tree_bounds`, from the counters on.
abbrev pub check_tree : Limits → ℕ → ℕ → List TreeEntry → Result Error Unit
check_tree limits count total [] = ok tt
check_tree limits count total (entry ∷ rest) =
    let files = if entry.is_file then suc count else count in
    let bytes = if entry.is_file then total + entry.bytes else total in
    let more = check_tree limits files bytes rest in
    if entry.is_reparse
    then err tree_reparse
    else if entry.is_file && (ltb limits.max_files files || ltb limits.max_bytes bytes)
    then err tree_too_large
    else more

module _ {Payload : Type 0} (decode : Payload → Option Document) (sha256 : Payload → String)
    (size : Payload → ℕ) where
  abbrev pub tree : AttemptDirectory Payload → List TreeEntry
  tree dir =
      map
        (λ (f : ReceiptFile Payload). record {
          bytes = size f.payload;
          is_file = f.is_plain;
          is_reparse = not f.is_plain;
        })
        dir.receipts
      ++ dir.others

  -- What the last walk says; the source asserts that none of its variables is `None`.
  abbrev pub attempt_of : AttemptDirectory Payload → Walk → Result Error TransactionAttempt
  attempt_of dir walk = elim walk.previous [
    | none ↦ err no_receipts
    | some previous ↦ elim walk.input_sha256 [
      | none ↦ err no_receipts
      | some input ↦ elim walk.phase [
        | none ↦ err no_receipts
        | some phase ↦ ok (record {
          attempt_id = dir.name;
          input_sha256 = input;
          phase = phase;
          last_receipt = last_name "" (by_name dir.receipts);
          last_receipt_sha256 = previous;
          resumed = false;
        })
      ]
    ]
  ]

  unfoldable pub load_attempt : Limits → AttemptDirectory Payload → Result Error TransactionAttempt
  load_attempt limits dir = do
    require dir.is_plain bad_root
    refuse (is_empty dir.receipts) no_receipts
    require (leb (length dir.receipts) 9) too_many_receipts
    walk ← walk_receipts decode sha256 size dir.name at_start (by_name dir.receipts)
    check_tree limits 0 0 (tree dir)
    attempt_of dir walk
