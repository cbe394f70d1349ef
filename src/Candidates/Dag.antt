-- ===== src/Candidates/Dag.antt =====
-- `_validate_acyclic`: the depth-first search for a cycle of the lineage. The search recurses, and
-- `frames` is the number of calls that the interpreter still allows before it raises RecursionError.
pub mod Sound
pub mod Complete
use kcd2_codex_toolkit.Base.{
  ℕ, zero, suc, String, Bool, true, false, Option, none, some, List, [], ◌∷◌, map, if◌then◌else◌,
  ◌==◌, text_has_eq, elem, length, Result, ok, err, ◌>>=◌, sort_texts, lookup, keys,
}
use kcd2_codex_toolkit.Candidates.Identity.{Error, lineage_cycle, missing_key, recursion_error}
use kcd2_codex_toolkit.Candidates.Record.{CandidateRecord, LineageEdge}

abbrev pub record_key : CandidateRecord → String
record_key r = r.candidate_id

-- `by_id`: the identifiers of the records are distinct
abbrev pub find_record : String → List CandidateRecord → Option CandidateRecord
find_record = lookup record_key

abbrev pub ids : List CandidateRecord → List String
ids = keys record_key

abbrev pub targets : CandidateRecord → List String
targets r = map (λ (e : LineageEdge). e.other_candidate_id) r.lineage

-- A loop whose body may raise.
abbrev pub fold_all : {A B : Type 0} → (B → A → Result Error B) → B → List A → Result Error B
fold_all step b [] = ok b
fold_all step b (x ∷ xs) = step b x >>= λ c. fold_all step c xs

module _ (records : List CandidateRecord) where
  -- `visit`. The set `visiting` is passed down, since each call leaves it as it found it; `visited`
  -- is passed on.
  unfoldable pub visit : ℕ → List String → List String → String → Result Error (List String)
  visit zero visiting visited id = err recursion_error
  visit (suc frames) visiting visited id = elim (elem id visiting) [
    | true ↦ err (lineage_cycle id)
    | false ↦ elim (elem id visited) [
      | true ↦ ok visited
      | false ↦ elim (find_record id records) [
        | none ↦ err (missing_key id)
        | some r ↦
            fold_all (visit frames (id ∷ visiting)) visited (targets r) >>= λ seen. ok (id ∷ seen)
      ]
    ]
  ]

  unfoldable pub validate_acyclic : ℕ → Result Error (List String)
  validate_acyclic frames = fold_all (visit frames []) [] (sort_texts (ids records))
