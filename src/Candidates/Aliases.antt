-- ===== src/Candidates/Aliases.antt =====
-- `_validate_aliases`: candidates that share a label have one variant key and are joined by
-- `variant_of` edges. `casefold` stands for Python's `str.casefold`.
pub mod Symmetric
pub mod Joined
pub mod Pairs
pub mod Ends
use kcd2_codex_toolkit.Base.{
  ℕ, zero, suc, String, Bool, true, false, not, ◌&&◌, Option, none, some, List, [], ◌∷◌, ◌++◌, map,
  ltb, if◌then◌else◌, ◌==◌, text_has_eq, elem, length, all_of, str_leb, Result, ok, err, ◌>>=◌,
  ◌>>◌, require,
}
use kcd2_codex_toolkit.Candidates.Identity.{Error, out_of_fuel, no_variant_key, no_variant_edges}
use kcd2_codex_toolkit.Candidates.Record.{CandidateRecord, CandidateAlias, LineageEdge}

-- An alias with the candidate that has it.
abbrev pub Entry : Type 0
Entry = String × CandidateAlias

-- Each value once, at its first place.
abbrev pub distinct_from : List String → List String → List String
distinct_from seen [] = []
distinct_from seen (v ∷ rest) =
    if elem v seen then distinct_from seen rest else v ∷ distinct_from (v ∷ seen) rest

abbrev pub entries : List CandidateRecord → List Entry
entries [] = []
entries (r ∷ rest) = map (λ a. (r.candidate_id, a)) r.aliases ++ entries rest

-- `None not in variant_keys and len(variant_keys) == 1`
abbrev pub is_key : String → Option String → Bool
is_key k none = false
is_key k (some l) = k == l

abbrev pub has_shared_key : List Entry → Bool
has_shared_key [] = false
has_shared_key ((id, a) ∷ rest) = elim a.variant_key [
  | none ↦ false
  | some k ↦ all_of (λ (m : Entry). is_key k m.1.variant_key) rest
]

-- `min(candidate_ids)`
abbrev pub least_text : String → List String → String
least_text s [] = s
least_text s (t ∷ rest) = least_text (if str_leb s t then s else t) rest

-- What one `variant_of` edge adds to the neighbours of a candidate.
abbrev pub edge_neighbors : String → String → List LineageEdge → List String
edge_neighbors c id [] = []
edge_neighbors c id (e ∷ rest) =
    let other = e.other_candidate_id in
    let more = edge_neighbors c id rest in
    if e.edge_type == "variant_of"
    then (if id == c then other ∷ [] else []) ++ (if other == c then id ∷ [] else []) ++ more
    else more

-- `variant_neighbors[c]`
unfoldable pub neighbors : List CandidateRecord → String → List String
neighbors [] c = []
neighbors (r ∷ rest) c = edge_neighbors c r.candidate_id r.lineage ++ neighbors rest c

-- The candidates reached, and those whose neighbours are still to be seen, the last pushed first.
pub record Spread : Type 0 where
  pub reachable : List String
  pub pending : List String

-- The body of the loop over the neighbours.
abbrev pub offer : Spread → String → Spread
offer s n =
    if elem n s.reachable
    then s
    else record { reachable = n ∷ s.reachable; pending = n ∷ s.pending }

abbrev pub offer_all : Spread → List String → Spread
offer_all s [] = s
offer_all s (n ∷ rest) = offer_all (offer s n) rest

abbrev pub candidate_ids : List Entry → List String
candidate_ids members = distinct_from [] (map (λ (m : Entry). m.0) members)

module _ (records : List CandidateRecord) where
  -- The `while` loop: each candidate is pushed once, so their number is enough fuel.
  unfoldable pub spread : ℕ → Spread → Result Error (List String)
  spread zero s = elim s.pending [ [] ↦ ok s.reachable | _ ∷ _ ↦ err out_of_fuel ]
  spread (suc fuel) s = elim s.pending [
    | [] ↦ ok s.reachable
    | c ∷ rest ↦
        spread fuel
          (offer_all (record { reachable = s.reachable; pending = rest }) (neighbors records c))
  ]

  unfoldable pub reached : String → Result Error (List String)
  reached start = spread (length records) (record { reachable = start ∷ []; pending = start ∷ [] })

  -- The body of the loop over the labels, for the members of one label and their distinct identifiers.
  unfoldable pub check_shared : String → List Entry → List String → Result Error Unit
  check_shared label members [] = ok tt
  check_shared label members (only ∷ []) = ok tt
  check_shared label members (first ∷ second ∷ rest) = do
    require (has_shared_key members) (no_variant_key label)
    reachable ← reached (least_text first (second ∷ rest))
    require (all_of (λ id. elem id reachable) (first ∷ second ∷ rest)) (no_variant_edges label)

module _ (casefold : String → String) where
  abbrev pub label_of : Entry → String
  label_of m = casefold m.1.label

  -- `label_members[label]`
  abbrev pub members : String → List Entry → List Entry
  members label [] = []
  members label (m ∷ rest) =
      if label_of m == label then m ∷ members label rest else members label rest

  abbrev pub labels : List Entry → List String
  labels entries = distinct_from [] (map label_of entries)

  abbrev pub check_labels : List CandidateRecord → List String → Result Error Unit
  check_labels records [] = ok tt
  check_labels records (label ∷ rest) =
      let shared = members label (entries records) in
      check_shared records label shared (candidate_ids shared) >> check_labels records rest

  unfoldable pub validate_aliases : List CandidateRecord → Result Error Unit
  validate_aliases records = check_labels records (labels (entries records))
