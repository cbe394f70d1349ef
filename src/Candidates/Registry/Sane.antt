-- ===== src/Candidates/Registry/Sane.antt =====
-- The checks of the registry raise errors of the program and no others.
use kcd2_codex_toolkit.Base.{
  String, Bool, true, false, List, [], ◌∷◌, map, if◌then◌else◌, ◌==◌, text_has_eq, nat_has_eq, elem,
  all_of, str_leb, Result, ok, err, ◌>>=◌, require, All, All-map, All-append, All-if, ◌≡◌, refl,
  sym, arith, subst,
}
use kcd2_codex_toolkit.Candidates.Identity.{
  Error, out_of_fuel, recursion_error, missing_key, no_variant_key, no_variant_edges,
}
use kcd2_codex_toolkit.Candidates.Record.{CandidateRecord, CandidateAlias}
use kcd2_codex_toolkit.Candidates.Dag.{targets}
use kcd2_codex_toolkit.Candidates.Aliases.{
  Entry, distinct_from, entries, members, label_of, least_text, candidate_ids, reached,
  has_shared_key, check_shared, check_labels,
}
use kcd2_codex_toolkit.Candidates.Aliases.Ends.{IsKnown, reached_ends}
use kcd2_codex_toolkit.Candidates.Registry.{each, check_parent}

-- An error that the program raises.
abbrev pub is_raised : Error → Bool
is_raised out_of_fuel = false
is_raised recursion_error = false
is_raised (missing_key id) = false
is_raised _ = true

unfoldable pub IsSane : {A : Type 0} → Result Error A → Type 0
IsSane (ok a) = Unit
IsSane (err e) = is_raised e ≡ true

ok-IsSane : {A : Type 0} (a : A) → IsSane {A = A} (ok a)
unfolding IsSane
ok-IsSane a = tt

pub require-IsSane : (b : Bool) (e : Error) → is_raised e ≡ true → IsSane (require b e)
unfolding IsSane
require-IsSane true e h = tt
require-IsSane false e h = h

>>-IsSane :
    {A B : Type 0} (m : Result Error A) (k : A → Result Error B)
    → IsSane m
    → ((a : A) → m ≡ ok a → IsSane (k a))
    → IsSane (m >>= k)
unfolding IsSane
>>-IsSane (ok a) k h next = next a refl
>>-IsSane (err e) k h next = h

pub each-IsSane :
    {A : Type 0} (check : A → Result Error Unit) (l : List A)
    → ((x : A) → IsSane (check x))
    → IsSane (each check l)
unfolding IsSane
each-IsSane check [] h = tt
each-IsSane check (x ∷ l) h =
    >>-IsSane (check x) (λ _. each check l) (h x) (λ _ _. each-IsSane check l h)

pub IsSane-intro :
    {A : Type 0} (m : Result Error A) → ((e : Error) → m ≡ err e → is_raised e ≡ true) → IsSane m
unfolding IsSane
IsSane-intro (ok a) h = tt
IsSane-intro (err e) h = h e refl

pub check_parent-raised :
    (records : List CandidateRecord) (r : CandidateRecord) (e : Error)
    → check_parent records r ≡ err e
    → is_raised e ≡ true
unfolding check_parent
check_parent-raised records r e h = ground (arith, h)

abbrev pub IsTargeted : List CandidateRecord → Type 0
IsTargeted records =
    All (λ r. IsKnown records r.candidate_id × All (IsKnown records) (targets r)) records

-- The members of a label are registered.
module _ (P : String → Type 0) where
  entries-All :
      (records : List CandidateRecord)
      → All (λ r. P r.candidate_id) records
      → All (λ (m : Entry). P m.0) (entries records)
  entries-All [] h = tt
  entries-All (r ∷ records) h =
      All-append (λ (m : Entry). P m.0) _ (entries records) (own r.aliases)
        (entries-All records h.1)
    where
      own :
          (l : List CandidateAlias) → All (λ (m : Entry). P m.0) (map (λ a. (r.candidate_id, a)) l)
      own [] = tt
      own (a ∷ l) = (h.0, own l)

  members-All :
      (casefold : String → String) (label : String) (l : List Entry)
      → All (λ (m : Entry). P m.0) l
      → All (λ (m : Entry). P m.0) (members casefold label l)
  members-All casefold label [] h = tt
  members-All casefold label (m ∷ l) h =
      let rest = members-All casefold label l h.1 in
      All-if (λ (m : Entry). P m.0) (label_of casefold m == label) _ _ (h.0, rest) rest

  distinct_from-All : (seen l : List String) → All P l → All P (distinct_from seen l)
  distinct_from-All seen [] h = tt
  distinct_from-All seen (x ∷ l) h =
      All-if P (elem x seen) _ _ (distinct_from-All seen l h.1)
        (h.0, distinct_from-All (x ∷ seen) l h.1)

  least_text-All : (x : String) (l : List String) → P x → All P l → P (least_text x l)
  least_text-All x [] p h = p
  least_text-All x (y ∷ l) p h =
      least_text-All (if str_leb x y then x else y) l (least (str_leb x y)) h.1
    where
      least : (b : Bool) → P (if b then x else y)
      least true = p
      least false = h.0

  ids-All : (l : List Entry) → All (λ (m : Entry). P m.0) l → All P (map (λ (m : Entry). m.0) l)
  ids-All [] h = tt
  ids-All (m ∷ l) h = (h.0, ids-All l h.1)

module _ (records : List CandidateRecord) (targeted : IsTargeted records) where
  check_shared-IsSane :
      (label : String) (shared : List Entry) (ids : List String)
      → All (IsKnown records) ids
      → IsSane (check_shared records label shared ids)
  unfolding check_shared
  check_shared-IsSane label shared [] h = ok-IsSane tt
  check_shared-IsSane label shared (x ∷ []) h = ok-IsSane tt
  check_shared-IsSane label shared (x ∷ y ∷ rest) h =
      let (seen, ends) =
        reached_ends records (least_text x (y ∷ rest))
          (least_text-All (IsKnown records) x (y ∷ rest) h.0 h.1) targeted in
      let joined : List String → Result Error Unit = λ reachable.
        require (all_of (λ id. elem id reachable) (x ∷ y ∷ rest)) (no_variant_edges label) in
      >>-IsSane (require (has_shared_key shared) (no_variant_key label))
        (λ _. reached records (least_text x (y ∷ rest)) >>= joined)
        (require-IsSane (has_shared_key shared) (no_variant_key label) refl)
        (λ _ _.
          >>-IsSane (reached records (least_text x (y ∷ rest))) joined
            (subst IsSane (sym ends) (ok-IsSane seen))
            (λ reachable _.
              require-IsSane (all_of (λ id. elem id reachable) (x ∷ y ∷ rest))
                (no_variant_edges label) refl))

  pub check_labels-IsSane :
      (casefold : String → String) (l : List String) → IsSane (check_labels casefold records l)
  check_labels-IsSane casefold [] = ok-IsSane tt
  check_labels-IsSane casefold (label ∷ rest) =
      let shared = members casefold label (entries records) in
      let known = All-map records (λ r h. h.0) targeted in
      >>-IsSane (check_shared records label shared (candidate_ids shared))
        (λ _. check_labels casefold records rest)
        (check_shared-IsSane label shared (candidate_ids shared) (
          distinct_from-All (IsKnown records) [] _ (
            ids-All (IsKnown records) shared (
              members-All (IsKnown records) casefold label (entries records)
                (entries-All (IsKnown records) records known)))))
        (λ _ _. check_labels-IsSane casefold rest)
