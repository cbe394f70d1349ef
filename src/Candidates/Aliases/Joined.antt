-- ===== src/Candidates/Aliases/Joined.antt =====
-- The search along `variant_of` edges ends with the fuel that it is given, and what it reaches is
-- joined to its start.
use kcd2_codex_toolkit.Base.{
  ℕ, zero, suc, String, Bool, true, false, List, [], ◌∷◌, if◌then◌else◌, text_has_eq, elem, length,
  all_of-All, ok, require, >>=-eq-ok, require-eq-ok, All, All-elem, ◌≡◌, subst, arith,
}
use kcd2_codex_toolkit.Candidates.Identity.{no_variant_key, no_variant_edges}
use kcd2_codex_toolkit.Candidates.Record.{CandidateRecord}
use kcd2_codex_toolkit.Candidates.Aliases.{
  Entry, entries, has_shared_key, least_text, neighbors, Spread, offer, offer_all, spread, reached,
  check_shared, candidate_ids, members, labels, check_labels, validate_aliases,
}

-- Walks along `variant_of` edges, in either direction.
pub data Joined (records : List CandidateRecord) (a : String) : String → Type 0 where
  start_here : Joined records a a
  step :
      {b c : String} → Joined records a b → elem c (neighbors records b) ≡ true → Joined records a c

module _ (records : List CandidateRecord) (start : String) where
  offer_all-Joined :
      (s : Spread) (c : String) (l : List String)
      → ((n : String) → elem n l ≡ true → elem n (neighbors records c) ≡ true)
      → Joined records start c
      → All (Joined records start) s.reachable × All (Joined records start) s.pending
      → All (Joined records start) (offer_all s l).reachable
        × All (Joined records start) (offer_all s l).pending
  unfolding elem
  offer_all-Joined s c [] sub j h = h
  offer_all-Joined s c (n ∷ l) sub j (hr, hp) =
      offer_all-Joined (offer s n) c l (λ m e. sub m (ground (arith, e))) j
        (offered (elem n s.reachable))
    where
      offered :
          (b : Bool)
          → All
              (Joined records start)
              (if b
                then s
                else record { reachable = n ∷ s.reachable; pending = n ∷ s.pending }).reachable
            × All
                (Joined records start)
                (if b
                  then s
                  else record { reachable = n ∷ s.reachable; pending = n ∷ s.pending }).pending
      offered true = (hr, hp)
      offered false =
          let k = step j (sub n (ground (arith, text_has_eq.eq_iff n n))) in ((k, hr), (k, hp))

  spread-Joined :
      (fuel : ℕ) (reachable pending seen : List String)
      → All (Joined records start) reachable
      → All (Joined records start) pending
      → spread records fuel (record { reachable = reachable; pending = pending }) ≡ ok seen
      → All (Joined records start) seen
  unfolding spread
  spread-Joined zero reachable [] seen hr hp h =
      subst (All (Joined records start)) (ground (arith, h)) hr
  spread-Joined zero reachable (c ∷ pending) seen hr hp h = cc
  spread-Joined (suc fuel) reachable [] seen hr hp h =
      subst (All (Joined records start)) (ground (arith, h)) hr
  spread-Joined (suc fuel) reachable (c ∷ pending) seen hr hp h =
      let (kr, kp) =
        offer_all-Joined (record { reachable = reachable; pending = pending }) c
          (neighbors records c) (λ n e. e) hp.0 (hr, hp.1) in
      spread-Joined fuel _ _ seen kr kp h

  pub reached-Joined :
      (seen : List String) → reached records start ≡ ok seen → All (Joined records start) seen
  unfolding reached
  reached-Joined seen h =
      spread-Joined (length records) (start ∷ []) (start ∷ []) seen (start_here, tt)
        (start_here, tt) h

-- The members of a label are one candidate, or they have one variant key and are all joined to one
-- candidate.
abbrev pub IsShared : List CandidateRecord → List Entry → List String → Type 0
IsShared records shared [] = Unit
IsShared records shared (only ∷ []) = Unit
IsShared records shared (x ∷ y ∷ rest) =
    (has_shared_key shared ≡ true) × ((start : String) × All (Joined records start) (x ∷ y ∷ rest))

All-Joined :
    (records : List CandidateRecord) (start : String) (seen l : List String)
    → All (Joined records start) seen
    → All (λ id. elem id seen ≡ true) l
    → All (Joined records start) l
All-Joined records start seen [] h k = tt
All-Joined records start seen (x ∷ l) h k =
    (All-elem (Joined records start) seen h x k.0, All-Joined records start seen l h k.1)

check_shared-IsShared :
    (records : List CandidateRecord) (label : String) (shared : List Entry) (ids : List String)
    → check_shared records label shared ids ≡ ok tt
    → IsShared records shared ids
unfolding check_shared
check_shared-IsShared records label shared [] h = tt
check_shared-IsShared records label shared (only ∷ []) h = tt
check_shared-IsShared records label shared (x ∷ y ∷ rest) h =
    let first = least_text x (y ∷ rest) in
    let (_, keyed, more) = >>=-eq-ok (require (has_shared_key shared) (no_variant_key label)) _ h in
    let (seen, found, all) = >>=-eq-ok (reached records first) _ more in
    (
      require-eq-ok (has_shared_key shared) (no_variant_key label) keyed,
      (
        first,
        All-Joined records first seen (x ∷ y ∷ rest) (reached-Joined records first seen found) (
            all_of-All (λ id. elem id seen) (x ∷ y ∷ rest)
              (require-eq-ok _ (no_variant_edges label) all)),
      ),
    )

-- Every label of the registry.
abbrev pub IsUnambiguous : (String → String) → List CandidateRecord → String → Type 0
IsUnambiguous casefold records label =
    let shared = members casefold label (entries records) in
    IsShared records shared (candidate_ids shared)

check_labels-All :
    (casefold : String → String) (records : List CandidateRecord) (l : List String)
    → check_labels casefold records l ≡ ok tt
    → All (IsUnambiguous casefold records) l
check_labels-All casefold records [] h = tt
check_labels-All casefold records (label ∷ l) h =
    let shared = members casefold label (entries records) in
    let (_, first, rest) =
      >>=-eq-ok (check_shared records label shared (candidate_ids shared)) _ h in
    (
      check_shared-IsShared records label shared (candidate_ids shared) first,
      check_labels-All casefold records l rest,
    )

-- Where the check of the aliases passes, it has passed for every label.
pub validate_aliases-IsUnambiguous :
    (casefold : String → String) (records : List CandidateRecord)
    → validate_aliases casefold records ≡ ok tt
    → All (IsUnambiguous casefold records) (labels casefold (entries records))
unfolding validate_aliases
validate_aliases-IsUnambiguous casefold records h =
    check_labels-All casefold records (labels casefold (entries records)) h
