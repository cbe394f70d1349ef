-- ===== src/Candidates/Aliases/Ends.antt =====
-- The search along `variant_of` edges ends with the fuel that it is given: each registered candidate
-- is pushed once.
use kcd2_codex_toolkit.Base.{
  ℕ, zero, suc, ◌+◌, ◌≤◌, String, Bool, true, false, List, [], ◌∷◌, map, if◌then◌else◌, ◌==◌,
  text_has_eq, elem, length, ok, All, All-append, All-if, ◌≡◌, refl, arith, Bool-cases, inl, inr,
}
use kcd2_codex_toolkit.Candidates.Record.{CandidateRecord, LineageEdge}
use kcd2_codex_toolkit.Candidates.Dag.{ids, targets}
use kcd2_codex_toolkit.Candidates.Dag.Complete.{remaining, remaining-<, remaining-nil}
use kcd2_codex_toolkit.Candidates.Aliases.{
  edge_neighbors, neighbors, Spread, offer, offer_all, spread, reached,
}

module _ (P : String → Type 0) where
  All-one : (b : Bool) (x : String) → P x → All P (if b then x ∷ [] else [])
  All-one true x h = (h, tt)
  All-one false x h = tt

  edge_neighbors-All :
      (c id : String) (l : List LineageEdge)
      → P id
      → All P (map (λ (e : LineageEdge). e.other_candidate_id) l)
      → All P (edge_neighbors c id l)
  edge_neighbors-All c id [] p h = tt
  edge_neighbors-All c id (e ∷ l) p h =
      let more = edge_neighbors-All c id l p h.1 in
      All-if P (e.edge_type == "variant_of") _ _
        (All-append P _ _
          (All-append P _ _ (All-one (id == c) e.other_candidate_id h.0)
            (All-one (e.other_candidate_id == c) id p))
          more)
        more

  pub neighbors-All :
      (l : List CandidateRecord) (c : String)
      → All (λ r. P r.candidate_id × All P (targets r)) l
      → All P (neighbors l c)
  unfolding neighbors
  neighbors-All [] c h = tt
  neighbors-All (r ∷ l) c h =
      All-append P (edge_neighbors c r.candidate_id r.lineage) (neighbors l c)
        (edge_neighbors-All c r.candidate_id r.lineage h.0.0 h.0.1) (neighbors-All l c h.1)

-- Every candidate that an edge joins is registered.
abbrev pub IsKnown : List CandidateRecord → String → Type 0
IsKnown records t = elem t (ids records) ≡ true

module _ (records : List CandidateRecord) where
  -- Candidates not reached yet, and those to be looked at.
  abbrev work : Spread → ℕ
  work s = remaining s.reachable (ids records) + length s.pending

  offer-work : (s : Spread) (n : String) → IsKnown records n → work (offer s n) ≤ work s
  offer-work s n known = elim (Bool-cases (elem n s.reachable)) [
    | inl e ↦ ground (arith, e)
    | inr e ↦ ground (arith, e, remaining-< n s.reachable (ids records) known e)
  ]

  offer_all-work :
      (s : Spread) (l : List String) → All (IsKnown records) l → work (offer_all s l) ≤ work s
  offer_all-work s [] h = ground arith
  offer_all-work s (n ∷ l) h = ground (arith, offer-work s n h.0, offer_all-work (offer s n) l h.1)

  spread_ends :
      (fuel : ℕ) (reachable pending : List String)
      → ((c : String) → All (IsKnown records) (neighbors records c))
      → remaining reachable (ids records) + length pending ≤ fuel
      → (seen : List String) × (spread records fuel
            (record { reachable = reachable; pending = pending })
          ≡ ok seen)
  unfolding spread
  spread_ends zero reachable [] known h = (reachable, refl)
  spread_ends zero reachable (c ∷ pending) known h = absurd (omega arith)
  spread_ends (suc fuel) reachable [] known h = (reachable, refl)
  spread_ends (suc fuel) reachable (c ∷ pending) known h =
      let s : Spread = record { reachable = reachable; pending = pending } in
      spread_ends fuel (offer_all s (neighbors records c)).reachable
        (offer_all s (neighbors records c)).pending known
        (let shrinks = offer_all-work s (neighbors records c) (known c) in
          omega (arith, shrinks, h))

  -- From a registered candidate, in a registry whose edges name registered candidates, the search
  -- ends with what it reaches.
  pub reached_ends :
      (start : String)
      → IsKnown records start
      → All (λ r. IsKnown records r.candidate_id × All (IsKnown records) (targets r)) records
      → (seen : List String) × (reached records start ≡ ok seen)
  unfolding reached elem
  reached_ends start known all =
      spread_ends (length records) (start ∷ []) (start ∷ [])
        (λ c. neighbors-All (IsKnown records) records c all)
        (omega (arith, remaining-nil records, remaining-< start [] (ids records) known refl))
