-- ===== src/Candidates/Aliases/Symmetric.antt =====
-- The neighbours along `variant_of` edges are each other's neighbours.
use kcd2_codex_toolkit.Base.{
  String, Bool, true, false, List, [], ◌∷◌, ◌++◌, if◌then◌else◌, ◌==◌, ◌&&◌, ◌||◌, text_has_eq,
  elem, ◌≡◌, refl, sym, ◌∙◌, arith, Bool-cases, inl, inr,
}
use kcd2_codex_toolkit.Candidates.Record.{CandidateRecord, LineageEdge}
use kcd2_codex_toolkit.Candidates.Aliases.{edge_neighbors, neighbors}

elem-append : (x : String) (l m : List String) → elem x (l ++ m) ≡ (elem x l || elem x m)
unfolding elem
elem-append x [] m = refl
elem-append x (y ∷ l) m = ground (arith, elem-append x l m)

elem-if_three :
    (x o o' : String) (p p' : Bool) (l : List String)
    → elem x ((if p then o ∷ [] else []) ++ (if p' then o' ∷ [] else []) ++ l)
      ≡ (p && x == o || (p' && x == o' || elem x l))
unfolding elem
elem-if_three x o o' true true l = ground arith
elem-if_three x o o' true false l = ground arith
elem-if_three x o o' false true l = ground arith
elem-if_three x o o' false false l = refl

flip : (a b : String) → (a == b) ≡ (b == a)
flip a b = ground (arith, text_has_eq.eq_iff a b, text_has_eq.eq_iff b a)

edges_flip :
    (p q r s p' q' r' s' e e' : Bool)
    → p ≡ s'
    → q ≡ r'
    → r ≡ q'
    → s ≡ p'
    → e ≡ e'
    → (p && q || (r && s || e)) ≡ (p' && q' || (r' && s' || e'))
edges_flip p q r s p' q' r' s' e e' h1 h2 h3 h4 h5 = ground (arith, h1, h2, h3, h4, h5)

edge_neighbors-flip :
    (a b id : String) (l : List LineageEdge)
    → elem b (edge_neighbors a id l) ≡ elem a (edge_neighbors b id l)
unfolding elem
edge_neighbors-flip a b id [] = refl
edge_neighbors-flip a b id (e ∷ l) = elim (Bool-cases (e.edge_type == "variant_of")) [
  | inr n ↦ rw n (edge_neighbors-flip a b id l)
  | inl v ↦
      let other = e.other_candidate_id in
      let E1 = edge_neighbors a id l in
      let E2 = edge_neighbors b id l in
      let left = elem-if_three b other id (id == a) (other == a) E1 in
      let right = elem-if_three a other id (id == b) (other == b) E2 in
      rw v (
        left
        ∙ edges_flip (id == a) (b == other) (other == a) (b == id) (id == b) (a == other)
            (other == b) (a == id) (elem b E1) (elem a E2) (flip id a) (flip b other) (flip other a)
            (flip b id) (edge_neighbors-flip a b id l)
        ∙ sym right)
]

both_or : {p q p' q' : Bool} → p ≡ p' → q ≡ q' → (p || q) ≡ (p' || q')
both_or h k = λ i. h i || k i

pub neighbors-flip :
    (a b : String) (records : List CandidateRecord)
    → elem b (neighbors records a) ≡ elem a (neighbors records b)
unfolding elem neighbors
neighbors-flip a b [] = refl
neighbors-flip a b (r ∷ records) =
    elem-append b (edge_neighbors a r.candidate_id r.lineage) (neighbors records a)
    ∙ both_or (edge_neighbors-flip a b r.candidate_id r.lineage) (neighbors-flip a b records)
    ∙ sym (elem-append a (edge_neighbors b r.candidate_id r.lineage) (neighbors records b))
