-- ===== src/Correlation/Evidence.antt =====
-- Citations and locations that are bound to the module.
use kcd2_codex_toolkit.Correlation.Added.{
  unless-nil, ⊕-nil, both-true, some-true, in_set-eq, text_passes-eq,
}
use kcd2_codex_toolkit.Base.{
  ◌≤◌, String, true, ◌&&◌, Option, some, [], ◌∷◌, leb, text_has_eq, nat_has_eq, elem, ◌≡◌, inl, inr,
  refl, arith, Option-cases, &&-true,
}
use kcd2_codex_toolkit.Base.Json.{
  Json, null, bool, int, str, arr, obj, Items, nil, cons, Fields, get, array_in, count,
}
use kcd2_codex_toolkit.Base.Json.Values.{array_in-eq}
use kcd2_codex_toolkit.Correlation.Proof.{
  in_set, both, is_rva, same_hash, is_of_class, is_bound_citation, is_citation, all_citations,
  valid_evidence, validate_location,
}

module _ (casefold : String → String) (module_sha256 : String) where
  -- A citation: an object of a class that is asked for, bound to the module.
  unfoldable pub IsCitation : Option String → Json → Type 0
  IsCitation required value =
      (citation : Fields) × (value ≡ obj citation)
      × ((c : String) × (get "evidence_class" citation ≡ some (str c))
          × (elem c ("static" ∷ "runtime" ∷ []) ≡ true))
      × (is_of_class required (get "evidence_class" citation) ≡ true)
      × (is_bound_citation casefold module_sha256 citation ≡ true)

  abbrev pub AreCitations : Option String → Items → Type 0
  AreCitations required nil = Unit
  AreCitations required (cons x xs) = IsCitation required x × AreCitations required xs

  pub is_citation-IsCitation :
      (required : Option String) (value : Json)
      → is_citation casefold required module_sha256 value ≡ some true
      → IsCitation required value
  unfolding is_citation IsCitation
  is_citation-IsCitation required (obj citation) h =
      let (known, rest) =
        both-true (in_set ("static" ∷ "runtime" ∷ []) (get "evidence_class" citation)) _ h in
      let (of_class, bound) =
        &&-true (is_of_class required (get "evidence_class" citation))
          (is_bound_citation casefold module_sha256 citation) (some-true _ rest) in
      (
        citation,
        refl,
        in_set-eq ("static" ∷ "runtime" ∷ []) (get "evidence_class" citation) known,
        of_class,
        bound,
      )
  is_citation-IsCitation required null h = ground (arith, h)
  is_citation-IsCitation required (bool b) h = ground (arith, h)
  is_citation-IsCitation required (int n) h = ground (arith, h)
  is_citation-IsCitation required (str s) h = ground (arith, h)
  is_citation-IsCitation required (arr xs) h = ground (arith, h)

  pub all_citations-AreCitations :
      (required : Option String) (xs : Items)
      → all_citations casefold required module_sha256 xs ≡ some true
      → AreCitations required xs
  all_citations-AreCitations required nil h = tt
  all_citations-AreCitations required (cons x xs) h =
      let (here, there) =
        both-true (is_citation casefold required module_sha256 x)
          (all_citations casefold required module_sha256 xs) h in
      (is_citation-IsCitation required x here, all_citations-AreCitations required xs there)

  -- From 1 to 256 citations.
  unfoldable pub IsEvidence : Option String → Option Json → Type 0
  IsEvidence required value =
      (xs : Items) × (value ≡ some (arr xs))
      × (1 ≤ count xs)
      × (count xs ≤ 256)
      × AreCitations required xs

  pub valid_evidence-IsEvidence :
      (required : Option String) (v : Option Json)
      → valid_evidence casefold required module_sha256 v ≡ some true
      → IsEvidence required v
  unfolding valid_evidence IsEvidence
  valid_evidence-IsEvidence required v h = elim (Option-cases (array_in v)) [
    | inl e ↦ ground (arith, e, h)
    | inr (xs, e) ↦
        let body : both (some (leb 1 (count xs) && leb (count xs) 256))
              (all_citations casefold required module_sha256 xs)
            ≡ some true =
          ground (arith, e, h) in
        let (sized, all) = both-true (some (leb 1 (count xs) && leb (count xs) 256)) _ body in
        let bounds = some-true (leb 1 (count xs) && leb (count xs) 256) sized in
        (
          xs,
          array_in-eq v xs e,
          ground (arith, bounds),
          ground (arith, bounds),
          all_citations-AreCitations required xs all,
        )
  ]

  -- A location of the module: its digest, up to case, and a relative address.
  unfoldable pub IsLocated : Fields → String → Type 0
  IsLocated fields rva_field =
      (same_hash casefold (get "module_sha256" fields) module_sha256 ≡ true)
      × ((rva : String) × (get rva_field fields ≡ some (str rva)) × (is_rva rva ≡ true))

  pub validate_location-IsLocated :
      (fields : Fields) (rva_field path : String)
      → validate_location casefold fields module_sha256 rva_field path ≡ some []
      → IsLocated fields rva_field
  unfolding validate_location IsLocated
  validate_location-IsLocated fields rva_field path h =
      let (bound, address) = ⊕-nil _ _ h in
      (
        unless-nil _ _ _ bound,
        text_passes-eq is_rva (get rva_field fields) (unless-nil _ _ _ address),
      )
