-- ===== src/Correlation/Added.antt =====
-- When a validator adds nothing.
use kcd2_codex_toolkit.Base.{
  String, Bool, true, false, Option, none, some, List, [], ◌∷◌, text_has_eq, nat_has_eq, elem, ◌≡◌,
  inl, inr, refl, ap, arith, Option-cases,
}
use kcd2_codex_toolkit.Base.Json.{Json, null, bool, int, str, arr, obj, text_in}
use kcd2_codex_toolkit.Base.Json.Values.{text_in-eq}
use kcd2_codex_toolkit.Correlation.Proof.{Added, unless, unless_of, ◌⊕◌, in_set, both, text_passes}

pub unless-nil : (b : Bool) (code path : String) → unless b code path ≡ some [] → b ≡ true
unless-nil true code path h = refl
unless-nil false code path h = ground (arith, h)

pub unless_of-nil :
    (o : Option Bool) (code path : String) → unless_of o code path ≡ some [] → o ≡ some true
unless_of-nil none code path h = cc
unless_of-nil (some b) code path h = ap some (unless-nil b code path h)

pub ⊕-nil : (a b : Added) → a ⊕ b ≡ some [] → (a ≡ some []) × (b ≡ some [])
unfolding ◌⊕◌
⊕-nil none b h = cc
⊕-nil (some []) none h = cc
⊕-nil (some []) (some l) h = (refl, h)
⊕-nil (some (d ∷ l)) none h = cc
⊕-nil (some (d ∷ l)) (some m) h = ground (arith, h)

pub both-true : (a b : Option Bool) → both a b ≡ some true → (a ≡ some true) × (b ≡ some true)
both-true none b h = cc
both-true (some true) b h = (refl, h)
both-true (some false) b h = ground (arith, h)

pub some-true : (b : Bool) → some b ≡ some true → b ≡ true
some-true b h = ground (arith, h)

pub in_set-eq :
    (names : List String) (v : Option Json)
    → in_set names v ≡ some true
    → (s : String) × (v ≡ some (str s)) × (elem s names ≡ true)
unfolding in_set
in_set-eq names (some (str s)) h = (s, refl, some-true (elem s names) h)
in_set-eq names none h = ground (arith, h)
in_set-eq names (some null) h = ground (arith, h)
in_set-eq names (some (bool b)) h = ground (arith, h)
in_set-eq names (some (int n)) h = ground (arith, h)
in_set-eq names (some (arr x)) h = cc
in_set-eq names (some (obj x)) h = cc

pub text_passes-eq :
    (test : String → Bool) (v : Option Json)
    → text_passes test v ≡ true
    → (s : String) × (v ≡ some (str s)) × (test s ≡ true)
text_passes-eq test v h = elim (Option-cases (text_in v)) [
  | inl e ↦ ground (arith, e, h)
  | inr (s, e) ↦ (s, text_in-eq v s e, ground (arith, e, h))
]
