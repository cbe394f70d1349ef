-- ===== src/Base/Keyed.antt =====
-- Records that are told apart by a text: their keys, the one with a key, and both after sorting and
-- after an addition at the end.
use Prim.Native.String.{String}
use mathlib.Core.Path.{◌≡◌, refl}
use mathlib.Core.Bool.{Bool, true, false, not, ◌&&◌, ◌||◌}
use mathlib.Core.Option.{Option, none, some}
use mathlib.Core.List.{List, [], ◌∷◌, ◌++◌, map}
use native.Mathlib.Omega.{arith}
use kcd2_codex_toolkit.Base.Tests.{if◌then◌else◌}
use kcd2_codex_toolkit.Base.Equality.{◌==◌, text_has_eq, elem, is_unique}
use kcd2_codex_toolkit.Base.Sorting.{insert_by, sort_by}

module _ {A : Type 0} (key : A → String) where
  abbrev pub keys : List A → List String
  keys l = map key l

  -- The first record with the key; where keys are distinct, the record.
  abbrev pub lookup : String → List A → Option A
  lookup z [] = none
  lookup z (x ∷ l) = if key x == z then some x else lookup z l

module _ {A : Type 0} (key : A → String) where
  pub lookup-append_one :
      (z : String) (l : List A) (x : A)
      → lookup key z (l ++ x ∷ [])
        ≡ elim (lookup key z l) [ none ↦ if key x == z then some x else none | some y ↦ some y ]
  lookup-append_one z [] x = refl
  lookup-append_one z (y ∷ l) x = ground (arith, lookup-append_one z l x)

module _ {A : Type 0} (key : A → String) (le : A → A → Bool) where
  elem-keys-insert_by :
      (z : String) (x : A) (l : List A)
      → elem z (keys key (insert_by le x l)) ≡ (z == key x || elem z (keys key l))
  unfolding insert_by elem
  elem-keys-insert_by z x [] = refl
  elem-keys-insert_by z x (y ∷ l) = ground (arith, elem-keys-insert_by z x l)

  pub elem-keys-sort_by :
      (z : String) (l : List A) → elem z (keys key (sort_by le l)) ≡ elem z (keys key l)
  unfolding sort_by elem
  elem-keys-sort_by z [] = refl
  elem-keys-sort_by z (x ∷ l) =
      ground (arith, elem-keys-insert_by z x (sort_by le l), elem-keys-sort_by z l)

  is_unique-keys-insert_by :
      (x : A) (l : List A)
      → is_unique (keys key (insert_by le x l))
        ≡ (not (elem (key x) (keys key l)) && is_unique (keys key l))
  unfolding insert_by is_unique
  is_unique-keys-insert_by x [] = refl
  is_unique-keys-insert_by x (y ∷ l) = ground (
    arith,
    is_unique-keys-insert_by x l,
    elem-keys-insert_by (key y) x l,
    text_has_eq.eq_iff (key y) (key x),
    text_has_eq.eq_iff (key x) (key y),
  )

  pub is_unique-keys-sort_by :
      (l : List A) → is_unique (keys key (sort_by le l)) ≡ is_unique (keys key l)
  unfolding sort_by is_unique
  is_unique-keys-sort_by [] = refl
  is_unique-keys-sort_by (x ∷ l) = ground (
    arith,
    is_unique-keys-insert_by x (sort_by le l),
    elem-keys-sort_by (key x) l,
    is_unique-keys-sort_by l,
  )

  lookup-insert_by :
      (z : String) (x : A) (l : List A)
      → elem (key x) (keys key l) ≡ false
      → lookup key z (insert_by le x l) ≡ (if key x == z then some x else lookup key z l)
  unfolding insert_by elem
  lookup-insert_by z x [] h = refl
  lookup-insert_by z x (y ∷ l) h = ground (
    arith,
    lookup-insert_by z x l,
    text_has_eq.eq_iff (key x) (key y),
    text_has_eq.eq_iff (key x) z,
    text_has_eq.eq_iff (key y) z,
  )

  pub lookup-sort_by :
      (z : String) (l : List A)
      → is_unique (keys key l) ≡ true
      → lookup key z (sort_by le l) ≡ lookup key z l
  unfolding sort_by is_unique
  lookup-sort_by z [] h = refl
  lookup-sort_by z (x ∷ l) h =
      ground (
        arith,
        lookup-insert_by z x (sort_by le l),
        elem-keys-sort_by (key x) l,
        lookup-sort_by z l,
      )
