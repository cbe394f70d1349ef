-- ===== src/Base/Sorting.antt =====
-- `sorted(xs, key=...)`: a stable sort, here by insertion, with the order given as a test.
use Prim.Native.String.{String, compare}
use Prim.Native.Nat.{suc}
use mathlib.Core.Bool.{Bool, true, false, not, ◌&&◌, ◌||◌}
use mathlib.Core.Path.{◌≡◌, refl, sym, subst, ap, ◌∙◌}
use native.Mathlib.Omega.{arith}
use kcd2_codex_toolkit.Base.Lists.{any_of, All, length}
use kcd2_codex_toolkit.Base.Equality.{text_has_eq, Eq, ◌==◌, elem, is_unique}
use mathlib.Core.List.{List, [], ◌∷◌, ◌++◌, Perm}
use mathlib.Core.List.Perm
use text.Mathlib.Text.{is_le}
use kcd2_codex_toolkit.Base.Tests.{if◌then◌else◌, Bool-cases}
use mathlib.Core.Logic.{inl, inr}

module _ {ℓ} {A : Type ℓ} (le : A → A → Bool) where
  unfoldable pub insert_by : A → List A → List A
  insert_by x [] = x ∷ []
  insert_by x (y ∷ ys) = if le x y then x ∷ y ∷ ys else y ∷ insert_by x ys

  unfoldable pub sort_by : List A → List A
  unfolding insert_by
  sort_by [] = []
  sort_by (x ∷ xs) = insert_by x (sort_by xs)

  insert_by-perm : (x : A) (ys : List A) → Perm (insert_by x ys) (x ∷ ys)
  unfolding insert_by
  insert_by-perm x [] = Perm.refl _
  insert_by-perm x (y ∷ ys) = elim (Bool-cases (le x y)) [
    | inl e ↦ rw e (Perm.refl _)
    | inr e ↦ rw e (Perm.trans (Perm.cons y (insert_by-perm x ys)) (Perm.swap x y ys))
  ]

  -- Sorting keeps the items, each as often as it stood there.
  pub sort_by-perm : (xs : List A) → Perm (sort_by xs) xs
  unfolding sort_by
  sort_by-perm [] = Perm.refl []
  sort_by-perm (x ∷ xs) = Perm.trans (insert_by-perm x (sort_by xs)) (Perm.cons x (sort_by-perm xs))

-- Texts compare by code points.
abbrev pub str_leb : String → String → Bool
str_leb s t = is_le (compare s t)

unfoldable pub sort_texts : List String → List String
unfolding sort_by
sort_texts = sort_by str_leb

pub sort_by-eq-nil {ℓ} :
    {A : Type ℓ} (le : A → A → Bool) (xs : List A) → sort_by le xs ≡ [] → xs ≡ []
sort_by-eq-nil le xs h = sym (Perm.nil-eq (subst (λ l. Perm l xs) h (sort_by-perm le xs)))

module _ {ℓ} {A : Type ℓ} (le : A → A → Bool) (p : A → Bool) where
  any_of-insert_by : (x : A) (ys : List A) → any_of p (insert_by le x ys) ≡ (p x || any_of p ys)
  unfolding insert_by
  any_of-insert_by x [] = refl
  any_of-insert_by x (y ∷ ys) = ground (arith, any_of-insert_by x ys)

  pub any_of-sort_by : (xs : List A) → any_of p (sort_by le xs) ≡ any_of p xs
  unfolding sort_by
  any_of-sort_by [] = refl
  any_of-sort_by (x ∷ xs) = ground (arith, any_of-insert_by x (sort_by le xs), any_of-sort_by xs)

module _ {ℓ κ} {A : Type ℓ} (le : A → A → Bool) (P : A → Type κ) where
  All-insert_by : (x : A) (ys : List A) → P x → All P ys → All P (insert_by le x ys)
  unfolding insert_by
  All-insert_by x [] p h = (p, tt)
  All-insert_by x (y ∷ ys) p h = elim (Bool-cases (le x y)) [
    | inl e ↦ rw e (p, h)
    | inr e ↦ rw e (h.0, All-insert_by x ys p h.1)
  ]

  pub All-sort_by : (xs : List A) → All P xs → All P (sort_by le xs)
  unfolding sort_by
  All-sort_by [] h = tt
  All-sort_by (x ∷ xs) h = All-insert_by x (sort_by le xs) h.0 (All-sort_by xs h.1)

module _ {ℓ} {A : Type ℓ} (le : A → A → Bool) where
  length-insert_by : (x : A) (ys : List A) → length (insert_by le x ys) ≡ suc (length ys)
  unfolding insert_by
  length-insert_by x [] = refl
  length-insert_by x (y ∷ ys) = ground (arith, length-insert_by x ys)

  pub length-sort_by : (xs : List A) → length (sort_by le xs) ≡ length xs
  unfolding sort_by
  length-sort_by [] = refl
  length-sort_by (x ∷ xs) = ground (arith, length-insert_by x (sort_by le xs), length-sort_by xs)

module _ {ℓ} {A : Type ℓ} ⦃e : Eq A⦄ (le : A → A → Bool) where
  elem-insert_by : (z x : A) (ys : List A) → elem z (insert_by le x ys) ≡ (z == x || elem z ys)
  unfolding insert_by elem
  elem-insert_by z x [] = refl
  elem-insert_by z x (y ∷ ys) = ground (arith, elem-insert_by z x ys)

  is_unique-insert_by :
      (x : A) (ys : List A) → is_unique (insert_by le x ys) ≡ (not (elem x ys) && is_unique ys)
  unfolding insert_by is_unique
  is_unique-insert_by x [] = refl
  is_unique-insert_by x (y ∷ ys) =
      ground (arith, is_unique-insert_by x ys, elem-insert_by y x ys, e.eq_iff x y, e.eq_iff y x)

  pub elem-sort_by : (z : A) (xs : List A) → elem z (sort_by le xs) ≡ elem z xs
  unfolding sort_by elem
  elem-sort_by z [] = refl
  elem-sort_by z (x ∷ xs) = ground (arith, elem-insert_by z x (sort_by le xs), elem-sort_by z xs)

  pub is_unique-sort_by : (xs : List A) → is_unique (sort_by le xs) ≡ is_unique xs
  unfolding sort_by is_unique
  is_unique-sort_by [] = refl
  is_unique-sort_by (x ∷ xs) =
      ground (arith, is_unique-insert_by x (sort_by le xs), is_unique-sort_by xs, elem-sort_by x xs)

pub elem-sort_texts : (z : String) (xs : List String) → elem z (sort_texts xs) ≡ elem z xs
unfolding sort_texts
elem-sort_texts z xs = elem-sort_by str_leb z xs

module _ {ℓ} {A : Type ℓ} (le : A → A → Bool) where
  insert_by-append_last :
      (x y : A) (l : List A)
      → le x y ≡ true
      → insert_by le x (l ++ y ∷ []) ≡ insert_by le x l ++ y ∷ []
  unfolding insert_by
  insert_by-append_last x y [] h = ground (arith, h)
  insert_by-append_last x y (z ∷ l) h = ground (arith, insert_by-append_last x y l h)

  -- An item that is not below the others stays at the end.
  pub sort_by-append_last :
      (l : List A) (y : A)
      → All (λ x. le x y ≡ true) l
      → sort_by le (l ++ y ∷ []) ≡ sort_by le l ++ y ∷ []
  unfolding sort_by insert_by
  sort_by-append_last [] y h = refl
  sort_by-append_last (x ∷ l) y h =
      ap (insert_by le x) (sort_by-append_last l y h.1)
      ∙ insert_by-append_last x y (sort_by le l) h.0

module _ {ℓ κ} {A : Type ℓ} (le : A → A → Bool) (P : A → Type κ) where
  if-All :
      (b : Bool) (x y : A) (l m : List A)
      → All P (if b then x ∷ y ∷ l else y ∷ m)
      → (All P m → P x × All P l)
      → P x × (P y × All P l)
  if-All true x y l m k rest = k
  if-All false x y l m k rest = let (p, more) = rest k.1 in (p, (k.0, more))

  insert_by-All : (x : A) (l : List A) → All P (insert_by le x l) → P x × All P l
  unfolding insert_by
  insert_by-All x [] h = h
  insert_by-All x (y ∷ l) h = if-All (le x y) x y l (insert_by le x l) h (insert_by-All x l)

  pub sort_by-All : (l : List A) → All P (sort_by le l) → All P l
  unfolding sort_by
  sort_by-All [] h = tt
  sort_by-All (x ∷ l) h =
      let (p, rest) = insert_by-All x (sort_by le l) h in (p, sort_by-All l rest)
