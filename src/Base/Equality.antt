-- ===== src/Base/Equality.antt =====
-- `==` for the types that the program compares, and the tests by it: `in` and `len(set(xs))`.
use Prim.Native.Nat.{ℕ}
use Prim.Native.String.{String}
use mathlib.Core.Path.{◌≡◌, refl, sym}
use mathlib.Core.Logic.{◌↔◌}
use mathlib.Core.Bool.{Bool, true, false, not, ◌&&◌, ◌||◌}
use mathlib.Core.List.{List, [], ◌∷◌, ◌++◌}
use native.Mathlib.Omega.{arith}
use kcd2_codex_toolkit.Base.Lists.{All}
use kcd2_codex_toolkit.Base.Tests.{Bool-cases, if◌then◌else◌}
use mathlib.Core.Logic.{inl, inr}
use mathlib.Core.Path.{subst}
use text.Mathlib.Text.{◌==◌ as str_eq}
use text.Mathlib.TextEquality.{eq_iff}
use kcd2_codex_toolkit.Base.Tests.{◌==◌ as nat_eq, ==_iff as nat_eq_iff}

pub record Eq {ℓ} (A : Type ℓ) : Type ℓ where
  pub eq : A → A → Bool
  pub eq_iff : (a b : A) → (eq a b ≡ true) ↔ (a ≡ b)

infix 50 ◌==◌
abbrev pub ◌==◌ {ℓ} : {A : Type ℓ} ⦃tests : Eq A⦄ (a b : A) → Bool
◌==◌ ⦃tests⦄ a b = tests.eq a b

instance abbrev pub nat_has_eq : Eq ℕ
nat_has_eq = record { eq = nat_eq; eq_iff = nat_eq_iff }

instance abbrev pub text_has_eq : Eq String
text_has_eq = record { eq = str_eq; eq_iff = eq_iff }

-- The test of a type whose equality is decided.
pub decided {ℓ} : {A : Type ℓ} → Dec A → Bool
decided (yes a) = true
decided (no n) = false

pub decided_iff {ℓ} : {A : Type ℓ} (d : Dec A) → (decided d ≡ true) ↔ A
unfolding decided
decided_iff (yes a) = (λ _. a, λ _. refl)
decided_iff (no n) = (λ h. cc, λ a. absurd (n a))

abbrev pub eq_of_discrete {ℓ} : {A : Type ℓ} → Discrete A → Eq A
unfolding decided
eq_of_discrete d = record { eq = λ a b. decided (d a b); eq_iff = λ a b. decided_iff (d a b) }

dec_of_test {ℓ} : {A : Type ℓ} (b : Bool) → (b ≡ true) ↔ A → Dec A
dec_of_test true h = yes (h.0 refl)
dec_of_test false h = no (λ a. let e = h.1 a in cc)

unfoldable pub text_discrete : Discrete String
unfolding dec_of_test
text_discrete s t = dec_of_test (str_eq s t) (eq_iff s t)

-- `x in xs`, and `len(set(xs)) == len(xs)`: no item stands twice.
module _ {ℓ} {A : Type ℓ} ⦃e : Eq A⦄ where
  unfoldable pub elem : A → List A → Bool
  elem x [] = false
  elem x (y ∷ ys) = x == y || elem x ys

  unfoldable pub is_unique : List A → Bool
  unfolding elem
  is_unique [] = true
  is_unique (x ∷ xs) = not (elem x xs) && is_unique xs

  -- `set(xs)`, each item at its last place
  unfoldable pub set_of : List A → List A
  unfolding elem
  set_of [] = []
  set_of (x ∷ xs) = let rest = set_of xs in if elem x xs then rest else x ∷ rest

  -- The list with one more item at its end has the item, and those that it had.
  pub elem-append_one : (x y : A) (xs : List A) → elem x (xs ++ y ∷ []) ≡ (elem x xs || x == y)
  unfolding elem
  elem-append_one x y [] = ground arith
  elem-append_one x y (z ∷ xs) = ground (arith, elem-append_one x y xs)

  -- A new item keeps the items distinct.
  pub is_unique-append_one :
      (x : A) (xs : List A) → is_unique (xs ++ x ∷ []) ≡ (is_unique xs && not (elem x xs))
  unfolding is_unique
  is_unique-append_one x [] = ground arith
  is_unique-append_one x (y ∷ xs) =
      ground (arith, is_unique-append_one x xs, elem-append_one y x xs, e.eq_iff x y, e.eq_iff y x)

  -- What holds of every item holds of one that is in the list.
  pub All-elem {κ} : (P : A → Type κ) (xs : List A) → All P xs → (x : A) → elem x xs ≡ true → P x
  unfolding elem
  All-elem P [] h x found = cc
  All-elem P (y ∷ ys) h x found = elim (Bool-cases (x == y)) [
    | inl same ↦ subst P (sym ((e.eq_iff x y).0 same)) h.0
    | inr other ↦ All-elem P ys h.1 x (ground (arith, found, other))
  ]
