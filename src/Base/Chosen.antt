-- ===== src/Base/Chosen.antt =====
-- Codes that are collected in a set, each by a test of its own, and sorted.
use Prim.Native.String.{String}
use mathlib.Core.Path.{◌≡◌, refl}
use mathlib.Core.Bool.{Bool, true, false}
use mathlib.Core.List.{List, [], ◌∷◌}
use native.Mathlib.Omega.{arith}
use kcd2_codex_toolkit.Base.Tests.{if◌then◌else◌}
use kcd2_codex_toolkit.Base.Equality.{text_has_eq, elem, is_unique}
use kcd2_codex_toolkit.Base.Lists.{any_of}

-- `if test: codes.add(code)`, for a row of tests with different codes.
unfoldable pub chosen : List (Bool × String) → List String
chosen [] = []
chosen ((test, code) ∷ rest) = if test then code ∷ chosen rest else chosen rest

-- No code is chosen exactly when no test holds.
abbrev pub NoneHolds : List (Bool × String) → Type 0
NoneHolds [] = Unit
NoneHolds ((test, code) ∷ rest) = (test ≡ false) × NoneHolds rest

pub chosen-eq-nil : (l : List (Bool × String)) → chosen l ≡ [] → NoneHolds l
unfolding chosen
chosen-eq-nil [] h = tt
chosen-eq-nil ((true, code) ∷ rest) h = cc
chosen-eq-nil ((false, code) ∷ rest) h = (refl, chosen-eq-nil rest h)

pub chosen-none : (l : List (Bool × String)) → NoneHolds l → chosen l ≡ []
unfolding chosen
chosen-none [] h = refl
chosen-none ((test, code) ∷ rest) h = rw h.0 (chosen-none rest h.1)

abbrev pub codes : List (Bool × String) → List String
codes [] = []
codes ((test, code) ∷ rest) = code ∷ codes rest

elem-chosen :
    (x : String) (l : List (Bool × String)) → elem x (chosen l) ≡ true → elem x (codes l) ≡ true
unfolding elem chosen
elem-chosen x [] h = h
elem-chosen x ((true, code) ∷ rest) h = ground (arith, elem-chosen x rest)
elem-chosen x ((false, code) ∷ rest) h = ground (arith, elem-chosen x rest)

-- Codes that differ are chosen at most once each.
pub is_unique-chosen :
    (l : List (Bool × String)) → is_unique (codes l) ≡ true → is_unique (chosen l) ≡ true
unfolding is_unique chosen
is_unique-chosen [] h = refl
is_unique-chosen ((true, code) ∷ rest) h =
    ground (arith, elem-chosen code rest, is_unique-chosen rest)
is_unique-chosen ((false, code) ∷ rest) h = ground (arith, is_unique-chosen rest)

pub any_of-chosen :
    (p : String → Bool) (l : List (Bool × String))
    → any_of p (codes l) ≡ false
    → any_of p (chosen l) ≡ false
unfolding chosen
any_of-chosen p [] h = refl
any_of-chosen p ((true, code) ∷ rest) h = ground (arith, any_of-chosen p rest)
any_of-chosen p ((false, code) ∷ rest) h = ground (arith, any_of-chosen p rest)
