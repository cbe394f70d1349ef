-- ===== src/Base/Results.antt =====
-- Code that raises: the value, or the error that it raised. `do` chains such steps.
use mathlib.Core.Path.{◌≡◌, refl}
use native.Mathlib.Omega.{arith}
use mathlib.Core.Bool.{Bool, true, false}
use mathlib.Core.Logic.{◌⊎◌, inl, inr}

pub data Result {ℓ} (E A : Type ℓ) : Type ℓ where
  ok : A → Result E A
  err : E → Result E A

infixl 5 ◌>>=◌ ◌>>◌
abbrev pub ◌>>=◌ {ℓ} : {E A B : Type ℓ} → Result E A → (A → Result E B) → Result E B
ok a >>= f = f a
err e >>= f = err e

abbrev pub ◌>>◌ {ℓ} : {E A B : Type ℓ} → Result E A → Result E B → Result E B
m >> k = m >>= λ _. k

-- `if not test: raise error`
abbrev pub require : {E : Type 0} → Bool → E → Result E Unit
require true e = ok tt
require false e = err e

-- `if test: raise error`
abbrev pub refuse : {E : Type 0} → Bool → E → Result E Unit
refuse true e = err e
refuse false e = ok tt

-- The value of a chain that succeeds comes from a first part that succeeds.
pub >>=-eq-ok {ℓ} :
    {E A B : Type ℓ} (step : Result E A) (rest : A → Result E B) {value : B}
    → (step >>= rest) ≡ ok value
    → (first : A) × (step ≡ ok first) × (rest first ≡ ok value)
>>=-eq-ok (ok first) rest made = (first, refl, made)
>>=-eq-ok (err raised) rest made = cc

pub require-eq-ok : {E : Type 0} (b : Bool) (e : E) {u : Unit} → require b e ≡ ok u → b ≡ true
require-eq-ok true e h = refl
require-eq-ok false e h = cc

pub refuse-eq-ok : {E : Type 0} (b : Bool) (e : E) {u : Unit} → refuse b e ≡ ok u → b ≡ false
refuse-eq-ok true e h = cc
refuse-eq-ok false e h = refl

pub Result-cases {ℓ} :
    {E A : Type ℓ} (r : Result E A) → ((a : A) × (r ≡ ok a)) ⊎ ((e : E) × (r ≡ err e))
Result-cases (ok a) = inl (a, refl)
Result-cases (err e) = inr (e, refl)

-- One result has one value.
pub ok-same {ℓ} : {E A : Type ℓ} (r : Result E A) {a b : A} → r ≡ ok a → r ≡ ok b → a ≡ b
ok-same r h h' = ground (arith, h, h')
