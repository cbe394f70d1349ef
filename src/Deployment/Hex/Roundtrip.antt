-- ===== src/Deployment/Hex/Roundtrip.antt =====
-- Reading a printed hexadecimal number gives the number back.
use Prim.Native.Nat.{◌/◌, ◌%◌}
use Prim.Native.Char.{code}
use Prim.Native.String.{String}
use native.Mathlib.Decide.{dec_lt}
use kcd2_codex_toolkit.Base.{
  ℕ, zero, suc, ◌+◌, ◌*◌, ◌^◌, ◌<◌, ◌≤◌, ◌≡◌, refl, Bool, true, ◌&&◌, some, ltb, lt→ltb, arith,
  is_hex, all_chars, len, strip_prefix-append, ap, ◌∙◌, nat_has_eq, ◌==◌,
}
use kcd2_codex_toolkit.Deployment.Hex.{
  digit_value, parse_digits, hex_value_from, digit, hex_digits, parse_hex, print_hex,
}

passes : (ℕ → Bool) → ℕ → Bool
passes test zero = true
passes test (suc bound) = passes test bound && test bound

tested :
    (test : ℕ → Bool) (bound value : ℕ)
    → value < bound
    → passes test bound ≡ true
    → test value ≡ true
unfolding passes
tested test zero value small table = absurd (omega arith)
tested test (suc bound) value small table = ground (arith, tested test bound value)

digit_value-digit : (d : ℕ) → d < 16 → digit_value (code (digit d)) ≡ d
unfolding digit digit_value passes
digit_value-digit d h =
    (nat_has_eq.eq_iff _ d).0 (tested (λ x. digit_value (code (digit x)) == x) 16 d h refl)

is_hex-digit : (d : ℕ) → d < 16 → is_hex (code (digit d)) ≡ true
unfolding digit is_hex passes
is_hex-digit d h = tested (λ x. is_hex (code (digit x))) 16 d h refl

hex_value-cons-digit :
    (a d : ℕ) (s : String)
    → d < 16
    → hex_value_from a (String.◌∷◌ (digit d) s) ≡ hex_value_from (a * 16 + d) s
unfolding hex_value_from
hex_value-cons-digit a d s h = rw (digit_value-digit d h)

hex_digits-last :
    (fuel n : ℕ) (s : String) → n < 16 → hex_digits (suc fuel) n s ≡ String.◌∷◌ (digit (n % 16)) s
unfolding hex_digits
hex_digits-last fuel n s h = ground arith

hex_digits-more :
    (fuel n : ℕ) (s : String)
    → 16 ≤ n
    → hex_digits (suc fuel) n s ≡ hex_digits fuel (n / 16) (String.◌∷◌ (digit (n % 16)) s)
unfolding hex_digits
hex_digits-more fuel n s h = ground arith

hex_value-hex_digits :
    (fuel n : ℕ) (s : String)
    → n < 16 ^ suc fuel
    → hex_value_from 0 (hex_digits (suc fuel) n s) ≡ hex_value_from n s
hex_value-hex_digits zero n s h =
    rw (hex_digits-last zero n s h, hex_value-cons-digit 0 (n % 16) s (omega arith))
      (ap (λ k. hex_value_from k s) (omega arith))
hex_value-hex_digits (suc fuel) n s h = elim (dec_lt n 16) [
  | yes small ↦
      rw (hex_digits-last (suc fuel) n s small, hex_value-cons-digit 0 (n % 16) s (omega arith))
        (ap (λ k. hex_value_from k s) (omega arith))
  | no big ↦ rw (hex_digits-more (suc fuel) n s (omega arith)) (
      hex_value-hex_digits fuel (n / 16) _ (omega arith)
      ∙ rw (hex_value-cons-digit (n / 16) (n % 16) s (omega arith))
          (ap (λ k. hex_value_from k s) (omega arith)))
]

len-hex_digits : (fuel n : ℕ) (s : String) → len s ≤ len (hex_digits fuel n s)
unfolding hex_digits
len-hex_digits zero n s = omega arith
len-hex_digits (suc fuel) n s =
    ground (arith, len-hex_digits fuel (n / 16) (String.◌∷◌ (digit (n % 16)) s))

all_hex-hex_digits :
    (fuel n : ℕ) (s : String)
    → all_chars is_hex s ≡ true
    → all_chars is_hex (hex_digits fuel n s) ≡ true
unfolding hex_digits all_chars
all_hex-hex_digits zero n s h = h
all_hex-hex_digits (suc fuel) n s h =
    ground (
      arith,
      is_hex-digit (n % 16),
      all_hex-hex_digits fuel (n / 16) (String.◌∷◌ (digit (n % 16)) s),
    )

some_digits : (n : ℕ) → ltb 0 (len (hex_digits 16 n "")) ≡ true
unfolding hex_digits
some_digits n =
    lt→ltb _ _ (ground (arith, len-hex_digits 15 (n / 16) (String.◌∷◌ (digit (n % 16)) "")))

parse_digits-hex_digits : (n : ℕ) → n < 2 ^ 64 → parse_digits (hex_digits 16 n "") ≡ some n
unfolding parse_digits all_chars hex_value_from
parse_digits-hex_digits n h =
    rw (some_digits n, all_hex-hex_digits 16 n "" refl, hex_value-hex_digits 15 n "" h)

-- A timestamp that has been normalised is read back as the same number.
pub parse_hex-print_hex : (n : ℕ) → n < 2 ^ 64 → parse_hex (print_hex n) ≡ some n
unfolding parse_hex print_hex
parse_hex-print_hex n h =
    rw (parse_hex, strip_prefix-append "0x" (hex_digits 16 n "")) (parse_digits-hex_digits n h)
