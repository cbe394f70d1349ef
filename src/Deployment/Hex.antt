-- ===== src/Deployment/Hex.antt =====
-- The hexadecimal text of a PE timestamp: `int(text, 16)` and `f"0x{number:X}"`.
pub mod Roundtrip
use Prim.Native.Nat.{◌/◌, ◌%◌}
use Prim.Native.Char.{Char, code}
use Prim.Native.String.{String}
use kcd2_codex_toolkit.Base.{
  ℕ, zero, suc, ◌+◌, ◌-◌, ◌*◌, ◌^◌, ◌<◌, ◌≡◌, refl, ◌==◌, nat_has_eq, Bool, true, false, ◌&&◌, not,
  Option, none, some, leb, ltb, if◌then◌else◌, arith, is_hex, all_chars, strip_prefix, len, ◌<>◌,
}

digit_value : ℕ → ℕ
digit_value c = if leb c b'9' then c - b'0' else if leb c b'F' then c - b'A' + 10 else c - b'a' + 10

-- The number whose digits stand in the text, behind those of `n`.
pub hex_value_from : ℕ → String → ℕ
unfolding digit_value
hex_value_from n String.[] = n
hex_value_from n (String.◌∷◌ c s) = hex_value_from (n * 16 + digit_value (code c)) s

pick : ℕ → String → Char
pick n String.[] = "0"
pick zero (String.◌∷◌ c s) = c
pick (suc n) (String.◌∷◌ c s) = pick n s

digit : ℕ → Char
unfolding pick
digit n = pick n "0123456789ABCDEF"

-- The upper-case digits of `n`, in front of a text. A number below 16 ^ fuel has at most `fuel`.
pub hex_digits : ℕ → ℕ → String → String
unfolding digit
hex_digits zero n s = s
hex_digits (suc fuel) n s =
    let text = String.◌∷◌ (digit (n % 16)) s in
    let longer = hex_digits fuel (n / 16) text in if ltb n 16 then text else longer

-- `[A-Fa-f0-9]+`, and the number
unfoldable pub parse_digits : String → Option ℕ
unfolding hex_value_from is_hex all_chars
parse_digits s = if ltb 0 (len s) && all_chars is_hex s then some (hex_value_from 0 s) else none

-- `^0x[A-Fa-f0-9]+$`, and the number
unfoldable pub parse_hex : String → Option ℕ
parse_hex s = elim (strip_prefix "0x" s) [ none ↦ none | some digits ↦ parse_digits digits ]

-- `f"0x{number:X}"` for a number of at most 64 bits
unfoldable pub print_hex : ℕ → String
print_hex n = "0x" <> hex_digits 16 n ""
