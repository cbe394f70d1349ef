-- ===== src/Base/Text.antt =====
-- Texts as the program tests them: their length in characters, hexadecimal digests, ASCII case.
use Prim.Native.Nat.{ℕ, suc}
use Prim.Native.Char.{Char, code}
use Prim.Native.String.{String, ◌++◌ as ◌<>◌}
use mathlib.Core.Path.{◌≡◌, refl, ap, ap₂}
use native.Mathlib.Omega.{arith}
use text.Mathlib.TextLemmas.{nil-append, cons-append}
use mathlib.Core.Bool.{Bool, true, false, not, ◌&&◌, ◌||◌}
use mathlib.Core.Option.{Option, none, some}
use mathlib.Core.Logic.{inl, inr}
use kcd2_codex_toolkit.Base.Tests.{Bool-cases, leb, ◌==◌, if◌then◌else◌}

-- `len(text)` counts code points.
abbrev pub len : String → ℕ
len String.[] = 0
len (String.◌∷◌ c s) = suc (len s)

-- `lo <= len(text) <= hi`
abbrev pub len_in : ℕ → ℕ → String → Bool
len_in lo hi s = leb lo (len s) && leb (len s) hi

-- Every character passes the test.
unfoldable pub all_chars : (ℕ → Bool) → String → Bool
all_chars p String.[] = true
all_chars p (String.◌∷◌ c s) = p (code c) && all_chars p s

-- `"\x00" in text`
unfoldable pub has_nul : String → Bool
unfolding all_chars
has_nul s = not (all_chars (λ c. not (c == 0)) s)

unfoldable pub is_hex : ℕ → Bool
is_hex c = leb b'0' c && leb c b'9' || leb b'A' c && leb c b'F' || leb b'a' c && leb c b'f'

-- `^[A-Fa-f0-9]{64}$` under `fullmatch`
unfoldable pub is_sha256 : String → Bool
is_sha256 s = len s == 64 && all_chars is_hex s

-- The text behind a prefix, if it has the prefix.
unfoldable pub strip_prefix : String → String → Option String
strip_prefix String.[] s = some s
strip_prefix (String.◌∷◌ p ps) String.[] = none
strip_prefix (String.◌∷◌ p ps) (String.◌∷◌ c s) =
    if code p == code c then strip_prefix ps s else none

-- A pattern of a prefix and 64 hexadecimal digits, such as `^deploy:sha256:[A-Fa-f0-9]{64}$`.
unfoldable pub is_addressed : String → String → Bool
unfolding strip_prefix is_sha256
is_addressed prefix s = elim (strip_prefix prefix s) [
  | none ↦ false
  | some digest ↦ is_sha256 digest
]

lower_by : String → String → Char → Char
lower_by (String.◌∷◌ u us) (String.◌∷◌ l ls) c = if code c == code u then l else lower_by us ls c
lower_by _ _ c = c

-- `text.lower()`, for the ASCII texts on which the program calls it
unfoldable pub lower : String → String
unfolding lower_by
lower String.[] = String.[]
lower (String.◌∷◌ c s) =
    String.◌∷◌ (lower_by "ABCDEFGHIJKLMNOPQRSTUVWXYZ" "abcdefghijklmnopqrstuvwxyz" c) (lower s)

code-eq_self : (c : Char) → (code c == code c) ≡ true
code-eq_self c = ground arith

pub strip_prefix-append : (p s : String) → strip_prefix p (p <> s) ≡ some s
unfolding strip_prefix
strip_prefix-append String.[] s = rw nil-append
strip_prefix-append (String.◌∷◌ c p) s =
    rw (cons-append c p s, strip_prefix, code-eq_self c) (strip_prefix-append p s)

-- Lowering keeps what the two alphabets keep, so a hexadecimal digit stays one.
keeps_hex : String → String → Bool
keeps_hex (String.◌∷◌ u us) (String.◌∷◌ l ls) =
    (not (is_hex (code u)) || is_hex (code l)) && keeps_hex us ls
keeps_hex _ _ = true

lower_by-is_hex :
    (us ls : String) (c : Char)
    → keeps_hex us ls ≡ true
    → is_hex (code c) ≡ true
    → is_hex (code (lower_by us ls c)) ≡ true
unfolding lower_by keeps_hex
lower_by-is_hex String.[] ls c k h = h
lower_by-is_hex (String.◌∷◌ u us) String.[] c k h = h
lower_by-is_hex (String.◌∷◌ u us) (String.◌∷◌ l ls) c k h = ground (arith, lower_by-is_hex us ls c)

alphabets : keeps_hex "ABCDEFGHIJKLMNOPQRSTUVWXYZ" "abcdefghijklmnopqrstuvwxyz" ≡ true
unfolding keeps_hex is_hex
alphabets = refl

all_hex-lower : (s : String) → all_chars is_hex s ≡ true → all_chars is_hex (lower s) ≡ true
unfolding all_chars lower
all_hex-lower String.[] h = refl
all_hex-lower (String.◌∷◌ c s) h = ground (
  arith,
  all_hex-lower s,
  lower_by-is_hex "ABCDEFGHIJKLMNOPQRSTUVWXYZ" "abcdefghijklmnopqrstuvwxyz" c alphabets,
)

pub len-lower : (s : String) → len (lower s) ≡ len s
unfolding lower
len-lower String.[] = refl
len-lower (String.◌∷◌ c s) = ap suc (len-lower s)

-- A digest in lower case is a digest.
pub is_sha256-lower : (s : String) → is_sha256 s ≡ true → is_sha256 (lower s) ≡ true
unfolding is_sha256
is_sha256-lower s h = ground (arith, len-lower s, all_hex-lower s)

-- Lowering twice is lowering once: no letter of the lower alphabet is one of the upper.
is_absent : String → Char → Bool
is_absent String.[] c = true
is_absent (String.◌∷◌ u us) c = not (code c == code u) && is_absent us c

lower_by-is_absent : (us ls : String) (c : Char) → is_absent us c ≡ true → lower_by us ls c ≡ c
unfolding lower_by is_absent
lower_by-is_absent String.[] ls c h = refl
lower_by-is_absent (String.◌∷◌ u us) String.[] c h = refl
lower_by-is_absent (String.◌∷◌ u us) (String.◌∷◌ l ls) c h =
    ground (arith, h, lower_by-is_absent us ls c)

are_absent : String → String → String → Bool
are_absent us (String.◌∷◌ v vs) (String.◌∷◌ m ms) = is_absent us m && are_absent us vs ms
are_absent us String.[] String.[] = true
are_absent us _ _ = false

lower_by-found :
    (us vs ms : String) (c : Char)
    → are_absent us vs ms ≡ true
    → is_absent vs c ≡ false
    → is_absent us (lower_by vs ms c) ≡ true
unfolding lower_by is_absent are_absent
lower_by-found us String.[] ms c k h = cc
lower_by-found us (String.◌∷◌ v vs) String.[] c k h = cc
lower_by-found us (String.◌∷◌ v vs) (String.◌∷◌ m ms) c k h = elim (Bool-cases (code c == code v)) [
  | inl e ↦ rw e (ground (arith, k))
  | inr e ↦ rw e (lower_by-found us vs ms c (ground (arith, k)) (ground (arith, h, e)))
]

lower_by_twice :
    (us ls : String) (c : Char)
    → are_absent us us ls ≡ true
    → lower_by us ls (lower_by us ls c) ≡ lower_by us ls c
lower_by_twice us ls c k = elim (Bool-cases (is_absent us c)) [
  | inl e ↦ ap (lower_by us ls) (lower_by-is_absent us ls c e)
  | inr e ↦ lower_by-is_absent us ls (lower_by us ls c) (lower_by-found us us ls c k e)
]

alphabets_apart :
    are_absent "ABCDEFGHIJKLMNOPQRSTUVWXYZ" "ABCDEFGHIJKLMNOPQRSTUVWXYZ"
      "abcdefghijklmnopqrstuvwxyz"
    ≡ true
unfolding are_absent is_absent
alphabets_apart = refl

pub lower-lower : (s : String) → lower (lower s) ≡ lower s
unfolding lower
lower-lower String.[] = refl
lower-lower (String.◌∷◌ c s) =
    ap₂ String.◌∷◌
      (lower_by_twice "ABCDEFGHIJKLMNOPQRSTUVWXYZ" "abcdefghijklmnopqrstuvwxyz" c alphabets_apart)
      (lower-lower s)
