-- ===== src/Limits/Redaction/Pattern.antt =====
-- The patterns of limits.py: `RAW_POINTER_RE` and `POINTER_FIELD_RE`.
use Prim.Native.Char.{code}
use kcd2_codex_toolkit.Base.{
  ℕ, zero, suc, ◌+◌, String, Bool, true, false, ◌&&◌, ◌||◌, Option, none, some, List, [], ◌∷◌, leb,
  if◌then◌else◌, ◌==◌, nat_has_eq, any_of, is_hex, len,
}

-- The number of hexadecimal digits at the start, `{,16}`.
unfoldable pub hex_run : ℕ → String → ℕ
hex_run zero s = 0
hex_run (suc left) String.[] = 0
hex_run (suc left) (String.◌∷◌ c s) =
    let more = hex_run left s in if is_hex (code c) then suc more else 0

-- The length of the match of `0[xX][A-Fa-f0-9]{9,16}` at the start of a text, or 0
unfoldable pub raw_pointer_length : String → ℕ
raw_pointer_length (String.◌∷◌ zero_ (String.◌∷◌ x s)) =
    let digits = hex_run 16 s in
    if code zero_ == b'0' && (code x == b'x' || code x == b'X') && leb 9 digits
    then 2 + digits
    else 0
raw_pointer_length _ = 0

-- `RAW_POINTER_RE.fullmatch`
unfoldable pub is_raw_pointer : String → Bool
is_raw_pointer s = let n = raw_pointer_length s in leb 1 n && n == len s

-- A match at any place of a text.
unfoldable pub has_raw_pointer : String → Bool
has_raw_pointer String.[] = false
has_raw_pointer (String.◌∷◌ c s) = leb 1 (raw_pointer_length (String.◌∷◌ c s)) || has_raw_pointer s

abbrev pub taken : ℕ → String → String
taken zero s = String.[]
taken (suc n) String.[] = String.[]
taken (suc n) (String.◌∷◌ c s) = String.◌∷◌ c (taken n s)

-- A character under `re.IGNORECASE`, as the letters of the pattern compare: the long s and the two
-- other letters i fold to the plain ones.
unfoldable pub folded : ℕ → ℕ
folded c =
    if leb b'A' c && leb c b'Z'
    then c + 32
    else if c == 383
    then b's'
    else if c == 304 || c == 305
    then b'i'
    else c

-- What is behind a word at the start of a text, if it stands there.
unfoldable pub behind_word : String → String → Option String
behind_word String.[] s = some s
behind_word (String.◌∷◌ w ws) String.[] = none
behind_word (String.◌∷◌ w ws) (String.◌∷◌ c s) =
    let more = behind_word ws s in if code w == folded (code c) then more else none

-- `(?:$|_)`, where `$` holds before a last line feed too
unfoldable pub is_word_end : String → Bool
is_word_end String.[] = true
is_word_end (String.◌∷◌ c String.[]) = code c == b'_' || code c == 10
is_word_end (String.◌∷◌ c s) = code c == b'_'

abbrev pub pointer_words : List String
pointer_words = "absolute" ∷ "address" ∷ "module_base" ∷ "pointer" ∷ "ptr" ∷ []

unfoldable pub starts_word : String → Bool
starts_word s =
    any_of (λ word. elim (behind_word word s) [ none ↦ false | some rest ↦ is_word_end rest ])
      pointer_words

-- A word behind an underscore.
unfoldable pub has_word : String → Bool
has_word String.[] = false
has_word (String.◌∷◌ c s) = (code c == b'_' && starts_word s) || has_word s

-- `POINTER_FIELD_RE.search`
unfoldable pub is_pointer_name : String → Bool
is_pointer_name s = starts_word s || has_word s
