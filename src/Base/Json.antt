-- ===== src/Base/Json.antt =====
-- JSON values, as the program hashes and reads them, and integers of either sign.
pub mod Values
use Prim.Native.Nat.{ℕ}
use Prim.Native.String.{String}
use Prim.Native.Nat.{suc, zero}
use mathlib.Core.Bool.{Bool, true, false, ◌&&◌}
use mathlib.Core.Option.{Option, none, some}
use mathlib.Core.List.{List, [], ◌∷◌}
use kcd2_codex_toolkit.Base.Tests.{leb, if◌then◌else◌}
use kcd2_codex_toolkit.Base.Equality.{◌==◌, text_has_eq}

-- A Python `int`: `negsuc n` is -(n + 1).
pub data ℤ : Type 0 where
  pos : ℕ → ℤ
  negsuc : ℕ → ℤ

-- The value, if `lo <= value <= hi`, for bounds that are not negative.
unfoldable pub in_range : ℕ → ℕ → ℤ → Option ℕ
in_range lo hi (pos n) = if leb lo n && leb n hi then some n else none
in_range lo hi (negsuc n) = none

mutual
  pub data Json : Type 0 where
    null : Json
    bool : Bool → Json
    int : ℤ → Json
    str : String → Json
    arr : Items → Json
    obj : Fields → Json

  pub data Items : Type 0 where
    nil : Items
    cons : Json → Items → Items

  pub data Fields : Type 0 where
    end : Fields
    field : String → Json → Fields → Fields

-- `[f(x) for x in xs]`
unfoldable pub items {ℓ} : {A : Type ℓ} → (A → Json) → List A → Items
items f [] = nil
items f (x ∷ xs) = cons (f x) (items f xs)

-- `fields.get(key)`, its keys, `len(fields)`, and the fields without one key.
unfoldable pub get : String → Fields → Option Json
get key end = none
get key (field k v rest) = if k == key then some v else get key rest

abbrev pub names : Fields → List String
names end = []
names (field k v rest) = k ∷ names rest

abbrev pub size : Fields → ℕ
size end = zero
size (field k v rest) = suc (size rest)

unfoldable pub without : String → Fields → Fields
without key end = end
without key (field k v rest) =
    let more = without key rest in if k == key then more else field k v more

abbrev pub count : Items → ℕ
count nil = zero
count (cons x xs) = suc (count xs)

-- `value == text`, `value is b`
abbrev pub is_str : String → Option Json → Bool
is_str text (some (str s)) = s == text
is_str text _ = false

abbrev pub is_bool : Bool → Option Json → Bool
is_bool true (some (bool true)) = true
is_bool false (some (bool false)) = true
is_bool b _ = false

-- The text, the boolean, the object or the array that a value is.
abbrev pub text_in : Option Json → Option String
text_in (some (str s)) = some s
text_in _ = none

abbrev pub bool_in : Option Json → Option Bool
bool_in (some (bool b)) = some b
bool_in _ = none

abbrev pub object_in : Option Json → Option Fields
object_in (some (obj fields)) = some fields
object_in _ = none

abbrev pub array_in : Option Json → Option Items
array_in (some (arr xs)) = some xs
array_in _ = none
