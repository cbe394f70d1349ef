-- ===== src/Base/Json/Values.antt =====
-- What a JSON value is, from the tests that it passes.
use kcd2_codex_toolkit.Base.{
  ℕ, String, Bool, true, false, Option, none, some, text_has_eq, ◌≡◌, refl, ap, arith,
}
use kcd2_codex_toolkit.Base.Json.{
  Json, ℤ, pos, negsuc, in_range, null, bool, int, str, arr, obj, Items, Fields, is_str, is_bool,
  text_in, bool_in, object_in, array_in,
}

pub is_str-eq : (t : String) (v : Option Json) → is_str t v ≡ true → v ≡ some (str t)
is_str-eq t none h = cc
is_str-eq t (some (str s)) h = ap (λ x. some (str x)) ((text_has_eq.eq_iff s t).0 h)
is_str-eq t (some null) h = cc
is_str-eq t (some (bool b)) h = cc
is_str-eq t (some (int n)) h = cc
is_str-eq t (some (arr x)) h = cc
is_str-eq t (some (obj x)) h = cc

pub is_false-eq : (v : Option Json) → is_bool false v ≡ true → v ≡ some (bool false)
is_false-eq none h = cc
is_false-eq (some (bool true)) h = cc
is_false-eq (some (bool false)) h = refl
is_false-eq (some null) h = cc
is_false-eq (some (str s)) h = cc
is_false-eq (some (int n)) h = cc
is_false-eq (some (arr x)) h = cc
is_false-eq (some (obj x)) h = cc

pub text_in-eq : (v : Option Json) (s : String) → text_in v ≡ some s → v ≡ some (str s)
text_in-eq none s h = cc
text_in-eq (some (str t)) s h = cc
text_in-eq (some null) s h = cc
text_in-eq (some (bool b)) s h = cc
text_in-eq (some (int n)) s h = cc
text_in-eq (some (arr x)) s h = cc
text_in-eq (some (obj x)) s h = cc

pub bool_in-eq : (v : Option Json) (b : Bool) → bool_in v ≡ some b → v ≡ some (bool b)
bool_in-eq none b h = cc
bool_in-eq (some (bool c)) b h = cc
bool_in-eq (some null) b h = cc
bool_in-eq (some (str c)) b h = cc
bool_in-eq (some (int n)) b h = cc
bool_in-eq (some (arr x)) b h = cc
bool_in-eq (some (obj x)) b h = cc

pub object_in-eq : (v : Option Json) (f : Fields) → object_in v ≡ some f → v ≡ some (obj f)
object_in-eq none f h = cc
object_in-eq (some (obj g)) f h = cc
object_in-eq (some null) f h = cc
object_in-eq (some (str c)) f h = cc
object_in-eq (some (int n)) f h = cc
object_in-eq (some (arr x)) f h = cc
object_in-eq (some (bool x)) f h = cc

pub array_in-eq : (v : Option Json) (xs : Items) → array_in v ≡ some xs → v ≡ some (arr xs)
array_in-eq none xs h = cc
array_in-eq (some (arr g)) xs h = cc
array_in-eq (some null) xs h = cc
array_in-eq (some (str c)) xs h = cc
array_in-eq (some (int n)) xs h = cc
array_in-eq (some (obj x)) xs h = cc
array_in-eq (some (bool x)) xs h = cc

pub is_true-eq : (v : Option Json) → is_bool true v ≡ true → v ≡ some (bool true)
is_true-eq none h = cc
is_true-eq (some (bool true)) h = refl
is_true-eq (some (bool false)) h = cc
is_true-eq (some null) h = cc
is_true-eq (some (str s)) h = cc
is_true-eq (some (int n)) h = cc
is_true-eq (some (arr x)) h = cc
is_true-eq (some (obj x)) h = cc

pub in_range-eq : (lo hi : ℕ) (n : ℤ) (k : ℕ) → in_range lo hi n ≡ some k → n ≡ pos k
unfolding in_range
in_range-eq lo hi (pos n) k h = ground (arith, h)
in_range-eq lo hi (negsuc n) k h = ground (arith, h)
