-- ===== src/Correlation/Clean.antt =====
-- Collectors that hold nothing and have dropped nothing.
use kcd2_codex_toolkit.Base.{
  ◌≤◌, String, Bool, true, false, not, ◌&&◌, Option, none, some, List, [], ◌∷◌, ◌++◌, if◌then◌else◌,
  text_has_eq, is_empty, ◌≡◌, inl, inr, refl, arith, Option-cases,
}
use kcd2_codex_toolkit.Base.Json.{Json, arr, Items, array_in, count}
use kcd2_codex_toolkit.Base.Json.Values.{array_in-eq}
use kcd2_codex_toolkit.Correlation.Proof.{Diagnostic}
use kcd2_codex_toolkit.Correlation.Report.{Collector, add_one, add_all, report_one, entries_in}

abbrev pub is_clean : Collector → Bool
is_clean c = is_empty c.items && not c.truncated

is_empty-append_one : (l : List Diagnostic) (d : Diagnostic) → is_empty (l ++ d ∷ []) ≡ false
is_empty-append_one [] d = refl
is_empty-append_one (x ∷ l) d = refl

pub add_one-is_clean : (c : Collector) (d : Diagnostic) → is_clean (add_one c d) ≡ false
unfolding add_one
add_one-is_clean c d = ground (arith, is_empty-append_one c.items d)

pub add_all-is_clean :
    (c : Collector) (l : List Diagnostic)
    → is_clean (add_all c l) ≡ true
    → (is_clean c ≡ true) × (l ≡ [])
add_all-is_clean c [] h = (h, refl)
add_all-is_clean c (d ∷ l) h =
    let (clean, _) = add_all-is_clean (add_one c d) l h in let dirty = add_one-is_clean c d in cc

pub unless-is_clean :
    (b : Bool) (c : Collector) (code path : String)
    → is_clean (if b then c else report_one c code path) ≡ true
    → (b ≡ true) × (is_clean c ≡ true)
unless-is_clean true c code path h = (refl, h)
unless-is_clean false c code path h =
    let dirty = add_one-is_clean c (record { code = code; path = path }) in ground (arith, dirty, h)

pub some-is_clean :
    (o : Option String) (c : Collector) (code path : String)
    → is_clean (elim o as (λ x. Collector) [ some s ↦ c | none ↦ report_one c code path ]) ≡ true
    → ((s : String) × (o ≡ some s)) × (is_clean c ≡ true)
some-is_clean (some s) c code path h = ((s, refl), h)
some-is_clean none c code path h =
    let dirty = add_one-is_clean c (record { code = code; path = path }) in ground (arith, dirty, h)

pub if-is_clean :
    (b : Bool) (c : Collector) (code path : String)
    → is_clean (if b then report_one c code path else c) ≡ true
    → (b ≡ false) × (is_clean c ≡ true)
if-is_clean true c code path h =
    let dirty = add_one-is_clean c (record { code = code; path = path }) in ground (arith, dirty, h)
if-is_clean false c code path h = (refl, h)

pub some_same : {A : Type 0} {a b : A} → some a ≡ some b → a ≡ b
some_same h = ground (arith, h)

pub entries-eq : (v : Option Json) → 1 ≤ count (entries_in v) → (xs : Items) × (v ≡ some (arr xs))
entries-eq v h = elim (Option-cases (array_in v)) [
  | inl e ↦ ground (arith, e, h)
  | inr (xs, e) ↦ (xs, array_in-eq v xs e)
]
