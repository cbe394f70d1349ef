-- ===== src/ResultValidity/Supplied.antt =====
-- What the count and the families of an input hold, field by field.
use kcd2_codex_toolkit.Base.{
  ℕ, ◌<◌, String, Bool, true, false, ◌||◌, Option, none, some, List, [], ◌∷◌, leb, sort_by,
  All-sort_by, sort_by-All, insert_by, str_leb, is_empty, ok, require, >>=-eq-ok, ok-same, ◌>>=◌,
  All, ◌≡◌, ◌≢◌, ◌⊎◌, ◌↔◌, inl, inr, refl, sym, ap, ◌∙◌, subst, arith, Option-cases,
}
use kcd2_codex_toolkit.Base.Json.{
  Json, null, bool, int, str, arr, obj, pos, in_range, Fields, end, get, size, object_in,
}
use kcd2_codex_toolkit.Base.Json.Values.{in_range-eq, object_in-eq}
use kcd2_codex_toolkit.ResultValidity.Input.{
  too_many_families, bounded_string, bounded_integer, event_count, fields_or_none, Family,
  declared_reached, family, families, entries, saturation,
}

-- No count is supplied.
abbrev pub HasNoCount : Option Json → Type 0
HasNoCount value = (value ≡ none) ⊎ (value ≡ some null)

pub event_count-HasNoCount : (v : Option Json) → event_count v ≡ ok none → HasNoCount v
unfolding event_count
event_count-HasNoCount none h = inl refl
event_count-HasNoCount (some null) h = inr refl
event_count-HasNoCount (some (int n)) h = elim (Option-cases (in_range 0 100_000 n)) [
  | inl e ↦ ground (arith, e, h)
  | inr (k, e) ↦ ground (arith, e, h)
]
event_count-HasNoCount (some (bool b)) h = ground (arith, h)
event_count-HasNoCount (some (str s)) h = ground (arith, h)
event_count-HasNoCount (some (arr x)) h = ground (arith, h)
event_count-HasNoCount (some (obj x)) h = ground (arith, h)

pub event_count-eq :
    (v : Option Json) (k : ℕ) → event_count v ≡ ok (some k) → v ≡ some (int (pos k))
unfolding event_count
event_count-eq none k h = ground (arith, h)
event_count-eq (some null) k h = ground (arith, h)
event_count-eq (some (int n)) k h = elim (Option-cases (in_range 0 100_000 n)) [
  | inl e ↦ ground (arith, e, h)
  | inr (j, e) ↦
      let same : j ≡ k = ground (arith, e, h) in
      ap (λ x. some (int x)) (in_range-eq 0 100_000 n j e ∙ ap pos same)
]
event_count-eq (some (bool b)) k h = ground (arith, h)
event_count-eq (some (str s)) k h = ground (arith, h)
event_count-eq (some (arr x)) k h = ground (arith, h)
event_count-eq (some (obj x)) k h = ground (arith, h)

bounded_integer-eq :
    (v : Option Json) (name : String) (lo hi k : ℕ)
    → bounded_integer v name lo hi ≡ ok k
    → v ≡ some (int (pos k))
unfolding bounded_integer
bounded_integer-eq none name lo hi k h = ground (arith, h)
bounded_integer-eq (some null) name lo hi k h = ground (arith, h)
bounded_integer-eq (some (int n)) name lo hi k h = elim (Option-cases (in_range lo hi n)) [
  | inl e ↦ ground (arith, e, h)
  | inr (j, e) ↦
      let same : j ≡ k = ground (arith, e, h) in
      ap (λ x. some (int x)) (in_range-eq lo hi n j e ∙ ap pos same)
]
bounded_integer-eq (some (bool b)) name lo hi k h = ground (arith, h)
bounded_integer-eq (some (str s)) name lo hi k h = ground (arith, h)
bounded_integer-eq (some (arr x)) name lo hi k h = ground (arith, h)
bounded_integer-eq (some (obj x)) name lo hi k h = ground (arith, h)

declared_reached_iff :
    (v : Option Json) (b : Bool) → declared_reached v ≡ ok b → b ≡ false ↔ v ≢ some (bool true)
unfolding declared_reached
declared_reached_iff none b h = (λ _ e. ground (arith, e), λ _. ground (arith, h))
declared_reached_iff (some null) b h = (λ _ e. ground (arith, e), λ _. ground (arith, h))
declared_reached_iff (some (bool true)) b h =
    (λ f e. ground (arith, f, h), λ other. absurd (other refl))
declared_reached_iff (some (bool false)) b h = (λ _ e. ground (arith, e), λ _. ground (arith, h))
declared_reached_iff (some (int n)) b h = ground (arith, h)
declared_reached_iff (some (str s)) b h = ground (arith, h)
declared_reached_iff (some (arr x)) b h = ground (arith, h)
declared_reached_iff (some (obj x)) b h = ground (arith, h)

-- Fewer events are observed than the limit, and the family is not declared to have reached it.
abbrev pub IsBelow : Json → Type 0
IsBelow value =
    (state : Fields) × (observed : ℕ) × (limit : ℕ) × (value ≡ obj state)
    × (get "observed" state ≡ some (int (pos observed)))
    × (get "limit" state ≡ some (int (pos limit)))
    × (observed < limit)
    × (get "reached" state ≢ some (bool true))

reached_iff :
    (declared : Bool) (observed limit : ℕ)
    → (declared || leb limit observed) ≡ false ↔ ((declared ≡ false) × (observed < limit))
reached_iff true observed limit = (λ h. ground (arith, h), λ h. ground (arith, h.0))
reached_iff false observed limit =
    (λ h. (refl, ground (arith, h)), λ h. let below = h.1 in ground (arith, below))

-- What is read of a family is unreached exactly when the family is below its limit.
family_iff :
    (key : String) (value : Json) (f : Family)
    → family (key, value) ≡ ok f
    → f.reached ≡ false ↔ IsBelow value
unfolding family
family_iff key value f h =
    let (name, _, h) = >>=-eq-ok (bounded_string (some (str key)) "event family name" 128) _ h in
    elim (Option-cases (object_in (some value))) [
      | inl e ↦ ground (arith, e, h)
      | inr (state, e) ↦
          let body : ((bounded_integer (get "observed" state) "observed" 0 100_000 >>= λ observed.
          bounded_integer (get "limit" state) "limit" 1 100_000 >>= λ limit.
          declared_reached (get "reached" state) >>= λ declared. ok (record {
            name = name;
            observed = observed;
            limit = limit;
            reached = declared || leb limit observed;
          })))
              ≡ ok f =
            ground (arith, e, h) in
          let (observed, o, body) =
            >>=-eq-ok (bounded_integer (get "observed" state) "observed" 0 100_000) _ body in
          let (limit, l, body) =
            >>=-eq-ok (bounded_integer (get "limit" state) "limit" 1 100_000) _ body in
          let (declared, d, body) = >>=-eq-ok (declared_reached (get "reached" state)) _ body in
          let same : (declared || leb limit observed) ≡ f.reached =
            ap (λ (x : Family). x.reached) (ok-same _ refl body) in
          let (undeclared, declared_) = declared_reached_iff (get "reached" state) declared d in
          let (below, reached) = reached_iff declared observed limit in
          let found : value ≡ obj state = ground (arith, object_in-eq (some value) state e) in
          let o_ = bounded_integer-eq (get "observed" state) "observed" 0 100_000 observed o in
          let l_ = bounded_integer-eq (get "limit" state) "limit" 1 100_000 limit l in
          (
            λ unreached.
                let (undecl, less) = below (same ∙ unreached) in
                (state, observed, limit, found, o_, l_, less, undeclared undecl),
            λ (state', observed', limit', found', o', l', less, not_declared).
                let s_ : state ≡ state' = ground (arith, found, found') in
                let oo : observed ≡ observed' = ground (arith, s_, o_, o') in
                let ll : limit ≡ limit' = ground (arith, s_, l_, l') in
                let small : observed < limit = omega (arith, oo, ll, less) in
                let quiet : get "reached" state ≢ some (bool true) =
                  subst (λ s. get "reached" s ≢ some (bool true)) (sym s_) not_declared in
                sym same ∙ reached (declared_ quiet, small),
          )
    ]

families_iff :
    (l : List (String × Json)) (found : List Family)
    → families l ≡ ok found
    → (All (λ (f : Family). f.reached ≡ false) found
        ↔ All (λ (entry : String × Json). IsBelow entry.1) l)
      × (is_empty found ≡ is_empty l)
families_iff [] found h =
    let same : [] ≡ found = ok-same _ refl h in
    subst
      (λ (x : List Family).
        (All (λ (f : Family). f.reached ≡ false) x ↔ Unit) × (is_empty x ≡ true))
      same ((λ _. tt, λ _. tt), refl)
families_iff (entry ∷ rest) found h =
    let (f, one, h) = >>=-eq-ok (family entry) _ h in
    let (more, others, h) = >>=-eq-ok (families rest) _ h in
    let same : f ∷ more ≡ found = ok-same _ refl h in
    let (forward, backward) = family_iff entry.0 entry.1 f one in
    let ((inner, outer), _) = families_iff rest more others in
    subst
      (λ (x : List Family).
        (All (λ (f : Family). f.reached ≡ false) x
          ↔ All (λ (entry : String × Json). IsBelow entry.1) (entry ∷ rest))
        × (is_empty x ≡ false))
      same ((λ (a, b). (forward a, inner b), λ (a, b). (backward a, outer b)), refl)

-- There are families, each of them below its limit.
abbrev pub AreBelow : Fields → Type 0
AreBelow input =
    (supplied : Fields) × (get "event_family_saturation" input ≡ some (obj supplied))
    × (is_empty (entries supplied) ≡ false)
    × All (λ (entry : String × Json). IsBelow entry.1) (entries supplied)

is_empty-insert_by :
    {A : Type 0} (le : A → A → Bool) (x : A) (l : List A) → is_empty (insert_by le x l) ≡ false
unfolding insert_by
is_empty-insert_by le x [] = refl
is_empty-insert_by le x (y ∷ l) = ground arith

is_empty-sort_by :
    {A : Type 0} (le : A → A → Bool) (l : List A) → is_empty (sort_by le l) ≡ is_empty l
unfolding sort_by
is_empty-sort_by le [] = refl
is_empty-sort_by le (x ∷ l) = is_empty-insert_by le x (sort_by le l)

fields_or_none-none : (v : Option Json) → object_in v ≡ none → fields_or_none v ≡ end
fields_or_none-none v e = rw (e, fields_or_none) refl

fields_or_none-some :
    (v : Option Json) (fields : Fields) → object_in v ≡ some fields → fields_or_none v ≡ fields
fields_or_none-some v fields e = rw (e, fields_or_none) refl

-- The families that are read are there and unreached exactly when those supplied are there and below
-- their limits.
pub saturation_iff :
    (input : Fields) (found : List Family)
    → saturation (get "event_family_saturation" input) ≡ ok found
    → ((is_empty found ≡ false) × All (λ (f : Family). f.reached ≡ false) found) ↔ AreBelow input
unfolding saturation
saturation_iff input found h =
    let value = get "event_family_saturation" input in
    let le : String × Json → String × Json → Bool = λ a b. str_leb a.0 b.0 in
    let P : String × Json → Type 0 = λ entry. IsBelow entry.1 in
    let l = entries (fields_or_none value) in
    let (_, _, h) =
      >>=-eq-ok (require (leb (size (fields_or_none value)) 128) too_many_families) _ h in
    let ((inner, outer), kept) = families_iff (sort_by le l) found h in
    let all_kept : is_empty found ≡ is_empty l = kept ∙ is_empty-sort_by le l in
    elim (Option-cases (object_in value)) [
      | inl e ↦ (
        λ (some_family, _).
            let bare : is_empty l ≡ true =
              ap (λ x. is_empty (entries x)) (fields_or_none-none value e) in
            let clash : true ≡ false = sym bare ∙ sym all_kept ∙ some_family in
            absurd (ground (arith, clash)),
        λ (fields, at_, _, _). absurd (ground (arith, e, at_)),
      )
      | inr (fields, e) ↦
          let same = fields_or_none-some value fields e in
          let at_ = object_in-eq value fields e in
          (
            λ (some_family, unreached). (
              fields,
              at_,
              subst (λ x. is_empty (entries x) ≡ false) same (sym all_kept ∙ some_family),
              subst (λ x. All P (entries x)) same (sort_by-All le P l (inner unreached)),
            ),
            λ (fields', at', some_family, below).
                let again : fields' ≡ fields = ground (arith, at_, at') in
                let back = again ∙ sym same in
                (
                  all_kept ∙ subst (λ x. is_empty (entries x) ≡ false) back some_family,
                  outer (All-sort_by le P l (subst (λ x. All P (entries x)) back below)),
                ),
          )
    ]
