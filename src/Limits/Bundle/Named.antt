-- ===== src/Limits/Bundle/Named.antt =====
-- The captures of a bundle, and the families that they name.
use kcd2_codex_toolkit.Base.{
  String, true, Option, none, some, List, [], ◌∷◌, elem, set_of, is_unique, text_has_eq, ◌==◌, ◌≡◌,
  ◌≢◌, ◌⊎◌, ◌↔◌, inl, inr, refl, sym, ap, ◌∙◌, arith, Bool-cases,
}
use kcd2_codex_toolkit.Base.Json.{
  Json, null, bool, int, str, arr, obj, Items, nil, cons, Fields, get, array_in,
}
use kcd2_codex_toolkit.Limits.Bundle.{captures_in, event_of, with_event, events}

-- The captures are those under their name; what is no array counts as none.
abbrev pub AreCaptures : Fields → Items → Type 0
AreCaptures bundle captured =
    (get "captures" bundle ≡ some (arr captured))
    ⊎ (((xs : Items) → get "captures" bundle ≢ some (arr xs)) × (captured ≡ nil))

captures_in-cases :
    (v : Option Json)
    → let captured : Items = elim (array_in v) [ none ↦ nil | some captures ↦ captures ] in
      (v ≡ some (arr captured)) ⊎ (((xs : Items) → v ≢ some (arr xs)) × (captured ≡ nil))
captures_in-cases none = inr (λ xs e. ground (arith, e), refl)
captures_in-cases (some null) = inr (λ xs e. ground (arith, e), refl)
captures_in-cases (some (bool b)) = inr (λ xs e. ground (arith, e), refl)
captures_in-cases (some (int n)) = inr (λ xs e. ground (arith, e), refl)
captures_in-cases (some (str s)) = inr (λ xs e. ground (arith, e), refl)
captures_in-cases (some (arr x)) = inl refl
captures_in-cases (some (obj x)) = inr (λ xs e. ground (arith, e), refl)

pub captures_in-AreCaptures : (bundle : Fields) → AreCaptures bundle (captures_in bundle)
captures_in-AreCaptures bundle = captures_in-cases (get "captures" bundle)

-- One of the captures is an object whose event is the text.
pub data IsNamed (family : String) : Items → Type 0 where
  first :
      {capture : Fields} {xs : Items}
      → get "event" capture ≡ some (str family)
      → IsNamed family (cons (obj capture) xs)
  later : {x : Json} {xs : Items} → IsNamed family xs → IsNamed family (cons x xs)

module _ (family : String) where
  with_event-cases :
      (v : Option Json) (rest : List String)
      → elem family (with_event v rest) ≡ true
      → (v ≡ some (str family)) ⊎ (elem family rest ≡ true)
  unfolding elem
  with_event-cases (some (str event)) rest h = elim (Bool-cases (event == family)) [
    | inl e ↦ inl (ap (λ x. some (str x)) ((text_has_eq.eq_iff event family).0 e))
    | inr e ↦
        inr (ground (arith, e, h, text_has_eq.eq_iff event family, text_has_eq.eq_iff family event))
  ]
  with_event-cases none rest h = inr h
  with_event-cases (some null) rest h = inr h
  with_event-cases (some (bool b)) rest h = inr h
  with_event-cases (some (int n)) rest h = inr h
  with_event-cases (some (arr x)) rest h = inr h
  with_event-cases (some (obj x)) rest h = inr h

  elem-with_event :
      (v : Option Json) (rest : List String)
      → elem family rest ≡ true
      → elem family (with_event v rest) ≡ true
  unfolding elem
  elem-with_event (some (str event)) rest h = ground (arith, h)
  elem-with_event none rest h = h
  elem-with_event (some null) rest h = h
  elem-with_event (some (bool b)) rest h = h
  elem-with_event (some (int n)) rest h = h
  elem-with_event (some (arr x)) rest h = h
  elem-with_event (some (obj x)) rest h = h

  with_event-elem : (rest : List String) → elem family (with_event (some (str family)) rest) ≡ true
  unfolding elem
  with_event-elem rest = ground (arith, (text_has_eq.eq_iff family family).1 refl)

  event_of-IsNamed :
      (x : Json) (xs : Items) → event_of x ≡ some (str family) → IsNamed family (cons x xs)
  event_of-IsNamed (obj capture) xs h = first h
  event_of-IsNamed null xs h = ground (arith, h)
  event_of-IsNamed (bool b) xs h = ground (arith, h)
  event_of-IsNamed (int n) xs h = ground (arith, h)
  event_of-IsNamed (str s) xs h = ground (arith, h)
  event_of-IsNamed (arr x) xs h = ground (arith, h)

  events-IsNamed : (xs : Items) → elem family (events xs) ≡ true → IsNamed family xs
  unfolding elem
  events-IsNamed nil h = ground (arith, h)
  events-IsNamed (cons x xs) h = elim (with_event-cases (event_of x) (events xs) h) [
    | inl e ↦ event_of-IsNamed x xs e
    | inr e ↦ later (events-IsNamed xs e)
  ]

  IsNamed-events : (xs : Items) → IsNamed family xs → elem family (events xs) ≡ true
  IsNamed-events nil n = elim n [ ]
  IsNamed-events (cons (obj capture) xs) (first e) = rw e (with_event-elem (events xs))
  IsNamed-events (cons x xs) (later n) =
      elem-with_event (event_of x) (events xs) (IsNamed-events xs n)

  elem-set_of : (l : List String) → elem family (set_of l) ≡ elem family l
  unfolding set_of elem
  elem-set_of [] = refl
  elem-set_of (x ∷ l) = elim (Bool-cases (elem x l)) [
    | inl e ↦ elim (Bool-cases (family == x)) [
      | inl same ↦
          let one : elem family l ≡ true =
            ap (λ y. elem y l) ((text_has_eq.eq_iff family x).0 same) ∙ e in
          ground (arith, e, one, elem-set_of l)
      | inr other ↦
          ground (
            arith,
            e,
            other,
            elem-set_of l,
            text_has_eq.eq_iff family x,
            text_has_eq.eq_iff x family,
          )
    ]
    | inr e ↦ ground (arith, e, elem-set_of l)
  ]

  -- The distinct families are those that a capture names.
  pub named_iff : (xs : Items) → elem family (set_of (events xs)) ≡ true ↔ IsNamed family xs
  named_iff xs = (
    λ h. events-IsNamed xs (sym (elem-set_of (events xs)) ∙ h),
    λ n. elem-set_of (events xs) ∙ IsNamed-events xs n,
  )

pub is_unique-set_of : (l : List String) → is_unique (set_of l) ≡ true
unfolding set_of is_unique
is_unique-set_of [] = refl
is_unique-set_of (x ∷ l) = elim (Bool-cases (elem x l)) [
  | inl e ↦ ground (arith, e, is_unique-set_of l)
  | inr e ↦ ground (arith, e, elem-set_of x l, is_unique-set_of l)
]
