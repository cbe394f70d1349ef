-- ===== src/Candidates/Aliases/Pairs.antt =====
-- Any two aliases with one label, read from the records.
use kcd2_codex_toolkit.Base.{
  String, true, Option, none, some, List, [], ◌∷◌, ◌++◌, map, ◌==◌, ◌||◌, text_has_eq, elem,
  all_of-All, ok, All, All-map, All-elem, Any, here, there, ◌≡◌, ◌⊎◌, inl, inr, refl, sym, ap, ◌∙◌,
  subst, arith, Bool-cases, Option-cases,
}
use kcd2_codex_toolkit.Candidates.Record.{CandidateRecord, CandidateAlias}
use kcd2_codex_toolkit.Candidates.Aliases.{
  Entry, distinct_from, entries, is_key, has_shared_key, candidate_ids, label_of, members, labels,
  validate_aliases,
}
use kcd2_codex_toolkit.Candidates.Aliases.Symmetric.{neighbors-flip}
use kcd2_codex_toolkit.Candidates.Aliases.Joined.{
  Joined, start_here, step, IsShared, IsUnambiguous, validate_aliases-IsUnambiguous,
}

-- The item stands in the list.
abbrev pub Holds : {A : Type 0} → List A → A → Type 0
Holds l x = Any (λ y. y ≡ x) l

All-Holds : {A : Type 0} (P : A → Type 0) (l : List A) (x : A) → All P l → Holds l x → P x
All-Holds P [] x h a = elim a [ ]
All-Holds P (y ∷ l) x h (here e) = subst P e h.0
All-Holds P (y ∷ l) x h (there a) = All-Holds P l x h.1 a

Holds-append_left : {A : Type 0} (l m : List A) (x : A) → Holds l x → Holds (l ++ m) x
Holds-append_left [] m x a = elim a [ ]
Holds-append_left (y ∷ l) m x (here e) = here e
Holds-append_left (y ∷ l) m x (there a) = there (Holds-append_left l m x a)

Holds-append_right : {A : Type 0} (l m : List A) (x : A) → Holds m x → Holds (l ++ m) x
Holds-append_right [] m x a = a
Holds-append_right (y ∷ l) m x a = there (Holds-append_right l m x a)

Holds-map : {A B : Type 0} (f : A → B) (l : List A) (x : A) → Holds l x → Holds (map f l) (f x)
Holds-map f [] x a = elim a [ ]
Holds-map f (y ∷ l) x (here e) = here (ap f e)
Holds-map f (y ∷ l) x (there a) = there (Holds-map f l x a)

elem-Holds : (l : List String) (x : String) → Holds l x → elem x l ≡ true
unfolding elem
elem-Holds [] x a = elim a [ ]
elem-Holds (y ∷ l) x (here e) =
    let same = (text_has_eq.eq_iff x y).1 (sym e) in ground (arith, same)
elem-Holds (y ∷ l) x (there a) = let found = elem-Holds l x a in ground (arith, found)

Holds-entries :
    (records : List CandidateRecord) (r : CandidateRecord) (a : CandidateAlias)
    → Holds records r
    → Holds r.aliases a
    → Holds (entries records) (r.candidate_id, a)
Holds-entries [] r a k h = elim k [ ]
Holds-entries (q ∷ records) r a (here e) h =
    Holds-append_left (map (λ b. (q.candidate_id, b)) q.aliases) (entries records)
      (r.candidate_id, a)
      (subst
        (λ (p : CandidateRecord).
          Holds {A = Entry} (map (λ b. (p.candidate_id, b)) p.aliases) (r.candidate_id, a))
        (sym e) (Holds-map (λ b. (r.candidate_id, b)) r.aliases a h))
Holds-entries (q ∷ records) r a (there k) h =
    Holds-append_right (map (λ b. (q.candidate_id, b)) q.aliases) (entries records)
      (r.candidate_id, a) (Holds-entries records r a k h)

elem-distinct_from :
    (x : String) (seen l : List String)
    → elem x l ≡ true
    → (elem x seen || elem x (distinct_from seen l)) ≡ true
unfolding elem
elem-distinct_from x seen [] h = cc
elem-distinct_from x seen (v ∷ l) h = elim (Bool-cases (elem v seen)) [
  | inl e ↦ elim (Bool-cases (x == v)) [
    | inl f ↦
        let same : x ≡ v = (text_has_eq.eq_iff x v).0 f in
        let found : elem x seen ≡ true = subst (λ y. elem y seen ≡ true) (sym same) e in
        ground (arith, found)
    | inr f ↦ let more = elem-distinct_from x seen l (ground (arith, f, h)) in rw e more
  ]
  | inr e ↦ elim (Bool-cases (x == v)) [
    | inl f ↦ ground (arith, e, f)
    | inr f ↦
        let more = elem-distinct_from x (v ∷ seen) l (ground (arith, f, h)) in
        ground (arith, e, f, more)
  ]
]

Holds-members :
    (casefold : String → String) (label : String) (l : List Entry) (m : Entry)
    → label_of casefold m ≡ label
    → Holds l m
    → Holds (members casefold label l) m
Holds-members casefold label [] m e a = elim a [ ]
Holds-members casefold label (n ∷ l) m e (here same) =
    let fits : (label_of casefold n == label) ≡ true =
      (text_has_eq.eq_iff _ _).1 (ap (label_of casefold) same ∙ e) in
    rw fits (here same)
Holds-members casefold label (n ∷ l) m e (there a) =
    elim (Bool-cases (label_of casefold n == label)) [
      | inl f ↦ rw f (there (Holds-members casefold label l m e a))
      | inr f ↦ rw f (Holds-members casefold label l m e a)
    ]

-- The entries have one variant key.
is_key-eq : (k : String) (o : Option String) → is_key k o ≡ true → o ≡ some k
is_key-eq k none h = cc
is_key-eq k (some l) h = ap some (sym ((text_has_eq.eq_iff k l).0 h))

has_shared_key-All :
    (l : List Entry)
    → has_shared_key l ≡ true
    → (k : String) × All (λ (m : Entry). m.1.variant_key ≡ some k) l
has_shared_key-All [] h = cc
has_shared_key-All ((id, a) ∷ l) h = elim (Option-cases a.variant_key) [
  | inl e ↦ ground (arith, e, h)
  | inr (k, e) ↦ (
    k,
    (
      e,
      All-map l (λ (m : Entry) f. is_key-eq k m.1.variant_key f)
          (all_of-All (λ (m : Entry). is_key k m.1.variant_key) l (ground (arith, e, h))),
    ),
  )
]

Joined-Joined :
    (records : List CandidateRecord) (a b c : String)
    → Joined records a b
    → Joined records b c
    → Joined records a c
Joined-Joined records a b _ h start_here = h
Joined-Joined records a b _ h (step {b = d} {c = c} k e) = step (Joined-Joined records a b d h k) e

Joined-flip :
    (records : List CandidateRecord) (a b : String) → Joined records a b → Joined records b a
Joined-flip records a _ start_here = start_here
Joined-flip records a _ (step {b = d} {c = c} k e) =
    Joined-Joined records c d a (step start_here (sym (neighbors-flip d c records) ∙ e))
      (Joined-flip records a d k)

-- What the check of one label says of two of its members.
shared-pair :
    (records : List CandidateRecord) (shared : List Entry) (ids : List String) (m n : Entry)
    → IsShared records shared ids
    → Holds shared m
    → Holds shared n
    → elem m.0 ids ≡ true
    → elem n.0 ids ≡ true
    → (m.0 ≡ n.0)
      ⊎ ((k : String) × (m.1.variant_key ≡ some k)
          × (n.1.variant_key ≡ some k)
          × Joined records m.0 n.0)
unfolding elem
shared-pair records shared [] m n h hm hn em en = cc
shared-pair records shared (only ∷ []) m n h hm hn em en =
    inl (ground (arith, em, en, text_has_eq.eq_iff m.0 only, text_has_eq.eq_iff n.0 only))
shared-pair records shared (x ∷ y ∷ rest) m n (keyed, (start, all)) hm hn em en =
    let (k, keys) = has_shared_key-All shared keyed in
    inr (
      k,
      All-Holds (λ (e : Entry). e.1.variant_key ≡ some k) shared m keys hm,
      All-Holds (λ (e : Entry). e.1.variant_key ≡ some k) shared n keys hn,
      Joined-Joined records m.0 start n.0
          (Joined-flip records start m.0
            (All-elem (Joined records start) (x ∷ y ∷ rest) all m.0 em))
          (All-elem (Joined records start) (x ∷ y ∷ rest) all n.0 en),
    )

-- A value that is there is there once.
elem-once : (x : String) (l : List String) → elem x l ≡ true → elem x (distinct_from [] l) ≡ true
unfolding elem
elem-once x l h = elem-distinct_from x [] l h

-- Where the check of the aliases passes: any two candidates that have aliases with one label, in any
-- case, are the same candidate, or the two aliases have one variant key and a path of `variant_of`
-- edges, in either direction, joins the two candidates.
pub validate_aliases_joins :
    (casefold : String → String) (records : List CandidateRecord) (r s : CandidateRecord)
    (a b : CandidateAlias)
    → validate_aliases casefold records ≡ ok tt
    → Holds records r
    → Holds records s
    → Holds r.aliases a
    → Holds s.aliases b
    → casefold a.label ≡ casefold b.label
    → (r.candidate_id ≡ s.candidate_id)
      ⊎ ((k : String) × (a.variant_key ≡ some k)
          × (b.variant_key ≡ some k)
          × Joined records r.candidate_id s.candidate_id)
validate_aliases_joins casefold records r s a b h hr hs ha hb same =
    let label = casefold b.label in
    let m : Entry = (r.candidate_id, a) in
    let n : Entry = (s.candidate_id, b) in
    let em = Holds-entries records r a hr ha in
    let en = Holds-entries records s b hs hb in
    let shared = members casefold label (entries records) in
    let hm = Holds-members casefold label (entries records) m same em in
    let hn = Holds-members casefold label (entries records) n refl en in
    let listed = elem-once label (map (label_of casefold) (entries records)) (
      elem-Holds (map (label_of casefold) (entries records)) label
        (Holds-map (label_of casefold) (entries records) n en)) in
    let checked =
      All-elem (IsUnambiguous casefold records) (labels casefold (entries records))
        (validate_aliases-IsUnambiguous casefold records h) label listed in
    shared-pair records shared (candidate_ids shared) m n checked hm hn
      (elem-once m.0 (map (λ (e : Entry). e.0) shared) (
        elem-Holds (map (λ (e : Entry). e.0) shared) m.0
          (Holds-map (λ (e : Entry). e.0) shared m hm)))
      (elem-once n.0 (map (λ (e : Entry). e.0) shared) (
        elem-Holds (map (λ (e : Entry). e.0) shared) n.0
          (Holds-map (λ (e : Entry). e.0) shared n hn)))
