-- ===== src/Correlation/Correlated.antt =====
-- What a report that is valid says of the document.
use kcd2_codex_toolkit.Base.{
  ℕ, String, ◌<>◌, Bool, true, false, not, ◌||◌, Option, none, some, [], text_has_eq, len_in, ◌≡◌,
  ◌⊎◌, inl, inr, refl, ap, ◌∙◌, subst, arith, Bool-cases, Option-cases,
}
use kcd2_codex_toolkit.Base.Json.{
  Json, null, bool, int, str, arr, obj, Fields, get, text_in, object_in,
}
use kcd2_codex_toolkit.Base.Json.Values.{text_in-eq}
use kcd2_codex_toolkit.Correlation.Proof.{unless, ◌⊕◌, bounded_string, bounded_name, is_some}
use kcd2_codex_toolkit.Correlation.Contract.{
  Strategy, same_owner_function, exact_caller_return, same_object_lifetime_proven,
  tls_lifetime_proven, bounded_x64dbg_proof, strategy_of, chosen_strategy, is_x64dbg_strategy,
  stage_of, validate_stage, separated, validate_strategy, validate_by, validate_correlation,
}
use kcd2_codex_toolkit.Correlation.Added.{unless-nil, ⊕-nil}
use kcd2_codex_toolkit.Correlation.Proven.{
  IsOwner, IsLocked, IsLifetime, IsReceipt, validate_owner-IsOwner, validate_caller_return-IsLocked,
  validate_lifetime-IsLifetime, validate_x64dbg-IsReceipt,
}

pub bounded_string-eq :
    (n : ℕ) (v : Option Json)
    → is_some (bounded_string n v) ≡ true
    → (s : String) × (v ≡ some (str s)) × (len_in 1 n s ≡ true) × (bounded_string n v ≡ some s)
unfolding bounded_string
bounded_string-eq n v h = elim (Option-cases (text_in v)) [
  | inl e ↦ ground (arith, e, h)
  | inr (s, e) ↦ elim (Bool-cases (len_in 1 n s)) [
    | inl t ↦ (s, text_in-eq v s e, t, ground (arith, e, t))
    | inr f ↦ ground (arith, e, f, h)
  ]
]

validate_stage-eq :
    (v : Option Json) (path : String)
    → validate_stage v path ≡ some []
    → (stage : String × String) × (stage_of v ≡ some stage)
unfolding validate_stage stage_of
validate_stage-eq v path h = elim (Option-cases (object_in v)) [
  | inl e ↦ ground (arith, e, h)
  | inr (fields, e) ↦
      let body : unless (is_some (bounded_name (get "stage_id" fields))) "STAGE_ID_INVALID"
              (path <> ".stage_id")
            ⊕ unless (is_some (bounded_name (get "hook_id" fields))) "HOOK_ID_INVALID"
                (path <> ".hook_id")
          ≡ some [] =
        ground (arith, e, h) in
      let (one, two) = ⊕-nil _ _ body in
      let (s, _, _, named) = bounded_string-eq 128 (get "stage_id" fields) (unless-nil _ _ _ one) in
      let (t, _, _, hooked) = bounded_string-eq 128 (get "hook_id" fields) (unless-nil _ _ _ two) in
      ((s, t), ground (arith, e, named, hooked))
]

separated-eq :
    (a b : String × String) (x : Bool)
    → (not (separated (some a) (some b)) || x) ≡ true
    → (a ≡ b) ⊎ (x ≡ true)
separated-eq (s, h) (t, k) true e = inr refl
separated-eq (s, h) (t, k) false e =
    let same : s ≡ t = (text_has_eq.eq_iff s t).0 (ground (arith, e)) in
    let hooks : h ≡ k = (text_has_eq.eq_iff h k).0 (ground (arith, e)) in
    inl (λ i. (same i, hooks i))

x64dbg-eq : (s : Strategy) → is_x64dbg_strategy s ≡ true → s ≡ bounded_x64dbg_proof
x64dbg-eq same_owner_function h = cc
x64dbg-eq exact_caller_return h = cc
x64dbg-eq same_object_lifetime_proven h = cc
x64dbg-eq tls_lifetime_proven h = cc
x64dbg-eq bounded_x64dbg_proof h = refl

chosen_strategy-eq :
    (v : Option Json) (s : Strategy)
    → chosen_strategy v ≡ some (some s)
    → (t : String) × (v ≡ some (str t)) × (strategy_of t ≡ some s)
unfolding chosen_strategy
chosen_strategy-eq (some (str t)) s h = (t, refl, ground (arith, h))
chosen_strategy-eq none s h = ground (arith, h)
chosen_strategy-eq (some null) s h = ground (arith, h)
chosen_strategy-eq (some (bool b)) s h = ground (arith, h)
chosen_strategy-eq (some (int n)) s h = ground (arith, h)
chosen_strategy-eq (some (arr x)) s h = cc
chosen_strategy-eq (some (obj x)) s h = cc

module _ (casefold : String → String) (module_sha256 : String) where
  -- The proof that a strategy asks for.
  abbrev pub IsProven : Strategy → Fields → Type 0
  IsProven same_owner_function contract =
      IsOwner casefold module_sha256 (get "owner_function" contract)
  IsProven exact_caller_return contract =
      IsLocked casefold module_sha256 (get "caller_return_lock" contract)
  IsProven same_object_lifetime_proven contract =
      IsLifetime casefold module_sha256 "object" (get "lifetime_proof" contract)
  IsProven tls_lifetime_proven contract =
      IsLifetime casefold module_sha256 "tls" (get "lifetime_proof" contract)
  IsProven bounded_x64dbg_proof contract =
      IsReceipt casefold module_sha256 (get "x64dbg_proof" contract)

  -- The contract names two stages and a strategy, the strategy is proven, and stages that differ are
  -- tied by a debugger receipt.
  pub record IsCorrelated (contract : Fields) : Type 0 where
    pub strategy : Strategy
    pub chosen :
        (t : String) × (get "strategy" contract ≡ some (str t)) × (strategy_of t ≡ some strategy)
    pub source : String × String
    pub target : String × String
    pub source_stage : stage_of (get "source_stage" contract) ≡ some source
    pub target_stage : stage_of (get "target_stage" contract) ≡ some target
    pub routed : (source ≡ target) ⊎ (strategy ≡ bounded_x64dbg_proof)
    pub proven : IsProven strategy contract

  validate_strategy-IsProven :
      (s : Strategy) (contract : Fields) (path : String)
      → validate_strategy casefold s contract module_sha256 path ≡ some []
      → IsProven s contract
  unfolding validate_strategy
  validate_strategy-IsProven same_owner_function contract path h =
      validate_owner-IsOwner casefold module_sha256 _ _ h
  validate_strategy-IsProven exact_caller_return contract path h =
      validate_caller_return-IsLocked casefold module_sha256 _ _ h
  validate_strategy-IsProven same_object_lifetime_proven contract path h =
      validate_lifetime-IsLifetime casefold module_sha256 _ _ _ _ h
  validate_strategy-IsProven tls_lifetime_proven contract path h =
      validate_lifetime-IsLifetime casefold module_sha256 _ _ _ _ h
  validate_strategy-IsProven bounded_x64dbg_proof contract path h =
      validate_x64dbg-IsReceipt casefold module_sha256 _ _ h

  validate_by-eq :
      (s : Strategy) (contract : Fields) (path : String)
      → validate_by casefold s contract module_sha256 path ≡ some []
      → IsProven s contract
        × ((not (
                separated
                  (stage_of (get "source_stage" contract))
                  (stage_of (get "target_stage" contract)))
              || is_x64dbg_strategy s)
            ≡ true)
  unfolding validate_by
  validate_by-eq s contract path h =
      let (_, h) = ⊕-nil _ _ h in
      let (_, h) = ⊕-nil _ _ h in
      let (proven, routed) = ⊕-nil _ _ h in
      (validate_strategy-IsProven s contract path proven, unless-nil _ _ _ routed)

  pub validate_correlation-IsCorrelated :
      (contract : Fields) (path : String)
      → validate_correlation casefold contract module_sha256 path ≡ some []
      → IsCorrelated contract × (is_some (bounded_name (get "correlation_id" contract)) ≡ true)
  unfolding validate_correlation
  validate_correlation-IsCorrelated contract path h =
      let (named, h) = ⊕-nil _ _ h in
      let (source, h) = ⊕-nil _ _ h in
      let (target, h) = ⊕-nil _ _ h in
      let (a, at_source) =
        validate_stage-eq (get "source_stage" contract) (path <> ".source_stage") source in
      let (b, at_target) =
        validate_stage-eq (get "target_stage" contract) (path <> ".target_stage") target in
      elim (Option-cases (chosen_strategy (get "strategy" contract))) [
        | inl e ↦ ground (arith, e, h)
        | inr (c, e) ↦ elim (Option-cases c) [
          | inl e' ↦ ground (arith, e, e', h)
          | inr (s, e') ↦
              let body : validate_by casefold s contract module_sha256 path ≡ some [] =
                ground (arith, e, e', h) in
              let (proven, routed) = validate_by-eq s contract path body in
              let tied : (not (separated (some a) (some b)) || is_x64dbg_strategy s) ≡ true =
                subst (λ x. (not (separated (some a) x) || is_x64dbg_strategy s) ≡ true) at_target
                  (subst
                    (λ x.
                      (not (separated x (stage_of (get "target_stage" contract)))
                        || is_x64dbg_strategy s)
                      ≡ true)
                    at_source routed) in
              (
                record {
                  strategy = s;
                  chosen = chosen_strategy-eq (get "strategy" contract) s (e ∙ ap some e');
                  source = a;
                  target = b;
                  source_stage = at_source;
                  target_stage = at_target;
                  routed = elim (separated-eq a b (is_x64dbg_strategy s) tied) [
                    | inl same ↦ inl same
                    | inr x ↦ inr (x64dbg-eq s x)
                  ];
                  proven = proven;
                },
                unless-nil _ _ _ named,
              )
        ]
      ]
