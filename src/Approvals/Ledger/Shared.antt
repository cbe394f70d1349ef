-- ===== src/Approvals/Ledger/Shared.antt =====
-- Ledgers of several processes over one directory, whose consumptions interleave in any order.
use kcd2_codex_toolkit.Base.{
  ℕ, String, true, false, List, [], ◌∷◌, if◌then◌else◌, ◌==◌, nat_has_eq, elem, is_unique, Result,
  ok, err, All, All-elem, ◌≡◌, ◌⊎◌, inl, inr, refl, sym, subst, arith, Bool-cases,
}
use kcd2_codex_toolkit.Base.{text_has_eq}
use kcd2_codex_toolkit.Approvals.Target.{Error, already_consumed, not_durable}
use kcd2_codex_toolkit.Approvals.Ledger.{
  Key, key_has_eq, Fault, no_fault, at_open, at_write, Ledger, write_claim, consume,
}

-- The sets of the processes, the claim files that they share, and the keys that were granted so far,
-- the last one first.
pub record Shared : Type 0 where
  pub memory : ℕ → List Key
  pub claims : List String
  pub granted : List Key

abbrev pub at_boot : Shared
at_boot = record { memory = λ i. []; claims = []; granted = [] }

abbrev pub put : (ℕ → List Key) → ℕ → List Key → ℕ → List Key
put memory i keys j = if i == j then keys else memory j

abbrev settle : Shared → ℕ → Key → Result Error Unit × Ledger → Shared
settle s i key (ok u, ledger) = record {
  memory = put s.memory i ledger.consumed;
  claims = ledger.claims;
  granted = key ∷ s.granted;
}
settle s i key (err e, ledger) = record {
  memory = put s.memory i ledger.consumed;
  claims = ledger.claims;
  granted = s.granted;
}

module _ (claim_name : Key → String) where
  -- One process consumes a key in the shared directory.
  unfoldable pub attempt : Shared → ℕ → Key → Fault → Shared
  attempt s i key fault =
      settle s i key
        (consume claim_name true fault key (record { consumed = s.memory i; claims = s.claims }))

  -- A process consumes a key, whatever fails, or it starts anew and has forgotten its set.
  pub data Step (s : Shared) : Shared → Type 0 where
    consumes : (i : ℕ) (key : Key) (fault : Fault) → Step s (attempt s i key fault)
    restarts : (i : ℕ) → Step s (record s { memory = put s.memory i [] })

  pub data Reach : Shared → Type 0 where
    boot : Reach at_boot
    next : {s t : Shared} → Reach s → Step s t → Reach t

  abbrev AreClaimed : List String → List Key → Type 0
  AreClaimed claims granted = All (λ key. elem (claim_name key) claims ≡ true) granted

  -- Each granted key has its claim file, and none was granted twice.
  record IsClaimed (s : Shared) : Type 0 where
    claimed : AreClaimed s.claims s.granted
    once : is_unique s.granted ≡ true

  more_claims :
      (name : String) (claims : List String) (l : List Key)
      → All (λ key. elem (claim_name key) claims ≡ true) l
      → All (λ key. elem (claim_name key) (name ∷ claims) ≡ true) l
  unfolding elem
  more_claims name claims [] h = tt
  more_claims name claims (key ∷ l) (here, all) =
      (ground (arith, here), more_claims name claims l all)

  fresh_key :
      (key : Key) (claims : List String) (l : List Key)
      → All (λ k. elem (claim_name k) claims ≡ true) l
      → elem (claim_name key) claims ≡ false
      → elem key l ≡ false
  fresh_key key claims l all absent = elim (Bool-cases (elem key l)) [
    | inl e ↦ let known = All-elem (λ k. elem (claim_name k) claims ≡ true) l all key e in cc
    | inr e ↦ e
  ]

  pub write_claim-cases :
      (fault : Fault) (key : Key) (claims : List String)
      → (((e : Error) × (write_claim claim_name fault key claims ≡ (err e, claims)))
          ⊎ ((e : Error) × (write_claim claim_name fault key claims
                ≡ (err e, claim_name key ∷ claims))))
        ⊎ ((elem (claim_name key) claims ≡ false)
            × (write_claim claim_name fault key claims ≡ (ok tt, claim_name key ∷ claims)))
  unfolding write_claim
  write_claim-cases no_fault key claims = elim (Bool-cases (elem (claim_name key) claims)) [
    | inl e ↦ inl (inl (already_consumed, rw e refl))
    | inr e ↦ inr (e, rw e refl)
  ]
  write_claim-cases at_open key claims = elim (Bool-cases (elem (claim_name key) claims)) [
    | inl e ↦ inl (inl (already_consumed, rw e refl))
    | inr e ↦ inl (inl (not_durable, rw e refl))
  ]
  write_claim-cases at_write key claims = elim (Bool-cases (elem (claim_name key) claims)) [
    | inl e ↦ inl (inl (already_consumed, rw e refl))
    | inr e ↦ inl (inr (not_durable, rw e refl))
  ]

  -- What one consumption leaves: no new grant, or a grant whose claim file is new.
  attempt-cases :
      (s : Shared) (i : ℕ) (key : Key) (fault : Fault)
      → let t = attempt s i key fault in
        ((t.granted ≡ s.granted) × ((t.claims ≡ s.claims) ⊎ (t.claims ≡ claim_name key ∷ s.claims)))
        ⊎ ((elem (claim_name key) s.claims ≡ false)
            × (t.granted ≡ key ∷ s.granted)
            × (t.claims ≡ claim_name key ∷ s.claims))
  unfolding attempt consume
  attempt-cases s i key fault = elim (Bool-cases (elem key (s.memory i))) [
    | inl e ↦ inl (rw e refl, inl (rw e refl))
    | inr e ↦ elim (write_claim-cases fault key s.claims) [
      | inl (inl (_, w)) ↦ inl (rw (e, w) refl, inl (rw (e, w) refl))
      | inl (inr (_, w)) ↦ inl (rw (e, w) refl, inr (rw (e, w) refl))
      | inr (absent, w) ↦ inr (absent, rw (e, w) refl, rw (e, w) refl)
    ]
  ]

  IsClaimed-of :
      (s t : Shared) (key : Key)
      → IsClaimed s
      → ((t.granted ≡ s.granted) × ((t.claims ≡ s.claims) ⊎ (t.claims ≡ claim_name key ∷ s.claims)))
        ⊎ ((elem (claim_name key) s.claims ≡ false)
            × (t.granted ≡ key ∷ s.granted)
            × (t.claims ≡ claim_name key ∷ s.claims))
      → IsClaimed t
  unfolding elem is_unique
  IsClaimed-of s t key inv (inl (g, inl c)) = record {
    claimed = rw (g, c) inv.claimed;
    once = rw g inv.once;
  }
  IsClaimed-of s t key inv (inl (g, inr c)) = record {
    claimed = rw (g, c) (more_claims (claim_name key) s.claims s.granted inv.claimed);
    once = rw g inv.once;
  }
  IsClaimed-of s t key inv (inr (absent, g, c)) =
      let fresh = fresh_key key s.claims s.granted inv.claimed absent in
      record {
        claimed = subst (AreClaimed t.claims) (sym g) (
            subst (λ claims. AreClaimed claims (key ∷ s.granted)) (sym c)
              (
                ground (arith, text_has_eq.eq_iff (claim_name key) (claim_name key)),
                more_claims (claim_name key) s.claims s.granted inv.claimed,
              ));
        once = rw g (ground (arith, fresh, inv.once));
      }

  Step-IsClaimed : {s t : Shared} → Step s t → IsClaimed s → IsClaimed t
  Step-IsClaimed {s} (consumes i key fault) inv =
      IsClaimed-of s (attempt s i key fault) key inv (attempt-cases s i key fault)
  Step-IsClaimed {s} (restarts i) inv = record { claimed = inv.claimed; once = inv.once }

  Reach-IsClaimed : {s : Shared} → Reach s → IsClaimed s
  unfolding is_unique
  Reach-IsClaimed boot = record { claimed = tt; once = refl }
  Reach-IsClaimed (next r step) = Step-IsClaimed step (Reach-IsClaimed r)

  -- However the consumptions of the processes interleave, whatever fails and whoever starts anew: no
  -- key is granted twice, and each granted key has its claim file.
  pub granted_once :
      {s : Shared}
      → Reach s
      → (is_unique s.granted ≡ true) × All (λ key. elem (claim_name key) s.claims ≡ true) s.granted
  granted_once r = let inv = Reach-IsClaimed r in (inv.once, inv.claimed)
