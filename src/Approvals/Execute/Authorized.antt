-- ===== src/Approvals/Execute/Authorized.antt =====
-- What the verifier has asked before a mutation runs, and what a refusal leaves.
use kcd2_codex_toolkit.Base.{
  ℕ, ◌+◌, ◌-◌, ◌≤◌, String, Bool, true, false, ◌||◌, Option, List, ◌∷◌, ltb, if◌then◌else◌,
  text_has_eq, elem, Result, ok, err, ◌>>◌, require, refuse, require-eq-ok, refuse-eq-ok, >>=-eq-ok,
  ok-same, Result-cases, &&-true, ◌≡◌, ◌⊎◌, inl, inr, refl, subst, arith, Bool-cases,
}
use kcd2_codex_toolkit.Base.Json.{Json, Fields}
use kcd2_codex_toolkit.Deployment.Node.{DateTime}
use kcd2_codex_toolkit.Approvals.Target.{
  Error, stale_observation, process_differs, bad_clock, already_consumed, ApprovalTarget,
  ProcessStateSnapshot,
}
use kcd2_codex_toolkit.Approvals.Document.{Preconditions, Checked, checked_now, validate_document}
use kcd2_codex_toolkit.Approvals.Document.Approved.{IsApproved, validate_document-IsApproved}
use kcd2_codex_toolkit.Approvals.Ledger.{Key, key_has_eq, Fault, Ledger, consume}
use kcd2_codex_toolkit.Approvals.Ledger.Shared.{write_claim-cases}
use kcd2_codex_toolkit.Approvals.Execute.{
  same_bool, check_process, Asked, World, refused, passed_on, authorize, key_of, execute,
}

same_bool-eq : (a b : Bool) → same_bool a b ≡ true → a ≡ b
same_bool-eq true true h = refl
same_bool-eq true false h = cc
same_bool-eq false true h = cc
same_bool-eq false false h = refl

-- The observation is no older than the limit, and shows what the approval asks for.
pub record IsObserved (max_age : ℕ) (asked : Asked) (process : Preconditions) : Type 0 where
  pub snapshot : ProcessStateSnapshot
  pub observed : asked.observed ≡ ok snapshot
  pub not_ahead : snapshot.observed_at ≤ asked.later_clock.instant
  pub recent : asked.later_clock.instant ≤ snapshot.observed_at + max_age
  pub game_running : snapshot.game_running ≡ process.game_running
  pub debugger_state : snapshot.debugger_state ≡ process.debugger_state

check_process-eq-ok :
    (max_age : ℕ) (snapshot : ProcessStateSnapshot) (now : ℕ) (expected : Preconditions)
    → check_process max_age snapshot now expected ≡ ok tt
    → (snapshot.observed_at ≤ now)
      × (now ≤ snapshot.observed_at + max_age)
      × (snapshot.game_running ≡ expected.game_running)
      × (snapshot.debugger_state ≡ expected.debugger_state)
unfolding check_process
check_process-eq-ok max_age snapshot now expected h =
    let (_, fresh, h) =
      >>=-eq-ok
        (refuse (ltb now snapshot.observed_at || ltb max_age (now - snapshot.observed_at))
          stale_observation)
        _ h in
    let not_stale = refuse-eq-ok _ stale_observation fresh in
    let (game, state) =
      &&-true (same_bool snapshot.game_running expected.game_running) _
        (require-eq-ok _ process_differs h) in
    (
      ground (arith, not_stale),
      ground (arith, not_stale),
      same_bool-eq snapshot.game_running expected.game_running game,
      (text_has_eq.eq_iff snapshot.debugger_state expected.debugger_state).0 state,
    )

module _ (sha256 : Json → String) (fromisoformat : String → Option DateTime) where
  pub record IsAuthorized (max_age : ℕ) (asked : Asked) (approval : Fields) (operation : String)
      (targets : List ApprovalTarget) (checked : Checked) : Type 0 where
    pub document : IsApproved sha256 fromisoformat approval operation targets asked.clock checked
    pub process : IsObserved max_age asked checked.process

  authorize-IsAuthorized :
      (max_age : ℕ) (asked : Asked) (approval : Fields) (operation : String)
      (targets : List ApprovalTarget) (checked : Checked)
      → authorize sha256 fromisoformat max_age asked approval operation targets ≡ ok checked
      → IsAuthorized max_age asked approval operation targets checked
  unfolding authorize checked_now
  authorize-IsAuthorized max_age asked approval operation targets checked h =
      let (found, valid, h) =
        >>=-eq-ok (validate_document sha256 fromisoformat approval operation targets asked.clock) _
          h in
      let (snapshot, observed, h) = >>=-eq-ok asked.observed _ h in
      let (now, clocked, h) =
        >>=-eq-ok (require asked.later_clock.has_offset bad_clock >> ok asked.later_clock.instant) _
          h in
      let (_, fits, last) = >>=-eq-ok (check_process max_age snapshot now found.process) _ h in
      let same : asked.later_clock.instant ≡ now = ground (arith, clocked) in
      let (not_ahead, recent, game, state) =
        check_process-eq-ok max_age snapshot now found.process fits in
      subst (IsAuthorized max_age asked approval operation targets) (ok-same (ok found) refl last)
        (record {
          document =
              validate_document-IsApproved sha256 fromisoformat approval operation targets
                asked.clock found valid;
          process = record {
            snapshot = snapshot;
            observed = observed;
            not_ahead = omega (arith, not_ahead, same);
            recent = omega (arith, recent, same);
            game_running = game;
            debugger_state = state;
          };
        })

module _ (claim_name : Key → String) where
  -- The key was not consumed before, and now it is.
  pub record IsConsumed (durable : Bool) (key : Key) (before after : Ledger) : Type 0 where
    pub fresh : elem key before.consumed ≡ false
    pub unclaimed : (durable ≡ false) ⊎ (elem (claim_name key) before.claims ≡ false)
    pub consumed : after.consumed ≡ key ∷ before.consumed
    pub claims : after.claims ≡ (if durable then claim_name key ∷ before.claims else before.claims)

  consume-cases :
      (durable : Bool) (fault : Fault) (key : Key) (ledger : Ledger)
      → ((e : Error) × (after : Ledger) × (consume claim_name durable fault key ledger
            ≡ (err e, after))
          × (after.consumed ≡ ledger.consumed)
          × ((after.claims ≡ ledger.claims) ⊎ (after.claims ≡ claim_name key ∷ ledger.claims)))
        ⊎ ((after : Ledger) × (consume claim_name durable fault key ledger ≡ (ok tt, after))
            × IsConsumed durable key ledger after)
  unfolding consume
  consume-cases false fault key ledger = elim (Bool-cases (elem key ledger.consumed)) [
    | inl e ↦ inl (already_consumed, ledger, rw e refl, refl, inl refl)
    | inr e ↦ inr (
      record { consumed = key ∷ ledger.consumed; claims = ledger.claims },
      rw e refl,
      record { fresh = e; unclaimed = inl refl; consumed = refl; claims = refl },
    )
  ]
  consume-cases true fault key ledger = elim (Bool-cases (elem key ledger.consumed)) [
    | inl e ↦ inl (already_consumed, ledger, rw e refl, refl, inl refl)
    | inr e ↦ elim (write_claim-cases claim_name fault key ledger.claims) [
      | inl (inl (x, w)) ↦ inl (x, ledger, rw (e, w) refl, refl, inl refl)
      | inl (inr (x, w)) ↦ inl (
        x,
        record ledger { claims = claim_name key ∷ ledger.claims },
        rw (e, w) refl,
        refl,
        inr refl,
      )
      | inr (absent, w) ↦ inr (
        record { consumed = key ∷ ledger.consumed; claims = claim_name key ∷ ledger.claims },
        rw (e, w) refl,
        record { fresh = e; unclaimed = inr absent; consumed = refl; claims = refl },
      )
    ]
  ]

module _ (sha256 : Json → String) (fromisoformat : String → Option DateTime)
    (claim_name : Key → String) {W X T : Type 0} where
  -- A call of the verifier ends in one of two ways. It refuses: then the mutation has not run, so that
  -- the disk is as before, the ledger's set of consumed nonces is as before, and so are the claim
  -- files, or one was added, whose name is that of the key of a document that passed the checks. Or
  -- the document approves the operation on the targets, is in time and bound to its content, the
  -- processes are observed as it asks, its nonce was not consumed before and is now, and the mutation
  -- has run once on the disk: its changes stay, and the value that it returns or the exception that
  -- it raises is how the call ends, with the nonce consumed either way.
  pub execute_answers :
      (durable : Bool) (max_age : ℕ) (asked : Asked) (fault : Fault) (approval : Fields)
      (operation : String) (targets : List ApprovalTarget) (mutation : W → Result X T × W)
      (world : World W)
      → let done =
          execute sha256 fromisoformat claim_name durable max_age asked fault approval operation
            targets mutation world in
        ((e : Error) × (after : Ledger) × (done
            ≡ (refused e, record { ledger = after; disk = world.disk }))
          × (after.consumed ≡ world.ledger.consumed)
          × ((after.claims ≡ world.ledger.claims)
              ⊎ ((checked : Checked) × IsAuthorized sha256 fromisoformat max_age asked approval
                    operation targets checked
                  × (after.claims ≡ claim_name (key_of checked) ∷ world.ledger.claims))))
        ⊎ ((checked : Checked) × (after : Ledger) × IsAuthorized sha256 fromisoformat max_age asked
              approval operation targets checked
            × IsConsumed claim_name durable (key_of checked) world.ledger after
            × (done ≡ (
              passed_on (mutation world.disk).0,
              record { ledger = after; disk = (mutation world.disk).1 },
            )))
  unfolding execute
  execute_answers durable max_age asked fault approval operation targets mutation world =
      elim (Result-cases
        (authorize sha256 fromisoformat max_age asked approval operation targets)) [
          | inr (e, raised) ↦ inl (e, world.ledger, rw raised refl, refl, inl refl)
          | inl (checked, authorized) ↦
              elim (consume-cases claim_name durable fault (key_of checked) world.ledger) [
                | inl (e, after, consumed, same, inl claims) ↦
                    inl (e, after, rw (authorized, consumed) refl, same, inl claims)
                | inl (e, after, consumed, same, inr claims) ↦ inl (
                  e,
                  after,
                  rw (authorized, consumed) refl,
                  same,
                  inr (
                    checked,
                    authorize-IsAuthorized sha256 fromisoformat max_age asked approval operation
                        targets checked authorized,
                    claims,
                  ),
                )
                | inr (after, consumed, fresh) ↦ inr (
                  checked,
                  after,
                  authorize-IsAuthorized sha256 fromisoformat max_age asked approval operation
                      targets checked authorized,
                  fresh,
                  rw (authorized, consumed) refl,
                )
              ]
        ]
