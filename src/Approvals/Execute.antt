-- ===== src/Approvals/Execute.antt =====
-- `ApprovalVerifier.execute`: the checks of an approval, then the mutation.
pub mod Authorized
use kcd2_codex_toolkit.Base.{
  ℕ, ◌-◌, String, Bool, true, false, not, ◌&&◌, ◌||◌, Option, List, ltb, if◌then◌else◌, ◌==◌,
  text_has_eq, Result, ok, err, ◌>>=◌, ◌>>◌, require, refuse,
}
use kcd2_codex_toolkit.Base.Json.{Json, Fields}
use kcd2_codex_toolkit.Deployment.Node.{DateTime}
use kcd2_codex_toolkit.Approvals.Target.{
  Error, stale_observation, process_differs, ApprovalTarget, ProcessStateSnapshot,
}
use kcd2_codex_toolkit.Approvals.Document.{Preconditions, Checked, checked_now, validate_document}
use kcd2_codex_toolkit.Approvals.Ledger.{Key, Fault, Ledger, consume}

-- `a is b`
abbrev pub same_bool : Bool → Bool → Bool
same_bool true b = b
same_bool false b = not b

-- The tests of the observation, for the age limit in microseconds
unfoldable pub check_process : ℕ → ProcessStateSnapshot → ℕ → Preconditions → Result Error Unit
check_process max_age snapshot now expected = do
  refuse (ltb now snapshot.observed_at || ltb max_age (now - snapshot.observed_at))
      stale_observation
  require
      (same_bool snapshot.game_running expected.game_running
        && snapshot.debugger_state == expected.debugger_state)
      process_differs

-- What the verifier asks while it runs: two readings of its clock and one observation.
pub record Asked : Type 0 where
  pub clock : DateTime
  pub observed : Result Error ProcessStateSnapshot
  pub later_clock : DateTime

-- The ledger, and what mutations change.
pub record World (W : Type 0) : Type 0 where
  pub ledger : Ledger
  pub disk : W

-- How a call ends: the verifier refuses it, `mutation()` raises an exception, which passes on, or
-- `mutation()` returns.
pub data Outcome (X T : Type 0) : Type 0 where
  refused : Error → Outcome X T
  failed : X → Outcome X T
  mutated : T → Outcome X T

-- The end of `mutation()` is the end of the call.
abbrev pub passed_on : {X T : Type 0} → Result X T → Outcome X T
passed_on (ok value) = mutated value
passed_on (err raised) = failed raised

module _ (sha256 : Json → String) (fromisoformat : String → Option DateTime) where
  -- The checks before the nonce is consumed.
  unfoldable pub authorize :
      ℕ → Asked → Fields → String → List ApprovalTarget → Result Error Checked
  authorize max_age asked approval operation targets = do
    checked ← validate_document sha256 fromisoformat approval operation targets asked.clock
    snapshot ← asked.observed
    now ← checked_now asked.later_clock
    check_process max_age snapshot now checked.process
    ok checked

abbrev pub key_of : Checked → Key
key_of checked = record { approval_id = checked.approval_id; nonce = checked.nonce }

module _ (sha256 : Json → String) (fromisoformat : String → Option DateTime)
    (claim_name : Key → String) {W X T : Type 0} where
  -- `return mutation()`, where the nonce could be consumed: whether it returns or raises, the nonce
  -- stays consumed, and the disk is as the mutation left it.
  abbrev pub mutate : (W → Result X T × W) → W → Result Error Unit × Ledger → Outcome X T × World W
  mutate mutation disk (ok u, ledger) =
      let changed = mutation disk in
      (passed_on changed.0, record { ledger = ledger; disk = changed.1 })
  mutate mutation disk (err e, ledger) = (refused e, record { ledger = ledger; disk = disk })

  -- Behind the checks.
  abbrev pub consume_and_mutate :
      Bool → Fault → (W → Result X T × W) → World W → Result Error Checked → Outcome X T × World W
  consume_and_mutate durable fault mutation world (ok checked) =
      mutate mutation world.disk (consume claim_name durable fault (key_of checked) world.ledger)
  consume_and_mutate durable fault mutation world (err e) = (refused e, world)

  unfoldable pub execute :
      Bool
      → ℕ
      → Asked
      → Fault
      → Fields
      → String
      → List ApprovalTarget
      → (W → Result X T × W)
      → World W
      → Outcome X T × World W
  execute durable max_age asked fault approval operation targets mutation world =
      consume_and_mutate durable fault mutation world
        (authorize sha256 fromisoformat max_age asked approval operation targets)
