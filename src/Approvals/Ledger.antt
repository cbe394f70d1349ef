-- ===== src/Approvals/Ledger.antt =====
-- `ApprovalLedger`: the nonces that were consumed, in memory and, where the ledger has a directory, as
-- claim files. `claim_name` stands for the hash of the canonical JSON of the identifier and the nonce.
pub mod Shared
use kcd2_codex_toolkit.Base.{
  ℕ, String, Bool, true, false, List, [], ◌∷◌, if◌then◌else◌, ◌==◌, Eq, eq_of_discrete,
  text_discrete, text_has_eq, elem, Result, ok, err,
}
use kcd2_codex_toolkit.Approvals.Target.{Error, already_consumed, not_durable}

-- The pair that is consumed.
pub record Key : Type 0 where
  pub approval_id : String
  pub nonce : String

unfoldable pub key_discrete : Discrete Key
unfolding text_discrete
key_discrete = hlevel text_discrete

instance abbrev pub key_has_eq : Eq Key
unfolding key_discrete
key_has_eq = eq_of_discrete key_discrete

-- Where writing a claim file fails: not at all, when it is opened, or behind that, when it exists.
pub data Fault : Type 0 where
  no_fault at_open at_write : Fault

-- One ledger's set, and the claim files of the directory, which ledgers may share.
pub record Ledger : Type 0 where
  pub consumed : List Key
  pub claims : List String

module _ (claim_name : Key → String) where
  -- `with claim.open("xb") as stream: stream.write(...)`
  unfoldable pub write_claim : Fault → Key → List String → Result Error Unit × List String
  write_claim fault key claims =
      if elem (claim_name key) claims then (err already_consumed, claims) else elim fault [
        | no_fault ↦ (ok tt, claim_name key ∷ claims)
        | at_open ↦ (err not_durable, claims)
        | at_write ↦ (err not_durable, claim_name key ∷ claims)
      ]

  abbrev pub remember : Key → Ledger → Result Error Unit × List String → Result Error Unit × Ledger
  remember key ledger (ok u, claims) =
      (ok tt, record { consumed = key ∷ ledger.consumed; claims = claims })
  remember key ledger (err e, claims) = (err e, record ledger { claims = claims })

  -- `consume`, for a ledger with a directory or without one
  unfoldable pub consume : Bool → Fault → Key → Ledger → Result Error Unit × Ledger
  consume durable fault key ledger =
      if elem key ledger.consumed
      then (err already_consumed, ledger)
      else remember key ledger
          (if durable then write_claim fault key ledger.claims else (ok tt, ledger.claims))
