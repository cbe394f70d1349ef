-- ===== src/Deployment/Gate/Total.antt =====
-- The gate always answers: no check of the decision's own refuses what the function proposes.
use kcd2_codex_toolkit.Base.{
  ℕ, ◌≤◌, String, true, false, Option, none, some, List, [], ◌∷◌, ◌==◌, text_has_eq, nat_has_eq,
  lower, is_unique, elem, any_of, chosen, codes, ok, ◌≡◌, refl, arith, sort_texts, len, is_sha256,
  is_addressed, is_unique-sort_by, any_of-sort_by, is_unique-chosen, any_of-chosen, str_leb,
}
use kcd2_codex_toolkit.Base.Json.{pos, in_range}
use kcd2_codex_toolkit.Deployment.Identity.{Error, bad_max_age, is_text, bounded, text, digest}
use kcd2_codex_toolkit.Deployment.Node.{ActiveSnapshot, DeploymentNode, timestamp}
use kcd2_codex_toolkit.Deployment.Registry.{DeploymentRegistry, get}
use kcd2_codex_toolkit.Deployment.Gate.{
  DeploymentOperation, GateDecision, gate_decision, gate_reasons, node_reasons,
  authorize_fresh_snapshot, proposed, max_snapshot_age,
}

module _ (s : ActiveSnapshot) (evaluated max_age : ℕ) where
  distinct_codes :
      (node : Option DeploymentNode)
      → is_unique (codes (gate_reasons s node evaluated max_age)) ≡ true
  unfolding gate_reasons node_reasons is_unique elem
  distinct_codes none = refl
  distinct_codes (some n) = refl

  written_codes :
      (node : Option DeploymentNode)
      → any_of (λ c. len c == 0) (codes (gate_reasons s node evaluated max_age)) ≡ false
  unfolding gate_reasons node_reasons
  written_codes none = refl
  written_codes (some n) = refl

-- The checks that the snapshot's own constructor makes.
pub record IsWellFormed (s : ActiveSnapshot) : Type 0 where
  pub id_text : is_text s.snapshot_id 256 ≡ true
  pub hash_hex : is_sha256 s.snapshot_sha256 ≡ true

proposed_accepted :
    (id : String) (s : ActiveSnapshot) (operation : DeploymentOperation) (reasons : List String)
    → is_addressed "deploy:sha256:" id ≡ true
    → IsWellFormed s
    → is_unique reasons ≡ true
    → any_of (λ c. len c == 0) reasons ≡ false
    → (d : GateDecision) × (gate_decision (proposed id s operation reasons) ≡ ok d)
unfolding gate_decision text digest sort_texts
proposed_accepted id s operation [] a w u n = (
  record (proposed id s operation []) {
    deployment_id = lower id;
    snapshot_sha256 = lower s.snapshot_sha256;
  },
  rw (gate_decision, a, w.id_text, w.hash_hex, u),
)
proposed_accepted id s operation (r ∷ rs) a w u n = (
  record (proposed id s operation (r ∷ rs)) {
    deployment_id = lower id;
    snapshot_sha256 = lower s.snapshot_sha256;
    reason_codes = sort_texts (sort_texts (r ∷ rs));
  },
  rw (
    gate_decision,
    a,
    w.id_text,
    w.hash_hex,
    any_of-sort_by str_leb (λ c. len c == 0) (r ∷ rs),
    n,
    is_unique-sort_by str_leb (r ∷ rs),
    u,
  ),
)

bounded_lem : (lo hi n : ℕ) (e : Error) → lo ≤ n → n ≤ hi → bounded lo hi (pos n) e ≡ ok n
unfolding bounded in_range
bounded_lem lo hi n e p q = ground arith

-- A well-formed snapshot, a deployment identifier of the right form, a clock with an offset and an
-- age limit within bounds always lead to a decision.
pub authorize_answers :
    (registry : DeploymentRegistry) (id : String) (s : ActiveSnapshot)
    (operation : DeploymentOperation) (evaluated max_age : ℕ)
    → is_addressed "deploy:sha256:" id ≡ true
    → IsWellFormed s
    → 1 ≤ max_age
    → max_age ≤ max_snapshot_age
    → (d : GateDecision) × (authorize_fresh_snapshot registry id s operation
          (record { instant = evaluated; has_offset = true })
          (pos max_age)
        ≡ ok d)
unfolding authorize_fresh_snapshot timestamp
authorize_answers registry id s operation evaluated max_age a w lo hi =
    let reasons = gate_reasons s (get registry id) evaluated max_age in
    let (d, e) =
      proposed_accepted id s operation (chosen reasons) a w
        (is_unique-chosen reasons (distinct_codes s evaluated max_age (get registry id)))
        (any_of-chosen _ reasons (written_codes s evaluated max_age (get registry id))) in
    (d, rw (authorize_fresh_snapshot, bounded_lem 1 max_snapshot_age max_age bad_max_age lo hi) e)
