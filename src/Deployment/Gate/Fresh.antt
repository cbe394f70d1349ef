-- ===== src/Deployment/Gate/Fresh.antt =====
-- The gate opens exactly for a fresh snapshot that is complete, exact and equal to its node.
use kcd2_codex_toolkit.Base.{
  ℕ, ◌*◌, ◌+◌, ◌≤◌, String, true, none, some, text_has_eq, is_empty, chosen, chosen-eq-nil,
  chosen-none, NoneHolds, ok, ◌≡◌, ◌↔◌, arith, inl, inr, Option-cases, is_empty-eq-nil, sym, ◌∙◌,
  ap,
}
use kcd2_codex_toolkit.Base.Json.{pos, in_range}
use kcd2_codex_toolkit.Deployment.Identity.{bounded}
use kcd2_codex_toolkit.Deployment.Node.{
  ActiveSnapshot, DeploymentNode, timestamp, exact_deployment, complete, scope_has_eq,
  coverage_has_eq, identity_has_eq,
}
use kcd2_codex_toolkit.Deployment.Registry.{DeploymentRegistry, get}
use kcd2_codex_toolkit.Deployment.Gate.{
  DeploymentOperation, GateDecision, gate_decision, gate_reasons, node_reasons,
  authorize_fresh_snapshot, proposed,
}

-- What the gate asks of a snapshot and the node that it is said to show.
pub record IsFresh (s : ActiveSnapshot) (n : DeploymentNode) (evaluated max_age : ℕ) : Type 0 where
  pub exact : s.scope ≡ exact_deployment
  pub covered : s.coverage ≡ complete
  pub not_future : s.captured_at ≤ evaluated
  pub not_stale : evaluated ≤ s.captured_at + max_age * 1_000_000
  pub same_id : s.snapshot_id ≡ n.snapshot_id
  pub same_hash : s.snapshot_sha256 ≡ n.snapshot_sha256
  pub same_identity : s.identity ≡ n.identity

module _ (s : ActiveSnapshot) (evaluated max_age : ℕ) where
  none-IsFresh : NoneHolds (gate_reasons s none evaluated max_age) → ⊥
  unfolding gate_reasons node_reasons
  none-IsFresh h = ground arith

  reasons-IsFresh :
      (n : DeploymentNode)
      → NoneHolds (gate_reasons s (some n) evaluated max_age)
      → IsFresh s n evaluated max_age
  unfolding gate_reasons node_reasons
  reasons-IsFresh n h = ground (
    arith,
    scope_has_eq.eq_iff s.scope exact_deployment,
    coverage_has_eq.eq_iff s.coverage complete,
    text_has_eq.eq_iff s.snapshot_id n.snapshot_id,
    text_has_eq.eq_iff s.snapshot_sha256 n.snapshot_sha256,
    identity_has_eq.eq_iff s.identity n.identity,
  )

  pub IsFresh-reasons :
      (n : DeploymentNode)
      → IsFresh s n evaluated max_age
      → NoneHolds (gate_reasons s (some n) evaluated max_age)
  unfolding gate_reasons node_reasons
  IsFresh-reasons n f = ground (
    arith,
    scope_has_eq.eq_iff s.scope exact_deployment,
    coverage_has_eq.eq_iff s.coverage complete,
    text_has_eq.eq_iff s.snapshot_id n.snapshot_id,
    text_has_eq.eq_iff s.snapshot_sha256 n.snapshot_sha256,
    identity_has_eq.eq_iff s.identity n.identity,
  )

gate_decision-fields :
    (g d : GateDecision)
    → gate_decision g ≡ ok d
    → (d.allowed ≡ g.allowed) × (d.operation ≡ g.operation)
unfolding gate_decision
gate_decision-fields g d h = ground arith

module _ (registry : DeploymentRegistry) (id : String) (s : ActiveSnapshot)
    (operation : DeploymentOperation) (evaluated max_age : ℕ) {d : GateDecision}
    (decided : authorize_fresh_snapshot registry id s operation
        (record { instant = evaluated; has_offset = true })
        (pos max_age)
      ≡ ok d) where
  allowed-is_empty :
      d.allowed ≡ is_empty (chosen (gate_reasons s (get registry id) evaluated max_age))
  unfolding authorize_fresh_snapshot timestamp bounded in_range
  allowed-is_empty = ground (
    arith,
    gate_decision-fields
        (proposed id s operation (chosen (gate_reasons s (get registry id) evaluated max_age))) d,
  )

  open_means : d.allowed ≡ true → NoneHolds (gate_reasons s (get registry id) evaluated max_age)
  open_means h = chosen-eq-nil _ (is_empty-eq-nil _ (sym allowed-is_empty ∙ h))

  open_finds :
      d.allowed ≡ true
      → (n : DeploymentNode) × (get registry id ≡ some n) × IsFresh s n evaluated max_age
  open_finds h = elim (Option-cases (get registry id)) [
    | inl e ↦ absurd (none-IsFresh s evaluated max_age (rw e at (open_means h)))
    | inr (n, e) ↦ (n, e, reasons-IsFresh s evaluated max_age n (rw e at (open_means h)))
  ]

  -- The gate opens exactly when the deployment is registered and the snapshot is exact, complete,
  -- not from the future, not older than the limit, and equal to the node in its identifier, digest
  -- and identity.
  pub allowed_iff_IsFresh :
      (d.allowed ≡ true)
      ↔ ((n : DeploymentNode) × (get registry id ≡ some n) × IsFresh s n evaluated max_age)
  allowed_iff_IsFresh = (
    open_finds,
    λ (n, e, f).
        allowed-is_empty
        ∙ ap is_empty (chosen-none _ (rw e (IsFresh-reasons s evaluated max_age n f))),
  )
