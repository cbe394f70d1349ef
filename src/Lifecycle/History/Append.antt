-- ===== src/Lifecycle/History/Append.antt =====
-- Appending: the old events stay, and an installation is validated only through a fresh gate.
use kcd2_codex_toolkit.Base.{
  ℕ, String, true, Option, some, List, [], ◌∷◌, ◌++◌, ◌≡◌, sym, ap, ◌∙◌, arith, text_has_eq, ok,
}
use kcd2_codex_toolkit.Base.Json.{pos}
use kcd2_codex_toolkit.Deployment.Node.{DateTime, DeploymentNode, ActiveSnapshot}
use kcd2_codex_toolkit.Deployment.Registry.{DeploymentRegistry, get}
use kcd2_codex_toolkit.Deployment.Gate.{
  GateDecision, authorizes, install_validation, authorize_fresh_snapshot, operation_has_eq,
}
use kcd2_codex_toolkit.Deployment.Gate.Fresh.{IsFresh, allowed_iff_IsFresh}
use kcd2_codex_toolkit.Lifecycle.Types.{EventType, event_type_has_eq}
use kcd2_codex_toolkit.Lifecycle.Event.{LifecycleEvent}
use kcd2_codex_toolkit.Lifecycle.History.{
  CandidateLifecycle, gate_matches, candidate_lifecycle, append,
}

module _ (fromisoformat : String → Option DateTime) where
  made_events :
      (events : List LifecycleEvent) {h : CandidateLifecycle}
      → candidate_lifecycle fromisoformat events ≡ ok h
      → h.events ≡ events
  unfolding candidate_lifecycle
  made_events events made = ground arith

  module _ (h : CandidateLifecycle) (e : LifecycleEvent) (gate : Option GateDecision)
      {k : CandidateLifecycle} (appended : append fromisoformat h e gate ≡ ok k) where
    pub append_parts :
        (e.event_type ≡ EventType.install_validated → gate_matches gate e ≡ true)
        × (candidate_lifecycle fromisoformat (h.events ++ e ∷ []) ≡ ok k)
    unfolding append
    append_parts = ground (arith, event_type_has_eq.eq_iff e.event_type EventType.install_validated)

    -- A successful append adds the event behind the old ones.
    pub append-events : k.events ≡ h.events ++ e ∷ []
    append-events = made_events (h.events ++ e ∷ []) append_parts.1

opened_at :
    (gate : GateDecision) (e : LifecycleEvent) (id : String)
    → e.deployment_id ≡ some id
    → gate_matches (some gate) e ≡ true
    → (gate.allowed ≡ true) × (gate.operation ≡ install_validation) × (gate.deployment_id ≡ id)
unfolding gate_matches authorizes
opened_at gate e id named h = ground (
  arith,
  operation_has_eq.eq_iff gate.operation install_validation,
  text_has_eq.eq_iff gate.deployment_id id,
)

opened_named :
    (gate : GateDecision) (e : LifecycleEvent)
    → gate_matches (some gate) e ≡ true
    → (id : String) × (e.deployment_id ≡ some id)
unfolding gate_matches
opened_named gate e h = ground arith

-- A gate that matches an event is open for install validation and names the event's deployment.
pub opened :
    (gate : GateDecision) (e : LifecycleEvent)
    → gate_matches (some gate) e ≡ true
    → (gate.allowed ≡ true)
      × (gate.operation ≡ install_validation)
      × (e.deployment_id ≡ some gate.deployment_id)
opened gate e h =
    let (id, named) = opened_named gate e h in
    let (allowed, operation, same) = opened_at gate e id named h in
    (allowed, operation, named ∙ ap some (sym same))

-- If an INSTALL_VALIDATED event is appended through a decision of the gate, then the deployment is
-- registered, the snapshot was fresh for its node, and the event names the decision's deployment.
pub install_needs_authorization :
    (fromisoformat : String → Option DateTime) (h : CandidateLifecycle) (e : LifecycleEvent)
    (registry : DeploymentRegistry) (id : String) (s : ActiveSnapshot) (evaluated max_age : ℕ)
    {gate : GateDecision} {k : CandidateLifecycle}
    → authorize_fresh_snapshot registry id s install_validation
        (record { instant = evaluated; has_offset = true })
        (pos max_age)
      ≡ ok gate
    → e.event_type ≡ EventType.install_validated
    → append fromisoformat h e (some gate) ≡ ok k
    → ((n : DeploymentNode) × (get registry id ≡ some n) × IsFresh s n evaluated max_age)
      × (e.deployment_id ≡ some gate.deployment_id)
install_needs_authorization p h e registry id s evaluated max_age {gate = gate} decided install
      appended =
    let (allowed, _, named) = opened gate e ((append_parts p h e (some gate) appended).0 install) in
    (
      (allowed_iff_IsFresh registry id s install_validation evaluated max_age decided).0 allowed,
      named,
    )
