-- ===== src/Lifecycle/History/Grown.antt =====
-- Histories that grow by appends: a validated installation went through an open gate.
use kcd2_codex_toolkit.Base.{
  String, true, Option, none, some, [], ◌∷◌, ◌≡◌, ◌≢◌, ◌⊎◌, inl, inr, refl, sym, ap, ◌∙◌, subst,
  arith, text_has_eq, ok, All, All-append, All-map, Any, Any-with-All, Any-map,
}
use kcd2_codex_toolkit.Deployment.Node.{DateTime}
use kcd2_codex_toolkit.Deployment.Gate.{GateDecision, install_validation, operation_has_eq}
use kcd2_codex_toolkit.Lifecycle.Types.{EventType, InstallationState, event_type_has_eq}
use kcd2_codex_toolkit.Lifecycle.Event.{LifecycleEvent}
use kcd2_codex_toolkit.Lifecycle.Event.Lawful.{IsLawful}
use kcd2_codex_toolkit.Lifecycle.History.{
  CandidateLifecycle, DerivedState, gate_matches, append, derived_state, installation_of,
}
use kcd2_codex_toolkit.Lifecycle.History.Dimensions.{installation-Any}
use kcd2_codex_toolkit.Lifecycle.History.Append.{append_parts, append-events, opened}

-- Histories that are built by appending constructed events, each with the gate that was given.
pub data Grown (fromisoformat : String → Option DateTime) : CandidateLifecycle → Type 0 where
  start : Grown fromisoformat (record { events = [] })
  grow :
      {h k : CandidateLifecycle} (e : LifecycleEvent) (gate : Option GateDecision)
      → Grown fromisoformat h
      → IsLawful e
      → append fromisoformat h e gate ≡ ok k
      → Grown fromisoformat k

module _ (fromisoformat : String → Option DateTime) (e : LifecycleEvent) (gate : GateDecision) where
  -- One of the appends of the growth added the event and was given the gate.
  abbrev pub WasAppended : {h : CandidateLifecycle} → Grown fromisoformat h → Type 0
  WasAppended start = ⊥
  WasAppended (grow d given r lawful appended) = ((d ≡ e) × (given ≡ some gate)) ⊎ WasAppended r

-- Where the event is a validated installation, it was appended with a gate that is open for its
-- deployment.
abbrev pub IsGated :
    (fromisoformat : String → Option DateTime) {h : CandidateLifecycle}
    → Grown fromisoformat h
    → LifecycleEvent
    → Type 0
IsGated p grown e =
    e.event_type ≡ EventType.install_validated
    → (gate : GateDecision) × WasAppended p e gate grown
      × (gate.allowed ≡ true)
      × (gate.operation ≡ install_validation)
      × (e.deployment_id ≡ some gate.deployment_id)

some_gate :
    (gate : Option GateDecision) (e : LifecycleEvent)
    → gate_matches gate e ≡ true
    → (g : GateDecision) × (gate ≡ some g) × (gate_matches (some g) e ≡ true)
unfolding gate_matches
some_gate none e h = cc
some_gate (some g) e h = (g, refl, h)

Grown-All :
    (fromisoformat : String → Option DateTime) {h : CandidateLifecycle}
    (grown : Grown fromisoformat h)
    → All (IsGated fromisoformat grown) h.events
Grown-All p start = tt
Grown-All p (grow {h = h} e gate r lawful appended) =
    subst (All (IsGated p (grow {h = h} e gate r lawful appended)))
      (sym (append-events p h e gate appended))
      (All-append (IsGated p (grow {h = h} e gate r lawful appended)) h.events (e ∷ [])
        (All-map h.events
          (λ d gated install. let (g, was, a, b, c) = gated install in (g, inr was, a, b, c))
          (Grown-All p r))
        (
          (λ install.
              let (g, given, fits) =
                some_gate gate e ((append_parts p h e gate appended).0 install) in
              let (a, b, c) = opened g e fits in (g, inl (refl, given), a, b, c)),
          tt,
        ))

installs :
    (e : LifecycleEvent)
    → installation_of e.event_type ≡ some InstallationState.install_validated
    → e.event_type ≡ EventType.install_validated
unfolding installation_of
installs e h = ground arith

-- If a history that grew by appends derives a validated installation, one of its events is that
-- validation, and the append that added it was given a gate decision that is open, for install
-- validation and for the event's own deployment.
pub installed_through_gate :
    (fromisoformat : String → Option DateTime) (h : CandidateLifecycle) {s : DerivedState}
    (grown : Grown fromisoformat h)
    → derived_state fromisoformat h ≡ ok s
    → s.installation ≡ InstallationState.install_validated
    → Any
        (λ e.
          (e.event_type ≡ EventType.install_validated)
          × ((gate : GateDecision) × WasAppended fromisoformat e gate grown
              × (gate.allowed ≡ true)
              × (gate.operation ≡ install_validation)
              × (e.deployment_id ≡ some gate.deployment_id)))
        h.events
unfolding derived_state
installed_through_gate p h {s = s} grown derived validated =
    Any-map
      (λ e (value, gated).
        let install = installs e (value ∙ ap some validated) in (install, gated install))
      (Any-with-All (Grown-All p grown)
        (installation-Any p h.events derived (λ e. differ (sym validated ∙ e))))
  where
    differ : ◌≢◌ InstallationState.install_validated InstallationState.not_installed
    differ e = cc
