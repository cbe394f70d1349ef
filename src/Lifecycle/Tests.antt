-- ===== src/Lifecycle/Tests.antt =====
-- A history that packages, installs and observes one candidate, at which the theorems apply.
use kcd2_codex_toolkit.Base.{
  String, true, false, Option, none, some, List, [], ◌∷◌, ◌==◌, text_has_eq, text_discrete, elem,
  is_unique, is_empty, ok, is_addressed, strip_prefix, is_sha256, all_chars, is_hex, All, Any, ◌≡◌,
  inl, refl, arith,
}
use kcd2_codex_toolkit.Deployment.Node.{DateTime, DeploymentNode}
use kcd2_codex_toolkit.Deployment.Registry.{get}
use kcd2_codex_toolkit.Deployment.Gate.{
  GateDecision, authorizes, install_validation, operation_has_eq,
}
use kcd2_codex_toolkit.Deployment.Gate.Fresh.{IsFresh}
use kcd2_codex_toolkit.Deployment.Tests.{
  node_id, a_registry, a_snapshot, a_decision, a_decision-made,
}
use kcd2_codex_toolkit.Lifecycle.Types.{
  EventType, Producer, BindingState, XmlTblGate, InstallationState, RuntimeState, PackageState,
  event_type_of, producer_of, binding_state_of, may_emit, event_type_has_eq,
}
use kcd2_codex_toolkit.Lifecycle.Event.{
  EventFields, LifecycleEvent, as_enum, as_optional_enum, bounded_unique_strings, replace_z,
  parse_occurred_at, validate_promotion_fields, optional, lifecycle_event, is_some, is_clear,
  is_waived,
}
use kcd2_codex_toolkit.Lifecycle.Event.Lawful.{IsLawful, lifecycle_event-IsLawful}
use kcd2_codex_toolkit.Lifecycle.History.{
  CandidateLifecycle, DerivedState, falls_back, gate_matches, occurrences, candidate_lifecycle,
  append, initial, reduce_events, reduce_lifecycle, derived_state, runtime_of,
}
use kcd2_codex_toolkit.Lifecycle.History.Dimensions.{IsLatest, reduce_lifecycle-IsLatest}
use kcd2_codex_toolkit.Lifecycle.History.Evidence.{
  IsObservation, outcome_needs_observation, packaging_needs_gate,
}
use kcd2_codex_toolkit.Lifecycle.History.Append.{install_needs_authorization}
use kcd2_codex_toolkit.Lifecycle.History.Grown.{
  Grown, start, grow, WasAppended, installed_through_gate,
}

-- A clock on which every text is the same instant.
abbrev at_noon : String → Option DateTime
at_noon s = some (record { instant = 1000; has_offset = true })

abbrev installation_fields : EventFields
installation_fields = record {
  event_id = "e2";
  event_type = "INSTALL_VALIDATED";
  occurred_at = "2026-01-01T12:00:00Z";
  producer = "installer";
  evidence_refs = "ref" ∷ [];
  deployment_id = some node_id;
  deployment_binding_state = some "EXACT";
  xml_tbl_gate = none;
  xml_tbl_verdict_refs = [];
  runtime_session_ids = [];
  superseding_candidate_id = none;
  notes = none;
}

abbrev installation : LifecycleEvent
installation = record {
  event_id = "e2";
  event_type = EventType.install_validated;
  occurred_at = "2026-01-01T12:00:00Z";
  producer = Producer.installer;
  evidence_refs = "ref" ∷ [];
  deployment_id = some node_id;
  deployment_binding_state = some BindingState.exact;
  xml_tbl_gate = none;
  xml_tbl_verdict_refs = [];
  runtime_session_ids = [];
  superseding_candidate_id = none;
  notes = none;
}

abbrev packaging : LifecycleEvent
packaging = record installation {
  event_id = "e1";
  event_type = EventType.package_validated;
  producer = Producer.package_validator;
  deployment_id = none;
  deployment_binding_state = none;
  xml_tbl_gate = some XmlTblGate.clear;
}

abbrev observation : LifecycleEvent
observation = record installation {
  event_id = "e3";
  event_type = EventType.runtime_observed_pass;
  producer = Producer.runtime_importer;
  runtime_session_ids = "session" ∷ [];
}

abbrev observed_events : List LifecycleEvent
observed_events = packaging ∷ installation ∷ observation ∷ []

abbrev packaged : CandidateLifecycle
packaged = record { events = packaging ∷ [] }

abbrev packaged_installed : CandidateLifecycle
packaged_installed = record { events = packaging ∷ installation ∷ [] }

abbrev empty_history : CandidateLifecycle
empty_history = record { events = [] }

abbrev observed_state : DerivedState
observed_state = record initial {
  package_state = PackageState.package_validated;
  installation = InstallationState.install_validated;
  runtime = RuntimeState.runtime_observed_pass;
  computed_from_event_ids = "e1" ∷ "e2" ∷ "e3" ∷ [];
}

abbrev installed_state : DerivedState
installed_state = record initial {
  package_state = PackageState.package_validated;
  installation = InstallationState.install_validated;
  computed_from_event_ids = "e1" ∷ "e2" ∷ [];
}

abbrev packaged_state : DerivedState
packaged_state = record initial {
  package_state = PackageState.package_validated;
  computed_from_event_ids = "e1" ∷ [];
}

not_superseded : EventType.install_validated == EventType.superseded ≡ false
not_superseded =
    ground (arith, event_type_has_eq.eq_iff EventType.install_validated EventType.superseded)

not_installed : EventType.package_validated == EventType.install_validated ≡ false
not_installed =
    ground (arith, event_type_has_eq.eq_iff EventType.package_validated EventType.install_validated)

a_decision-matches : gate_matches (some a_decision) installation ≡ true
unfolding gate_matches authorizes text_discrete
a_decision-matches =
    rw ((operation_has_eq.eq_iff install_validation install_validation).1 refl) refl

installation-made : lifecycle_event at_noon installation_fields ≡ ok installation
unfolding lifecycle_event as_enum event_type_of producer_of parse_occurred_at replace_z
    bounded_unique_strings is_unique elem text_discrete may_emit optional is_addressed strip_prefix
    is_sha256 all_chars is_hex as_optional_enum binding_state_of is_some validate_promotion_fields
installation-made = rw not_superseded refl

observed_events-reduced : reduce_lifecycle at_noon observed_events ≡ ok observed_state
unfolding reduce_lifecycle candidate_lifecycle is_unique elem text_discrete occurrences
    parse_occurred_at replace_z falls_back reduce_events
observed_events-reduced = refl

packaged_installed-derived : derived_state at_noon packaged_installed ≡ ok installed_state
unfolding derived_state reduce_lifecycle candidate_lifecycle is_unique elem text_discrete
    occurrences parse_occurred_at replace_z falls_back reduce_events
packaged_installed-derived = refl

packaging-appended : append at_noon empty_history packaging none ≡ ok packaged
unfolding append candidate_lifecycle is_unique elem text_discrete occurrences parse_occurred_at
    replace_z falls_back
packaging-appended = rw not_installed refl

installation-appended :
    append at_noon packaged installation (some a_decision) ≡ ok packaged_installed
unfolding append candidate_lifecycle is_unique elem text_discrete occurrences parse_occurred_at
    replace_z falls_back
installation-appended =
    rw
      (
        (event_type_has_eq.eq_iff EventType.install_validated EventType.install_validated).1 refl,
        a_decision-matches,
      )
      refl

packaging-IsLawful : IsLawful packaging
unfolding may_emit validate_promotion_fields optional
packaging-IsLawful = record { authority = refl; promotion = refl; addressed = refl }

installation-IsLawful : IsLawful installation
installation-IsLawful = lifecycle_event-IsLawful at_noon installation_fields installation-made

observation-IsLawful : IsLawful observation
unfolding may_emit validate_promotion_fields optional is_addressed strip_prefix is_sha256 all_chars
    is_hex
observation-IsLawful = record { authority = refl; promotion = refl; addressed = refl }

observed_events-All : All IsLawful observed_events
observed_events-All = (packaging-IsLawful, (installation-IsLawful, (observation-IsLawful, tt)))

packaged_installed-Grown : Grown at_noon packaged_installed
packaged_installed-Grown =
    grow installation (some a_decision)
      (grow packaging none start packaging-IsLawful packaging-appended) installation-IsLawful
      installation-appended

reduce_lifecycle-IsLatest_example : IsLatest observed_state observed_events
reduce_lifecycle-IsLatest_example =
    reduce_lifecycle-IsLatest at_noon observed_events observed_events-reduced

outcome_needs_observation_example :
    Any
      (λ e. IsObservation e × (runtime_of e.event_type ≡ some observed_state.runtime))
      observed_events
outcome_needs_observation_example =
    outcome_needs_observation at_noon observed_events observed_events-All observed_events-reduced
      (inl refl)

packaging_needs_gate_example :
    (observed_state.package_state ≡ PackageState.package_validated
      → Any (λ e. is_clear e.xml_tbl_gate ≡ true) observed_events)
    × (observed_state.package_state ≡ PackageState.package_validated_with_scoped_waiver
        → Any
            (λ e. (is_waived e.xml_tbl_gate ≡ true) × (is_empty e.xml_tbl_verdict_refs ≡ false))
            observed_events)
packaging_needs_gate_example =
    packaging_needs_gate at_noon observed_events observed_events-All observed_events-reduced

install_needs_authorization_example :
    ((n : DeploymentNode) × (get a_registry node_id ≡ some n) × IsFresh a_snapshot n 2000 60)
    × (installation.deployment_id ≡ some a_decision.deployment_id)
install_needs_authorization_example =
    install_needs_authorization at_noon packaged installation a_registry node_id a_snapshot 2000 60
      a_decision-made refl installation-appended

installed_through_gate_example :
    Any
      (λ e.
        (e.event_type ≡ EventType.install_validated)
        × ((gate : GateDecision) × WasAppended at_noon e gate packaged_installed-Grown
            × (gate.allowed ≡ true)
            × (gate.operation ≡ install_validation)
            × (e.deployment_id ≡ some gate.deployment_id)))
      packaged_installed.events
installed_through_gate_example =
    installed_through_gate at_noon packaged_installed packaged_installed-Grown
      packaged_installed-derived refl
