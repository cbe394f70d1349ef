-- ===== src/Lifecycle/History.antt =====
-- The append-only history of a candidate and its reduction to independent dimensions.
pub mod Dimensions
pub mod Evidence
pub mod Append
pub mod Grown
use kcd2_codex_toolkit.Base.{
  ℕ, String, ◌<>◌, Bool, true, false, not, ◌&&◌, ◌||◌, Option, none, some, List, [], ◌∷◌, ◌++◌, map,
  leb, ltb, if◌then◌else◌, ◌==◌, text_has_eq, is_unique, length, Result, ok, err, ◌>>=◌, ◌>>◌,
  require,
}
use kcd2_codex_toolkit.Deployment.Node.{DateTime}
use kcd2_codex_toolkit.Deployment.Gate.{GateDecision, authorizes, install_validation}
use kcd2_codex_toolkit.Lifecycle.Types.{
  BuildState, PackageState, InstallationState, RuntimeRequirement, RuntimeState, CausalState,
  DispositionState, EventType, is_build, is_package, is_installation, is_runtime, is_causal,
  is_disposition, event_type_has_eq, event_type_discrete,
}
use kcd2_codex_toolkit.Lifecycle.Event.{
  Error, LifecycleEvent, parse_occurred_at, too_many_events, duplicate_event_id, unordered_history,
  no_snapshot_gate,
}

pub record CandidateLifecycle : Type 0 where
  pub events : List LifecycleEvent

abbrev pub max_events : ℕ
max_events = 10_000

abbrev pub event_ids : List LifecycleEvent → List String
event_ids events = map (λ e. e.event_id) events

-- `any(current < previous for previous, current in pairs)`
unfoldable pub falls_back : List ℕ → Bool
falls_back [] = false
falls_back (t ∷ []) = false
falls_back (t ∷ u ∷ rest) = ltb u t || falls_back (u ∷ rest)

-- `gate is not None and gate.authorizes(INSTALL_VALIDATION) and gate.deployment_id == event's`
unfoldable pub gate_matches : Option GateDecision → LifecycleEvent → Bool
gate_matches none e = false
gate_matches (some gate) e = elim e.deployment_id [
  | none ↦ false
  | some id ↦ authorizes gate install_validation && gate.deployment_id == id
]

module _ (fromisoformat : String → Option DateTime) where
  unfoldable pub occurrences : List LifecycleEvent → Result Error (List ℕ)
  occurrences [] = ok []
  occurrences (e ∷ rest) = do
    t ← parse_occurred_at fromisoformat e.occurred_at
    ts ← occurrences rest
    ok (t ∷ ts)

  -- `CandidateLifecycle.__post_init__`
  unfoldable pub candidate_lifecycle : List LifecycleEvent → Result Error CandidateLifecycle
  candidate_lifecycle events = do
    require (leb (length events) max_events) too_many_events
    require (is_unique (event_ids events)) duplicate_event_id
    timestamps ← occurrences events
    require (not (falls_back timestamps)) unordered_history
    ok (record { events = events })

  unfoldable pub append :
      CandidateLifecycle → LifecycleEvent → Option GateDecision → Result Error CandidateLifecycle
  append history event gate = do
    require (not (event.event_type == EventType.install_validated) || gate_matches gate event)
        no_snapshot_gate
    candidate_lifecycle (history.events ++ event ∷ [])

pub record DerivedState : Type 0 where
  pub build : BuildState
  pub package_state : PackageState
  pub installation : InstallationState
  pub runtime_validation_requirement : RuntimeRequirement
  pub runtime : RuntimeState
  pub causal : CausalState
  pub disposition : DispositionState
  pub computed_from_event_ids : List String

abbrev pub initial : DerivedState
initial = record {
  build = BuildState.not_built;
  package_state = PackageState.not_validated;
  installation = InstallationState.not_installed;
  runtime_validation_requirement = RuntimeRequirement.unknown;
  runtime = RuntimeState.runtime_untested;
  causal = CausalState.not_assessed;
  disposition = DispositionState.active;
  computed_from_event_ids = [];
}

-- `BuildState(event.event_type.value)` and so on; `none` where the state has no such value.
unfoldable pub build_of : EventType → Option BuildState
build_of EventType.build_failed = some BuildState.build_failed
build_of EventType.build_static_validated = some BuildState.build_static_validated
build_of _ = none

unfoldable pub package_of : EventType → Option PackageState
package_of EventType.package_failed = some PackageState.package_failed
package_of EventType.package_validated = some PackageState.package_validated
package_of EventType.package_validated_with_scoped_waiver =
    some PackageState.package_validated_with_scoped_waiver
package_of _ = none

unfoldable pub installation_of : EventType → Option InstallationState
installation_of EventType.install_prepared = some InstallationState.install_prepared
installation_of EventType.install_validated = some InstallationState.install_validated
installation_of EventType.rolled_back = some InstallationState.rolled_back
installation_of _ = none

unfoldable pub runtime_of : EventType → Option RuntimeState
runtime_of EventType.runtime_untested = some RuntimeState.runtime_untested
runtime_of EventType.runtime_observed_pass = some RuntimeState.runtime_observed_pass
runtime_of EventType.runtime_observed_fail = some RuntimeState.runtime_observed_fail
runtime_of EventType.runtime_inconclusive = some RuntimeState.runtime_inconclusive
runtime_of _ = none

unfoldable pub causal_of : EventType → Option CausalState
causal_of EventType.causally_isolated = some CausalState.causally_isolated
causal_of EventType.causally_confounded = some CausalState.causally_confounded
causal_of EventType.causality_inconclusive = some CausalState.causality_inconclusive
causal_of _ = none

unfoldable pub disposition_of : EventType → Option DispositionState
disposition_of EventType.rejected = some DispositionState.rejected
disposition_of EventType.superseded = some DispositionState.superseded
disposition_of EventType.archived = some DispositionState.archived
disposition_of _ = none

-- The state of a value, where it has one: the source's conversion cannot fail inside its family.
abbrev pub converted : {A : Type 0} → Option A → A → A
converted none old = old
converted (some new) old = new

-- The body of the loop of `reduce_lifecycle`.
unfoldable pub reduce_event : DerivedState → EventType → DerivedState
unfolding is_build is_package is_installation is_runtime is_causal is_disposition build_of
    package_of installation_of runtime_of causal_of disposition_of
reduce_event s t =
    if is_build t
    then record s { build = converted (build_of t) s.build }
    else if is_package t
    then record s { package_state = converted (package_of t) s.package_state }
    else if is_installation t
    then record s { installation = converted (installation_of t) s.installation }
    else if is_runtime t
    then record s { runtime = converted (runtime_of t) s.runtime }
    else if is_causal t
    then record s { causal = converted (causal_of t) s.causal }
    else if is_disposition t
    then record s { disposition = converted (disposition_of t) s.disposition }
    else s

unfoldable pub reduce_events : DerivedState → List LifecycleEvent → DerivedState
unfolding reduce_event
reduce_events s [] = s
reduce_events s (e ∷ rest) = reduce_events (reduce_event s e.event_type) rest

module _ (fromisoformat : String → Option DateTime) where
  unfoldable pub reduce_lifecycle : List LifecycleEvent → Result Error DerivedState
  reduce_lifecycle events = do
    history ← candidate_lifecycle fromisoformat events
    ok (record (reduce_events initial history.events) {
      computed_from_event_ids = event_ids history.events;
    })

  unfoldable pub derived_state : CandidateLifecycle → Result Error DerivedState
  derived_state history = reduce_lifecycle history.events
