-- ===== src/Lifecycle/History/Dimensions.antt =====
-- Each dimension of the derived state is that of the last event of its own family.
use kcd2_codex_toolkit.Base.{
  String, Option, none, some, List, [], ◌∷◌, ◌≡◌, refl, ◌∙◌, arith, ok, Any, here, there,
  Option-cases, inl, inr, >>=-eq-ok, ◌≢◌,
}
use kcd2_codex_toolkit.Deployment.Node.{DateTime}
use kcd2_codex_toolkit.Lifecycle.Types.{
  EventType, BuildState, PackageState, InstallationState, RuntimeState, CausalState,
  DispositionState, RuntimeRequirement,
}
use kcd2_codex_toolkit.Lifecycle.Event.{LifecycleEvent}
use kcd2_codex_toolkit.Lifecycle.History.{
  DerivedState, initial, build_of, package_of, installation_of, runtime_of, causal_of,
  disposition_of, converted, reduce_event, reduce_events, CandidateLifecycle, candidate_lifecycle,
  reduce_lifecycle, event_ids,
}

-- The value of the last event that has one.
pub last_value : {A : Type 0} → (EventType → Option A) → List LifecycleEvent → Option A
last_value f [] = none
last_value f (e ∷ rest) = elim (last_value f rest) [ some v ↦ some v | none ↦ f e.event_type ]

-- A dimension that every event updates by `f` alone.
module _ {A : Type 0} (f : EventType → Option A) (get : DerivedState → A)
    (step : (s : DerivedState) (t : EventType)
      → get (reduce_event s t) ≡ converted (f t) (get s)) where
  reduce_events-last_value :
      (s : DerivedState) (events : List LifecycleEvent)
      → get (reduce_events s events) ≡ converted (last_value f events) (get s)
  unfolding reduce_events last_value
  reduce_events-last_value s [] = refl
  reduce_events-last_value s (e ∷ rest) =
      ground
        (arith, step s e.event_type, reduce_events-last_value (reduce_event s e.event_type) rest)

build_step :
    (s : DerivedState) (t : EventType) → (reduce_event s t).build ≡ converted (build_of t) s.build
unfolding reduce_event
build_step s t = ground arith

package_step :
    (s : DerivedState) (t : EventType)
    → (reduce_event s t).package_state ≡ converted (package_of t) s.package_state
unfolding reduce_event
package_step s t = ground arith

installation_step :
    (s : DerivedState) (t : EventType)
    → (reduce_event s t).installation ≡ converted (installation_of t) s.installation
unfolding reduce_event
installation_step s t = ground arith

runtime_step :
    (s : DerivedState) (t : EventType)
    → (reduce_event s t).runtime ≡ converted (runtime_of t) s.runtime
unfolding reduce_event
runtime_step s t = ground arith

causal_step :
    (s : DerivedState) (t : EventType)
    → (reduce_event s t).causal ≡ converted (causal_of t) s.causal
unfolding reduce_event
causal_step s t = ground arith

disposition_step :
    (s : DerivedState) (t : EventType)
    → (reduce_event s t).disposition ≡ converted (disposition_of t) s.disposition
unfolding reduce_event
disposition_step s t = ground arith

requirement_step :
    (s : DerivedState) (t : EventType)
    → (reduce_event s t).runtime_validation_requirement ≡ s.runtime_validation_requirement
unfolding reduce_event
requirement_step s t = ground arith

requirement_kept :
    (s : DerivedState) (events : List LifecycleEvent)
    → (reduce_events s events).runtime_validation_requirement ≡ s.runtime_validation_requirement
unfolding reduce_events
requirement_kept s [] = refl
requirement_kept s (e ∷ rest) =
    requirement_kept (reduce_event s e.event_type) rest ∙ requirement_step s e.event_type

pub record IsLatest (s : DerivedState) (events : List LifecycleEvent) : Type 0 where
  pub build : s.build ≡ converted (last_value build_of events) BuildState.not_built
  pub package_state :
      s.package_state ≡ converted (last_value package_of events) PackageState.not_validated
  pub installation :
      s.installation ≡ converted (last_value installation_of events) InstallationState.not_installed
  pub runtime : s.runtime ≡ converted (last_value runtime_of events) RuntimeState.runtime_untested
  pub causal : s.causal ≡ converted (last_value causal_of events) CausalState.not_assessed
  pub disposition :
      s.disposition ≡ converted (last_value disposition_of events) DispositionState.active
  pub requirement : s.runtime_validation_requirement ≡ RuntimeRequirement.unknown
  pub ids : s.computed_from_event_ids ≡ event_ids events

candidate_lifecycle-events :
    (fromisoformat : String → Option DateTime) (events : List LifecycleEvent)
    {h : CandidateLifecycle}
    → candidate_lifecycle fromisoformat events ≡ ok h
    → h.events ≡ events
unfolding candidate_lifecycle
candidate_lifecycle-events p events e = ground arith

pub reduce_lifecycle-value :
    (fromisoformat : String → Option DateTime) (events : List LifecycleEvent) {s : DerivedState}
    → reduce_lifecycle fromisoformat events ≡ ok s
    → s ≡ record (reduce_events initial events) { computed_from_event_ids = event_ids events }
unfolding reduce_lifecycle
reduce_lifecycle-value p events h =
    let (history, made, e) = >>=-eq-ok (candidate_lifecycle p events) _ h in
    ground (arith, candidate_lifecycle-events p events made)

-- A reduction that succeeds gives each of the six dimensions the value of the last event of its
-- family, or the initial value where there is none; the runtime requirement stays unknown and the
-- event identifiers are listed in order.
pub reduce_lifecycle-IsLatest :
    (fromisoformat : String → Option DateTime) (events : List LifecycleEvent) {s : DerivedState}
    → reduce_lifecycle fromisoformat events ≡ ok s
    → IsLatest s events
reduce_lifecycle-IsLatest p events h = rw (reduce_lifecycle-value p events h) (record {
  build = reduce_events-last_value build_of (λ s. s.build) build_step initial events;
  package_state =
      reduce_events-last_value package_of (λ s. s.package_state) package_step initial events;
  installation =
      reduce_events-last_value installation_of (λ s. s.installation) installation_step initial
        events;
  runtime = reduce_events-last_value runtime_of (λ s. s.runtime) runtime_step initial events;
  causal = reduce_events-last_value causal_of (λ s. s.causal) causal_step initial events;
  disposition =
      reduce_events-last_value disposition_of (λ s. s.disposition) disposition_step initial events;
  requirement = requirement_kept initial events;
  ids = refl;
})

-- An event with the value that the dimension has, if the dimension has left its initial value.
last_value-Any :
    {A : Type 0} (f : EventType → Option A) (v : A) (events : List LifecycleEvent)
    → last_value f events ≡ some v
    → Any (λ e. f e.event_type ≡ some v) events
unfolding last_value
last_value-Any f v [] h = cc
last_value-Any f v (e ∷ rest) h = elim (Option-cases (last_value f rest)) [
  | inl absent ↦ here (rw (absent, last_value) at h)
  | inr (w, found) ↦ there (last_value-Any f v rest (found ∙ (rw (found, last_value) at h)))
]

module _ (fromisoformat : String → Option DateTime) (events : List LifecycleEvent)
    {s : DerivedState} (reduced : reduce_lifecycle fromisoformat events ≡ ok s) where
  latest : IsLatest s events
  latest = reduce_lifecycle-IsLatest fromisoformat events reduced

  pub runtime-Any :
      s.runtime ≢ RuntimeState.runtime_untested
      → Any (λ e. runtime_of e.event_type ≡ some s.runtime) events
  runtime-Any changed = elim (Option-cases (last_value runtime_of events)) [
    | inl absent ↦ absurd (changed (rw absent at latest.runtime))
    | inr (v, found) ↦ last_value-Any runtime_of s.runtime events (ground (arith, latest.runtime))
  ]

  pub package-Any :
      s.package_state ≢ PackageState.not_validated
      → Any (λ e. package_of e.event_type ≡ some s.package_state) events
  package-Any changed = elim (Option-cases (last_value package_of events)) [
    | inl absent ↦ absurd (changed (rw absent at latest.package_state))
    | inr (v, found) ↦
        last_value-Any package_of s.package_state events (ground (arith, latest.package_state))
  ]

  pub installation-Any :
      s.installation ≢ InstallationState.not_installed
      → Any (λ e. installation_of e.event_type ≡ some s.installation) events
  installation-Any changed = elim (Option-cases (last_value installation_of events)) [
    | inl absent ↦ absurd (changed (rw absent at latest.installation))
    | inr (v, found) ↦
        last_value-Any installation_of s.installation events (ground (arith, latest.installation))
  ]
