-- ===== src/Lifecycle/History/Evidence.antt =====
-- A promoted state rests on an event that carried the evidence for it.
use kcd2_codex_toolkit.Base.{
  String, true, false, Option, some, List, ◌≡◌, ◌≢◌, ◌⊎◌, inl, inr, arith, ok, All, Any,
  Any-with-All, Any-map, is_empty, sym, ◌∙◌,
}
use kcd2_codex_toolkit.Deployment.Node.{DateTime}
use kcd2_codex_toolkit.Lifecycle.Types.{Producer, RuntimeState, PackageState, may_emit}
use kcd2_codex_toolkit.Lifecycle.Event.{
  LifecycleEvent, is_some, is_exact, is_clear, is_waived, validate_promotion_fields,
}
use kcd2_codex_toolkit.Lifecycle.Event.Lawful.{IsLawful}
use kcd2_codex_toolkit.Lifecycle.History.{DerivedState, runtime_of, package_of, reduce_lifecycle}
use kcd2_codex_toolkit.Lifecycle.History.Dimensions.{runtime-Any, package-Any}

-- A pass or a failure that was observed in a session on an exactly bound deployment, and reported
-- by the runtime importer, the user or a migration.
pub record IsObservation (e : LifecycleEvent) : Type 0 where
  pub bound : is_some e.deployment_id ≡ true
  pub exact : is_exact e.deployment_binding_state ≡ true
  pub session : is_empty e.runtime_session_ids ≡ false
  pub reported :
      (e.producer ≡ Producer.runtime_importer)
      ⊎ (e.producer ≡ Producer.user_confirmation)
      ⊎ (e.producer ≡ Producer.migration)

abbrev pub IsOutcome : RuntimeState → Type 0
IsOutcome r = (r ≡ RuntimeState.runtime_observed_pass) ⊎ (r ≡ RuntimeState.runtime_observed_fail)

observation :
    (r : RuntimeState) (e : LifecycleEvent)
    → IsOutcome r
    → (runtime_of e.event_type ≡ some r) × IsLawful e
    → IsObservation e × (runtime_of e.event_type ≡ some r)
unfolding runtime_of validate_promotion_fields may_emit
observation r e o (h, l) = ground arith

-- If a history of constructed events reduces to an observed pass or failure, one of its events is
-- that outcome, observed in a session on an exactly bound deployment by a producer that may report.
pub outcome_needs_observation :
    (fromisoformat : String → Option DateTime) (events : List LifecycleEvent) {s : DerivedState}
    → All IsLawful events
    → reduce_lifecycle fromisoformat events ≡ ok s
    → IsOutcome s.runtime
    → Any (λ e. IsObservation e × (runtime_of e.event_type ≡ some s.runtime)) events
outcome_needs_observation p events {s = s} lawful h outcome =
    Any-map (λ e. observation s.runtime e outcome)
      (Any-with-All lawful (runtime-Any p events h (tested outcome)))
  where
    tested : IsOutcome s.runtime → s.runtime ≢ RuntimeState.runtime_untested
    tested (inl pass) e = cc
    tested (inr fail) e = cc

packaged_full :
    (e : LifecycleEvent)
    → (package_of e.event_type ≡ some PackageState.package_validated) × IsLawful e
    → is_clear e.xml_tbl_gate ≡ true
unfolding package_of validate_promotion_fields
packaged_full e (h, l) = ground arith

packaged_waived :
    (e : LifecycleEvent)
    → (package_of e.event_type ≡ some PackageState.package_validated_with_scoped_waiver)
      × IsLawful e
    → (is_waived e.xml_tbl_gate ≡ true) × (is_empty e.xml_tbl_verdict_refs ≡ false)
unfolding package_of validate_promotion_fields
packaged_waived e (h, l) = ground arith

-- If a history of constructed events reduces to a validated package, one of its events carried an
-- XML/TBL gate that is clear or not applicable; if it reduces to a validation with a waiver, one of
-- its events carried the waiver and a verdict reference.
pub packaging_needs_gate :
    (fromisoformat : String → Option DateTime) (events : List LifecycleEvent) {s : DerivedState}
    → All IsLawful events
    → reduce_lifecycle fromisoformat events ≡ ok s
    → (s.package_state ≡ PackageState.package_validated
        → Any (λ e. is_clear e.xml_tbl_gate ≡ true) events)
      × (s.package_state ≡ PackageState.package_validated_with_scoped_waiver
          → Any
              (λ e. (is_waived e.xml_tbl_gate ≡ true) × (is_empty e.xml_tbl_verdict_refs ≡ false))
              events)
packaging_needs_gate p events lawful h = (
  λ full.
      Any-map packaged_full (
        Any-with-All lawful
          (rw full at (package-Any p events h (λ e. differ_full (sym full ∙ e))))),
  λ waived. Any-map packaged_waived (
      Any-with-All lawful
        (rw waived at (package-Any p events h (λ e. differ_waived (sym waived ∙ e))))),
)
  where
    differ_full : ◌≢◌ PackageState.package_validated PackageState.not_validated
    differ_full e = cc

    differ_waived : ◌≢◌ PackageState.package_validated_with_scoped_waiver PackageState.not_validated
    differ_waived e = cc
