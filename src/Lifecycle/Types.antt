-- ===== src/Lifecycle/Types.antt =====
-- The enumerations of candidate_lifecycle.py. `*_of` is the lookup by value of `_as_enum`.
use kcd2_codex_toolkit.Base.{
  String, Bool, true, false, ◌||◌, Option, none, some, if◌then◌else◌, ◌==◌, text_has_eq, Eq,
  eq_of_discrete,
}

pub data BuildState : Type 0 where
  not_built build_failed build_static_validated : BuildState

pub data PackageState : Type 0 where
  not_validated package_failed package_validated package_validated_with_scoped_waiver : PackageState

pub data InstallationState : Type 0 where
  not_installed install_prepared install_validated rolled_back : InstallationState

pub data RuntimeRequirement : Type 0 where
  unknown required not_required_with_evidence : RuntimeRequirement

pub data RuntimeState : Type 0 where
  runtime_untested runtime_observed_pass runtime_observed_fail runtime_inconclusive : RuntimeState

pub data CausalState : Type 0 where
  not_assessed causally_isolated causally_confounded causality_inconclusive : CausalState

pub data DispositionState : Type 0 where
  active rejected superseded archived : DispositionState

-- An event's type lies in exactly one of the six families of types, which the source keeps as six
-- disjoint sets.
pub data EventType : Type 0 where
  build_failed build_static_validated : EventType
  package_failed package_validated package_validated_with_scoped_waiver : EventType
  install_prepared install_validated rolled_back : EventType
  runtime_untested runtime_observed_pass runtime_observed_fail runtime_inconclusive : EventType
  causally_isolated causally_confounded causality_inconclusive : EventType
  rejected superseded archived : EventType

pub data Producer : Type 0 where
  builder package_validator installer runtime_importer user_confirmation : Producer
  causal_analysis migration operator : Producer

pub data BindingState : Type 0 where
  exact deployment_unbound_legacy : BindingState

pub data XmlTblGate : Type 0 where
  not_applicable clear unknown_with_scoped_waiver : XmlTblGate

unfoldable pub event_type_of : String → Option EventType
event_type_of s =
    if s == "BUILD_FAILED"
    then some EventType.build_failed
    else if s == "BUILD_STATIC_VALIDATED"
    then some EventType.build_static_validated
    else if s == "PACKAGE_FAILED"
    then some EventType.package_failed
    else if s == "PACKAGE_VALIDATED"
    then some EventType.package_validated
    else if s == "PACKAGE_VALIDATED_WITH_SCOPED_WAIVER"
    then some EventType.package_validated_with_scoped_waiver
    else if s == "INSTALL_PREPARED"
    then some EventType.install_prepared
    else if s == "INSTALL_VALIDATED"
    then some EventType.install_validated
    else if s == "ROLLED_BACK"
    then some EventType.rolled_back
    else if s == "RUNTIME_UNTESTED"
    then some EventType.runtime_untested
    else if s == "RUNTIME_OBSERVED_PASS"
    then some EventType.runtime_observed_pass
    else if s == "RUNTIME_OBSERVED_FAIL"
    then some EventType.runtime_observed_fail
    else if s == "RUNTIME_INCONCLUSIVE"
    then some EventType.runtime_inconclusive
    else if s == "CAUSALLY_ISOLATED"
    then some EventType.causally_isolated
    else if s == "CAUSALLY_CONFOUNDED"
    then some EventType.causally_confounded
    else if s == "CAUSALITY_INCONCLUSIVE"
    then some EventType.causality_inconclusive
    else if s == "REJECTED"
    then some EventType.rejected
    else if s == "SUPERSEDED"
    then some EventType.superseded
    else if s == "ARCHIVED"
    then some EventType.archived
    else none

unfoldable pub event_type_discrete : Discrete EventType
event_type_discrete = hlevel

instance abbrev pub event_type_has_eq : Eq EventType
unfolding event_type_discrete
event_type_has_eq = eq_of_discrete event_type_discrete

unfoldable pub producer_of : String → Option Producer
producer_of s =
    if s == "builder"
    then some Producer.builder
    else if s == "package_validator"
    then some Producer.package_validator
    else if s == "installer"
    then some Producer.installer
    else if s == "runtime_importer"
    then some Producer.runtime_importer
    else if s == "user_confirmation"
    then some Producer.user_confirmation
    else if s == "causal_analysis"
    then some Producer.causal_analysis
    else if s == "migration"
    then some Producer.migration
    else if s == "operator"
    then some Producer.operator
    else none

unfoldable pub producer_discrete : Discrete Producer
producer_discrete = hlevel

instance abbrev pub producer_has_eq : Eq Producer
unfolding producer_discrete
producer_has_eq = eq_of_discrete producer_discrete

unfoldable pub binding_state_of : String → Option BindingState
binding_state_of s =
    if s == "EXACT"
    then some BindingState.exact
    else if s == "DEPLOYMENT_UNBOUND_LEGACY"
    then some BindingState.deployment_unbound_legacy
    else none

unfoldable pub binding_state_discrete : Discrete BindingState
binding_state_discrete = hlevel

instance abbrev pub binding_state_has_eq : Eq BindingState
unfolding binding_state_discrete
binding_state_has_eq = eq_of_discrete binding_state_discrete

unfoldable pub xml_tbl_gate_of : String → Option XmlTblGate
xml_tbl_gate_of s =
    if s == "NOT_APPLICABLE"
    then some XmlTblGate.not_applicable
    else if s == "CLEAR"
    then some XmlTblGate.clear
    else if s == "UNKNOWN_WITH_SCOPED_WAIVER"
    then some XmlTblGate.unknown_with_scoped_waiver
    else none

unfoldable pub xml_tbl_gate_discrete : Discrete XmlTblGate
xml_tbl_gate_discrete = hlevel

instance abbrev pub xml_tbl_gate_has_eq : Eq XmlTblGate
unfolding xml_tbl_gate_discrete
xml_tbl_gate_has_eq = eq_of_discrete xml_tbl_gate_discrete

-- The families `BUILD_EVENT_TYPES` and so on.
unfoldable pub is_build : EventType → Bool
is_build EventType.build_failed = true
is_build EventType.build_static_validated = true
is_build _ = false

unfoldable pub is_package : EventType → Bool
is_package EventType.package_failed = true
is_package EventType.package_validated = true
is_package EventType.package_validated_with_scoped_waiver = true
is_package _ = false

unfoldable pub is_installation : EventType → Bool
is_installation EventType.install_prepared = true
is_installation EventType.install_validated = true
is_installation EventType.rolled_back = true
is_installation _ = false

unfoldable pub is_runtime : EventType → Bool
is_runtime EventType.runtime_untested = true
is_runtime EventType.runtime_observed_pass = true
is_runtime EventType.runtime_observed_fail = true
is_runtime EventType.runtime_inconclusive = true
is_runtime _ = false

unfoldable pub is_causal : EventType → Bool
is_causal EventType.causally_isolated = true
is_causal EventType.causally_confounded = true
is_causal EventType.causality_inconclusive = true
is_causal _ = false

unfoldable pub is_disposition : EventType → Bool
is_disposition EventType.rejected = true
is_disposition EventType.superseded = true
is_disposition EventType.archived = true
is_disposition _ = false

is_untested : EventType → Bool
is_untested EventType.runtime_untested = true
is_untested _ = false

-- `_PRODUCER_AUTHORITY`
unfoldable pub may_emit : Producer → EventType → Bool
unfolding is_build is_package is_installation is_runtime is_causal is_disposition is_untested
may_emit builder t = is_build t
may_emit package_validator t = is_package t
may_emit installer t = is_installation t
may_emit runtime_importer t = is_runtime t
may_emit user_confirmation t = is_runtime t
may_emit causal_analysis t = is_causal t
may_emit migration t = true
may_emit operator t = is_disposition t || is_untested t
