-- ===== src/Lifecycle/Event.antt =====
-- A lifecycle event and the checks of `LifecycleEvent.__post_init__`, in the source's order.
-- `fromisoformat` stands for `datetime.fromisoformat` of the standard library; `none` is ValueError.
pub mod Lawful
use Prim.Native.Char.{code}
use kcd2_codex_toolkit.Base.{
  ℕ, String, ◌<>◌, Bool, true, false, not, ◌&&◌, ◌||◌, Option, none, some, List, [], ◌∷◌, leb,
  if◌then◌else◌, ◌==◌, text_has_eq, nat_has_eq, is_unique, all_of, is_empty, length, len, len_in,
  Result, ok, err, ◌>>=◌, ◌>>◌, require, refuse, is_addressed,
}
use kcd2_codex_toolkit.Deployment.Node.{DateTime}
use kcd2_codex_toolkit.Lifecycle.Types.{
  EventType, Producer, BindingState, XmlTblGate, exact, not_applicable, clear, event_type_of,
  producer_of, binding_state_of, xml_tbl_gate_of, event_type_has_eq, event_type_discrete, may_emit,
}

-- `LifecycleError` and its two subclasses, with what they name.
pub data Error : Type 0 where
  bad_event_id bad_occurred_at unparsed_occurred_at no_offset : Error
  unsupported : String → Error
  empty_collection too_many bad_item duplicate_item : String → Error
  no_authority bad_deployment_id bad_notes bad_superseding_id no_superseding_id : Error
  no_exact_deployment not_exact no_session bad_gate no_verdict : Error
  too_many_events duplicate_event_id unordered_history no_snapshot_gate : Error

-- The keyword arguments of `LifecycleEvent`, with enumerations still given by value.
pub record EventFields : Type 0 where
  pub event_id : String
  pub event_type : String
  pub occurred_at : String
  pub producer : String
  pub evidence_refs : List String
  pub deployment_id : Option String
  pub deployment_binding_state : Option String
  pub xml_tbl_gate : Option String
  pub xml_tbl_verdict_refs : List String
  pub runtime_session_ids : List String
  pub superseding_candidate_id : Option String
  pub notes : Option String

pub record LifecycleEvent : Type 0 where
  pub event_id : String
  pub event_type : EventType
  pub occurred_at : String
  pub producer : Producer
  pub evidence_refs : List String
  pub deployment_id : Option String
  pub deployment_binding_state : Option BindingState
  pub xml_tbl_gate : Option XmlTblGate
  pub xml_tbl_verdict_refs : List String
  pub runtime_session_ids : List String
  pub superseding_candidate_id : Option String
  pub notes : Option String

-- `_as_enum`
unfoldable pub as_enum : {A : Type 0} → Option A → String → Result Error A
as_enum none field = err (unsupported field)
as_enum (some a) field = ok a

-- `_as_enum`, for a field that may be `None`
unfoldable pub as_optional_enum :
    {A : Type 0} → (String → Option A) → Option String → String → Result Error (Option A)
unfolding as_enum
as_optional_enum of none field = ok none
as_optional_enum of (some value) field = do a ← as_enum (of value) field; ok (some a)

-- `_bounded_unique_strings`
unfoldable pub bounded_unique_strings :
    List String → String → ℕ → ℕ → Bool → Result Error (List String)
bounded_unique_strings values field maximum item_maximum allow_empty = do
  refuse (not allow_empty && is_empty values) (empty_collection field)
  require (leb (length values) maximum) (too_many field)
  require (all_of (len_in 1 item_maximum) values) (bad_item field)
  require (is_unique values) (duplicate_item field)
  ok values

-- `value.replace("Z", "+00:00")`
unfoldable pub replace_z : String → String
replace_z String.[] = String.[]
replace_z (String.◌∷◌ c s) =
    if code c == b'Z' then "+00:00" <> replace_z s else String.◌∷◌ c (replace_z s)

-- `_parse_occurred_at`: the instant that the text names
unfoldable pub parse_occurred_at : (String → Option DateTime) → String → Result Error ℕ
parse_occurred_at fromisoformat value =
    if len value == 0 then err bad_occurred_at else elim (fromisoformat (replace_z value)) [
      | none ↦ err unparsed_occurred_at
      | some parsed ↦ if parsed.has_offset then ok parsed.instant else err no_offset
    ]

unfoldable pub is_some : {A : Type 0} → Option A → Bool
is_some none = false
is_some (some a) = true

unfoldable pub is_exact : Option BindingState → Bool
is_exact (some exact) = true
is_exact _ = false

unfoldable pub is_clear : Option XmlTblGate → Bool
is_clear (some not_applicable) = true
is_clear (some clear) = true
is_clear _ = false

unfoldable pub is_waived : Option XmlTblGate → Bool
is_waived (some XmlTblGate.unknown_with_scoped_waiver) = true
is_waived _ = false

-- What an observed pass or failure needs.
observed : LifecycleEvent → Result Error Unit
observed e = do
  require (is_some e.deployment_id) no_exact_deployment
  require (is_exact e.deployment_binding_state) not_exact
  refuse (is_empty e.runtime_session_ids) no_session
  ok tt

-- `_validate_promotion_fields`
promotion_of : EventType → LifecycleEvent → Result Error Unit
unfolding observed
promotion_of EventType.install_validated e = do
  require (is_some e.deployment_id) no_exact_deployment
  require (is_exact e.deployment_binding_state) not_exact
  ok tt
promotion_of EventType.runtime_observed_pass e = observed e
promotion_of EventType.runtime_observed_fail e = observed e
promotion_of EventType.package_validated e = do require (is_clear e.xml_tbl_gate) bad_gate; ok tt
promotion_of EventType.package_validated_with_scoped_waiver e = do
  require (is_waived e.xml_tbl_gate) bad_gate
  refuse (is_empty e.xml_tbl_verdict_refs) no_verdict
  ok tt
promotion_of _ e = ok tt

unfoldable pub validate_promotion_fields : LifecycleEvent → Result Error Unit
unfolding promotion_of is_some is_exact is_clear is_waived
validate_promotion_fields e = promotion_of e.event_type e

-- A test that `None` passes.
unfoldable pub optional : (String → Bool) → Option String → Bool
optional test none = true
optional test (some s) = test s

-- `LifecycleEvent.__post_init__`
unfoldable pub lifecycle_event :
    (String → Option DateTime) → EventFields → Result Error LifecycleEvent
lifecycle_event fromisoformat given = do
  require (len_in 1 128 given.event_id) bad_event_id
  event_type ← as_enum (event_type_of given.event_type) "event_type"
  producer ← as_enum (producer_of given.producer) "producer"
  parse_occurred_at fromisoformat given.occurred_at
  evidence_refs ← bounded_unique_strings given.evidence_refs "evidence_refs" 256 512 false
  verdict_refs ←
      bounded_unique_strings given.xml_tbl_verdict_refs "xml_tbl_verdict_refs" 256 512 true
  session_ids ← bounded_unique_strings given.runtime_session_ids "runtime_session_ids" 256 128 true
  require (may_emit producer event_type) no_authority
  require (optional (is_addressed "deploy:sha256:") given.deployment_id) bad_deployment_id
  binding ←
      as_optional_enum binding_state_of given.deployment_binding_state "deployment_binding_state"
  gate ← as_optional_enum xml_tbl_gate_of given.xml_tbl_gate "xml_tbl_gate"
  require (optional (λ s. leb (len s) 4_000) given.notes) bad_notes
  require (optional (is_addressed "cand:sha256:") given.superseding_candidate_id) bad_superseding_id
  refuse (event_type == EventType.superseded && not (is_some given.superseding_candidate_id))
      no_superseding_id
  let event : LifecycleEvent = record {
    event_id = given.event_id;
    event_type = event_type;
    occurred_at = given.occurred_at;
    producer = producer;
    evidence_refs = evidence_refs;
    deployment_id = given.deployment_id;
    deployment_binding_state = binding;
    xml_tbl_gate = gate;
    xml_tbl_verdict_refs = verdict_refs;
    runtime_session_ids = session_ids;
    superseding_candidate_id = given.superseding_candidate_id;
    notes = given.notes;
  }
  validate_promotion_fields event
  ok event
