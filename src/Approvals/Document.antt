-- ===== src/Approvals/Document.antt =====
-- `ApprovalVerifier._validate_document`: an approval, as the JSON object that it is. `sha256` stands for
-- hashlib over canonical JSON, `fromisoformat` for `datetime.fromisoformat`, where `none` is ValueError.
pub mod Records
pub mod Valid
pub mod Approved
use Prim.Native.Char.{code}
use kcd2_codex_toolkit.Base.{
  ℕ, String, Bool, true, false, not, ◌&&◌, ◌||◌, Option, none, some, List, [], ◌∷◌, leb, ltb,
  if◌then◌else◌, ◌==◌, text_has_eq, nat_has_eq, all_of, elem, length, len, len_in, all_chars,
  is_sha256, lower, Result, ok, err, ◌>>=◌, ◌>>◌, require, refuse,
}
use kcd2_codex_toolkit.Base.Json.{
  Json, null, bool, str, arr, obj, Items, nil, cons, Fields, get, names, size, without, count,
  is_str, is_bool, text_in, bool_in, object_in, array_in,
}
use kcd2_codex_toolkit.Deployment.Node.{DateTime}
use kcd2_codex_toolkit.Lifecycle.Event.{replace_z}
use kcd2_codex_toolkit.Approvals.Target.{
  Error, bad_fields, bad_binding, binding_differs, bad_schema, not_approved, bad_approval_id,
  bad_nonce, operation_differs, bad_timestamp, no_timezone, not_issued, expired, bad_target_set,
  targets_differ, bad_preconditions, game_must_be_closed, bad_user_decision, bad_clock,
  ApprovalTarget, debugger_states,
}

abbrev pub operations : List String
operations =
    "build_candidate" ∷ "repack_package" ∷ "install_candidate" ∷ "replace_candidate" ∷ "rollback"
    ∷ "install_plugin" ∷ "restore_plugin" ∷ "persistent_index_write" ∷ "persistent_graph_write"
    ∷ "deploy_native_component" ∷ "debugger_mutation" ∷ []

abbrev pub game_closed_operations : List String
game_closed_operations =
    "install_candidate" ∷ "replace_candidate" ∷ "rollback" ∷ "install_plugin" ∷ "restore_plugin"
    ∷ "deploy_native_component" ∷ []

abbrev pub required : List String
required =
    "schema_version" ∷ "approval_id" ∷ "operation" ∷ "decision" ∷ "issued_at" ∷ "nonce" ∷ "targets"
    ∷ "process_preconditions" ∷ "user_decision" ∷ "consumed" ∷ "binding_sha256" ∷ []

abbrev pub allowed : List String
allowed = "expires_at" ∷ "requester" ∷ required

-- `_NONCE`
unfoldable pub is_nonce : String → Bool
is_nonce s =
    len_in 16 256 s
    && all_chars
        (λ c.
          leb b'A' c && leb c b'Z'
          || leb b'a' c && leb c b'z'
          || leb b'0' c && leb c b'9'
          || c == b'.'
          || c == b'_'
          || c == b'~'
          || c == b'+'
          || c == b'/'
          || c == b'-')
        s

-- `approval_binding_sha256`
unfoldable pub approval_binding_sha256 : (Json → String) → Fields → String
approval_binding_sha256 sha256 approval = sha256 (obj (without "binding_sha256" approval))

-- `ApprovalVerifier._now`
unfoldable pub checked_now : DateTime → Result Error ℕ
checked_now clock = do require clock.has_offset bad_clock; ok clock.instant

-- `_timestamp`
unfoldable pub timestamp : (String → Option DateTime) → Option Json → Result Error ℕ
timestamp fromisoformat value = elim (text_in value) [
  | none ↦ err bad_timestamp
  | some text ↦ elim (fromisoformat (replace_z text)) [
    | none ↦ err bad_timestamp
    | some parsed ↦ if parsed.has_offset then ok parsed.instant else err no_timezone
  ]
]

-- `approval.get("expires_at")`, parsed unless it is `None`
unfoldable pub expiry : (String → Option DateTime) → Option Json → Result Error (Option ℕ)
expiry fromisoformat none = ok none
expiry fromisoformat (some null) = ok none
expiry fromisoformat (some value) = timestamp fromisoformat (some value) >>= λ t. ok (some t)

-- `expires is None or not (expires < issued or now > expires)`
abbrev pub is_open_until : Option ℕ → ℕ → ℕ → Bool
is_open_until none issued now = true
is_open_until (some expires) issued now = not (ltb expires issued || ltb expires now)

-- `_validate_time_window`
unfoldable pub validate_time_window :
    (String → Option DateTime) → DateTime → Fields → Result Error Unit
validate_time_window fromisoformat clock approval = do
  issued ← timestamp fromisoformat (get "issued_at" approval)
  expires ← expiry fromisoformat (get "expires_at" approval)
  now ← checked_now clock
  refuse (ltb now issued) not_issued
  require (is_open_until expires issued now) expired

abbrev pub is_optional_str : Option String → Option Json → Bool
is_optional_str none (some null) = true
is_optional_str (some s) value = is_str s value
is_optional_str none _ = false

-- `record == target.to_record()`
abbrev pub is_record_of : ApprovalTarget → Json → Bool
is_record_of target (obj fields) =
    size fields == 4
    && is_str target.role (get "role" fields)
    && is_str target.path (get "path" fields)
    && is_optional_str target.expected_current_sha256 (get "expected_current_sha256" fields)
    && is_optional_str target.proposed_sha256 (get "proposed_sha256" fields)
is_record_of target _ = false

abbrev pub are_records_of : List ApprovalTarget → Items → Bool
are_records_of [] nil = true
are_records_of (target ∷ rest) (cons record_ more) =
    is_record_of target record_ && are_records_of rest more
are_records_of _ _ = false

unfoldable pub validate_targets : List ApprovalTarget → Option Json → Result Error Unit
validate_targets targets value = elim (array_in value) [
  | none ↦ err bad_target_set
  | some records ↦ (do
    require (leb 1 (count records) && leb (count records) 256 && count records == length targets)
        bad_target_set
    require (are_records_of targets records) targets_differ)
]

-- The states of the processes that an approval asks for.
pub record Preconditions : Type 0 where
  pub game_running : Bool
  pub debugger_state : String

unfoldable pub preconditions_of : Fields → Option Preconditions
preconditions_of fields = elim (bool_in (get "game_running" fields)) [
  | none ↦ none
  | some game_running ↦ elim (text_in (get "debugger_state" fields)) [
    | none ↦ none
    | some state ↦
        if size fields == 2 && elem state debugger_states
        then some (record { game_running = game_running; debugger_state = state })
        else none
  ]
]

unfoldable pub process_preconditions : String → Option Json → Result Error Preconditions
process_preconditions operation value = elim (object_in value) [
  | none ↦ err bad_preconditions
  | some fields ↦ elim (preconditions_of fields) [
    | none ↦ err bad_preconditions
    | some process ↦
        if elem operation game_closed_operations && process.game_running
        then err game_must_be_closed
        else ok process
  ]
]

unfoldable pub checked_text : (String → Bool) → Error → Option Json → Result Error String
checked_text test e value = elim (text_in value) [
  | none ↦ err e
  | some s ↦ if test s then ok s else err e
]

-- What the verifier reads of a checked approval.
pub record Checked : Type 0 where
  pub approval_id : String
  pub nonce : String
  pub process : Preconditions

module _ (sha256 : Json → String) (fromisoformat : String → Option DateTime) where
  -- `_validate_document`
  unfoldable pub validate_document :
      Fields → String → List ApprovalTarget → DateTime → Result Error Checked
  validate_document approval operation targets clock = do
    require
        (all_of (λ k. elem k allowed) (names approval)
          && all_of (λ k. elem k (names approval)) required)
        bad_fields
    binding ← checked_text is_sha256 bad_binding (get "binding_sha256" approval)
    require (approval_binding_sha256 sha256 approval == lower binding) binding_differs
    require (is_str "kcd2.transaction-approval.v1" (get "schema_version" approval)) bad_schema
    require (is_str "approved" (get "decision" approval) && is_bool false (get "consumed" approval))
        not_approved
    approval_id ← checked_text (len_in 1 256) bad_approval_id (get "approval_id" approval)
    nonce ← checked_text is_nonce bad_nonce (get "nonce" approval)
    require (elem operation operations && is_str operation (get "operation" approval))
        operation_differs
    validate_time_window fromisoformat clock approval
    validate_targets targets (get "targets" approval)
    process ← process_preconditions operation (get "process_preconditions" approval)
    checked_text (len_in 1 8192) bad_user_decision (get "user_decision" approval)
    ok (record { approval_id = approval_id; nonce = nonce; process = process })
