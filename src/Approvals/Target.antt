-- ===== src/Approvals/Target.antt =====
-- What an approval is about: the targets of a mutation and the observed state of the processes.
-- `resolve` stands for `Path(p).resolve(strict=False).as_posix()`, where `none` is an OSError, and
-- `casefold` for `str.casefold`.
use kcd2_codex_toolkit.Base.{
  ℕ, String, Bool, not, ◌&&◌, Option, none, some, List, [], ◌∷◌, map, leb, if◌then◌else◌,
  text_has_eq, all_of, any_of, elem, set_of, sort_texts, length, len_in, has_nul, is_sha256, lower,
  Result, ok, err, ◌>>=◌, ◌>>◌, require,
}
use kcd2_codex_toolkit.Deployment.Node.{DateTime}

-- `ApprovalError`, with what it names.
pub data Error : Type 0 where
  bad_role bad_path bad_target_digest : Error
  bad_observed_at bad_debugger_state bad_processes : Error
  bad_fields bad_binding binding_differs bad_schema not_approved bad_approval_id bad_nonce : Error
  operation_differs bad_timestamp no_timezone not_issued expired bad_target_set targets_differ :
      Error
  bad_preconditions game_must_be_closed bad_user_decision bad_clock : Error
  stale_observation process_differs already_consumed not_durable : Error

pub record ApprovalTarget : Type 0 where
  pub role : String
  pub path : String
  pub expected_current_sha256 : Option String
  pub proposed_sha256 : Option String

unfoldable pub checked_digest : Option String → Result Error (Option String)
checked_digest none = ok none
checked_digest (some s) = if is_sha256 s then ok (some (lower s)) else err bad_target_digest

-- `_portable_resolved`
unfoldable pub portable_resolved : (String → Option String) → String → Result Error String
portable_resolved resolve path = elim (resolve path) [
  | none ↦ err bad_path
  | some resolved ↦ if has_nul resolved then err bad_path else ok resolved
]

-- `ApprovalTarget.__post_init__`
unfoldable pub approval_target :
    (String → Option String)
    → String
    → String
    → Option String
    → Option String
    → Result Error ApprovalTarget
approval_target resolve role path expected proposed = do
  require (len_in 1 128 role && not (has_nul role)) bad_role
  canonical ← portable_resolved resolve path
  current ← checked_digest expected
  next ← checked_digest proposed
  ok (record {
    role = role;
    path = canonical;
    expected_current_sha256 = current;
    proposed_sha256 = next;
  })

abbrev pub debugger_states : List String
debugger_states =
    "not_running" ∷ "detached" ∷ "connected_running" ∷ "connected_paused" ∷ "not_applicable" ∷ []

pub record ProcessStateSnapshot : Type 0 where
  pub observed_at : ℕ
  pub game_running : Bool
  pub debugger_state : String
  pub running_processes : List String

-- `ProcessStateSnapshot.__post_init__`
unfoldable pub process_state_snapshot :
    DateTime → Bool → String → List String → Result Error ProcessStateSnapshot
process_state_snapshot observed game_running debugger_state names = do
  require observed.has_offset bad_observed_at
  require (elem debugger_state debugger_states) bad_debugger_state
  require
      (leb (length names) 4096 && all_of (λ name. len_in 1 260 name && not (has_nul name)) names)
      bad_processes
  ok (record {
    observed_at = observed.instant;
    game_running = game_running;
    debugger_state = debugger_state;
    running_processes = sort_texts (set_of names);
  })

-- The fields of `DirectProcessStateProbe`, whose inspector and clock are what they answer at the call.
pub record DirectProcessStateProbe : Type 0 where
  pub game : List String
  pub debugger : List String
  pub inspected : Option String

abbrev pub direct_process_state_probe :
    (String → String) → List String → List String → Option String → DirectProcessStateProbe
direct_process_state_probe casefold game debugger inspected = record {
  game = map casefold game;
  debugger = map casefold debugger;
  inspected = inspected;
}

-- `DirectProcessStateProbe.__call__`, for the names that the system lists
unfoldable pub observe :
    (String → String)
    → DirectProcessStateProbe
    → List String
    → DateTime
    → Result Error ProcessStateSnapshot
observe casefold probe names clock =
    let runs = λ (watched : List String). any_of (λ name. elem (casefold name) watched) names in
    let debugger_state : String = elim probe.inspected [
      | some state ↦ state
      | none ↦ if runs probe.debugger then "detached" else "not_running"
    ] in
    process_state_snapshot clock (runs probe.game) debugger_state names
