-- ===== src/Approvals/Tests.antt =====
-- An approval of an installation, and two processes that share a directory of claims.
use kcd2_codex_toolkit.Base.{
  ℕ, suc, String, Bool, true, false, Option, none, some, [], ◌∷◌, elem, is_unique, is_sha256,
  all_chars, is_hex, lower, Result, ok, err, All, ◌≡◌, ◌⊎◌, refl, text_has_eq,
}
use kcd2_codex_toolkit.Base.Json.{
  Json, null, bool, str, arr, obj, nil, cons, Fields, end, field, get, without,
}
use kcd2_codex_toolkit.Deployment.Tests.{zeros}
use kcd2_codex_toolkit.Deployment.Node.{DateTime}
use kcd2_codex_toolkit.Lifecycle.Event.{replace_z}
use kcd2_codex_toolkit.Approvals.Target.{Error, ApprovalTarget}
use kcd2_codex_toolkit.Approvals.Document.{
  is_nonce, approval_binding_sha256, checked_now, timestamp, expiry, validate_time_window,
  validate_targets, preconditions_of, process_preconditions, checked_text, Checked,
  validate_document,
}
use kcd2_codex_toolkit.Approvals.Ledger.{
  Key, key_has_eq, key_discrete, no_fault, at_write, Ledger, write_claim, consume,
}
use kcd2_codex_toolkit.Approvals.Ledger.Shared.{
  Shared, at_boot, attempt, consumes, boot, next, granted_once,
}
use kcd2_codex_toolkit.Approvals.Execute.{
  check_process, Asked, World, refused, failed, mutated, authorize, key_of, execute,
}
use kcd2_codex_toolkit.Approvals.Execute.Authorized.{IsAuthorized, IsConsumed, execute_answers}

abbrev no_hash : Json → String
no_hash value = zeros

abbrev at_ten : String → Option DateTime
at_ten text = some (record { instant = 10; has_offset = true })

abbrev by_nonce : Key → String
by_nonce key = key.nonce

abbrev a_target : ApprovalTarget
a_target = record {
  role = "mod";
  path = "/mods/ore";
  expected_current_sha256 = none;
  proposed_sha256 = some zeros;
}

abbrev an_approval : Fields
an_approval = field "schema_version" (str "kcd2.transaction-approval.v1") (
    field "approval_id" (str "a1") (
      field "operation" (str "install_candidate") (
        field "decision" (str "approved") (
          field "issued_at" (str "2026-01-01T00:00:00Z") (
            field "nonce" (str "nonce-nonce-nonce") (
              field "targets"
                (arr (
                  cons
                    (obj (
                      field "role" (str "mod") (
                        field "path" (str "/mods/ore") (
                          field "expected_current_sha256" null
                            (field "proposed_sha256" (str zeros) end)))))
                    nil))
                (field "process_preconditions"
                  (obj (
                    field "game_running" (bool false)
                      (field "debugger_state" (str "not_running") end)))
                  (field "user_decision" (str "yes")
                    (field "consumed" (bool false) (field "binding_sha256" (str zeros) end))))))))))

abbrev asked : Asked
asked = record {
  clock = record { instant = 20; has_offset = true };
  observed = ok (record {
    observed_at = 21;
    game_running = false;
    debugger_state = "not_running";
    running_processes = [];
  });
  later_clock = record { instant = 22; has_offset = true };
}

abbrev a_world : World ℕ
a_world = record { ledger = record { consumed = []; claims = [] }; disk = 3 }

abbrev bump : ℕ → Result String Bool × ℕ
bump n = (ok true, suc n)

-- A mutation that fails behind its first change
abbrev bump_and_fail : ℕ → Result String Bool × ℕ
bump_and_fail n = (err "disk full", suc n)

abbrev a_key : Key
a_key = record { approval_id = "a1"; nonce = "nonce-nonce-nonce" }

the_mutation_runs :
    execute no_hash at_ten by_nonce true 5_000_000 asked no_fault an_approval "install_candidate"
      (a_target ∷ [])
      bump
      a_world
    ≡ (
      mutated true,
      record {
        ledger = record { consumed = a_key ∷ []; claims = "nonce-nonce-nonce" ∷ [] };
        disk = 4;
      },
    )
unfolding execute authorize validate_document approval_binding_sha256 checked_text is_nonce
    validate_time_window timestamp expiry checked_now validate_targets process_preconditions
    preconditions_of check_process consume write_claim get without replace_z elem is_sha256
    all_chars is_hex lower
the_mutation_runs = refl

the_mutation_fails :
    execute no_hash at_ten by_nonce true 5_000_000 asked no_fault an_approval "install_candidate"
      (a_target ∷ [])
      bump_and_fail
      a_world
    ≡ (
      failed "disk full",
      record {
        ledger = record { consumed = a_key ∷ []; claims = "nonce-nonce-nonce" ∷ [] };
        disk = 4;
      },
    )
unfolding execute authorize validate_document approval_binding_sha256 checked_text is_nonce
    validate_time_window timestamp expiry checked_now validate_targets process_preconditions
    preconditions_of check_process consume write_claim get without replace_z elem is_sha256
    all_chars is_hex lower
the_mutation_fails = refl

execute_answers_example :
    let done =
      execute no_hash at_ten by_nonce true 5_000_000 asked no_fault an_approval "install_candidate"
        (a_target ∷ [])
        bump_and_fail
        a_world in
    ((e : Error) × (after : Ledger) × (done ≡ (refused e, record { ledger = after; disk = 3 }))
      × (after.consumed ≡ [])
      × ((after.claims ≡ [])
          ⊎ ((checked : Checked) × IsAuthorized no_hash at_ten 5_000_000 asked an_approval
                "install_candidate"
                (a_target ∷ [])
                checked
              × (after.claims ≡ by_nonce (key_of checked) ∷ []))))
    ⊎ ((checked : Checked) × (after : Ledger) × IsAuthorized no_hash at_ten 5_000_000 asked
          an_approval "install_candidate"
          (a_target ∷ [])
          checked
        × IsConsumed by_nonce true (key_of checked) a_world.ledger after
        × (done ≡ (failed "disk full", record { ledger = after; disk = 4 })))
execute_answers_example =
    execute_answers no_hash at_ten by_nonce true 5_000_000 asked no_fault an_approval
      "install_candidate" (a_target ∷ []) bump_and_fail a_world

-- The first process is granted the key and starts anew; the second is refused, and so is the first.
abbrev contended : Shared
contended =
    attempt by_nonce
      (attempt by_nonce (record (attempt by_nonce at_boot 0 a_key no_fault) { memory = λ i. [] }) 1
        a_key at_write)
      0 a_key no_fault

the_key_is_granted_once : contended.granted ≡ a_key ∷ []
unfolding attempt consume write_claim elem key_discrete
the_key_is_granted_once = refl

granted_once_example :
    let first = attempt by_nonce at_boot 0 a_key no_fault in
    let second = attempt by_nonce first 1 a_key at_write in
    (is_unique second.granted ≡ true)
    × All (λ key. elem (by_nonce key) second.claims ≡ true) second.granted
granted_once_example =
    granted_once by_nonce (next (next boot (consumes 0 a_key no_fault)) (consumes 1 a_key at_write))
