-- ===== src/Approvals/Document/Approved.antt =====
-- A document that the verifier accepts is an approval of the operation on the targets.
use kcd2_codex_toolkit.Base.{
  String, true, false, ◌&&◌, Option, some, List, ◌==◌, text_has_eq, all_of, elem, len_in, is_sha256,
  lower, ok, require, require-eq-ok, >>=-eq-ok, ok-same, ◌≡◌, refl, sym, subst, &&-true,
}
use kcd2_codex_toolkit.Base.Json.{Json, bool, str, arr, Items, Fields, get, names, is_str, is_bool}
use kcd2_codex_toolkit.Base.Json.Values.{is_str-eq, is_false-eq}
use kcd2_codex_toolkit.Deployment.Node.{DateTime}
use kcd2_codex_toolkit.Approvals.Target.{
  bad_fields, bad_binding, binding_differs, bad_schema, not_approved, bad_approval_id, bad_nonce,
  operation_differs, bad_user_decision, ApprovalTarget,
}
use kcd2_codex_toolkit.Approvals.Document.{
  operations, required, allowed, is_nonce, approval_binding_sha256, validate_time_window,
  validate_targets, process_preconditions, checked_text, Checked, validate_document,
}
use kcd2_codex_toolkit.Approvals.Document.Records.{AreRecords, validate_targets-AreRecords}
use kcd2_codex_toolkit.Approvals.Document.Valid.{
  checked_text-eq-ok, IsInTime, validate_time_window-IsInTime, IsAsked,
  process_preconditions-IsAsked,
}

module _ (sha256 : Json → String) (fromisoformat : String → Option DateTime) where
  pub record IsApproved (approval : Fields) (operation : String) (targets : List ApprovalTarget)
      (clock : DateTime) (checked : Checked) : Type 0 where
    pub approved : get "decision" approval ≡ some (str "approved")
    pub unconsumed : get "consumed" approval ≡ some (bool false)
    pub binding : String
    pub bound : get "binding_sha256" approval ≡ some (str binding)
    pub binds : lower binding ≡ approval_binding_sha256 sha256 approval
    pub identified : get "approval_id" approval ≡ some (str checked.approval_id)
    pub once : get "nonce" approval ≡ some (str checked.nonce)
    pub known : elem operation operations ≡ true
    pub operated : get "operation" approval ≡ some (str operation)
    pub in_time : IsInTime fromisoformat clock approval
    pub records : Items
    pub targeted : get "targets" approval ≡ some (arr records)
    pub exact : AreRecords targets records
    pub asked : IsAsked operation (get "process_preconditions" approval) checked.process

  pub validate_document-IsApproved :
      (approval : Fields) (operation : String) (targets : List ApprovalTarget) (clock : DateTime)
      (checked : Checked)
      → validate_document sha256 fromisoformat approval operation targets clock ≡ ok checked
      → IsApproved approval operation targets clock checked
  unfolding validate_document
  validate_document-IsApproved approval operation targets clock checked h =
      let (_, _, h) =
        >>=-eq-ok
          (require
            (all_of (λ k. elem k allowed) (names approval)
              && all_of (λ k. elem k (names approval)) required)
            bad_fields)
          _ h in
      let (binding, bound, h) =
        >>=-eq-ok (checked_text is_sha256 bad_binding (get "binding_sha256" approval)) _ h in
      let (_, binds, h) =
        >>=-eq-ok
          (require (approval_binding_sha256 sha256 approval == lower binding) binding_differs) _
          h in
      let (_, _, h) =
        >>=-eq-ok
          (require (is_str "kcd2.transaction-approval.v1" (get "schema_version" approval))
            bad_schema)
          _ h in
      let (_, decided, h) =
        >>=-eq-ok
          (require
            (is_str "approved" (get "decision" approval) && is_bool false (get "consumed" approval))
            not_approved)
          _ h in
      let (id, identified, h) =
        >>=-eq-ok (checked_text (len_in 1 256) bad_approval_id (get "approval_id" approval)) _ h in
      let (nonce, once, h) =
        >>=-eq-ok (checked_text is_nonce bad_nonce (get "nonce" approval)) _ h in
      let (_, operated, h) =
        >>=-eq-ok
          (require (elem operation operations && is_str operation (get "operation" approval))
            operation_differs)
          _ h in
      let (_, in_time, h) = >>=-eq-ok (validate_time_window fromisoformat clock approval) _ h in
      let (_, targeted, h) = >>=-eq-ok (validate_targets targets (get "targets" approval)) _ h in
      let (process, asked, h) =
        >>=-eq-ok (process_preconditions operation (get "process_preconditions" approval)) _ h in
      let (_, _, last) =
        >>=-eq-ok (checked_text (len_in 1 8192) bad_user_decision (get "user_decision" approval)) _
          h in
      let (approved, unconsumed) =
        &&-true _ (is_bool false (get "consumed" approval))
          (require-eq-ok _ not_approved decided) in
      let (known, operated) =
        &&-true _ (is_str operation (get "operation" approval))
          (require-eq-ok _ operation_differs operated) in
      let (records, array, exact, _, _) =
        validate_targets-AreRecords targets (get "targets" approval) targeted in
      let built : Checked = record { approval_id = id; nonce = nonce; process = process } in
      subst (IsApproved approval operation targets clock) (ok-same (ok built) refl last) (record {
        approved = is_str-eq "approved" (get "decision" approval) approved;
        unconsumed = is_false-eq (get "consumed" approval) unconsumed;
        binding = binding;
        bound =
            (checked_text-eq-ok is_sha256 bad_binding (get "binding_sha256" approval) binding
              bound).0;
        binds = sym (
            (text_has_eq.eq_iff (approval_binding_sha256 sha256 approval) (lower binding)).0
              (require-eq-ok _ binding_differs binds));
        identified =
            (checked_text-eq-ok (len_in 1 256) bad_approval_id (get "approval_id" approval) id
              identified).0;
        once = (checked_text-eq-ok is_nonce bad_nonce (get "nonce" approval) nonce once).0;
        known = known;
        operated = is_str-eq operation (get "operation" approval) operated;
        in_time = validate_time_window-IsInTime fromisoformat clock approval in_time;
        records = records;
        targeted = array;
        exact = exact;
        asked =
            process_preconditions-IsAsked operation (get "process_preconditions" approval) process
              asked;
      })
