-- ===== src/Correlation/Constraint.antt =====
-- `validate_owner_function` and `validate_caller_return_lock`: one proof of a contract on its own.
use kcd2_codex_toolkit.Base.{
  String, Bool, true, Option, none, some, List, [], is_empty, is_empty-eq-nil, ◌≡◌, ap, ◌∙◌, arith,
}
use kcd2_codex_toolkit.Base.Json.{Fields, get}
use kcd2_codex_toolkit.Correlation.Proof.{Diagnostic, Added, validate_owner, validate_caller_return}
use kcd2_codex_toolkit.Correlation.Proven.{
  IsOwner, IsLocked, validate_owner-IsOwner, validate_caller_return-IsLocked,
}

pub record ConstraintValidationReport : Type 0 where
  pub valid : Bool
  pub diagnostics : List Diagnostic

abbrev pub constraint_report : Added → Option ConstraintValidationReport
constraint_report none = none
constraint_report (some added) = some (record { valid = is_empty added; diagnostics = added })

valid-nil :
    (added : Added) (r : ConstraintValidationReport)
    → constraint_report added ≡ some r
    → r.valid ≡ true
    → added ≡ some []
valid-nil none r h v = ground (arith, h)
valid-nil (some added) r h v =
    let same : is_empty added ≡ r.valid = ground (arith, h) in
    ap some (is_empty-eq-nil added (same ∙ v))

module _ (casefold : String → String) where
  unfoldable pub validate_owner_function : Fields → String → Option ConstraintValidationReport
  validate_owner_function correlation module_sha256 =
      constraint_report (
        validate_owner casefold (get "owner_function" correlation) module_sha256 "$.owner_function")

  unfoldable pub validate_caller_return_lock : Fields → String → Option ConstraintValidationReport
  validate_caller_return_lock correlation module_sha256 = constraint_report (
      validate_caller_return casefold (get "caller_return_lock" correlation) module_sha256
        "$.caller_return_lock")

  -- A valid report on an owner needs a proof of the owner.
  validate_owner_function-IsOwner :
      (correlation : Fields) (module_sha256 : String) (r : ConstraintValidationReport)
      → validate_owner_function correlation module_sha256 ≡ some r
      → r.valid ≡ true
      → IsOwner casefold module_sha256 (get "owner_function" correlation)
  unfolding validate_owner_function
  validate_owner_function-IsOwner correlation module_sha256 r h v =
      validate_owner-IsOwner casefold module_sha256 (get "owner_function" correlation)
        "$.owner_function" (valid-nil _ r h v)

  -- A valid report on a lock needs a proof of the lock.
  validate_caller_return_lock-IsLocked :
      (correlation : Fields) (module_sha256 : String) (r : ConstraintValidationReport)
      → validate_caller_return_lock correlation module_sha256 ≡ some r
      → r.valid ≡ true
      → IsLocked casefold module_sha256 (get "caller_return_lock" correlation)
  unfolding validate_caller_return_lock
  validate_caller_return_lock-IsLocked correlation module_sha256 r h v =
      validate_caller_return-IsLocked casefold module_sha256 (get "caller_return_lock" correlation)
        "$.caller_return_lock" (valid-nil _ r h v)
