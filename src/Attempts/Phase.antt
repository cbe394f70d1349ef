-- ===== src/Attempts/Phase.antt =====
-- The phases of an attempt and the errors of the module.
use kcd2_codex_toolkit.Base.{
  ℕ, String, Bool, true, false, Option, none, some, List, [], ◌∷◌, if◌then◌else◌, ◌==◌, text_has_eq,
}

pub data AttemptPhase : Type 0 where
  created source_prepared built validated install_planned approved installed verified failed :
      AttemptPhase

abbrev pub ordinal : AttemptPhase → ℕ
ordinal created = 0
ordinal source_prepared = 10
ordinal built = 20
ordinal validated = 30
ordinal install_planned = 40
ordinal approved = 50
ordinal installed = 60
ordinal verified = 70
ordinal failed = 999

-- `phase.name`
abbrev pub phase_name : AttemptPhase → String
phase_name created = "CREATED"
phase_name source_prepared = "SOURCE_PREPARED"
phase_name built = "BUILT"
phase_name validated = "VALIDATED"
phase_name install_planned = "INSTALL_PLANNED"
phase_name approved = "APPROVED"
phase_name installed = "INSTALLED"
phase_name verified = "VERIFIED"
phase_name failed = "FAILED"

-- `f"{int(phase):03d}-{phase.name.lower()}.json"`
abbrev pub file_name : AttemptPhase → String
file_name created = "000-created.json"
file_name source_prepared = "010-source_prepared.json"
file_name built = "020-built.json"
file_name validated = "030-validated.json"
file_name install_planned = "040-install_planned.json"
file_name approved = "050-approved.json"
file_name installed = "060-installed.json"
file_name verified = "070-verified.json"
file_name failed = "999-failed.json"

abbrev pub phases : List AttemptPhase
phases =
    created ∷ source_prepared ∷ built ∷ validated ∷ install_planned ∷ approved ∷ installed
    ∷ verified ∷ failed ∷ []

abbrev pub is_failed : AttemptPhase → Bool
is_failed failed = true
is_failed _ = false

abbrev pub is_terminal : AttemptPhase → Bool
is_terminal failed = true
is_terminal verified = true
is_terminal _ = false

abbrev pub is_created : AttemptPhase → Bool
is_created created = true
is_created _ = false

-- The phase whose receipt has the name: its ordinal is one of a phase, and its text is the phase's.
abbrev pub named_among : String → List AttemptPhase → Option AttemptPhase
named_among name [] = none
named_among name (p ∷ rest) = if file_name p == name then some p else named_among name rest

-- `TransactionAttemptError`, with what it names. The three refusals of a file name are one here.
pub data Error : Type 0 where
  bad_digest : String → Error
  bad_limit : String → Error
  bad_root undeclared_content not_plain number_out_of_bound not_contiguous : Error
  no_receipts too_many_receipts bad_receipt bad_json bad_schema bad_filename : Error
  body_differs attempt_differs input_changed broken_chain not_created_first : Error
  after_terminal bad_order bad_failed_reason unexpected_reason tree_reparse tree_too_large : Error
  missing_artifact escaped_artifact artifact_bounds artifact_drifted artifact_not_plain : Error
  advanced_outside terminal_attempt not_monotone reserved_reason receipt_exists : Error
  different_inputs attempts_exhausted : Error
