-- ===== src/Lib.antt =====
-- Verification of the deployment and evidence core of the KCD2 Codex toolkit.
--
-- The toolkit builds mods as immutable candidates, deploys them, and collects runtime evidence. The
-- parts modelled here decide what may be claimed about a candidate:
--   * the deployment registry (runtime/src/kcd2_mod_build_deploy/deployment_registry.py) keeps
--     exact deployments, addressed by the hash of their identity. `authorize_fresh_snapshot` decides
--     whether a snapshot shows a registered deployment, and `compare_deployment_bindings` whether a
--     deployment stayed the same during a probe;
--   * the candidate lifecycle (runtime/src/kcd2_mod_build_deploy/candidate_lifecycle.py) keeps the
--     events of a candidate's life. Its append asks the decision of the snapshot gate for an
--     installation, and `reduce_lifecycle` derives six independent states from the events;
--   * the probe limits (runtime/src/kcd2_native_probes/limits.py) count a capture against limits
--     and forbid a claim of absence once one is reached; the same file measures whole bundles and
--     takes sensitive values and raw pointers out of what a probe prints;
--   * the probe correlation (runtime/src/kcd2_native_probes/correlation.py) checks the contracts that
--     tie the stages of a capture together, and the result validity
--     (runtime/src/kcd2_native_probes/result_validity.py) asks it for the verdict on a result;
--   * the approvals (runtime/src/kcd2_toolchain_core/approvals.py) let a persistent mutation run once,
--     after a document that approves exactly its targets was checked and its nonce was consumed;
--   * the candidate registry (runtime/src/kcd2_mod_build_deploy/candidate_registry.py) keeps the
--     candidates themselves, addressed by the hash of their identity, with aliases and a lineage that
--     must be free of cycles; the deployment registry checks its nodes against these candidates;
--   * the transaction attempts (runtime/src/kcd2_mod_build_deploy/transaction_attempts.py) keep the
--     progress of a transaction as hash-linked receipts in a directory, one for each phase;
--   * the evidence grades (runtime/src/kcd2_mod_build_deploy/evidence_grade.py) give the grade that
--     a wrapper of several pieces of evidence may report.
--
-- Files:
--   * Base: Boolean tests, equality classes, lists, results, texts, sorting, JSON values, and `Exec`
--     for methods that mutate an object and may raise;
--   * Deployment/Identity, Payload, Node: the identity dataclasses, a constructor function for each
--     `__post_init__`, the hashed payloads, and nodes; Deployment/Hex: the PE timestamp's digits;
--   * Deployment/Registry: `DeploymentRegistry` with `get` and `add`; Deployment/Gate:
--     `SnapshotGateDecision` and `authorize_fresh_snapshot`; Deployment/Binding: the comparison;
--   * Lifecycle/Types, Event, History: the enumerations and the authority table, `LifecycleEvent`,
--     `CandidateLifecycle` and `reduce_lifecycle`;
--   * Limits and Limits/Tracker: `ProbeLimits` and `ProbeLimitTracker`; Limits/Measure and
--     Limits/Bundle: `_measure_json` and `evaluate_probe_bundle_limits`; Limits/Redaction and its
--     child Pattern: `redact_probe_output` and the two patterns;
--   * Correlation/Proof, Contract, Report, Constraint: the validators of evidence and of one contract,
--     each the list of the diagnostics that it adds, then the collector and the reports;
--   * ResultValidity/Input, Verdict: `_normalize_input`, and the verdict with its audit;
--   * Approvals/Target, Document, Ledger, Execute: the targets and the observed processes,
--     `_validate_document`, `ApprovalLedger.consume` and `ApprovalVerifier.execute`;
--     Approvals/Ledger/Shared: several processes over one directory of claim files;
--   * Candidates/Identity, Payload, Record: the dataclasses and the hashed payload; Candidates/Dag:
--     `_validate_acyclic`; Candidates/Aliases: `_validate_aliases`; Candidates/Registry: the
--     constructor of `CandidateRegistry`, `add` and `validate_installed_artifacts`;
--   * Attempts/Phase, Receipt, Load: `AttemptPhase`, a receipt and `_load_attempt` over a directory as
--     a value; Attempts/Artifacts: the ledger; Attempts/Record: `record_attempt_phase`; Attempts/Open:
--     `open_transaction_attempt`;
--   * EvidenceGrade: children, aggregations and `aggregate_evidence_grades`.
-- The modules below these hold the proofs, and the Tests modules run the theorems on examples.
--
-- Conventions: an exception is a value of the component's `Error`, with the message left out. Fields
-- have their declared Python types, so the `isinstance` tests have nothing to refuse. A set of
-- reasons is the list of the tests that hold, in a fixed order, sorted where the source sorts it.
-- A time is the number of microseconds since the start of year 1 in UTC. A Python `int` is an
-- integer where it may be negative on input and a natural number behind its check.
--
-- Parameters: `sha256` for hashlib over canonical JSON, `dumps` and `encoded_size` for the text of a
-- scalar and the bytes of a bundle under json.dumps, `fromisoformat` for the standard library's
-- parser of dates, `resolve` for the resolution of a path, `casefold`, `repr`, `str` and `decimal`
-- for Python's, and `claim_name` for the name of a claim file; no law of these is assumed. What a
-- clock or a probe of the processes answers is an argument of the operation, and so is a mutation,
-- which changes its disk and then returns or raises. `frames` is how many calls the interpreter still
-- allows where a registry of candidates is made.
-- A receipt's bytes are an abstract type with a codec, a hash and a size; the theorems that need it
-- name the law that the codec reads back what it writes, or that two receipts have no common hash.
-- The disk that paths lead to is a function of the directory.
--
-- Fuel: `hex_digits` has as many digits as the number has, and the round trip is proved for
-- every number of 64 bits. The stack of the measurement takes as many turns as a value holds
-- values, and the spread over variants as many as there are candidates; both are proved to be
-- enough. The search for a cycle recurses as the source does, and ends in the interpreter's
-- RecursionError where `frames` runs out, which more frames than candidates rule out.
--
-- Not modelled: files, processes and servers, with the hashing of the files that an approval names
-- and the listing of the processes; the validation of archives and XML; the deployment transactions;
-- the index adapter and the portfolio; and the texts that only print a state.
pub mod Base
pub mod Deployment
pub mod Candidates
pub mod Attempts
pub mod Approvals
pub mod Correlation
pub mod ResultValidity
pub mod Lifecycle
pub mod EvidenceGrade
pub mod Limits
