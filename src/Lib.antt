-- ===== src/Lib.antt =====
-- The Python programs that decide for the repository's automation: the deterministic controller
-- scripts/ai_controller/core.py, the writers of stage evidence scripts/ci/write-stage6r*-evidence.py,
-- and the seal of failover evidence scripts/dr/seal-failover-evidence.py.
--
-- The controller decides whether an automated change may go on. Each of its operations reads a
-- document (a work order, a review, check results) together with the registries and schemas below
-- .github/ai, and returns a `Decision`: a state, whether the input is accepted, reasons, and evidence.
-- It refuses in two ways, by a decision that is not accepted and by an exception.
--
-- Python/ models what the programs use of its language. `Python.Json` has the values that
-- `json.loads` returns, with `dict.get`, `==` and truth values; a float is an exact binary number.
-- `Python.Result` has exceptions, by kind; a `ControllerError` keeps its message, without the text of
-- the exception it is chained to. `Python.Canonical` is `canonical_json`, `sha256_text` and
-- `content_hash`. `Python.Platform` gathers the services that are not in the repository and enter as
-- parameters: SHA-256, the regular expression engine, `json.loads`, file reads, `repr`, and the parsers
-- of dates. Python/Numbers.antt has integers and floats, Python/Lines.antt the operations on lines,
-- Python/Matching.antt what the regular expressions of the writers are made of, and Python/Pretty.antt
-- `json.dumps` with an indentation.
--
-- Controller/ has one file per operation of core.py:
--   ControlPlane     `validate_control_plane`, the self-check of registries and schemas
--   Constants        the constants and the patterns for hashes and finding ids
--   Decision         `Decision` and `as_dict`; evidence may hold a Python set beside JSON
--   Schema           `_schema_types`, `_json_type_matches`; Schema/Definition is
--                    `validate_schema_definition`, Schema/Instance is `_validate_instance`,
--                    Schema/Formats is `_format_is_valid`, Schema/Approved is `load_approved_schema`
--                    and `schema_validation_errors`
--   Registry         `_entries`, `registry_ids`, `validate_registry`, `required_check_names`,
--                    `organizer_logins`; Registry/Execution is `check_registry_execution`
--   Scope            `path_is_denied` and `validate_scope`; Scope/Resolution resolves paths
--   WorkOrder        `_parse_time` and `validate_work_order`
--   Manufacturing    `validate_manufacturing_result`
--   ReviewGate       `validate_review_gate`; ReviewGate/Rows has the gates, ReviewGate/Findings what
--                    they read from findings and fix candidates
--   Disposition      `validate_disposition_record`
--   Appointment      `appointment_applicability` and `validate_appointment`
--   Threat           `public_output_is_clean` and `validate_threat_baseline`
--   Origin, RequiredChecks, PatchIdentity, Loop, ReviewRecord
--                    `route_origin`, `validate_required_checks`, `validate_patch_identity`,
--                    `loop_transition`, `review_record_path` and `validate_review_record`
-- StageEvidence/ has the eight writers, which are copies of each other. A writer reads the log of a
-- test run, decides whether the stage's gate accepts it, and writes a JSON document and a summary:
--   Patterns         the regular expressions, each a reader of one line
--   Suites           `SuiteContract` and `parse_suites` for any tuple of suites
--   Gate             `acceptance_status` of the stages 6R-5 to 6R-9; Gate/Totals has `suite_totals` and
--                    `acceptance_status` of the stages 6R-10 and 6R-11
--   Report           `build_evidence` and `main`; Report/Document is the JSON document, Report/Summary
--                    is `write_summary`
--   Stage6r4c, Stage6r5, ..., Stage6r11
--                    the suites, texts and choices of one writer each, with its own `parse_suites`,
--                    `acceptance_status`, `build_evidence`, `write_summary` and `main`
-- A dict of suites is a list in the order of the contracts, whose keys differ. LastReport describes what
-- a log says of a suite, read from its last line to its first and without a dict; GreenRun says which
-- runs the gates are to accept, in terms of the arguments, the log's lines with counts of warnings and
-- errors (Counts), and LastReport alone. The other files prove what holds of every log: Consistent,
-- Lookup, Accepted, Verdict, Exit, Absent and Replay.
--
-- Failover/ has the seal: Sensitive is `reject_sensitive_keys`, Single and Rules are the sections of
-- `validate`, Validate is their sequence, Storage is `atomic_write` over a file system whose calls may
-- fail, and Seal is `main` with its exit code. Clean, Sound, Accepted and Sealed prove what it promises.
--
-- Tests/ runs the operations on concrete inputs.
--
-- Recursion over schemas and documents is structural, so no fuel is needed; decimal digits of n are
-- printed with fuel n + 1, which exceeds their number. A dict is an association list whose first entry
-- for a key counts; where a statement needs distinct keys it says so. A set is a list, and sorted sets
-- are sorted lists without repetitions. Integers are unbounded, as in Python.
--
-- Left out: the limit of `int` on the number of digits, failures of the writers' own file writes, and
-- the texts of exceptions that are chained. A text is a list of Unicode scalar values: the lone
-- surrogates that `json.loads` returns for an escape such as "\ud800" have no counterpart, nor has the
-- `UnicodeEncodeError` that `value.encode("utf-8")` in `sha256_text` raises for them. `argparse`, the
-- clock, the environment, the decoding of bytes, `str.lower`, `Path.name` and the names of temporary
-- files are parameters.
--
-- Not modelled: the command line scripts/qf-ai-controller.py, the contract checks of scripts/ci, the
-- repository checks, and the parts that are not written in Python.
pub mod Common
pub mod Python
pub mod Controller
pub mod StageEvidence
pub mod Failover
pub mod Tests
