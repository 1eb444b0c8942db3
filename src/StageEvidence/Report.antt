-- ===== src/StageEvidence/Report.antt =====
-- What `build_evidence` and `main` of scripts/ci/write-stage6r*-evidence.py are made of.
pub mod Document
pub mod Summary
use Prim.Native.String.{String}
use toi_no_mori_mvs.Common.{
  [], Bool, List, Option, all, contains_text, false, if◌then◌else◌, is_empty,
}
use toi_no_mori_mvs.Common.{none, not, some, str_eq, ℕ, ◌&&◌, ◌++◌, ◌==◌, ◌∷◌}
use toi_no_mori_mvs.Python.Json.{Fields, bool, int, str, to_fields}
use toi_no_mori_mvs.Python.Numbers.{ℤ}
use toi_no_mori_mvs.Python.Platform.{Platform}
use toi_no_mori_mvs.Python.Result.{◌>>=◌, ◌>>◌, Result, err, ok, os_error}
use toi_no_mori_mvs.StageEvidence.Gate.{Build, Checks, Run, is_zero}
use toi_no_mori_mvs.StageEvidence.Gate.Totals.{SuiteTotals}
use toi_no_mori_mvs.StageEvidence.Patterns.{error_counts, verdict, warning_counts}
use toi_no_mori_mvs.StageEvidence.Suites.{Results}

-- The arguments that `parse_args` returns.
pub record Arguments : Type 0 where
  pub log : String
  pub json : String
  pub summary : String
  pub started_at : String
  pub finished_at : String
  pub uid : ℤ
  pub user : String
  pub gate_exit_code : ℤ
  pub execution_mode : String
  pub dotnet_version : String
  pub postgresql_version : String

-- The services of the host: bytes with `decode("utf-8", errors="replace")` and SHA-256 in
-- hexadecimal, `os.environ`, the `platform` module, `str.lower`, and `Path.name`.
pub record Host (Bytes : Type 0) : Type 0 where
  pub decode : Bytes → String
  pub sha256_bytes : Bytes → String
  pub environ : String → Option String
  pub platform_text : String
  pub machine : String
  pub lower : String → String
  pub path_name : String → String
  -- `Path.read_bytes`, none where it raises `OSError`
  pub read_bytes : String → Option Bytes

-- The evidence, with `measurementScope` and `totals` where the writer has them.
pub record GateEvidence : Type 0 where
  pub schema_version : String
  pub stage : String
  pub gate : String
  pub status : String
  pub is_simulated : Bool
  pub execution_mode : String
  pub measurement_scope : Option String
  pub started_at_utc : String
  pub finished_at_utc : String
  pub source : Fields
  pub runner : Fields
  pub toolchain : Fields
  pub suites : Results
  pub totals : Option SuiteTotals
  pub gate_exit_code : ℤ
  pub acceptance : Checks
  pub log_file : String
  pub log_sha256 : String

-- What a writer says of its stage.
pub record Stage : Type 0 where
  pub schema_version : String
  pub name : String
  pub gate : String
  pub measurement_scope : Option String

abbrev pub run_of : Arguments → Run
run_of args = record {
  gate_exit_code = args.gate_exit_code;
  uid = args.uid;
  execution_mode = args.execution_mode;
}

-- `bool(warning_counts and error_counts) and all(value == 0 for value in ...)`
unfoldable pub build_clean : Platform → String → Bool
unfolding warning_counts error_counts
build_clean p log_text =
    let warnings = warning_counts p log_text in
    let errors = error_counts p log_text in
    not (is_empty warnings) && not (is_empty errors) && all (λ n. n == 0) (warnings ++ errors)

-- `"test ID uniqueness: PASSED" in log_text`
unfoldable pub test_ids_unique : String → Bool
unfolding contains_text
test_ids_unique log_text = contains_text "test ID uniqueness: PASSED" log_text

unfoldable pub build_of : Platform → String → Build
unfolding build_clean test_ids_unique
build_of p log_text = record {
  test_ids_unique = test_ids_unique log_text;
  build_clean = build_clean p log_text;
}

module _ {Bytes : Type 0} (host : Host Bytes) where
  -- `os.environ.get(name, default)`
  abbrev pub variable : (name default : String) → String
  variable name default = elim (host.environ name) [ none ↦ default | some value ↦ value ]

  abbrev pub source_fields : Fields
  source_fields = to_fields (
      ("repository", str (variable "GITHUB_REPOSITORY" "local-workspace"))
      ∷ ("commit", str (variable "GITHUB_SHA" "unknown"))
      ∷ ("ref", str (variable "GITHUB_REF" "unknown"))
      ∷ ("workflow", str (variable "GITHUB_WORKFLOW" "local"))
      ∷ ("runId", str (variable "GITHUB_RUN_ID" "unknown"))
      ∷ ("runAttempt", str (variable "GITHUB_RUN_ATTEMPT" "unknown"))
      ∷ [])

  -- `os.environ.get("GITHUB_ACTIONS") == "true"`
  abbrev is_github : Bool
  is_github = elim (host.environ "GITHUB_ACTIONS") [
    | none ↦ false
    | some value ↦ str_eq value "true"
  ]

  abbrev pub runner_fields : Arguments → Fields
  runner_fields args = to_fields (
      ("provider", str (if is_github then "GitHub Actions" else "local"))
      ∷ ("operatingSystem", str host.platform_text)
      ∷ ("architecture", str host.machine)
      ∷ ("user", str args.user)
      ∷ ("uid", int args.uid)
      ∷ ("isNonRoot", bool (not (is_zero args.uid)))
      ∷ [])

  abbrev toolchain_fields : Arguments → Fields
  toolchain_fields args =
      to_fields
        (("dotnetSdk", str args.dotnet_version) ∷ ("postgresql", str args.postgresql_version) ∷ [])

  -- The dict that `build_evidence` returns.
  unfoldable pub gate_evidence :
      Stage
      → (source : Fields) → Option SuiteTotals
      → Arguments
      → Bytes
      → Results
      → (verdict : Bool × Checks) → GateEvidence
  gate_evidence stage source totals args log_bytes results verdict = record {
    schema_version = stage.schema_version;
    stage = stage.name;
    gate = stage.gate;
    status = if verdict.0 then "accepted" else "rejected";
    is_simulated = not (str_eq args.execution_mode "native");
    execution_mode = args.execution_mode;
    measurement_scope = stage.measurement_scope;
    started_at_utc = args.started_at;
    finished_at_utc = args.finished_at;
    source = source;
    runner = runner_fields args;
    toolchain = toolchain_fields args;
    suites = results;
    totals = totals;
    gate_exit_code = args.gate_exit_code;
    acceptance = verdict.1;
    log_file = host.path_name args.log;
    log_sha256 = host.sha256_bytes log_bytes;
  }

-- A run of `main`: the files that it writes, in order, and its exit code.
pub record Outcome : Type 0 where
  pub files : List (String × String)
  pub code : ℕ

abbrev pub exit_code : GateEvidence → ℕ
exit_code evidence = if str_eq evidence.status "accepted" then 0 else 1

-- `main` of a writer: the document is written, then the summary. Where writing fails, `OSError` ends
-- the run; that is left out.
unfoldable pub run_writer :
    {Bytes : Type 0}
    → Host Bytes
    → (build_evidence : Arguments → Bytes → Result GateEvidence)
    → (document : GateEvidence → String) → (write_summary : GateEvidence → Result String)
    → Arguments
    → Result Outcome
run_writer host build_evidence document write_summary args = elim (host.read_bytes args.log) [
  | none ↦ err os_error
  | some log_bytes ↦ do
    evidence ← build_evidence args log_bytes
    summary ← write_summary evidence
    ok (record {
      files = (args.json, document evidence) ∷ (args.summary, summary) ∷ [];
      code = exit_code evidence;
    })
]
