-- ===== src/StageEvidence/Stage6r8.antt =====
-- scripts/ci/write-stage6r8-evidence.py.
use Prim.Native.String.{String}
use toi_no_mori_mvs.Common.{[], Bool, List, none, some, ◌<>◌, ◌∷◌}
use toi_no_mori_mvs.Python.Platform.{Platform}
use toi_no_mori_mvs.Python.Result.{◌>>=◌, Result, ok}
use toi_no_mori_mvs.StageEvidence.Gate.{Build, Checks, Run, native_total, status_by_suite}
use toi_no_mori_mvs.StageEvidence.Patterns.{verdict}
use toi_no_mori_mvs.StageEvidence.Report.{
  Arguments, GateEvidence, Host, Outcome, Stage, build_of, gate_evidence, run_of,
}
use toi_no_mori_mvs.StageEvidence.Report.{run_writer, source_fields}
use toi_no_mori_mvs.StageEvidence.Report.Document.{document_text}
use toi_no_mori_mvs.StageEvidence.Report.Summary.{
  bool_text, build_rows, check_at, runner_rows, summary_text, then_rows,
}
use toi_no_mori_mvs.StageEvidence.Suites.{Results, SuiteContract, suites_of_log}

abbrev pub suites : List SuiteContract
suites =
    record {
      key = "domain";
      label = "Domain";
      heading = "# ToiNoMori.Domain specification tests";
      expected = 12;
    }
    ∷ record {
      key = "api";
      label = "API";
      heading = "# ToiNoMori.Api specification tests";
      expected = 41;
    }
    ∷ record {
      key = "mobile";
      label = "Mobile";
      heading = "# ToiNoMori mobile web specification tests";
      expected = 7;
    }
    ∷ record {
      key = "oidc";
      label = "OIDC E2E";
      heading = "# ToiNoMori OIDC browser protocol E2E tests";
      expected = 7;
    }
    ∷ record {
      key = "postgresql";
      label = "PostgreSQL";
      heading = "# ToiNoMori PostgreSQL integration tests";
      expected = 12;
    }
    ∷ record {
      key = "dr";
      label = "DR";
      heading = "# ToiNoMori disaster-recovery specification tests";
      expected = 4;
    }
    ∷ []

abbrev pub stage : Stage
stage = record {
  schema_version = "1.0";
  name = "6R-8";
  gate = "mobile-etag-role-dto-full-regression";
  measurement_scope =
      some
        "native process integration; PostgreSQL role boundary and local isolated DR, not cloud-region failover";
}

unfoldable pub parse_suites : Platform → String → Results
unfolding suites_of_log
parse_suites p log_text = suites_of_log p suites log_text

unfoldable pub acceptance_status : Run → Results → Build → Result (Bool × Checks)
unfolding status_by_suite
acceptance_status run results build =
    status_by_suite suites (native_total "nativeTotal83Of83" 83 suites) run results build

-- `f"| Native合計 | 83/83={checks['nativeTotal83Of83']} |"`
unfoldable pub native_row : Checks → Result (List String)
unfolding check_at
native_row checks = do
  b ← check_at "nativeTotal83Of83" checks
  ok (("| Native合計 | 83/83=" <> (bool_text b <> " |")) ∷ [])

unfoldable pub check_rows : GateEvidence → Result (List String)
unfolding build_rows runner_rows native_row
check_rows evidence =
    then_rows (native_row evidence.acceptance)
      (then_rows (build_rows evidence.acceptance) (runner_rows evidence.acceptance))

unfoldable pub write_summary : GateEvidence → Result String
unfolding summary_text check_rows
write_summary evidence =
    summary_text suites "# Stage 6R-8 Mobile ETag and role DTO full regression" check_rows evidence

module _ {Bytes : Type 0} (p : Platform) (host : Host Bytes) where
  unfoldable pub build_evidence : Arguments → Bytes → Result GateEvidence
  unfolding parse_suites acceptance_status gate_evidence build_of
  build_evidence args log_bytes =
      let log_text = host.decode log_bytes in
      let results = parse_suites p log_text in
      do
        verdict ← acceptance_status (run_of args) results (build_of p log_text)
        ok (gate_evidence host stage (source_fields host) none args log_bytes results verdict)

  unfoldable pub main : Arguments → Result Outcome
  unfolding run_writer build_evidence document_text write_summary
  main args = run_writer host build_evidence (document_text p) write_summary args
