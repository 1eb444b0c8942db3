-- ===== src/StageEvidence/Stage6r4c.antt =====
-- scripts/ci/write-stage6r4c-evidence.py. Its suites have no label: the labels are those of the
-- summary.
use Prim.Native.String.{String}
use toi_no_mori_mvs.Common.{[], Bool, List, none, ◌++◌, ◌∷◌}
use toi_no_mori_mvs.Python.Platform.{Platform}
use toi_no_mori_mvs.Python.Result.{◌>>=◌, Result, ok}
use toi_no_mori_mvs.StageEvidence.Gate.{
  Checks, Run, exit_check, is_passed, result_at, run_checks, with_verdict,
}
use toi_no_mori_mvs.StageEvidence.Patterns.{verdict}
use toi_no_mori_mvs.StageEvidence.Report.{
  Arguments, GateEvidence, Host, Outcome, Stage, gate_evidence, run_of, run_writer,
}
use toi_no_mori_mvs.StageEvidence.Report.{source_fields}
use toi_no_mori_mvs.StageEvidence.Report.Document.{document_text}
use toi_no_mori_mvs.StageEvidence.Report.Summary.{runner_rows, summary_text}
use toi_no_mori_mvs.StageEvidence.Suites.{Results, SuiteContract, suites_of_log}

abbrev pub suites : List SuiteContract
suites =
    record {
      key = "api";
      label = "API";
      heading = "# ToiNoMori.Api specification tests";
      expected = 37;
    }
    ∷ record {
      key = "postgresql";
      label = "PostgreSQL";
      heading = "# ToiNoMori PostgreSQL integration tests";
      expected = 10;
    }
    ∷ []

abbrev pub stage : Stage
stage = record {
  schema_version = "1.0";
  name = "6R-4C";
  gate = "nonroot-native-postgresql";
  measurement_scope = none;
}

unfoldable pub parse_suites : Platform → String → Results
unfolding suites_of_log
parse_suites p log_text = suites_of_log p suites log_text

unfoldable pub acceptance_status : Run → Results → Result (Bool × Checks)
unfolding result_at
acceptance_status run results = do
  api ← result_at "api" results
  postgresql ← result_at "postgresql" results
  ok (
      with_verdict (
        run_checks run
        ++ ("api37Of37", is_passed api)
          ∷ ("postgresql10Of10", is_passed postgresql)
          ∷ exit_check run))

unfoldable pub check_rows : GateEvidence → Result (List String)
unfolding runner_rows
check_rows evidence = runner_rows evidence.acceptance

unfoldable pub write_summary : GateEvidence → Result String
unfolding summary_text check_rows
write_summary evidence =
    summary_text suites "# Stage 6R-4C non-root PostgreSQL CI" check_rows evidence

module _ {Bytes : Type 0} (p : Platform) (host : Host Bytes) where
  unfoldable pub build_evidence : Arguments → Bytes → Result GateEvidence
  unfolding parse_suites acceptance_status gate_evidence
  build_evidence args log_bytes =
      let log_text = host.decode log_bytes in
      let results = parse_suites p log_text in
      do
        verdict ← acceptance_status (run_of args) results
        ok (gate_evidence host stage (source_fields host) none args log_bytes results verdict)

  unfoldable pub main : Arguments → Result Outcome
  unfolding run_writer build_evidence document_text write_summary
  main args = run_writer host build_evidence (document_text p) write_summary args
