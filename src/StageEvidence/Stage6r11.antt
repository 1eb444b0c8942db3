-- ===== src/StageEvidence/Stage6r11.antt =====
-- scripts/ci/write-stage6r11-evidence.py.
use Prim.Native.String.{String}
use toi_no_mori_mvs.Common.{[], Bool, List, if◌then◌else◌, none, some, str_eq, ◌<>◌, ◌∷◌}
use toi_no_mori_mvs.Python.Canonical.{decimal}
use toi_no_mori_mvs.Python.Json.{Fields, Json, arr, bool, str, to_fields, to_items}
use toi_no_mori_mvs.Python.Platform.{Platform}
use toi_no_mori_mvs.Python.Result.{◌>>=◌, Result, err, key_error, ok}
use toi_no_mori_mvs.StageEvidence.Gate.{Build, Checks, Run}
use toi_no_mori_mvs.StageEvidence.Gate.Totals.{status_by_totals, suite_totals}
use toi_no_mori_mvs.StageEvidence.Patterns.{verdict}
use toi_no_mori_mvs.StageEvidence.Report.{
  Arguments, GateEvidence, Host, Outcome, Stage, build_of, gate_evidence, run_of,
}
use toi_no_mori_mvs.StageEvidence.Report.{run_writer, variable}
use toi_no_mori_mvs.StageEvidence.Report.Document.{document_text}
use toi_no_mori_mvs.StageEvidence.Report.Summary.{
  bool_text, build_rows, check_at, check_row, runner_rows, summary_text, then_rows,
}
use toi_no_mori_mvs.StageEvidence.Suites.{Results, SuiteContract, suites_of_log}

abbrev pub suites : List SuiteContract
suites =
    record {
      key = "domain";
      label = "Domain";
      heading = "# ToiNoMori.Domain specification tests";
      expected = 12;
    }
    ∷ record {
      key = "api";
      label = "API";
      heading = "# ToiNoMori.Api specification tests";
      expected = 41;
    }
    ∷ record {
      key = "mobile";
      label = "Mobile";
      heading = "# ToiNoMori mobile web specification tests";
      expected = 7;
    }
    ∷ record {
      key = "oidc";
      label = "OIDC E2E";
      heading = "# ToiNoMori OIDC browser protocol E2E tests";
      expected = 8;
    }
    ∷ record {
      key = "townReadiness";
      label = "Town readiness";
      heading = "# ToiNoMori town-readiness specification tests";
      expected = 5;
    }
    ∷ record {
      key = "postgresql";
      label = "PostgreSQL";
      heading = "# ToiNoMori PostgreSQL integration tests";
      expected = 12;
    }
    ∷ record {
      key = "dr";
      label = "DR";
      heading = "# ToiNoMori disaster-recovery specification tests";
      expected = 5;
    }
    ∷ []

abbrev pub stage : Stage
stage = record {
  schema_version = "1.1";
  name = "6R-11";
  gate = "question-forest-minimum-town-readiness";
  measurement_scope =
      some
        "native local Question Forest regression plus Town-readiness boundary checks; no Virtual Town runtime implementation";
}

unfoldable pub parse_suites : Platform → String → Results
unfolding suites_of_log
parse_suites p log_text = suites_of_log p suites log_text

unfoldable pub acceptance_status : Run → Results → Build → Result (Bool × Checks)
unfolding status_by_totals
acceptance_status run results build = status_by_totals suites run results build

-- `f"| Native合計 | {passedTotal}/{expectedTotal} (totalsMatch={totalsMatch}) |"`
unfoldable pub native_row : GateEvidence → Result (List String)
unfolding check_at
native_row evidence = elim (evidence.totals) [
  | none ↦ err key_error
  | some totals ↦ do
    totals_match ← check_at "totalsMatch" evidence.acceptance
    ok (
        ("| Native合計 | "
          <> (decimal totals.passed_total
              <> ("/"
                  <> (decimal totals.expected_total
                      <> (" (totalsMatch=" <> (bool_text totals_match <> ") |"))))))
        ∷ [])
]

unfoldable pub check_rows : GateEvidence → Result (List String)
unfolding build_rows runner_rows check_row native_row
check_rows evidence = then_rows (native_row evidence) (
    then_rows (check_row "登録スイート欠落なし" "registeredSuitesComplete" evidence.acceptance)
      (then_rows (build_rows evidence.acceptance) (runner_rows evidence.acceptance)))

unfoldable pub write_summary : GateEvidence → Result String
unfolding summary_text check_rows
write_summary evidence =
    summary_text suites "# Stage 6R-11 Question Forest Minimum / Town Readiness" check_rows evidence

-- `value for value in (...) if value`
abbrev filled_texts : List String → List Json
filled_texts [] = []
filled_texts (s ∷ ss) = let rest = filled_texts ss in if str_eq s "" then rest else str s ∷ rest

module _ {Bytes : Type 0} (p : Platform) (host : Host Bytes) where
  abbrev tested_commit : String
  tested_commit = variable host "MVS01_TESTED_COMMIT" (variable host "GITHUB_SHA" "unknown")

  abbrev authoritative_head : String
  authoritative_head = variable host "MVS01_AUTHORITATIVE_BRANCH_HEAD" tested_commit

  abbrev relationship : String
  relationship = variable host "MVS01_COMMIT_RELATIONSHIP" (
      if str_eq tested_commit authoritative_head
      then "same_commit"
      else "different_unverified_head")

  abbrev merge_ref_parents : Json
  merge_ref_parents = arr (
      to_items (
        filled_texts (
          variable host "MVS01_MERGE_REF_PARENT_1" ""
          ∷ variable host "MVS01_MERGE_REF_PARENT_2" ""
          ∷ [])))

  -- The dict "source".
  abbrev pub source : Fields
  source = to_fields (
      ("repository", str (variable host "GITHUB_REPOSITORY" "local-workspace"))
      ∷ ("event", str (variable host "GITHUB_EVENT_NAME" "local"))
      ∷ ("sourceRef", str (variable host "GITHUB_REF" "unknown"))
      ∷ ("testedCommit", str tested_commit)
      ∷ ("testedTree", str (variable host "MVS01_TESTED_TREE_SHA" "unknown"))
      ∷ ("authoritativeBranch", str (variable host "MVS01_AUTHORITATIVE_BRANCH" "local"))
      ∷ ("authoritativeBranchHead", str authoritative_head)
      ∷ ("baseCommit", str (variable host "MVS01_BASE_SHA" "unknown"))
      ∷ ("commitRelationship", str relationship)
      ∷ (
        "authoritativeHeadIncluded",
        bool (
            str_eq (host.lower (variable host "MVS01_AUTHORITATIVE_HEAD_INCLUDED" "false")) "true"),
      )
      ∷ ("mergeRefParents", merge_ref_parents)
      ∷ ("workflowName", str (variable host "GITHUB_WORKFLOW" "local"))
      ∷ ("workflowRef", str (variable host "GITHUB_WORKFLOW_REF" "local"))
      ∷ ("runId", str (variable host "GITHUB_RUN_ID" "unknown"))
      ∷ ("runAttempt", str (variable host "GITHUB_RUN_ATTEMPT" "unknown"))
      ∷ ("jobName", str (variable host "MVS01_JOB_NAME" "local"))
      ∷ [])

  unfoldable pub build_evidence : Arguments → Bytes → Result GateEvidence
  unfolding parse_suites acceptance_status gate_evidence build_of suite_totals
  build_evidence args log_bytes =
      let log_text = host.decode log_bytes in
      let results = parse_suites p log_text in
      do
        verdict ← acceptance_status (run_of args) results (build_of p log_text)
        totals ← suite_totals suites results
        ok (gate_evidence host stage source (some totals) args log_bytes results verdict)

  unfoldable pub main : Arguments → Result Outcome
  unfolding run_writer build_evidence document_text write_summary
  main args = run_writer host build_evidence (document_text p) write_summary args
