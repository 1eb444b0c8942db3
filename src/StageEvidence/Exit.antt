-- ===== src/StageEvidence/Exit.antt =====
-- The runs of the writers for the stages 6R-10 and 6R-11: they end, with an exit code that is the
-- verdict of the gate.
use Prim.Native.String.{String}
use toi_no_mori_mvs.StageEvidence.Stage6r11
use toi_no_mori_mvs.Common.{
  [], Bool, List, arith, false, if◌then◌else◌, length, refl, some, sym, true,
}
use toi_no_mori_mvs.Common.{◌++◌, ◌↔◌, ◌∙◌, ◌∷◌, ◌≡◌}
use toi_no_mori_mvs.Python.Platform.{Platform}
use toi_no_mori_mvs.Python.Result.{>>=-eq-ok, Result, Returns, Returns-ok, ok}
use toi_no_mori_mvs.StageEvidence.Accepted.{Accepts}
use toi_no_mori_mvs.StageEvidence.Consistent.{suites_of_log-AreOf}
use toi_no_mori_mvs.StageEvidence.Gate.{
  Build, Run, build_checks, exit_check, result_at, run_checks, suite_rows,
}
use toi_no_mori_mvs.StageEvidence.Gate.Totals.{SuiteTotals, total_checks, totals_of}
use toi_no_mori_mvs.StageEvidence.Lookup.{suite_rows-values, values}
use toi_no_mori_mvs.StageEvidence.Report.{
  Arguments, GateEvidence, Host, Outcome, build_of, exit_code, gate_evidence,
}
use toi_no_mori_mvs.StageEvidence.Report.{run_of, run_writer}
use toi_no_mori_mvs.StageEvidence.Report.Document.{document_text}
use toi_no_mori_mvs.StageEvidence.Report.Summary.{
  build_rows, check_at, check_row, runner_rows, suite_row, suite_rows_text,
}
use toi_no_mori_mvs.StageEvidence.Report.Summary.{summary_text}
use toi_no_mori_mvs.StageEvidence.Suites.{Results, SuiteContract, SuiteResult, suites_of_log}
use toi_no_mori_mvs.StageEvidence.Verdict.{
  status_by_totals-ok, suite_totals-ok, total_verdict, total_verdict_iff,
}

suite_rows_text-ok :
    (suites : List SuiteContract) (results : Results) (rs : List SuiteResult)
    → suite_rows suites results ≡ ok rs
    → (texts : List String) × (suite_rows_text suites results ≡ ok texts)
unfolding suite_rows suite_rows_text
suite_rows_text-ok [] results rs h = ([], refl)
suite_rows_text-ok (suite ∷ suites) results rs h =
    let (r, found, next) = >>=-eq-ok (result_at suite.key results) _ h in
    let (rest, rows, _) = >>=-eq-ok (suite_rows suites results) _ next in
    let (texts, later) = suite_rows_text-ok suites results rest rows in
    (suite_row suite r ∷ texts, rw (found, later) refl)

exit_code-accepted :
    (evidence : GateEvidence) (b : Bool)
    → evidence.status ≡ (if b then "accepted" else "rejected")
    → (exit_code evidence ≡ 0) ↔ (b ≡ true)
exit_code-accepted evidence true h = (λ _. refl, λ _. rw h refl)
exit_code-accepted evidence false h =
    let code : exit_code evidence ≡ 1 = rw h refl in (λ k. absurd (omega arith), λ k. cc)

run_writer-ok :
    {Bytes : Type 0} (host : Host Bytes) (build_evidence : Arguments → Bytes → Result GateEvidence)
    (document : GateEvidence → String) (write_summary : GateEvidence → Result String)
    (args : Arguments) (log_bytes : Bytes) (evidence : GateEvidence)
    → host.read_bytes args.log ≡ some log_bytes
    → build_evidence args log_bytes ≡ ok evidence
    → Returns (write_summary evidence)
    → (outcome : Outcome) × (run_writer host build_evidence document write_summary args
        ≡ ok outcome)
      × (outcome.code ≡ exit_code evidence)
unfolding run_writer
run_writer-ok host build_evidence document write_summary args log_bytes evidence read built
      written =
    let (summary, wrote) = Returns-ok (write_summary evidence) written in
    (
      record {
        files = (args.json, document evidence) ∷ (args.summary, summary) ∷ [];
        code = exit_code evidence;
      },
      rw (run_writer, read, built, wrote) refl,
      refl,
    )

module _ {Bytes : Type 0} (p : Platform) (host : Host Bytes) where
  write_summary-Returns :
      (run : Run) (build : Build) (totals : SuiteTotals) (rs : List SuiteResult)
      (evidence : GateEvidence)
      → evidence.totals ≡ some totals
      → evidence.acceptance ≡ (
          run_checks run
          ++ build_checks build
          ++ total_checks Stage6r11.suites totals rs
          ++ exit_check run)
      → suite_rows Stage6r11.suites evidence.suites ≡ ok rs
      → Returns (Stage6r11.write_summary evidence)
  unfolding Stage6r11.write_summary summary_text Stage6r11.check_rows Stage6r11.native_row check_row
      check_at build_rows runner_rows
  write_summary-Returns run build totals rs evidence a b found =
      let (texts, written) = suite_rows_text-ok Stage6r11.suites evidence.suites rs found in
      rw (written, a, b) tt

  -- The exit code of the writer for the stage 6R-11, by the results that it has parsed.
  pub stage6r11_exit-Accepts :
      (args : Arguments) (log_bytes : Bytes)
      → host.read_bytes args.log ≡ some log_bytes
      → (outcome : Outcome) × (Stage6r11.main p host args ≡ ok outcome)
        × ((outcome.code ≡ 0)
            ↔ Accepts
                (run_of args)
                (build_of p (host.decode log_bytes))
                Stage6r11.suites
                (Stage6r11.parse_suites p (host.decode log_bytes)))
  unfolding Stage6r11.main Stage6r11.build_evidence Stage6r11.acceptance_status gate_evidence
      Stage6r11.parse_suites
  stage6r11_exit-Accepts args log_bytes read =
      let log_text = host.decode log_bytes in
      let run = run_of args in
      let build = build_of p log_text in
      let suites = Stage6r11.suites in
      let results = suites_of_log p suites log_text in
      let rs = values results in
      let are_of = suites_of_log-AreOf p suites log_text in
      let found = suite_rows-values suites results refl are_of in
      let verdict = total_verdict suites refl run results build in
      let totals = totals_of (length suites) rs in
      let evidence =
        gate_evidence host Stage6r11.stage (Stage6r11.source p host) (some totals) args log_bytes
          results verdict in
      let built : Stage6r11.build_evidence p host args log_bytes ≡ ok evidence =
        rw
          (
            status_by_totals-ok suites refl run results build are_of,
            suite_totals-ok suites refl results are_of,
          )
          refl in
      let (outcome, ended, code) =
        run_writer-ok host (Stage6r11.build_evidence p host) (document_text p)
          Stage6r11.write_summary args log_bytes evidence read built
          (write_summary-Returns run build totals rs evidence refl refl found) in
      let (to, from) = exit_code-accepted evidence verdict.0 refl in
      let (accepts, accepted) = total_verdict_iff suites refl run results build are_of in
      (outcome, ended, (λ h. accepts (to (sym code ∙ h)), λ a. code ∙ from (accepted a)))
