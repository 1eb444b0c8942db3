-- ===== src/StageEvidence/GreenRun/Gates.antt =====
-- The verdicts of the gates of the stages 6R-5 to 6R-10, and the exit code of the stage 6R-11.
use Prim.Native.String.{String}
use toi_no_mori_mvs.StageEvidence.Stage6r5
use toi_no_mori_mvs.StageEvidence.Stage6r6
use toi_no_mori_mvs.StageEvidence.Stage6r7
use toi_no_mori_mvs.StageEvidence.Stage6r8
use toi_no_mori_mvs.StageEvidence.Stage6r9
use toi_no_mori_mvs.StageEvidence.Stage6r10
use toi_no_mori_mvs.StageEvidence.Stage6r11
use toi_no_mori_mvs.Common.{[], Bool, List, all, all_distinct}
use toi_no_mori_mvs.Common.{refl, some, true, ◌↔◌, ◌≡◌}
use toi_no_mori_mvs.Python.Platform.{Platform}
use toi_no_mori_mvs.Python.Result.{Result, ok}
use toi_no_mori_mvs.StageEvidence.Consistent.{suites_of_log-AreOf}
use toi_no_mori_mvs.StageEvidence.Exit.{stage6r11_exit-Accepts}
use toi_no_mori_mvs.StageEvidence.Gate.{Checks, is_passed, native_total, status_by_suite}
use toi_no_mori_mvs.StageEvidence.Gate.Totals.{status_by_totals}
use toi_no_mori_mvs.StageEvidence.GreenRun.{Accepts-iff, IsGreenRun}
use toi_no_mori_mvs.StageEvidence.LastReport.Headings.{headings_of}
use toi_no_mori_mvs.StageEvidence.Lookup.{keys_of}
use toi_no_mori_mvs.StageEvidence.Report.{Arguments, Host, Outcome, build_of, run_of}
use toi_no_mori_mvs.StageEvidence.Suites.{SuiteContract, SuiteResult, suites_of_log}
use toi_no_mori_mvs.StageEvidence.Verdict.{
  native_total-follows, status_by_suite-Accepts, status_by_totals-ok, total_verdict,
  total_verdict_iff,
}

module _ (p : Platform) (args : Arguments) (log_text : String) where
  -- A call of `acceptance_status` returns, and accepts exactly the green runs.
  abbrev pub Decides : List SuiteContract → Result (Bool × Checks) → Type 0
  Decides suites call =
      (verdict : Bool × Checks) × (call ≡ ok verdict)
      × ((verdict.0 ≡ true) ↔ IsGreenRun p args log_text suites)

  status_by_suite-Decides :
      (suites : List SuiteContract) (added : List SuiteResult → Checks)
      → all_distinct (keys_of suites) ≡ true
      → all_distinct (headings_of suites) ≡ true
      → ((rs : List SuiteResult)
          → all is_passed rs ≡ true
          → all (λ check. check.1) (added rs) ≡ true)
      → Decides suites (
          status_by_suite suites added
            (run_of args)
            (suites_of_log p suites log_text)
            (build_of p log_text))
  status_by_suite-Decides suites added keys headings follows =
      let (verdict, returned, (to, from)) =
        status_by_suite-Accepts suites keys added follows (run_of args)
          (suites_of_log p suites log_text) (build_of p log_text)
          (suites_of_log-AreOf p suites log_text) in
      let (green_to, green_from) = Accepts-iff p args log_text suites keys headings in
      (verdict, returned, (λ h. green_to (to h), λ h. from (green_from h)))

  status_by_totals-Decides :
      (suites : List SuiteContract)
      → all_distinct (keys_of suites) ≡ true
      → all_distinct (headings_of suites) ≡ true
      → Decides suites (
          status_by_totals suites
            (run_of args)
            (suites_of_log p suites log_text)
            (build_of p log_text))
  status_by_totals-Decides suites keys headings =
      let results = suites_of_log p suites log_text in
      let are_of = suites_of_log-AreOf p suites log_text in
      let (to, from) =
        total_verdict_iff suites keys (run_of args) results (build_of p log_text) are_of in
      let (green_to, green_from) = Accepts-iff p args log_text suites keys headings in
      (
        total_verdict suites keys (run_of args) results (build_of p log_text),
        status_by_totals-ok suites keys (run_of args) results (build_of p log_text) are_of,
        (λ h. green_to (to h), λ h. from (green_from h)),
      )

  -- Whatever the arguments and the log, `acceptance_status` of each of the stages 6R-5 to 6R-10, on
  -- the results that the stage's own `parse_suites` reads from the log, returns, and it accepts
  -- exactly where the run was not root's, native, and ended with 0, and the log holds "test ID
  -- uniqueness: PASSED", has a line that counts 0 warnings and one that counts 0 errors, no line that
  -- counts another number of either, and for each suite of the stage a result line in a section of
  -- the suite, the last of which says that the expected number of tests ran and passed and 0 failed.
  pub acceptance_status-Decides :
      Decides Stage6r5.suites (
        Stage6r5.acceptance_status
          (run_of args)
          (Stage6r5.parse_suites p log_text)
          (build_of p log_text))
      × Decides Stage6r6.suites (
          Stage6r6.acceptance_status
            (run_of args)
            (Stage6r6.parse_suites p log_text)
            (build_of p log_text))
      × Decides Stage6r7.suites (
          Stage6r7.acceptance_status
            (run_of args)
            (Stage6r7.parse_suites p log_text)
            (build_of p log_text))
      × Decides Stage6r8.suites (
          Stage6r8.acceptance_status
            (run_of args)
            (Stage6r8.parse_suites p log_text)
            (build_of p log_text))
      × Decides Stage6r9.suites (
          Stage6r9.acceptance_status
            (run_of args)
            (Stage6r9.parse_suites p log_text)
            (build_of p log_text))
      × Decides Stage6r10.suites (
          Stage6r10.acceptance_status
            (run_of args)
            (Stage6r10.parse_suites p log_text)
            (build_of p log_text))
  unfolding Stage6r5.acceptance_status Stage6r6.acceptance_status Stage6r7.acceptance_status
      Stage6r8.acceptance_status Stage6r9.acceptance_status Stage6r10.acceptance_status
      Stage6r5.parse_suites Stage6r6.parse_suites Stage6r7.parse_suites Stage6r8.parse_suites
      Stage6r9.parse_suites Stage6r10.parse_suites
  acceptance_status-Decides = (
    status_by_suite-Decides Stage6r5.suites (λ rs. []) refl refl (λ rs green. refl),
    status_by_suite-Decides Stage6r6.suites (native_total "nativeTotal80Of80" 80 Stage6r6.suites)
        refl refl
        (λ rs green. native_total-follows "nativeTotal80Of80" 80 Stage6r6.suites rs refl green),
    status_by_suite-Decides Stage6r7.suites (native_total "nativeTotal81Of81" 81 Stage6r7.suites)
        refl refl
        (λ rs green. native_total-follows "nativeTotal81Of81" 81 Stage6r7.suites rs refl green),
    status_by_suite-Decides Stage6r8.suites (native_total "nativeTotal83Of83" 83 Stage6r8.suites)
        refl refl
        (λ rs green. native_total-follows "nativeTotal83Of83" 83 Stage6r8.suites rs refl green),
    status_by_suite-Decides Stage6r9.suites (native_total "nativeTotal84Of84" 84 Stage6r9.suites)
        refl refl
        (λ rs green. native_total-follows "nativeTotal84Of84" 84 Stage6r9.suites rs refl green),
    status_by_totals-Decides Stage6r10.suites refl refl,
  )

-- Wherever the log can be read, the writer for the stage 6R-11 ends, and it exits with 0 exactly when
-- the run was not root's, native, and ended with 0, and the log holds "test ID uniqueness: PASSED", has
-- a line that counts 0 warnings and one that counts 0 errors, no line that counts another number of
-- either, and for each of the seven suites a result line in a section of the suite, the last of which
-- says that the expected number of tests ran and passed and 0 failed. Lines of single tests, also
-- those that say "not ok", do not enter.
pub stage6r11_exit_iff :
    {Bytes : Type 0} (p : Platform) (host : Host Bytes) (args : Arguments) (log_bytes : Bytes)
    → host.read_bytes args.log ≡ some log_bytes
    → (outcome : Outcome) × (Stage6r11.main p host args ≡ ok outcome)
      × ((outcome.code ≡ 0) ↔ IsGreenRun p args (host.decode log_bytes) Stage6r11.suites)
unfolding Stage6r11.parse_suites
stage6r11_exit_iff p host args log_bytes read =
    let (outcome, ended, (to, from)) = stage6r11_exit-Accepts p host args log_bytes read in
    let (green_to, green_from) =
      Accepts-iff p args (host.decode log_bytes) Stage6r11.suites refl refl in
    (outcome, ended, (λ h. green_to (to h), λ h. from (green_from h)))
