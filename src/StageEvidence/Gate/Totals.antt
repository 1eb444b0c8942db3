-- ===== src/StageEvidence/Gate/Totals.antt =====
-- `suite_totals` and `acceptance_status` of scripts/ci/write-stage6r10-evidence.py and
-- scripts/ci/write-stage6r11-evidence.py.
use toi_no_mori_mvs.Common.{
  [], Bool, List, Option, all, false, length, none, some, true, ℕ, ◌&&◌, ◌++◌,
}
use toi_no_mori_mvs.Common.{◌+◌, ◌==◌, ◌∷◌}
use toi_no_mori_mvs.Python.Result.{◌>>=◌, Result, ok}
use toi_no_mori_mvs.StageEvidence.Gate.{
  Build, Checks, Run, build_checks, exit_check, is_passed, run_checks, suite_rows,
}
use toi_no_mori_mvs.StageEvidence.Gate.{with_verdict}
use toi_no_mori_mvs.StageEvidence.Suites.{Results, SuiteContract, SuiteResult}

pub record SuiteTotals : Type 0 where
  pub registered_suite_count : ℕ
  pub expected_total : ℕ
  pub passed_total : ℕ
  pub failed_total : ℕ
  pub executed_total : ℕ
  pub registered_suites_complete : Bool
  pub totals_match : Bool

-- `int(n or 0)`
abbrev pub or_zero : Option ℕ → ℕ
or_zero none = 0
or_zero (some n) = n

abbrev pub sum_of : (SuiteResult → ℕ) → List SuiteResult → ℕ
sum_of count [] = 0
sum_of count (r ∷ rs) = count r + sum_of count rs

abbrev pub is_counted : SuiteResult → Bool
is_counted r = elim (r.total) [ none ↦ false | some n ↦ true ]

abbrev pub totals_of : (count : ℕ) → List SuiteResult → SuiteTotals
totals_of count rs =
    let expected = sum_of (λ r. r.expected) rs in
    let passed = sum_of (λ r. or_zero (r.passed)) rs in
    let failed = sum_of (λ r. or_zero (r.failed)) rs in
    let executed = sum_of (λ r. or_zero (r.total)) rs in
    let complete = all is_counted rs in
    record {
      registered_suite_count = count;
      expected_total = expected;
      passed_total = passed;
      failed_total = failed;
      executed_total = executed;
      registered_suites_complete = complete;
      totals_match = complete && (passed == expected) && (failed == 0) && (executed == expected);
    }

module _ (suites : List SuiteContract) where
  unfoldable pub suite_totals : Results → Result SuiteTotals
  unfolding suite_rows
  suite_totals results = do rs ← suite_rows suites results; ok (totals_of (length suites) rs)

  abbrev pub total_checks : SuiteTotals → List SuiteResult → Checks
  total_checks totals rs =
      ("registeredSuitesComplete", totals.registered_suites_complete)
      ∷ ("totalsMatch", totals.totals_match)
      ∷ ("allSuitesGreen", all is_passed rs)
      ∷ []

  -- `acceptance_status` of the writers for the stages 6R-10 and 6R-11.
  unfoldable pub status_by_totals : Run → Results → Build → Result (Bool × Checks)
  unfolding suite_rows suite_totals
  status_by_totals run results build = do
    totals ← suite_totals results
    rs ← suite_rows suites results
    ok (
        with_verdict
          (run_checks run ++ build_checks build ++ total_checks totals rs ++ exit_check run))
