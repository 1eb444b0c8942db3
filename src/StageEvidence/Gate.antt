-- ===== src/StageEvidence/Gate.antt =====
-- What `acceptance_status` of scripts/ci/write-stage6r*-evidence.py is made of.
pub mod Totals
use Prim.Native.String.{String}
use toi_no_mori_mvs.Common.{
  [], Bool, List, all, if◌then◌else◌, not, str_eq, ℕ, ◌&&◌, ◌++◌, ◌+◌, ◌<>◌,
}
use toi_no_mori_mvs.Common.{◌==◌, ◌∷◌}
use toi_no_mori_mvs.Controller.Schema.Definition.{check}
use toi_no_mori_mvs.Python.Canonical.{decimal}
use toi_no_mori_mvs.Python.Numbers.{int_eq, pos, ℤ}
use toi_no_mori_mvs.Python.Result.{◌>>=◌, ◌>>◌, Result, err, key_error, ok}
use toi_no_mori_mvs.StageEvidence.Suites.{Results, SuiteContract, SuiteResult}

-- `suites[key]`
unfoldable pub result_at : String → Results → Result SuiteResult
result_at key [] = err key_error
result_at key ((k, r) ∷ results) =
    let rest = result_at key results in if str_eq key k then ok r else rest

-- `[suites[suite.key] for suite in SUITES]`
unfoldable pub suite_rows : List SuiteContract → Results → Result (List SuiteResult)
unfolding result_at
suite_rows [] results = ok []
suite_rows (suite ∷ suites) results = do
  r ← result_at suite.key results
  rs ← suite_rows suites results
  ok (r ∷ rs)

-- `suites[suite.key]["status"] == "passed"`
abbrev pub is_passed : SuiteResult → Bool
is_passed r = str_eq r.status "passed"

-- The dict of checks, in the order of the source.
abbrev pub Checks : Type 0
Checks = List (String × Bool)

-- `all(checks.values()), checks`
abbrev pub with_verdict : Checks → Bool × Checks
with_verdict checks = (all (λ check. check.1) checks, checks)

abbrev pub is_zero : ℤ → Bool
is_zero z = int_eq z (pos 0)

-- `gate_exit_code`, `uid` and `execution_mode`
pub record Run : Type 0 where
  pub gate_exit_code : ℤ
  pub uid : ℤ
  pub execution_mode : String

-- `test_ids_unique` and `build_clean`
pub record Build : Type 0 where
  pub test_ids_unique : Bool
  pub build_clean : Bool

abbrev pub run_checks : Run → Checks
run_checks run =
    ("nonRootRunner", not (is_zero run.uid))
    ∷ ("nativeExecution", str_eq run.execution_mode "native")
    ∷ []

abbrev pub build_checks : Build → Checks
build_checks build =
    ("testIdsUnique", build.test_ids_unique) ∷ ("buildClean", build.build_clean) ∷ []

abbrev pub exit_check : Run → Checks
exit_check run = ("gateExitCodeZero", is_zero run.gate_exit_code) ∷ []

-- `{f"{suite.key}{suite.expected}Of{suite.expected}": ... for suite in SUITES}`
abbrev pub suite_checks : List SuiteContract → List SuiteResult → Checks
suite_checks [] rs = []
suite_checks (suite ∷ suites) [] = []
suite_checks (suite ∷ suites) (r ∷ rs) =
    (suite.key <> (decimal suite.expected <> ("Of" <> decimal suite.expected)), is_passed r)
    ∷ suite_checks suites rs

abbrev pub expected_sum : List SuiteContract → ℕ
expected_sum [] = 0
expected_sum (suite ∷ suites) = suite.expected + expected_sum suites

-- `"nativeTotal80Of80": sum(...) == 80 and all(...)`
abbrev pub native_total : (name : String) → ℕ → List SuiteContract → List SuiteResult → Checks
native_total name total suites rs = (name, (expected_sum suites == total) && all is_passed rs) ∷ []

-- `acceptance_status` of the writers for the stages 6R-5 to 6R-9, with what a stage adds.
unfoldable pub status_by_suite :
    List SuiteContract
    → (added : List SuiteResult → Checks) → Run
    → Results
    → Build
    → Result (Bool × Checks)
unfolding suite_rows
status_by_suite suites added run results build = do
  rs ← suite_rows suites results
  ok (
      with_verdict (
        run_checks run
        ++ build_checks build
        ++ suite_checks suites rs
        ++ added rs
        ++ exit_check run))
