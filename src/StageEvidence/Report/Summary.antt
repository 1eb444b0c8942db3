-- ===== src/StageEvidence/Report/Summary.antt =====
-- What `write_summary` of scripts/ci/write-stage6r*-evidence.py is made of.
use Prim.Native.String.{String}
use toi_no_mori_mvs.Common.{
  [], Bool, List, Option, if◌then◌else◌, none, some, str_eq, ℕ, ◌++◌, ◌<>◌,
}
use toi_no_mori_mvs.Common.{◌∷◌}
use toi_no_mori_mvs.Python.Canonical.{decimal, int_text}
use toi_no_mori_mvs.Python.Pretty.{join}
use toi_no_mori_mvs.Python.Result.{◌>>=◌, Result, err, key_error, ok}
use toi_no_mori_mvs.StageEvidence.Gate.{Checks, result_at}
use toi_no_mori_mvs.StageEvidence.Gate.Totals.{or_zero}
use toi_no_mori_mvs.StageEvidence.Report.{GateEvidence}
use toi_no_mori_mvs.StageEvidence.Suites.{Results, SuiteContract, SuiteResult}

-- `checks[key]`
unfoldable pub check_at : String → Checks → Result Bool
check_at key [] = err key_error
check_at key ((k, b) ∷ checks) =
    let rest = check_at key checks in if str_eq key k then ok b else rest

-- A Boolean in an f-string.
abbrev pub bool_text : Bool → String
bool_text b = if b then "True" else "False"

-- `f"| {label} | {checks[key]} |"`
unfoldable pub check_row : (label key : String) → Checks → Result (List String)
unfolding check_at
check_row label key checks = do
  b ← check_at key checks
  ok (("| " <> (label <> (" | " <> (bool_text b <> " |")))) ∷ [])

abbrev total_text : Option ℕ → String
total_text none = "未実行"
total_text (some n) = decimal n

-- `f"| {suite.label} | {passed}/{total} ({result['status']}) |"`
abbrev pub suite_row : SuiteContract → SuiteResult → String
suite_row suite r =
    "| "
    <> (suite.label
        <> (" | "
            <> (decimal (or_zero r.passed)
                <> ("/" <> (total_text r.total <> (" (" <> (r.status <> ") |")))))))

unfoldable pub suite_rows_text : List SuiteContract → Results → Result (List String)
unfolding result_at
suite_rows_text [] results = ok []
suite_rows_text (suite ∷ suites) results = do
  r ← result_at suite.key results
  rest ← suite_rows_text suites results
  ok (suite_row suite r ∷ rest)

abbrev head_rows : (title : String) → GateEvidence → List String
head_rows title evidence =
    title ∷ "" ∷ ("判定: **" <> (evidence.status <> "**")) ∷ "" ∷ "| Gate | 結果 |" ∷ "|---|---|" ∷ []

abbrev last_rows : GateEvidence → List String
last_rows evidence =
    ("| gate終了コード | " <> (int_text evidence.gate_exit_code <> " |"))
    ∷ ""
    ∷ ("Log SHA-256: `" <> (evidence.log_sha256 <> "`"))
    ∷ ""
    ∷ []

-- The rows of the checks, one after the other.
abbrev pub then_rows : Result (List String) → Result (List String) → Result (List String)
then_rows first next = do rows ← first; more ← next; ok (rows ++ more)

-- `"| 試験ID一意性 | ... |"` and `"| Build警告0・エラー0 | ... |"`
unfoldable pub build_rows : Checks → Result (List String)
unfolding check_row
build_rows checks =
    then_rows (check_row "試験ID一意性" "testIdsUnique" checks)
      (check_row "Build警告0・エラー0" "buildClean" checks)

-- `"| 非root runner | ... |"` and `"| native実行 | ... |"`
unfoldable pub runner_rows : Checks → Result (List String)
unfolding check_row
runner_rows checks =
    then_rows (check_row "非root runner" "nonRootRunner" checks)
      (check_row "native実行" "nativeExecution" checks)

-- The text of the summary: the title, a row for each suite, the rows of the checks, and the log.
unfoldable pub summary_text :
    List SuiteContract
    → (title : String) → (checks_rows : GateEvidence → Result (List String)) → GateEvidence
    → Result String
unfolding join suite_rows_text
summary_text suites title checks_rows evidence = do
  tests ← suite_rows_text suites evidence.suites
  checked ← checks_rows evidence
  ok (join "\n" (head_rows title evidence ++ tests ++ checked ++ last_rows evidence))
