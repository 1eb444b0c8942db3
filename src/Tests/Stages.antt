-- ===== src/Tests/Stages.antt =====
-- Runs of the writers, for the stage 6R-11 in full and for the gates of the earlier stages.
use Prim.Native.String.{String}
use toi_no_mori_mvs.StageEvidence.Stage6r5
use toi_no_mori_mvs.StageEvidence.Stage6r6
use toi_no_mori_mvs.StageEvidence.Stage6r7
use toi_no_mori_mvs.StageEvidence.Stage6r8
use toi_no_mori_mvs.StageEvidence.Stage6r9
use toi_no_mori_mvs.StageEvidence.Stage6r10
use toi_no_mori_mvs.StageEvidence.Stage6r11
use toi_no_mori_mvs.Common.{
  List, [], ap, arith, false, if◌then◌else◌, inl, leb, none, refl, some, str_eq,
}
use toi_no_mori_mvs.Common.{true, ℕ, ◌++◌, ◌+◌, ◌<>◌, ◌<◌, ◌↔◌, ◌∷◌, ◌≡◌, ◌≢◌}
use toi_no_mori_mvs.Python.Lines.{splitlines}
use toi_no_mori_mvs.Python.Matching.RoundTrip.{ReadsDecimal}
use toi_no_mori_mvs.Python.Numbers.{pos}
use toi_no_mori_mvs.Python.Result.{Result, err, ok}
use toi_no_mori_mvs.StageEvidence.Absent.{stage6r11_absent}
use toi_no_mori_mvs.StageEvidence.Gate.{result_at}
use toi_no_mori_mvs.StageEvidence.GreenRun.{IsGreenRun}
use toi_no_mori_mvs.StageEvidence.GreenRun.Gates.{
  Decides, acceptance_status-Decides, stage6r11_exit_iff,
}
use toi_no_mori_mvs.StageEvidence.LastReport.Agreement.{AreReported, newest_first}
use toi_no_mori_mvs.StageEvidence.LastReport.Reading.{suites_of_log-AreReported}
use toi_no_mori_mvs.StageEvidence.Patterns.{result_line, test_line}
use toi_no_mori_mvs.StageEvidence.Replay.{reported_as, result_text, test_ids}
use toi_no_mori_mvs.StageEvidence.Replay.Section.{read_lines-section}
use toi_no_mori_mvs.StageEvidence.Report.{Arguments, Host, Outcome, build_of, run_of}
use toi_no_mori_mvs.StageEvidence.Suites.{
  Progress, SuiteContract, SuiteResult, initial_results, key_of_heading, not_run, read_lines,
}
use toi_no_mori_mvs.StageEvidence.Suites.{suites_of_log}
use toi_no_mori_mvs.Tests.Services.{ascii_digit, services}

abbrev domain : SuiteContract
domain = record {
  key = "domain";
  label = "Domain";
  heading = "# ToiNoMori.Domain specification tests";
  expected = 12;
}

abbrev lines_text : List String → String
lines_text [] = ""
lines_text (line ∷ lines) = line <> ("\n" <> lines_text lines)

-- The log of a run in which every suite passed; a suite without a heading has no lines.
abbrev sections : List SuiteContract → List String
sections [] = []
sections (suite ∷ suites) =
    suite.heading
    ∷ "ok 1 - TC-ACC-MVS01-001 first"
    ∷ result_text (suite.expected, 0, suite.expected)
    ∷ sections suites

abbrev green_log : String
green_log = lines_text (
    "Build succeeded."
    ∷ "    0 Warning(s)"
    ∷ "    0 Error(s)"
    ∷ "test ID uniqueness: PASSED"
    ∷ sections Stage6r11.suites)

abbrev short_log : String
short_log = lines_text ("    0 Warning(s)" ∷ "    0 Error(s)" ∷ [])

abbrev host : Host String
host = record {
  decode = λ s. s;
  sha256_bytes = λ _. "00";
  environ = λ _. none;
  platform_text = "Linux";
  machine = "x86_64";
  lower = λ s. s;
  path_name = λ s. s;
  read_bytes = λ path. if str_eq path "green.log" then some green_log else some short_log;
}

abbrev arguments : (log : String) → Arguments
arguments log = record {
  log = log;
  json = "evidence.json";
  summary = "summary.md";
  started_at = "2026-07-01T00:00:00Z";
  finished_at = "2026-07-01T00:10:00Z";
  uid = pos 1001;
  user = "runner";
  gate_exit_code = pos 0;
  execution_mode = "native";
  dotnet_version = "10.0.100";
  postgresql_version = "17.5";
}

abbrev code_of : Result Outcome → ℕ
code_of (ok outcome) = outcome.code
code_of (err raised) = 9

green_code : code_of (Stage6r11.main services host (arguments "green.log")) ≡ 0
unfolding Stage6r11.main
green_code = refl

short_code : code_of (Stage6r11.main services host (arguments "short.log")) ≡ 1
unfolding Stage6r11.main
short_code = refl

suites_of_log-AreReported_example :
    AreReported services Stage6r11.suites
      (newest_first green_log)
      Stage6r11.suites
      (suites_of_log services Stage6r11.suites green_log)
suites_of_log-AreReported_example =
    suites_of_log-AreReported services Stage6r11.suites refl refl green_log

stage6r11_exit_iff_example :
    (outcome : Outcome) × (Stage6r11.main services host (arguments "green.log") ≡ ok outcome)
    × ((outcome.code ≡ 0) ↔ IsGreenRun services (arguments "green.log") green_log Stage6r11.suites)
stage6r11_exit_iff_example = stage6r11_exit_iff services host (arguments "green.log") green_log refl

stage6r11_absent_example :
    (outcome : Outcome) × (Stage6r11.main services host (arguments "short.log") ≡ ok outcome)
    × (outcome.code ≢ 0)
unfolding splitlines
stage6r11_absent_example =
    stage6r11_absent services host (arguments "short.log") short_log domain refl (inl refl) refl

acceptance_status-Decides_example :
    Decides services (arguments "green.log") green_log Stage6r5.suites (
      Stage6r5.acceptance_status
        (run_of (arguments "green.log"))
        (Stage6r5.parse_suites services green_log)
        (build_of services green_log))
    × Decides services (arguments "green.log") green_log Stage6r6.suites (
        Stage6r6.acceptance_status
          (run_of (arguments "green.log"))
          (Stage6r6.parse_suites services green_log)
          (build_of services green_log))
    × Decides services (arguments "green.log") green_log Stage6r7.suites (
        Stage6r7.acceptance_status
          (run_of (arguments "green.log"))
          (Stage6r7.parse_suites services green_log)
          (build_of services green_log))
    × Decides services (arguments "green.log") green_log Stage6r8.suites (
        Stage6r8.acceptance_status
          (run_of (arguments "green.log"))
          (Stage6r8.parse_suites services green_log)
          (build_of services green_log))
    × Decides services (arguments "green.log") green_log Stage6r9.suites (
        Stage6r9.acceptance_status
          (run_of (arguments "green.log"))
          (Stage6r9.parse_suites services green_log)
          (build_of services green_log))
    × Decides services (arguments "green.log") green_log Stage6r10.suites (
        Stage6r10.acceptance_status
          (run_of (arguments "green.log"))
          (Stage6r10.parse_suites services green_log)
          (build_of services green_log))
acceptance_status-Decides_example =
    acceptance_status-Decides services (arguments "green.log") green_log

reads_decimal : ReadsDecimal services
reads_decimal = record { digits = ascii_digits; space = refl }
  where
    ascii_digits : (d : ℕ) → d < 10 → ascii_digit (b'0' + d) ≡ some d
    ascii_digits d h =
        let low : leb b'0' (b'0' + d) ≡ true = ground arith in
        let high : leb (b'0' + d) b'9' ≡ true = ground arith in
        rw (low, high) (ap some (omega arith))

abbrev start : Progress
start = record { current = none; results = initial_results Stage6r11.suites }

abbrev domain_lines : List String
domain_lines = "ok 1 - TC-ACC-MVS01-001 first" ∷ "note" ∷ "not ok 2 - TC-ACC-MVS01-002 second" ∷ []

abbrev domain_before : SuiteResult
domain_before = not_run 12

read_lines-section_example :
    let next = read_lines services Stage6r11.suites start (
      "# ToiNoMori.Domain specification tests"
      ∷ (domain_lines ++ (result_text (11, 1, 12) ∷ []))) in
    (next.current ≡ none)
    × (result_at "domain" next.results ≡ (
        if str_eq "domain" "domain"
        then ok (
            reported_as 11 1 12
              (test_ids services true domain_lines)
              (test_ids services false domain_lines)
              domain_before)
        else result_at "domain" start.results))
unfolding key_of_heading result_line result_at
read_lines-section_example =
    read_lines-section services Stage6r11.suites domain domain_lines 11 1 12 start domain_before
      "domain" reads_decimal refl refl ((refl, refl), ((refl, refl), ((refl, refl), tt))) refl

section_tests :
    (test_ids services true domain_lines ≡ "TC-ACC-MVS01-001" ∷ [])
    × (test_ids services false domain_lines ≡ "TC-ACC-MVS01-002" ∷ [])
unfolding test_line
section_tests = (refl, refl)
