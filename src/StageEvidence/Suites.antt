-- ===== src/StageEvidence/Suites.antt =====
-- `SuiteContract` and `parse_suites` of scripts/ci/write-stage6r*-evidence.py: `suites_of_log` is
-- `parse_suites` for any tuple of suites.
use Prim.Native.String.{String}
use toi_no_mori_mvs.Common.{
  [], Bool, List, Option, false, if◌then◌else◌, none, some, str_eq, true, ℕ,
}
use toi_no_mori_mvs.Common.{◌&&◌, ◌++◌, ◌==◌, ◌∷◌}
use toi_no_mori_mvs.Python.Lines.{splitlines}
use toi_no_mori_mvs.Python.Platform.{Platform}
use toi_no_mori_mvs.StageEvidence.Patterns.{result_line, test_line}

-- A suite of tests that a stage registers, with the number of its tests.
pub record SuiteContract : Type 0 where
  pub key : String
  pub label : String
  pub heading : String
  pub expected : ℕ

-- What the log says of a suite.
pub record SuiteResult : Type 0 where
  pub expected : ℕ
  pub passed : Option ℕ
  pub failed : Option ℕ
  pub total : Option ℕ
  pub passed_test_ids : List String
  pub failed_test_ids : List String
  pub status : String

-- The dict of suites, by their keys in the order of the contracts; the keys differ.
abbrev pub Results : Type 0
Results = List (String × SuiteResult)

abbrev pub not_run : ℕ → SuiteResult
not_run expected = record {
  expected = expected;
  passed = none;
  failed = none;
  total = none;
  passed_test_ids = [];
  failed_test_ids = [];
  status = "not-run";
}

abbrev pub initial_results : List SuiteContract → Results
initial_results [] = []
initial_results (suite ∷ suites) = (suite.key, not_run suite.expected) ∷ initial_results suites

-- `headings[line]`, or none where `line in headings` fails; the headings differ.
unfoldable pub key_of_heading : List SuiteContract → String → Option String
key_of_heading [] line = none
key_of_heading (suite ∷ suites) line =
    let rest = key_of_heading suites line in
    if str_eq line suite.heading then some suite.key else rest

-- A change of `results[key]`.
abbrev pub change : String → (SuiteResult → SuiteResult) → Results → Results
change key f [] = []
change key f ((k, r) ∷ results) =
    let rest = change key f results in if str_eq key k then (k, f r) ∷ results else (k, r) ∷ rest

-- `results[current][collection].append(id)`
abbrev pub add_test : (is_ok : Bool) (id : String) → SuiteResult → SuiteResult
add_test true id r = record r { passed_test_ids = r.passed_test_ids ++ (id ∷ []) }
add_test false id r = record r { failed_test_ids = r.failed_test_ids ++ (id ∷ []) }

abbrev pub result_status : (expected passed failed total : ℕ) → String
result_status expected passed failed total =
    if (passed == expected) && (failed == 0) && (total == expected) then "passed" else "failed"

-- `results[current].update(...)`
abbrev pub set_counts : (counts : ℕ × ℕ × ℕ) → SuiteResult → SuiteResult
set_counts (passed, failed, total) r = record r {
  passed = some passed;
  failed = some failed;
  total = some total;
  status = result_status (r.expected) passed failed total;
}

-- The results so far, and the suite whose lines are being read.
pub record Progress : Type 0 where
  pub current : Option String
  pub results : Results

module _ (p : Platform) (suites : List SuiteContract) where
  -- A line inside the section of a suite.
  unfoldable pub suite_line : String → Results → String → Progress
  unfolding test_line result_line
  suite_line key results line = elim (test_line p line) [
    | some (is_ok, id) ↦ record {
      current = some key;
      results = change key (add_test is_ok id) results;
    }
    | none ↦ elim (result_line p line) [
      | some counts ↦ record { current = none; results = change key (set_counts counts) results }
      | none ↦ record { current = some key; results = results }
    ]
  ]

  -- The body of the loop.
  unfoldable pub read_line : Progress → String → Progress
  unfolding suite_line key_of_heading
  read_line progress line = elim (key_of_heading suites line) [
    | some key ↦ record { current = some key; results = progress.results }
    | none ↦ elim (progress.current) [
      | none ↦ progress
      | some key ↦ suite_line key (progress.results) line
    ]
  ]

  unfoldable pub read_lines : Progress → List String → Progress
  unfolding read_line
  read_lines progress [] = progress
  read_lines progress (line ∷ lines) = read_lines (read_line progress line) lines

  unfoldable pub suites_of_log : String → Results
  unfolding read_lines splitlines
  suites_of_log log_text =
      (read_lines (record { current = none; results = initial_results suites })
        (splitlines log_text)).results
