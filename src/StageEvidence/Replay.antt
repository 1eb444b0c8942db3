-- ===== src/StageEvidence/Replay.antt =====
-- What the test programs print is read back: a result line, and the section of a suite.
pub mod Section
use Prim.Native.String.{String, ◌∷◌}
use mathlib.Core.List.{append-nil, append_assoc}
use text.Mathlib.TextLemmas.{append_assoc as text_assoc}
use toi_no_mori_mvs.Common.{
  [], Bool, List, Option, ap, false, if◌then◌else◌, none, refl, some, sym, true, ℕ, ◌&&◌, ◌++◌,
}
use toi_no_mori_mvs.Common.{◌<>◌, ◌==◌, ◌∙◌, ◌∷◌, ◌≡◌}
use toi_no_mori_mvs.Python.Canonical.{decimal}
use toi_no_mori_mvs.Python.Matching.{read_number}
use toi_no_mori_mvs.Python.Matching.RoundTrip.{ReadsDecimal, after-append, read_number-decimal}
use toi_no_mori_mvs.Python.Platform.{Platform}
use toi_no_mori_mvs.StageEvidence.Patterns.{result_line, test_line}
use toi_no_mori_mvs.StageEvidence.Suites.{SuiteContract, SuiteResult, add_test, key_of_heading}

-- The result line of a suite, as the test programs print it.
abbrev pub result_text : (counts : ℕ × ℕ × ℕ) → String
result_text (passed, failed, total) =
    "# result: "
    <> (decimal passed
        <> (" passed; " <> (decimal failed <> (" failed; " <> (decimal total <> " total")))))

-- A line that is neither the heading of a suite nor a result.
abbrev pub IsInside : Platform → List SuiteContract → String → Type 0
IsInside p suites line = (key_of_heading suites line ≡ none) × (result_line p line ≡ none)

-- What a line inside a section records.
abbrev pub record_line : Platform → String → SuiteResult → SuiteResult
record_line p line r = elim (test_line p line) [ none ↦ r | some (is_ok, id) ↦ add_test is_ok id r ]

abbrev pub record_lines : Platform → List String → SuiteResult → SuiteResult
record_lines p [] r = r
record_lines p (line ∷ lines) r = record_lines p lines (record_line p line r)

-- The ids of the tests with a verdict, one in front of the others.
abbrev pub add_id : (wanted : Bool) → Option (Bool × String) → List String → List String
add_id wanted none ids = ids
add_id true (some (true, id)) ids = id ∷ ids
add_id true (some (false, id)) ids = ids
add_id false (some (true, id)) ids = ids
add_id false (some (false, id)) ids = id ∷ ids

abbrev pub test_ids : Platform → (wanted : Bool) → List String → List String
test_ids p wanted [] = []
test_ids p wanted (line ∷ lines) = add_id wanted (test_line p line) (test_ids p wanted lines)

-- The result of a suite with more tests.
abbrev pub with_tests : (passed failed : List String) → SuiteResult → SuiteResult
with_tests passed failed r = record r {
  passed_test_ids = r.passed_test_ids ++ passed;
  failed_test_ids = r.failed_test_ids ++ failed;
}

-- The result of a suite that printed its counts behind these tests.
abbrev pub reported_as :
    (passed failed total : ℕ) (passed_ids failed_ids : List String) → SuiteResult → SuiteResult
reported_as passed failed total passed_ids failed_ids r = record {
  expected = r.expected;
  passed = some passed;
  failed = some failed;
  total = some total;
  passed_test_ids = r.passed_test_ids ++ passed_ids;
  failed_test_ids = r.failed_test_ids ++ failed_ids;
  status =
      if (passed == r.expected) && (failed == 0) && (total == r.expected)
      then "passed"
      else "failed";
}

pub record_lines-with_tests :
    (p : Platform) (lines : List String) (r : SuiteResult)
    → record_lines p lines r ≡ with_tests (test_ids p true lines) (test_ids p false lines) r
record_lines-with_tests p [] r = λ i. record r {
  passed_test_ids = sym (append-nil r.passed_test_ids) i;
  failed_test_ids = sym (append-nil r.failed_test_ids) i;
}
record_lines-with_tests p (line ∷ lines) r =
    record_lines-with_tests p lines (record_line p line r) ∙ first (test_line p line)
  where
    first :
        (test : Option (Bool × String))
        → with_tests
            (test_ids p true lines)
            (test_ids p false lines)
            (elim test [ none ↦ r | some (is_ok, id) ↦ add_test is_ok id r ])
          ≡ with_tests
              (add_id true test (test_ids p true lines))
              (add_id false test (test_ids p false lines))
              r
    first none = refl
    first (some (true, id)) = λ i. record r {
      passed_test_ids = append_assoc r.passed_test_ids (id ∷ []) (test_ids p true lines) i;
      failed_test_ids = r.failed_test_ids ++ test_ids p false lines;
    }
    first (some (false, id)) = λ i. record r {
      passed_test_ids = r.passed_test_ids ++ test_ids p true lines;
      failed_test_ids = append_assoc r.failed_test_ids (id ∷ []) (test_ids p false lines) i;
    }

spaced : (fixed rest : String) → ((" " <> fixed) <> rest) ≡ (" " <> (fixed <> rest))
spaced fixed rest = text_assoc " " fixed rest

module _ (p : Platform) (reads : ReadsDecimal p) where
  read_number-spaced :
      (n : ℕ) (fixed rest : String)
      → read_number p (decimal n <> ((" " <> fixed) <> rest)) ≡ some (n, (" " <> fixed) <> rest)
  read_number-spaced n fixed rest =
      ap (λ s. read_number p (decimal n <> s)) (spaced fixed rest)
      ∙ read_number-decimal p reads n (fixed <> rest)
      ∙ ap (λ s. some (n, s)) (sym (spaced fixed rest))

  -- A printed result line is read back, whatever the numbers.
  pub result_line-result_text :
      (counts : ℕ × ℕ × ℕ) → result_line p (result_text counts) ≡ some counts
  unfolding result_line
  result_line-result_text (passed, failed, total) =
      rw
        (
          result_line,
          after-append "# result: " (
              decimal passed
              <> (" passed; " <> (decimal failed <> (" failed; " <> (decimal total <> " total"))))),
          read_number-spaced passed "passed; "
              (decimal failed <> (" failed; " <> (decimal total <> " total"))),
          after-append " passed; " (decimal failed <> (" failed; " <> (decimal total <> " total"))),
          read_number-spaced failed "failed; " (decimal total <> " total"),
          after-append " failed; " (decimal total <> " total"),
          read_number-decimal p reads total "total",
        )
        refl
