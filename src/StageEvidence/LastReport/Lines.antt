-- ===== src/StageEvidence/LastReport/Lines.antt =====
-- What one line of the log does to the reading of one suite, from how the line looks.
use Prim.Native.String.{String}
use toi_no_mori_mvs.Common.{
  [], Bool, Bool-cases, List, Option, ap, false, inl, inr, none, refl, some, true, ℕ, ◌++◌,
}
use toi_no_mori_mvs.Common.{◌∷◌, ◌≡◌}
use toi_no_mori_mvs.Python.Platform.{Platform}
use toi_no_mori_mvs.StageEvidence.LastReport.{in_section, is_heading, last_report, tests_of}
use toi_no_mori_mvs.StageEvidence.LastReport.Agreement.{IsReported, Shows, status-cases}
use toi_no_mori_mvs.StageEvidence.Patterns.{result_line, test_line}
use toi_no_mori_mvs.StageEvidence.Suites.{
  SuiteContract, SuiteResult, add_test, result_status, set_counts,
}

add_test-Shows :
    (expected : ℕ) (report : Option (ℕ × ℕ × ℕ)) (is_ok : Bool) (id : String) (r : SuiteResult)
    → Shows expected report r
    → Shows expected report (add_test is_ok id r)
add_test-Shows expected none true id r h = h
add_test-Shows expected none false id r h = h
add_test-Shows expected (some counts) true id r h = h
add_test-Shows expected (some counts) false id r h = h

module _ (p : Platform) (suites : List SuiteContract) where
  -- What a line does to the reading of one suite, from how it looks.
  module _ (past : List String) (line : String) (suite : SuiteContract) (r : SuiteResult) where
    pub heading_kept :
        is_heading suites line ≡ true
        → IsReported p suites past suite r
        → IsReported p suites (line ∷ past) suite r
    unfolding last_report tests_of
    heading_kept heading h = elim (Bool-cases (in_section p suites suite.heading past)) [
      | inl opened ↦ record {
        expected = h.expected;
        shows = rw (heading, opened) h.shows;
        passed_ids = rw (heading, opened) h.passed_ids;
        failed_ids = rw (heading, opened) h.failed_ids;
      }
      | inr closed ↦ record {
        expected = h.expected;
        shows = rw (heading, closed) h.shows;
        passed_ids = rw (heading, closed) h.passed_ids;
        failed_ids = rw (heading, closed) h.failed_ids;
      }
    ]

    pub outside_kept :
        in_section p suites suite.heading past ≡ false
        → IsReported p suites past suite r
        → IsReported p suites (line ∷ past) suite r
    unfolding last_report tests_of
    outside_kept closed h = record {
      expected = h.expected;
      shows = rw closed h.shows;
      passed_ids = rw closed h.passed_ids;
      failed_ids = rw closed h.failed_ids;
    }

    pub test_added :
        (is_ok : Bool) (id : String)
        → is_heading suites line ≡ false
        → test_line p line ≡ some (is_ok, id)
        → result_line p line ≡ none
        → in_section p suites suite.heading past ≡ true
        → IsReported p suites past suite r
        → IsReported p suites (line ∷ past) suite (add_test is_ok id r)
    unfolding last_report tests_of
    test_added true id plain test no_result opened h = record {
      expected = h.expected;
      shows = rw (opened, plain, no_result) (add_test-Shows suite.expected _ true id r h.shows);
      passed_ids = rw (opened, plain, test) (ap (λ ids. ids ++ (id ∷ [])) h.passed_ids);
      failed_ids = rw (opened, plain, test) h.failed_ids;
    }
    test_added false id plain test no_result opened h = record {
      expected = h.expected;
      shows = rw (opened, plain, no_result) (add_test-Shows suite.expected _ false id r h.shows);
      passed_ids = rw (opened, plain, test) h.passed_ids;
      failed_ids = rw (opened, plain, test) (ap (λ ids. ids ++ (id ∷ [])) h.failed_ids);
    }

    pub result_set :
        (passed failed total : ℕ)
        → is_heading suites line ≡ false
        → test_line p line ≡ none
        → result_line p line ≡ some (passed, failed, total)
        → in_section p suites suite.heading past ≡ true
        → IsReported p suites past suite r
        → IsReported p suites (line ∷ past) suite (set_counts (passed, failed, total) r)
    unfolding last_report tests_of
    result_set passed failed total plain no_test result opened h = record {
      expected = h.expected;
      shows =
          rw (opened, plain, result)
            (
              refl,
              refl,
              refl,
              status-cases suite.expected passed failed total _
                  (ap (λ e. result_status e passed failed total) h.expected),
            );
      passed_ids = rw (opened, plain, no_test) h.passed_ids;
      failed_ids = rw (opened, plain, no_test) h.failed_ids;
    }

    pub noise_kept :
        is_heading suites line ≡ false
        → test_line p line ≡ none
        → result_line p line ≡ none
        → IsReported p suites past suite r
        → IsReported p suites (line ∷ past) suite r
    unfolding last_report tests_of
    noise_kept plain no_test no_result h =
        elim (Bool-cases (in_section p suites suite.heading past)) [
          | inl opened ↦ record {
            expected = h.expected;
            shows = rw (opened, plain, no_result) h.shows;
            passed_ids = rw (opened, plain, no_test) h.passed_ids;
            failed_ids = rw (opened, plain, no_test) h.failed_ids;
          }
          | inr closed ↦ outside_kept closed h
        ]
