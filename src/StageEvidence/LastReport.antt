-- ===== src/StageEvidence/LastReport.antt =====
-- What a log says of a suite, when the log is read from its end: the lines stand with the last one
-- first. A section of a suite begins with the suite's heading, and ends with the next heading of any
-- suite or with the next result line.
pub mod Headings
pub mod Agreement
pub mod Lines
pub mod Reading
use Prim.Native.Char.{Char, code}
use Prim.Native.String.{String, [], ◌∷◌}
use toi_no_mori_mvs.Common.{
  [], Bool, Bool-cases, List, Option, any, arith, false, inl, inr, none, refl, some, str_eq, true,
}
use toi_no_mori_mvs.Common.{ℕ, ◌++◌, ◌==◌, ◌∷◌, ◌≡◌, ◌⊎◌}
use toi_no_mori_mvs.Python.Matching.{after}
use toi_no_mori_mvs.Python.Platform.{Platform}
use toi_no_mori_mvs.StageEvidence.Patterns.{result_line, test_line, verdict}
use toi_no_mori_mvs.StageEvidence.Suites.{SuiteContract}

-- The line is the heading of some suite.
pub is_heading : List SuiteContract → String → Bool
is_heading suites line = any (λ suite. str_eq line suite.heading) suites

-- Whether a section is open behind a line, from whether one was open in front of it.
abbrev pub section_step : (is_own is_any : Bool) → Option (ℕ × ℕ × ℕ) → (open_before : Bool) → Bool
section_step is_own true result open_before = is_own
section_step is_own false (some counts) open_before = false
section_step is_own false none open_before = open_before

-- The counts of the last result, from those of the lines before.
abbrev pub report_step :
    (open_before is_any : Bool) → (result before : Option (ℕ × ℕ × ℕ)) → Option (ℕ × ℕ × ℕ)
report_step false is_any result before = before
report_step true true result before = before
report_step true false none before = before
report_step true false (some counts) before = some counts

-- One more test with a verdict, where that verdict is wanted.
abbrev pub note : (wanted : Bool) → Option (Bool × String) → List String → List String
note wanted none ids = ids
note true (some (true, id)) ids = ids ++ (id ∷ [])
note true (some (false, id)) ids = ids
note false (some (true, id)) ids = ids
note false (some (false, id)) ids = ids ++ (id ∷ [])

abbrev pub note_step :
    (wanted open_before is_any : Bool) → Option (Bool × String) → List String → List String
note_step wanted false is_any test before = before
note_step wanted true true test before = before
note_step wanted true false test before = note wanted test before

module _ (p : Platform) (suites : List SuiteContract) (heading : String) where
  -- The lines end inside a section of the suite with this heading.
  pub in_section : List String → Bool
  in_section [] = false
  in_section (line ∷ earlier) =
      section_step (str_eq line heading) (is_heading suites line) (result_line p line)
        (in_section earlier)

  -- The counts of the last result line in a section of the suite.
  pub last_report : List String → Option (ℕ × ℕ × ℕ)
  last_report [] = none
  last_report (line ∷ earlier) =
      report_step (in_section earlier) (is_heading suites line) (result_line p line)
        (last_report earlier)

  -- The tests in all sections of the suite that have a verdict, in the order of the log.
  pub tests_of : (wanted : Bool) → List String → List String
  tests_of wanted [] = []
  tests_of wanted (line ∷ earlier) =
      note_step wanted (in_section earlier) (is_heading suites line) (test_line p line)
        (tests_of wanted earlier)

after-other :
    (a c : Char) (fixed s : String) → (code a == code c) ≡ false → after (a ∷ fixed) (c ∷ s) ≡ none
unfolding after
after-other a c fixed s h = rw (after, h) refl

result_line-other :
    (p : Platform) (line : String) → after "# result: " line ≡ none → result_line p line ≡ none
unfolding result_line
result_line-other p line h = rw (result_line, h) refl

test_line-other :
    (p : Platform) (line : String)
    → after "ok" line ≡ none
    → after "not ok" line ≡ none
    → test_line p line ≡ none
unfolding test_line
test_line-other p line h k = rw (test_line, verdict, h, k) refl

-- No line is both a test and a result: a result begins with "#".
pub test_or_result :
    (p : Platform) (line : String) → (test_line p line ≡ none) ⊎ (result_line p line ≡ none)
unfolding after
test_or_result p [] = inl (test_line-other p "" refl refl)
test_or_result p (c ∷ s) = elim (Bool-cases (b'#' == code c)) [
  | inl same ↦
      let no_ok : (b'o' == code c) ≡ false = ground arith in
      let no_not : (b'n' == code c) ≡ false = ground arith in
      inl (
        test_line-other p (c ∷ s) (after-other "o" c "k" s no_ok)
          (after-other "n" c "ot ok" s no_not))
  | inr other ↦ inr (result_line-other p (c ∷ s) (after-other "#" c " result: " s other))
]
