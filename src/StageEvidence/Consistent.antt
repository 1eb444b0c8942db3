-- ===== src/StageEvidence/Consistent.antt =====
-- What holds of the results of every log: they belong to the registered suites, in order, and each
-- status agrees with its counts.
use Prim.Native.String.{String}
use toi_no_mori_mvs.Common.{
  [], Bool, Bool-cases, List, Option-cases, false, inl, inr, none, refl, some,
}
use toi_no_mori_mvs.Common.{str_eq, true, ℕ, ◌∙◌, ◌∷◌, ◌≡◌, ◌⊎◌}
use toi_no_mori_mvs.Python.Lines.{splitlines}
use toi_no_mori_mvs.Python.Platform.{Platform}
use toi_no_mori_mvs.StageEvidence.Patterns.{result_line, test_line}
use toi_no_mori_mvs.StageEvidence.Suites.{
  Progress, Results, SuiteContract, SuiteResult, add_test, change, initial_results,
}
use toi_no_mori_mvs.StageEvidence.Suites.{
  key_of_heading, read_line, read_lines, result_status, set_counts, suite_line,
}
use toi_no_mori_mvs.StageEvidence.Suites.{suites_of_log}

-- A suite without a result line has no counts; with one, its status is that of its counts.
abbrev pub IsConsistent : SuiteResult → Type 0
IsConsistent r =
    ((r.passed ≡ none) × (r.failed ≡ none) × (r.total ≡ none) × (r.status ≡ "not-run"))
    ⊎ ((passed : ℕ) × (failed : ℕ) × (total : ℕ) × (r.passed ≡ some passed)
        × (r.failed ≡ some failed)
        × (r.total ≡ some total)
        × (r.status ≡ result_status (r.expected) passed failed total))

-- The results of the suites, in their order.
abbrev pub AreOf : List SuiteContract → Results → Type 0
AreOf [] [] = Unit
AreOf [] (item ∷ results) = ⊥
AreOf (suite ∷ suites) [] = ⊥
AreOf (suite ∷ suites) ((k, r) ∷ results) =
    (k ≡ suite.key) × (r.expected ≡ suite.expected) × IsConsistent r × AreOf suites results

initial_results-AreOf : (suites : List SuiteContract) → AreOf suites (initial_results suites)
initial_results-AreOf [] = tt
initial_results-AreOf (suite ∷ suites) =
    (refl, refl, inl (refl, refl, refl, refl), initial_results-AreOf suites)

-- A change of a result that keeps what is expected and stays consistent.
abbrev IsKept : (SuiteResult → SuiteResult) → Type 0
IsKept f = (r : SuiteResult) → ((f r).expected ≡ r.expected) × (IsConsistent r → IsConsistent (f r))

change-AreOf :
    (key : String) (f : SuiteResult → SuiteResult)
    → IsKept f
    → (suites : List SuiteContract) (results : Results) → AreOf suites results
    → AreOf suites (change key f results)
change-AreOf key f kept [] [] h = tt
change-AreOf key f kept [] (item ∷ results) h = elim h [ ]
change-AreOf key f kept (suite ∷ suites) [] h = elim h [ ]
change-AreOf key f kept (suite ∷ suites) ((k, r) ∷ results) (same, expected, consistent, h) =
    elim (Bool-cases (str_eq key k)) [
      | inl here ↦ rw here (same, (kept r).0 ∙ expected, (kept r).1 consistent, h)
      | inr other ↦ rw other (same, expected, consistent, change-AreOf key f kept suites results h)
    ]

add_test-IsKept : (is_ok : Bool) (id : String) → IsKept (add_test is_ok id)
add_test-IsKept true id r = (refl, λ h. h)
add_test-IsKept false id r = (refl, λ h. h)

set_counts-IsKept : (counts : ℕ × ℕ × ℕ) → IsKept (set_counts counts)
set_counts-IsKept (passed, failed, total) r =
    (refl, λ h. inr (passed, failed, total, refl, refl, refl, refl))

module _ (p : Platform) (suites : List SuiteContract) where
  suite_line-AreOf :
      (key : String) (results : Results) (line : String)
      → AreOf suites results
      → AreOf suites ((suite_line p suites key results line).results)
  unfolding suite_line
  suite_line-AreOf key results line h = elim (Option-cases (test_line p line)) [
    | inr ((is_ok, id), test) ↦
        rw (suite_line, test)
          (change-AreOf key (add_test is_ok id) (add_test-IsKept is_ok id) suites results h)
    | inl other ↦ elim (Option-cases (result_line p line)) [
      | inr (counts, result) ↦
          rw (suite_line, other, result)
            (change-AreOf key (set_counts counts) (set_counts-IsKept counts) suites results h)
      | inl noise ↦ rw (suite_line, other, noise) h
    ]
  ]

  read_line-AreOf :
      (progress : Progress) (line : String)
      → AreOf suites (progress.results)
      → AreOf suites ((read_line p suites progress line).results)
  unfolding read_line
  read_line-AreOf progress line h = elim (Option-cases (key_of_heading suites line)) [
    | inr (key, heading) ↦ rw (read_line, heading) h
    | inl other ↦ elim (Option-cases (progress.current)) [
      | inl outside ↦ rw (read_line, other, outside) h
      | inr (key, inside) ↦
          rw (read_line, other, inside) (suite_line-AreOf key (progress.results) line h)
    ]
  ]

  read_lines-AreOf :
      (progress : Progress) (lines : List String)
      → AreOf suites (progress.results)
      → AreOf suites ((read_lines p suites progress lines).results)
  unfolding read_lines
  read_lines-AreOf progress [] h = h
  read_lines-AreOf progress (line ∷ lines) h =
      read_lines-AreOf (read_line p suites progress line) lines (read_line-AreOf progress line h)

  -- The results of every log are consistent.
  pub suites_of_log-AreOf : (log_text : String) → AreOf suites (suites_of_log p suites log_text)
  unfolding suites_of_log
  suites_of_log-AreOf log_text =
      read_lines-AreOf (record { current = none; results = initial_results suites })
        (splitlines log_text) (initial_results-AreOf suites)
