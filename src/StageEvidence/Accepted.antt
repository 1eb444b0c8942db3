-- ===== src/StageEvidence/Accepted.antt =====
-- When the gates accept: the checks of `acceptance_status` against what they stand for.
use Prim.Native.String.{String}
use toi_no_mori_mvs.Common.{
  [], Bool, List, all, ap, arith, false, if◌then◌else◌, inl, inr, refl, some,
}
use toi_no_mori_mvs.Common.{str_eq, sym, true, ℕ, ◌&&◌, ◌==◌, ◌↔◌, ◌∙◌, ◌∷◌, ◌≡◌}
use toi_no_mori_mvs.StageEvidence.Consistent.{AreOf, IsConsistent}
use toi_no_mori_mvs.StageEvidence.Gate.{Build, Run, is_passed, is_zero}
use toi_no_mori_mvs.StageEvidence.Gate.Totals.{is_counted, or_zero, sum_of}
use toi_no_mori_mvs.StageEvidence.Lookup.{values}
use toi_no_mori_mvs.StageEvidence.Suites.{Results, SuiteContract, SuiteResult, result_status}

-- All tests of the suite ran, and all of them passed.
abbrev pub IsGreen : (expected : ℕ) → SuiteResult → Type 0
IsGreen expected r = (r.passed ≡ some expected) × (r.failed ≡ some 0) × (r.total ≡ some expected)

abbrev pub AreGreen : List SuiteContract → Results → Type 0
AreGreen [] results = Unit
AreGreen (suite ∷ suites) [] = ⊥
AreGreen (suite ∷ suites) ((k, r) ∷ results) = IsGreen suite.expected r × AreGreen suites results

-- What the gates are for: a run by another user than root, natively, of a build without warnings
-- and errors whose test ids are unique, that ended with 0 and in which every registered suite ran
-- all of its tests and passed them.
pub record Accepts (run : Run) (build : Build) (suites : List SuiteContract) (results : Results)
    : Type 0 where
  pub not_root : is_zero run.uid ≡ false
  pub native : run.execution_mode ≡ "native"
  pub unique : build.test_ids_unique ≡ true
  pub clean : build.build_clean ≡ true
  pub green : AreGreen suites results
  pub exit_zero : is_zero run.gate_exit_code ≡ true

str_eq-status_text : (b : Bool) → str_eq (if b then "passed" else "failed") "passed" ≡ b
str_eq-status_text true = refl
str_eq-status_text false = refl

result_status_iff :
    (expected passed failed total : ℕ)
    → (str_eq (result_status expected passed failed total) "passed" ≡ true)
      ↔ ((passed ≡ expected) × (failed ≡ 0) × (total ≡ expected))
result_status_iff expected passed failed total =
    let text = str_eq-status_text ((passed == expected) && (failed == 0) && (total == expected)) in
    (
      λ h. let test = sym text ∙ h in (ground arith, ground arith, ground arith),
      λ (h, k, l). text ∙ ground arith,
    )

not_run-passed : (s : String) → s ≡ "not-run" → str_eq s "passed" ≡ false
not_run-passed s h = rw h refl

is_passed_iff :
    (expected : ℕ) (r : SuiteResult)
    → r.expected ≡ expected
    → IsConsistent r
    → (is_passed r ≡ true) ↔ IsGreen expected r
is_passed_iff expected r same (inl (passed, failed, total, status)) =
    (λ h. let refused = not_run-passed r.status status in cc, λ (h, k, l). cc)
is_passed_iff expected r same (inr (passed, failed, total, a, b, c, status)) =
    let text : is_passed r ≡ str_eq (result_status expected passed failed total) "passed" =
      rw (status, same) refl in
    (
      λ h.
          let (d, e, f) = (result_status_iff expected passed failed total).0 (sym text ∙ h) in
          (a ∙ ap some d, b ∙ ap some e, c ∙ ap some f),
      λ (h, k, l).
          let d : passed ≡ expected = cc in
          let e : failed ≡ 0 = cc in
          let f : total ≡ expected = cc in
          text ∙ (result_status_iff expected passed failed total).1 (d, e, f),
    )

-- Every suite is "passed" exactly when all of its tests passed.
pub all-is_passed_iff :
    (suites : List SuiteContract) (results : Results)
    → AreOf suites results
    → (all is_passed (values results) ≡ true) ↔ AreGreen suites results
all-is_passed_iff [] [] h = (λ _. tt, λ _. refl)
all-is_passed_iff [] (item ∷ results) h = elim h [ ]
all-is_passed_iff (suite ∷ suites) [] h = elim h [ ]
all-is_passed_iff (suite ∷ suites) ((k, r) ∷ results) (_, same, consistent, h) =
    let (to, from) = is_passed_iff suite.expected r same consistent in
    let (all_to, all_from) = all-is_passed_iff suites results h in
    (
      λ green. (to (ground arith), all_to (ground arith)),
      λ (here, later). ground (arith, from here, all_from later),
    )

-- Green suites have all their counts, and the counts add up.
pub sums-of_green :
    (suites : List SuiteContract) (results : Results)
    → AreOf suites results
    → AreGreen suites results
    → (all is_counted (values results) ≡ true)
      × (sum_of (λ r. or_zero r.passed) (values results)
          ≡ sum_of (λ r. r.expected) (values results))
      × (sum_of (λ r. or_zero r.failed) (values results) ≡ 0)
      × (sum_of (λ r. or_zero r.total) (values results) ≡ sum_of (λ r. r.expected) (values results))
sums-of_green [] [] h green = (refl, refl, refl, refl)
sums-of_green [] (item ∷ results) h green = elim h [ ]
sums-of_green (suite ∷ suites) [] h green = elim h [ ]
sums-of_green (suite ∷ suites) ((k, r) ∷ results) (_, same, _, h) ((a, b, c), green) =
    let (d, e, f, g) = sums-of_green suites results h green in
    (rw c d, rw (a, same) (omega arith), rw b (omega arith), rw (c, same) (omega arith))
