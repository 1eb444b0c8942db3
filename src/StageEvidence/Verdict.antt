-- ===== src/StageEvidence/Verdict.antt =====
-- The verdicts of the gates, in the two forms of `acceptance_status`.
use toi_no_mori_mvs.Common.{
  [], Bool, List, String, all, all_distinct, ap, arith, eq_iff, length, not,
}
use toi_no_mori_mvs.Common.{refl, str_eq, sym, true, ℕ, ◌&&◌, ◌++◌, ◌↔◌, ◌∙◌, ◌∷◌, ◌≡◌}
use toi_no_mori_mvs.Python.Result.{ok}
use toi_no_mori_mvs.StageEvidence.Accepted.{Accepts, AreGreen, all-is_passed_iff, sums-of_green}
use toi_no_mori_mvs.StageEvidence.Consistent.{AreOf}
use toi_no_mori_mvs.StageEvidence.Gate.{
  Build, Checks, Run, build_checks, exit_check, expected_sum, is_passed, is_zero,
}
use toi_no_mori_mvs.StageEvidence.Gate.{
  native_total, run_checks, status_by_suite, suite_checks, with_verdict,
}
use toi_no_mori_mvs.StageEvidence.Gate.Totals.{
  status_by_totals, suite_totals, sum_of, total_checks, totals_of,
}
use toi_no_mori_mvs.StageEvidence.Lookup.{keys_of, suite_rows-values, values}
use toi_no_mori_mvs.StageEvidence.Suites.{Results, SuiteContract, SuiteResult}

expected_sum-results :
    (suites : List SuiteContract) (results : Results)
    → AreOf suites results
    → sum_of (λ r. r.expected) (values results) ≡ expected_sum suites
expected_sum-results [] [] h = refl
expected_sum-results [] (item ∷ results) h = elim h [ ]
expected_sum-results (suite ∷ suites) [] h = elim h [ ]
expected_sum-results (suite ∷ suites) ((k, r) ∷ results) (_, same, _, h) =
    rw (same, expected_sum-results suites results h) refl

all-suite_checks :
    (suites : List SuiteContract) (results : Results)
    → AreOf suites results
    → all (λ check. check.1) (suite_checks suites (values results)) ≡ all is_passed (values results)
all-suite_checks [] [] h = refl
all-suite_checks [] (item ∷ results) h = elim h [ ]
all-suite_checks (suite ∷ suites) [] h = elim h [ ]
all-suite_checks (suite ∷ suites) ((k, r) ∷ results) (_, _, _, h) =
    rw (all-suite_checks suites results h) refl

-- What the stages 6R-6 to 6R-9 add holds where the number of tests is the stage's.
pub native_total-follows :
    (name : String) (total : ℕ) (suites : List SuiteContract) (rs : List SuiteResult)
    → expected_sum suites ≡ total
    → all is_passed rs ≡ true
    → all (λ check. check.1) (native_total name total suites rs) ≡ true
native_total-follows name total suites rs same green = ground arith

all-append {ℓ} :
    {A : Type ℓ} (f : A → Bool) (xs ys : List A) → all f (xs ++ ys) ≡ (all f xs && all f ys)
all-append f [] ys = refl
all-append f (x ∷ xs) ys = ground (arith, all-append f xs ys)

module _ (suites : List SuiteContract) (distinct : all_distinct (keys_of suites) ≡ true) where
  -- The conditions of a gate, with whatever the source tests of the suites.
  conditions_iff :
      (run : Run) (build : Build) (results : Results) (tests : Bool)
      → ((tests ≡ true) ↔ AreGreen suites results)
      → ((not (is_zero run.uid)
            && (str_eq run.execution_mode "native"
                && (build.test_ids_unique
                    && (build.build_clean && (tests && is_zero run.gate_exit_code)))))
          ≡ true)
        ↔ Accepts run build suites results
  conditions_iff run build results tests (to, from) = (
    λ h. record {
      not_root = ground arith;
      native = (eq_iff run.execution_mode "native").0 (ground arith);
      unique = ground arith;
      clean = ground arith;
      green = to (ground arith);
      exit_zero = ground arith;
    },
    λ h.
        let native = (eq_iff run.execution_mode "native").1 h.native in
        ground (arith, h.not_root, h.unique, h.clean, from h.green, h.exit_zero),
  )

  totals_iff :
      (results : Results)
      → AreOf suites results
      → let totals = totals_of (length suites) (values results) in
        ((totals.registered_suites_complete
            && (totals.totals_match && all is_passed (values results)))
          ≡ true)
        ↔ AreGreen suites results
  totals_iff results h =
      let (to, from) = all-is_passed_iff suites results h in
      (
        λ t. to (ground arith),
        λ green.
            let (a, b, c, d) = sums-of_green suites results h green in
            let e = from green in ground arith,
      )

  pub suite_totals-ok :
      (results : Results)
      → AreOf suites results
      → suite_totals suites results ≡ ok (totals_of (length suites) (values results))
  unfolding suite_totals
  suite_totals-ok results h = rw (suite_rows-values suites results distinct h) refl

  -- The verdict of `acceptance_status` on the results of a log.
  abbrev pub total_verdict : Run → Results → Build → Bool × Checks
  total_verdict run results build =
      let totals = totals_of (length suites) (values results) in
      with_verdict (
        run_checks run
        ++ build_checks build
        ++ total_checks suites totals (values results)
        ++ exit_check run)

  pub status_by_totals-ok :
      (run : Run) (results : Results) (build : Build)
      → AreOf suites results
      → status_by_totals suites run results build ≡ ok (total_verdict run results build)
  unfolding status_by_totals
  status_by_totals-ok run results build h =
      rw (suite_totals-ok results h, suite_rows-values suites results distinct h) refl

  pub total_verdict_iff :
      (run : Run) (results : Results) (build : Build)
      → AreOf suites results
      → ((total_verdict run results build).0 ≡ true) ↔ Accepts run build suites results
  total_verdict_iff run results build h =
      let (to, from) = conditions_iff run build results _ (totals_iff results h) in
      (λ e. to (ground arith), λ a. let e = from a in ground arith)

  -- The checks of the run and the build, before a test.
  abbrev before : Run → Build → Bool → Bool
  before run build test =
      not (is_zero run.uid)
      && (str_eq run.execution_mode "native"
          && (build.test_ids_unique && (build.build_clean && test)))

  before-and :
      (run : Run) (build : Build) (green added exit : Bool)
      → before run build (green && (added && exit)) ≡ true
      → before run build (green && exit) ≡ true
  before-and run build green added exit h = ground arith

  before-of_and :
      (run : Run) (build : Build) (green added exit : Bool)
      → added ≡ true
      → before run build (green && exit) ≡ true
      → before run build (green && (added && exit)) ≡ true
  before-of_and run build green added exit h k = ground arith

  -- The form of the stages 6R-5 to 6R-9, where what a stage adds follows from the checks of its suites.
  pub status_by_suite-Accepts :
      (added : List SuiteResult → Checks)
      → ((rs : List SuiteResult)
          → all is_passed rs ≡ true
          → all (λ check. check.1) (added rs) ≡ true)
      → (run : Run) (results : Results) (build : Build) → AreOf suites results
      → (verdict : Bool × Checks) × (status_by_suite suites added run results build ≡ ok verdict)
        × ((verdict.0 ≡ true) ↔ Accepts run build suites results)
  unfolding status_by_suite
  status_by_suite-Accepts added follows run results build h =
      let rs = values results in
      let (green_to, green_from) = all-is_passed_iff suites results h in
      let (to, from) = conditions_iff run build results (all is_passed rs) (green_to, green_from) in
      let last : all (λ check. check.1) (suite_checks suites rs ++ added rs ++ exit_check run) ≡ (
          all is_passed rs && (all (λ check. check.1) (added rs) && is_zero run.gate_exit_code)) =
        all-append (λ check. check.1) (suite_checks suites rs ++ added rs) (exit_check run)
        ∙ rw
            (
              all-append (λ check. check.1) (suite_checks suites rs) (added rs),
              all-suite_checks suites results h,
            )
            (ground arith) in
      let extra = all (λ check. check.1) (added rs) in
      let exit = is_zero run.gate_exit_code in
      let whole = ap (before run build) last in
      (
        with_verdict (
            run_checks run
            ++ build_checks build
            ++ suite_checks suites rs
            ++ added rs
            ++ exit_check run),
        rw (suite_rows-values suites results distinct h) refl,
        (
          λ e. to (before-and run build (all is_passed rs) extra exit (sym whole ∙ e)),
          λ a.
              whole
              ∙ before-of_and run build (all is_passed rs) extra exit
                  (follows rs (green_from a.green)) (from a),
        ),
      )
