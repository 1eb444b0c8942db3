-- ===== src/StageEvidence/GreenRun.antt =====
-- The runs that the writers for the stages 6R-5 to 6R-11 accept, told by the arguments and the log
-- alone.
pub mod Gates
use Prim.Native.String.{String}
use toi_no_mori_mvs.Common.{
  [], All, Bool-cases, List, Option, all, all_distinct, ap, arith, contains_text, false, is_empty,
}
use toi_no_mori_mvs.Common.{not, refl, some, true, ℕ, ◌++◌, ◌==◌, ◌↔◌, ◌∙◌, ◌∷◌, ◌≡◌, ◌≢◌}
use toi_no_mori_mvs.Common.{All-of_append, All-append, inl, inr, none}
use toi_no_mori_mvs.Python.Numbers.{negsuc, pos, ℤ}
use toi_no_mori_mvs.Python.Lines.{split_lf}
use toi_no_mori_mvs.Python.Platform.{Platform}
use toi_no_mori_mvs.StageEvidence.Counts.{Counts, CountsNone, SomeLine, Counts-iff}
use toi_no_mori_mvs.StageEvidence.Accepted.{Accepts, AreGreen, IsGreen}
use toi_no_mori_mvs.StageEvidence.Gate.{is_zero}
use toi_no_mori_mvs.StageEvidence.LastReport.{last_report}
use toi_no_mori_mvs.StageEvidence.LastReport.Agreement.{AreReported, Shows, newest_first}
use toi_no_mori_mvs.StageEvidence.LastReport.Headings.{headings_of}
use toi_no_mori_mvs.StageEvidence.LastReport.Reading.{suites_of_log-AreReported}
use toi_no_mori_mvs.StageEvidence.Lookup.{keys_of}
use toi_no_mori_mvs.StageEvidence.Patterns.{count_lines, error_counts, warning_counts}
use toi_no_mori_mvs.StageEvidence.Report.{Arguments, build_clean, build_of, run_of, test_ids_unique}
use toi_no_mori_mvs.StageEvidence.Suites.{Results, SuiteContract, SuiteResult, suites_of_log}

-- A native run by another user than root that ended with 0, with a log that holds the text on unique
-- test ids, has a line with 0 warnings and one with 0 errors and no line that counts more of either,
-- and whose last result of each suite says that all of its tests ran, none failed, and all passed.
pub record IsGreenRun (p : Platform) (args : Arguments) (log_text : String)
    (suites : List SuiteContract) : Type 0 where
  pub not_root : args.uid ≢ pos 0
  pub native : args.execution_mode ≡ "native"
  pub ended : args.gate_exit_code ≡ pos 0
  pub unique : contains_text "test ID uniqueness: PASSED" log_text ≡ true
  pub warnings_counted : SomeLine (λ line. Counts p " Warning(s)" line 0) (split_lf log_text)
  pub errors_counted : SomeLine (λ line. Counts p " Error(s)" line 0) (split_lf log_text)
  pub no_warning : All (CountsNone p " Warning(s)") (split_lf log_text)
  pub no_error : All (CountsNone p " Error(s)") (split_lf log_text)
  pub green :
      All
        (λ suite.
          last_report p suites suite.heading (newest_first log_text)
          ≡ some (suite.expected, 0, suite.expected))
        suites

is_zero_iff : (z : ℤ) → (is_zero z ≡ true) ↔ (z ≡ pos 0)
is_zero_iff (pos n) = (λ h. ap pos (ground arith), λ h. ground arith)
is_zero_iff (negsuc n) = (λ h. absurd (ground arith), λ h. cc)

is_zero-false_iff : (z : ℤ) → (is_zero z ≡ false) ↔ (z ≢ pos 0)
is_zero-false_iff z = (
  λ h e. let zero_too = (is_zero_iff z).1 e in cc,
  λ h. elim (Bool-cases (is_zero z)) [
    | inl yes_zero ↦ absurd (h ((is_zero_iff z).0 yes_zero))
    | inr no_zero ↦ no_zero
  ],
)

is_empty-false_iff {ℓ} : {A : Type ℓ} (xs : List A) → (not (is_empty xs) ≡ true) ↔ (xs ≢ [])
is_empty-false_iff [] = (λ h. cc, λ h. absurd (h refl))
is_empty-false_iff (x ∷ xs) = (λ h e. cc, λ h. refl)

zeros_iff : (ns : List ℕ) → (all (λ n. n == 0) ns ≡ true) ↔ All (λ n. n ≡ 0) ns
zeros_iff [] = (λ h. tt, λ h. refl)
zeros_iff (n ∷ ns) =
    let (to, from) = zeros_iff ns in
    (λ h. (ground arith, to (ground arith)), λ (here, later). ground (arith, from later))

build_clean_iff :
    (p : Platform) (log_text : String)
    → (build_clean p log_text ≡ true) ↔ (
        SomeLine (λ line. Counts p " Warning(s)" line 0) (split_lf log_text)
        × SomeLine (λ line. Counts p " Error(s)" line 0) (split_lf log_text)
        × All (CountsNone p " Warning(s)") (split_lf log_text)
        × All (CountsNone p " Error(s)") (split_lf log_text))
unfolding build_clean warning_counts error_counts
build_clean_iff p log_text =
    let ws = count_lines p " Warning(s)" (split_lf log_text) in
    let es = count_lines p " Error(s)" (split_lf log_text) in
    let (w_to, w_from) = is_empty-false_iff ws in
    let (e_to, e_from) = is_empty-false_iff es in
    let (to, from) = zeros_iff (ws ++ es) in
    let (warned_to, warned_from) = Counts-iff p " Warning(s)" (split_lf log_text) in
    let (erred_to, erred_from) = Counts-iff p " Error(s)" (split_lf log_text) in
    (
      λ h.
          let (a, b) = All-of_append (λ n. n ≡ 0) ws es (to (ground arith)) in
          let (w, w') = warned_to (w_to (ground arith), a) in
          let (e, e') = erred_to (e_to (ground arith), b) in (w, e, w', e'),
      λ (a, b, c, d).
          let (some_w, zero_w) = warned_from (a, c) in
          let (some_e, zero_e) = erred_from (b, d) in
          let w = w_from some_w in
          let e = e_from some_e in
          let z = from (All-append (λ n. n ≡ 0) ws es zero_w zero_e) in ground arith,
    )

-- The counts of a result are those of the last report.
IsGreen-iff :
    (expected : ℕ) (report : Option (ℕ × ℕ × ℕ)) (r : SuiteResult)
    → Shows expected report r
    → IsGreen expected r ↔ (report ≡ some (expected, 0, expected))
IsGreen-iff expected none r (a, b, c, _) = (λ (d, e, f). cc, λ h. cc)
IsGreen-iff expected (some (passed, failed, total)) r (a, b, c, _) = (
  λ (d, e, f).
      let x : passed ≡ expected = cc in
      let y : failed ≡ 0 = cc in let z : total ≡ expected = cc in rw (x, y, z) refl,
  λ h.
      let x : passed ≡ expected = cc in
      let y : failed ≡ 0 = cc in
      let z : total ≡ expected = cc in (a ∙ ap some x, b ∙ ap some y, c ∙ ap some z),
)

module _ (p : Platform) (suites : List SuiteContract) (past : List String) where
  AreGreen-iff :
      (rest : List SuiteContract) (results : Results)
      → AreReported p suites past rest results
      → AreGreen rest results
        ↔ All
            (λ suite.
              last_report p suites suite.heading past ≡ some (suite.expected, 0, suite.expected))
            rest
  AreGreen-iff [] [] h = (λ _. tt, λ _. tt)
  AreGreen-iff [] (item ∷ results) h = elim h [ ]
  AreGreen-iff (suite ∷ rest) [] h = elim h [ ]
  AreGreen-iff (suite ∷ rest) ((k, r) ∷ results) (_, reported, h) =
      let (to, from) =
        IsGreen-iff suite.expected (last_report p suites suite.heading past) r reported.shows in
      let (all_to, all_from) = AreGreen-iff rest results h in
      (λ (here, later). (to here, all_to later), λ (here, later). (from here, all_from later))

module _ (p : Platform) (args : Arguments) (log_text : String) where
  pub Accepts-iff :
      (suites : List SuiteContract)
      → all_distinct (keys_of suites) ≡ true
      → all_distinct (headings_of suites) ≡ true
      → Accepts (run_of args) (build_of p log_text) suites (suites_of_log p suites log_text)
        ↔ IsGreenRun p args log_text suites
  unfolding build_of test_ids_unique
  Accepts-iff suites keys headings =
      let (clean_to, clean_from) = build_clean_iff p log_text in
      let (green_to, green_from) =
        AreGreen-iff p suites (newest_first log_text) suites (suites_of_log p suites log_text)
          (suites_of_log-AreReported p suites keys headings log_text) in
      let (root_to, root_from) = is_zero-false_iff args.uid in
      let (code_to, code_from) = is_zero_iff args.gate_exit_code in
      (
        λ h.
            let (warned, erred, no_warning, no_error) = clean_to h.clean in
            record {
              not_root = root_to h.not_root;
              native = h.native;
              ended = code_to h.exit_zero;
              unique = h.unique;
              warnings_counted = warned;
              errors_counted = erred;
              no_warning = no_warning;
              no_error = no_error;
              green = green_to h.green;
            },
        λ h. record {
          not_root = root_from h.not_root;
          native = h.native;
          unique = h.unique;
          clean = clean_from (h.warnings_counted, h.errors_counted, h.no_warning, h.no_error);
          green = green_from h.green;
          exit_zero = code_from h.ended;
        },
      )
