-- ===== src/StageEvidence/Absent.antt =====
-- A suite whose heading never occurs in the log, as when a crash ends the run before it.
use Prim.Native.String.{String}
use toi_no_mori_mvs.StageEvidence.Stage6r11
use toi_no_mori_mvs.Common.{
  [], All, Bool-cases, List, Option, Option-cases, all_distinct, ap, arith,
}
use toi_no_mori_mvs.Common.{
  eq_iff, false, inl, inr, member, none, or_false, refl, some, str_eq, subst,
}
use toi_no_mori_mvs.Common.{sym, true, ◌∙◌, ◌∷◌, ◌≡◌, ◌≢◌, ◌⊎◌}
use toi_no_mori_mvs.Controller.Origin.{untouched}
use toi_no_mori_mvs.Python.Lines.{splitlines}
use toi_no_mori_mvs.Python.Platform.{Platform}
use toi_no_mori_mvs.Python.Result.{ok}
use toi_no_mori_mvs.StageEvidence.Accepted.{AreGreen}
use toi_no_mori_mvs.StageEvidence.Consistent.{AreOf, suites_of_log-AreOf}
use toi_no_mori_mvs.StageEvidence.Exit.{stage6r11_exit-Accepts}
use toi_no_mori_mvs.StageEvidence.Lookup.{distinct-cons, keys_of}
use toi_no_mori_mvs.StageEvidence.Patterns.{result_line, test_line}
use toi_no_mori_mvs.StageEvidence.Report.{Arguments, Host, Outcome}
use toi_no_mori_mvs.StageEvidence.Suites.{
  Progress, Results, SuiteContract, SuiteResult, add_test, change, initial_results,
}
use toi_no_mori_mvs.StageEvidence.Suites.{
  key_of_heading, read_line, read_lines, set_counts, suite_line, suites_of_log,
}

abbrev pub IsRegistered : SuiteContract → List SuiteContract → Type 0
IsRegistered suite [] = ⊥
IsRegistered suite (other ∷ suites) = (suite ≡ other) ⊎ IsRegistered suite suites

IsRegistered-key :
    (suite : SuiteContract) (suites : List SuiteContract)
    → IsRegistered suite suites
    → member suite.key (keys_of suites) ≡ true
IsRegistered-key suite [] h = elim h [ ]
IsRegistered-key suite (other ∷ suites) (inl same) =
    let found = (eq_iff suite.key other.key).1 (ap (λ s. s.key) same) in ground arith
IsRegistered-key suite (other ∷ suites) (inr later) =
    let found = IsRegistered-key suite suites later in ground arith

key_of_heading-member :
    (suites : List SuiteContract) (line key : String)
    → key_of_heading suites line ≡ some key
    → member key (keys_of suites) ≡ true
unfolding key_of_heading
key_of_heading-member [] line key h = cc
key_of_heading-member (suite ∷ suites) line key h = elim (Bool-cases (str_eq line suite.heading)) [
  | inl here ↦
      let first : key_of_heading (suite ∷ suites) line ≡ some suite.key = rw here refl in
      let same : key ≡ suite.key = cc in let found = (eq_iff key suite.key).1 same in ground arith
  | inr other ↦
      let next : key_of_heading (suite ∷ suites) line ≡ key_of_heading suites line =
        rw other refl in
      let found = key_of_heading-member suites line key (sym next ∙ h) in ground arith
]

-- The heading of a key is the one that its suite has.
key_of_heading-heading :
    (suite : SuiteContract) (suites : List SuiteContract) (line : String)
    → all_distinct (keys_of suites) ≡ true
    → IsRegistered suite suites
    → key_of_heading suites line ≡ some suite.key
    → line ≡ suite.heading
unfolding key_of_heading
key_of_heading-heading suite [] line distinct h key = elim h [ ]
key_of_heading-heading suite (other ∷ suites) line distinct h key =
    let (new, rest) =
      distinct-cons (member other.key (keys_of suites)) (all_distinct (keys_of suites)) distinct in
    elim (Bool-cases (str_eq line other.heading)) [
      | inl here ↦
          let at : line ≡ other.heading = (eq_iff line other.heading).0 here in
          let first : key_of_heading (other ∷ suites) line ≡ some other.key = rw here refl in
          let key_same : other.key ≡ suite.key = cc in
          elim h [
            | inl same ↦ at ∙ ap (λ s. s.heading) (sym same)
            | inr later ↦
                let old = IsRegistered-key suite suites later in
                let fresh : member suite.key (keys_of suites) ≡ false =
                  subst (λ k. member k (keys_of suites) ≡ false) key_same new in
                cc
          ]
      | inr elsewhere ↦
          let next : key_of_heading (other ∷ suites) line ≡ key_of_heading suites line =
            rw elsewhere refl in
          elim h [
            | inl same ↦
                let old = key_of_heading-member suites line suite.key (sym next ∙ key) in
                let fresh : member suite.key (keys_of suites) ≡ false =
                  subst (λ s. member s.key (keys_of suites) ≡ false) (sym same) new in
                cc
            | inr later ↦ key_of_heading-heading suite suites line rest later (sym next ∙ key)
          ]
    ]

module _ (key : String) where
  -- The suite has no total yet.
  abbrev IsUntouched : Results → Type 0
  IsUntouched results = All (λ entry. entry.0 ≡ key → entry.1.total ≡ none) results

  -- No lines of the suite are being read.
  abbrev IsElsewhere : Option String → Type 0
  IsElsewhere none = Unit
  IsElsewhere (some k) = k ≢ key

  initial_results-IsUntouched : (suites : List SuiteContract) → IsUntouched (initial_results suites)
  initial_results-IsUntouched [] = tt
  initial_results-IsUntouched (suite ∷ suites) = (λ h. refl, initial_results-IsUntouched suites)

  change-IsUntouched :
      (k : String) (f : SuiteResult → SuiteResult) (results : Results)
      → k ≢ key
      → IsUntouched results
      → IsUntouched (change k f results)
  change-IsUntouched k f [] other h = tt
  change-IsUntouched k f ((j, r) ∷ results) other (here, h) = elim (Bool-cases (str_eq k j)) [
    | inl same ↦ rw same (λ e. absurd (other ((eq_iff k j).0 same ∙ e)), h)
    | inr different ↦ rw different (here, change-IsUntouched k f results other h)
  ]

  module _ (p : Platform) (suites : List SuiteContract) where
    suite_line-IsUntouched :
        (k : String) (results : Results) (line : String)
        → k ≢ key
        → IsUntouched results
        → let progress = suite_line p suites k results line in
          IsElsewhere progress.current × IsUntouched progress.results
    unfolding suite_line
    suite_line-IsUntouched k results line other h = elim (Option-cases (test_line p line)) [
      | inr ((is_ok, id), test) ↦
          rw (suite_line, test) (other, change-IsUntouched k (add_test is_ok id) results other h)
      | inl nothing ↦ elim (Option-cases (result_line p line)) [
        | inr (counts, result) ↦
            rw (suite_line, nothing, result)
              (tt, change-IsUntouched k (set_counts counts) results other h)
        | inl noise ↦ rw (suite_line, nothing, noise) (other, h)
      ]
    ]

    read_line-IsUntouched :
        (progress : Progress) (line : String)
        → key_of_heading suites line ≢ some key
        → IsElsewhere progress.current
        → IsUntouched progress.results
        → let next = read_line p suites progress line in
          IsElsewhere next.current × IsUntouched next.results
    unfolding read_line
    read_line-IsUntouched progress line other elsewhere h =
        elim (Option-cases (key_of_heading suites line)) [
          | inr (k, heading) ↦ rw (read_line, heading) (λ e. other (heading ∙ ap some e), h)
          | inl no_heading ↦ elim (Option-cases progress.current) [
            | inl outside ↦ rw (read_line, no_heading, outside) (elsewhere, h)
            | inr (k, inside) ↦
                let k_other : k ≢ key = subst IsElsewhere inside elsewhere in
                rw (read_line, no_heading, inside)
                  (suite_line-IsUntouched k progress.results line k_other h)
          ]
        ]

    read_lines-IsUntouched :
        (progress : Progress) (lines : List String)
        → All (λ line. key_of_heading suites line ≢ some key) lines
        → IsElsewhere progress.current
        → IsUntouched progress.results
        → IsUntouched ((read_lines p suites progress lines).results)
    unfolding read_lines
    read_lines-IsUntouched progress [] others elsewhere h = h
    read_lines-IsUntouched progress (line ∷ lines) (other, others) elsewhere h =
        let (there, still) = read_line-IsUntouched progress line other elsewhere h in
        read_lines-IsUntouched (read_line p suites progress line) lines others there still

-- A suite without a total is not green.
not_green :
    (suite : SuiteContract) (suites : List SuiteContract) (results : Results)
    → IsRegistered suite suites
    → AreOf suites results
    → IsUntouched suite.key results
    → ¬ AreGreen suites results
not_green suite [] results h are untouched green = elim h [ ]
not_green suite (other ∷ suites) [] h are untouched green = elim are [ ]
not_green suite (other ∷ suites) ((k, r) ∷ results) (inl same) (key, _, _, _) (here, _)
      ((_, _, total), _) =
    let missing : r.total ≡ none = here (key ∙ ap (λ s. s.key) (sym same)) in cc
not_green suite (other ∷ suites) ((k, r) ∷ results) (inr later) (_, _, _, are) (_, untouched)
      (_, green) =
    not_green suite suites results later are untouched green

other_lines :
    (suite : SuiteContract) (suites : List SuiteContract) (lines : List String)
    → all_distinct (keys_of suites) ≡ true
    → IsRegistered suite suites
    → member suite.heading lines ≡ false
    → All (λ line. key_of_heading suites line ≢ some suite.key) lines
other_lines suite suites [] distinct h absent = tt
other_lines suite suites (line ∷ lines) distinct h absent =
    let (here, later) = or_false (str_eq suite.heading line) (member suite.heading lines) absent in
    (
      λ key.
          let at = key_of_heading-heading suite suites line distinct h key in
          let found = (eq_iff suite.heading line).1 (sym at) in cc,
      other_lines suite suites lines distinct h later,
    )

absent-not_green :
    (p : Platform) (suite : SuiteContract) (suites : List SuiteContract) (log_text : String)
    → all_distinct (keys_of suites) ≡ true
    → IsRegistered suite suites
    → member suite.heading (splitlines log_text) ≡ false
    → ¬ AreGreen suites (suites_of_log p suites log_text)
unfolding suites_of_log
absent-not_green p suite suites log_text distinct h absent =
    not_green suite suites (suites_of_log p suites log_text) h
      (suites_of_log-AreOf p suites log_text)
      (read_lines-IsUntouched suite.key p suites
        (record { current = none; results = initial_results suites }) (splitlines log_text)
        (other_lines suite suites (splitlines log_text) distinct h absent) tt
        (initial_results-IsUntouched suite.key suites))

-- A log without the heading of a registered suite is rejected by the writer for the stage 6R-11: the
-- run ends and its exit code is not 0, whatever exit code the gate itself reported.
pub stage6r11_absent :
    {Bytes : Type 0} (p : Platform) (host : Host Bytes) (args : Arguments) (log_bytes : Bytes)
    (suite : SuiteContract)
    → host.read_bytes args.log ≡ some log_bytes
    → IsRegistered suite Stage6r11.suites
    → member suite.heading (splitlines (host.decode log_bytes)) ≡ false
    → (outcome : Outcome) × (Stage6r11.main p host args ≡ ok outcome) × (outcome.code ≢ 0)
unfolding Stage6r11.parse_suites
stage6r11_absent p host args log_bytes suite read h absent =
    let (outcome, ended, (to, _)) = stage6r11_exit-Accepts p host args log_bytes read in
    (
      outcome,
      ended,
      λ zero_code.
          absent-not_green p suite Stage6r11.suites (host.decode log_bytes) refl h absent
            ((to zero_code).green),
    )
