-- ===== src/StageEvidence/LastReport/Reading.antt =====
-- Each line keeps `parse_suites` in step with the reading of the log from its end.
use Prim.Native.String.{String}
use toi_no_mori_mvs.Common.{[], All, List, Option, Option-cases, all_distinct, false, inl, inr}
use toi_no_mori_mvs.Common.{none, refl, some, sym, true, ℕ, ◌∷◌, ◌≡◌}
use toi_no_mori_mvs.Python.Lines.{splitlines}
use toi_no_mori_mvs.Python.Platform.{Platform}
use toi_no_mori_mvs.StageEvidence.LastReport.{in_section, is_heading, test_or_result}
use toi_no_mori_mvs.StageEvidence.LastReport.Agreement.{
  AreReported, IsOpen, changed, initial-AreReported, kept,
}
use toi_no_mori_mvs.StageEvidence.LastReport.Agreement.{newest_first, onto}
use toi_no_mori_mvs.StageEvidence.LastReport.Headings.{
  IsKeyOf, headings_of, key_of_heading-IsKeyOf, key_of_heading-none,
}
use toi_no_mori_mvs.StageEvidence.LastReport.Lines.{
  heading_kept, noise_kept, outside_kept, result_set, test_added,
}
use toi_no_mori_mvs.StageEvidence.Lookup.{keys_of}
use toi_no_mori_mvs.StageEvidence.Patterns.{result_line, test_line}
use toi_no_mori_mvs.StageEvidence.Suites.{
  Progress, Results, SuiteContract, add_test, initial_results, key_of_heading,
}
use toi_no_mori_mvs.StageEvidence.Suites.{
  read_line, read_lines, set_counts, suite_line, suites_of_log,
}

module _ (p : Platform) (suites : List SuiteContract) where
  -- The state of the loop behind the lines, the last one first.
  record IsInStep (past : List String) (progress : Progress) : Type 0 where
    reported : AreReported p suites past suites progress.results
    opened : All (IsOpen p suites past progress.current) suites

  module _ (past : List String) (line : String) where
    closes :
        (counts : ℕ × ℕ × ℕ)
        → is_heading suites line ≡ false
        → result_line p line ≡ some counts
        → (rest : List SuiteContract) → All (IsOpen p suites (line ∷ past) none) rest
    unfolding in_section
    closes counts plain result [] = tt
    closes counts plain result (suite ∷ rest) =
        (rw (plain, result) refl, closes counts plain result rest)

    stays :
        (current : Option String)
        → is_heading suites line ≡ false
        → result_line p line ≡ none
        → (rest : List SuiteContract) → All (IsOpen p suites past current) rest
        → All (IsOpen p suites (line ∷ past) current) rest
    unfolding in_section
    stays current plain no_result [] h = tt
    stays current plain no_result (suite ∷ rest) (here, h) =
        (rw (plain, no_result) here, stays current plain no_result rest h)

    stays_closed :
        is_heading suites line ≡ false
        → (rest : List SuiteContract) → All (IsOpen p suites past none) rest
        → All (IsOpen p suites (line ∷ past) none) rest
    stays_closed plain rest h = elim (Option-cases (result_line p line)) [
      | inl no_result ↦ stays none plain no_result rest h
      | inr (counts, result) ↦ closes counts plain result rest
    ]

    opens :
        (key : String)
        → is_heading suites line ≡ true
        → (rest : List SuiteContract) → All (IsKeyOf line key) rest
        → All (IsOpen p suites (line ∷ past) (some key)) rest
    unfolding in_section
    opens key heading [] h = tt
    opens key heading (suite ∷ rest) (here, h) = (rw heading (sym here), opens key heading rest h)

  -- What a line does inside a section of the current suite.
  line_inside :
      (past : List String) (key : String) (results : Results) (line : String)
      → all_distinct (keys_of suites) ≡ true
      → is_heading suites line ≡ false
      → IsInStep past (record { current = some key; results = results })
      → IsInStep (line ∷ past) (suite_line p suites key results line)
  unfolding suite_line
  line_inside past key results line distinct plain h = elim (Option-cases (test_line p line)) [
    | inr ((is_ok, id), test) ↦
        let no_result : result_line p line ≡ none = elim (test_or_result p line) [
          | inl no_test ↦ cc
          | inr no_result ↦ no_result
        ] in
        rw (suite_line, test)
          (record {
            reported =
                changed p suites past (line ∷ past) key (add_test is_ok id)
                  (λ suite r opened.
                    test_added p suites past line suite r is_ok id plain test no_result opened)
                  (λ suite r closed. outside_kept p suites past line suite r closed) suites results
                  distinct h.opened h.reported;
            opened = stays past line (some key) plain no_result suites h.opened;
          })
    | inl no_test ↦ elim (Option-cases (result_line p line)) [
      | inr ((passed, failed, total), result) ↦
          rw (suite_line, no_test, result)
            (record {
              reported =
                  changed p suites past (line ∷ past) key (set_counts (passed, failed, total))
                    (λ suite r opened.
                      result_set p suites past line suite r passed failed total plain no_test result
                        opened)
                    (λ suite r closed. outside_kept p suites past line suite r closed) suites
                    results distinct h.opened h.reported;
              opened = closes past line (passed, failed, total) plain result suites;
            })
      | inl no_result ↦
          rw (suite_line, no_test, no_result)
            (record {
              reported =
                  kept p suites past (line ∷ past) (some key)
                    (λ suite r _. noise_kept p suites past line suite r plain no_test no_result)
                    suites results h.opened h.reported;
              opened = stays past line (some key) plain no_result suites h.opened;
            })
    ]
  ]

  module _ (keys : all_distinct (keys_of suites) ≡ true)
      (headings : all_distinct (headings_of suites) ≡ true) where
    read_line-IsInStep :
        (past : List String) (current : Option String) (results : Results) (line : String)
        → IsInStep past (record { current = current; results = results })
        → IsInStep
            (line ∷ past)
            (read_line p suites (record { current = current; results = results }) line)
    unfolding read_line
    read_line-IsInStep past current results line h =
        elim (Option-cases (key_of_heading suites line)) [
          | inr (key, heading) ↦
              let (known, _, own) = key_of_heading-IsKeyOf suites line key keys headings heading in
              rw (read_line, heading)
                (record {
                  reported =
                      kept p suites past (line ∷ past) current
                        (λ suite r _. heading_kept p suites past line suite r known) suites results
                        h.opened h.reported;
                  opened = opens past line key known suites own;
                })
          | inl no_heading ↦
              let plain = key_of_heading-none suites line no_heading in
              behind current plain no_heading h
        ]
      where
        behind :
            (current : Option String)
            → is_heading suites line ≡ false
            → key_of_heading suites line ≡ none
            → IsInStep past (record { current = current; results = results })
            → IsInStep
                (line ∷ past)
                (read_line p suites (record { current = current; results = results }) line)
        behind none plain no_heading h =
            rw (read_line, no_heading)
              (record {
                reported =
                    kept p suites past (line ∷ past) none
                      (λ suite r closed. outside_kept p suites past line suite r closed) suites
                      results h.opened h.reported;
                opened = stays_closed past line plain suites h.opened;
              })
        behind (some key) plain no_heading h =
            rw (read_line, no_heading) (line_inside past key results line keys plain h)

    read_lines-IsInStep :
        (past : List String) (progress : Progress) (lines : List String)
        → IsInStep past progress
        → IsInStep (onto lines past) (read_lines p suites progress lines)
    unfolding read_lines
    read_lines-IsInStep past progress [] h = h
    read_lines-IsInStep past progress (line ∷ lines) h =
        read_lines-IsInStep (line ∷ past) (read_line p suites progress line) lines
          (read_line-IsInStep past progress.current progress.results line h)

    -- Where keys and headings of the suites differ, the results that the parser returns are those of
    -- the suites in their order, and each is what the log says when it is read from its end. A suite
    -- without a result line in one of its sections has no counts and is "not-run". Any other has the
    -- counts of the last such line, and is "passed" exactly where these are the expected number, 0
    -- and the expected number, and "failed" otherwise. Its lists of tests are the ids of the passed
    -- and of the failed tests in its sections.
    pub suites_of_log-AreReported :
        (log_text : String)
        → AreReported p suites (newest_first log_text) suites (suites_of_log p suites log_text)
    unfolding suites_of_log
    suites_of_log-AreReported log_text =
        let (reported, opened) = initial-AreReported p suites suites in
        (read_lines-IsInStep [] (record { current = none; results = initial_results suites })
          (splitlines log_text) (record { reported = reported; opened = opened })).reported
