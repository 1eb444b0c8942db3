-- ===== src/StageEvidence/Replay/Section.antt =====
-- The section of a suite in a log: its heading, lines of tests and other output, and its result.
use Prim.Native.String.{String}
use text.Mathlib.TextLemmas.{cons-append}
use toi_no_mori_mvs.Common.{
  [], All, Bool-cases, List, Option-cases, ap, eq_iff, false, if◌then◌else◌, inl, inr, none, refl,
  some,
}
use toi_no_mori_mvs.Common.{str_eq, sym, true, ℕ, ◌++◌, ◌∙◌, ◌∷◌, ◌≡◌}
use toi_no_mori_mvs.Python.Matching.{after}
use toi_no_mori_mvs.Python.Matching.RoundTrip.{ReadsDecimal}
use toi_no_mori_mvs.Python.Platform.{Platform}
use toi_no_mori_mvs.Python.Result.{ok, ok_injective}
use toi_no_mori_mvs.StageEvidence.Gate.{result_at}
use toi_no_mori_mvs.StageEvidence.Patterns.{test_line}
use toi_no_mori_mvs.StageEvidence.Replay.{
  IsInside, record_line, record_lines, record_lines-with_tests, reported_as,
  result_line-result_text,
}
use toi_no_mori_mvs.StageEvidence.Replay.{result_text, test_ids}
use toi_no_mori_mvs.StageEvidence.Suites.{
  Progress, Results, SuiteContract, SuiteResult, add_test, change, key_of_heading,
}
use toi_no_mori_mvs.StageEvidence.Suites.{read_line, read_lines, set_counts, suite_line}

change-ext :
    (key : String) (f g : SuiteResult → SuiteResult)
    → ((r : SuiteResult) → f r ≡ g r)
    → (results : Results) → change key f results ≡ change key g results
change-ext key f g same [] = refl
change-ext key f g same ((k, r) ∷ results) = rw (same r, change-ext key f g same results) refl

change-change :
    (key : String) (f g : SuiteResult → SuiteResult) (results : Results)
    → change key f (change key g results) ≡ change key (λ r. f (g r)) results
change-change key f g [] = refl
change-change key f g ((k, r) ∷ results) = elim (Bool-cases (str_eq key k)) [
  | inl here ↦ rw (here, here) refl
  | inr other ↦ rw (other, other, change-change key f g results) refl
]

change_id : (key : String) (results : Results) → change key (λ r. r) results ≡ results
change_id key [] = refl
change_id key ((k, r) ∷ results) = elim (Bool-cases (str_eq key k)) [
  | inl here ↦ rw here refl
  | inr other ↦ rw (other, change_id key results) refl
]

-- Reading a dict after a change at a key that it has.
result_at-change :
    (k key : String) (f : SuiteResult → SuiteResult) (results : Results) (found : SuiteResult)
    → result_at key results ≡ ok found
    → result_at k (change key f results)
      ≡ (if str_eq k key then ok (f found) else result_at k results)
unfolding result_at
result_at-change k key f [] found h = cc
result_at-change k key f ((j, r) ∷ results) found h = elim (Bool-cases (str_eq key j)) [
  | inl here ↦
      let same : key ≡ j = (eq_iff key j).0 here in
      let first : r ≡ found = ok_injective (rw here at h) in
      rw (here, same, first)
        (elim (Bool-cases (str_eq k j)) [ inl own ↦ rw own refl | inr other ↦ rw other refl ])
  | inr elsewhere ↦
      let rest : result_at key results ≡ ok found = rw elsewhere at h in
      rw elsewhere (elim (Bool-cases (str_eq k j)) [
        | inl own ↦
            let at : k ≡ j = (eq_iff k j).0 own in
            let apart : str_eq k key ≡ false = elim (Bool-cases (str_eq k key)) [
              | inl same ↦
                  let equal : key ≡ j = sym ((eq_iff k key).0 same) ∙ at in
                  let found_here = (eq_iff key j).1 equal in cc
              | inr different ↦ different
            ] in
            rw (own, apart) refl
        | inr other ↦ rw other (result_at-change k key f results found rest)
      ])
]

-- A result line is no test line: it begins with another character.
test_line-result_text :
    (p : Platform) (counts : ℕ × ℕ × ℕ) → test_line p (result_text counts) ≡ none
unfolding test_line after
test_line-result_text p (passed, failed, total) = rw (cons-append "#" " result: " _) refl

-- The lines of a suite are being read, and those of none.
abbrev inside : (key : String) → Results → Progress
inside key results = record { current = some key; results = results }

abbrev pub outside : Results → Progress
outside results = record { current = none; results = results }

module _ (p : Platform) (suites : List SuiteContract) where
  read_inside :
      (key : String) (results : Results) (line : String)
      → IsInside p suites line
      → read_line p suites (inside key results) line
        ≡ inside key (change key (record_line p line) results)
  unfolding read_line suite_line
  read_inside key results line (no_heading, no_result) = elim (Option-cases (test_line p line)) [
    | inr ((is_ok, id), test) ↦
        rw (read_line, no_heading, suite_line, test)
          (ap (inside key) (
            change-ext key (add_test is_ok id) (record_line p line)
              (λ r. rw (record_line, test) refl) results))
    | inl nothing ↦
        rw (read_line, no_heading, suite_line, nothing, no_result)
          (ap (inside key) (
            sym (change_id key results)
            ∙ change-ext key (λ r. r) (record_line p line) (λ r. rw (record_line, nothing) refl)
                results))
  ]

  read_all_inside :
      (key : String) (results : Results) (lines more : List String)
      → All (IsInside p suites) lines
      → read_lines p suites (inside key results) (lines ++ more)
        ≡ read_lines p suites (inside key (change key (record_lines p lines) results)) more
  unfolding read_lines
  read_all_inside key results [] more h =
      ap (λ rs. read_lines p suites (inside key rs) more) (sym (change_id key results))
  read_all_inside key results (line ∷ lines) more (here, h) =
      let next = change key (record_line p line) results in
      ap (λ progress. read_lines p suites progress (lines ++ more))
        (read_inside key results line here)
      ∙ read_all_inside key next lines more h
      ∙ ap (λ rs. read_lines p suites (inside key rs) more)
          (change-change key (record_lines p lines) (record_line p line) results)

  -- The lines of a section change the result of its suite and close the section.
  read_section :
      (suite : SuiteContract) (lines : List String) (counts : ℕ × ℕ × ℕ) (progress : Progress)
      → ReadsDecimal p
      → key_of_heading suites suite.heading ≡ some suite.key
      → key_of_heading suites (result_text counts) ≡ none
      → All (IsInside p suites) lines
      → read_lines p suites progress (suite.heading ∷ (lines ++ (result_text counts ∷ [])))
        ≡ outside
            (change suite.key (λ r. set_counts counts (record_lines p lines r)) progress.results)
  unfolding read_lines read_line suite_line
  read_section suite lines counts progress reads heading no_heading h =
      let opened = inside suite.key progress.results in
      let recorded = change suite.key (record_lines p lines) progress.results in
      let last = result_text counts ∷ [] in
      let start : read_line p suites progress suite.heading ≡ opened =
        rw (read_line, heading) refl in
      ap (λ next. read_lines p suites next (lines ++ last)) start
      ∙ read_all_inside suite.key progress.results lines last h
      ∙ rw
          (
            read_lines,
            read_line,
            no_heading,
            suite_line,
            test_line-result_text p counts,
            result_line-result_text p reads counts,
          )
          (ap (λ rs. outside rs)
            (change-change suite.key (set_counts counts) (record_lines p lines) progress.results))

  -- The section of a suite is read back wherever it stands in a log: its heading, any lines that are
  -- neither headings nor results, and the printed result line. The suite, which the dict has, then has
  -- the printed numbers as its passed, failed and total counts; it is "passed" if the first and the
  -- last are the expected number and the second is 0, and otherwise "failed"; the ids of the passed
  -- and of the failed tests among these lines follow those that it had. The results of other keys are
  -- as before, and no suite is being read. The conditions are that numerals are read as decimals, and
  -- that the suite's heading is its own and the result line is no heading.
  pub read_lines-section :
      (suite : SuiteContract) (lines : List String) (passed failed total : ℕ) (progress : Progress)
      (r : SuiteResult) (key : String)
      → ReadsDecimal p
      → key_of_heading suites suite.heading ≡ some suite.key
      → key_of_heading suites (result_text (passed, failed, total)) ≡ none
      → All (IsInside p suites) lines
      → result_at suite.key progress.results ≡ ok r
      → let printed = result_text (passed, failed, total) ∷ [] in
        let next = read_lines p suites progress (suite.heading ∷ (lines ++ printed)) in
        (next.current ≡ none)
        × (result_at key next.results ≡ (
            if str_eq key suite.key
            then ok
                (reported_as passed failed total (test_ids p true lines) (test_ids p false lines) r)
            else result_at key progress.results))
  read_lines-section suite lines passed failed total progress r key reads heading no_heading h
        present =
      let counts : ℕ × ℕ × ℕ = (passed, failed, total) in
      let whole = read_section suite lines counts progress reads heading no_heading h in
      let recorded : set_counts counts (record_lines p lines r)
          ≡ reported_as passed failed total (test_ids p true lines) (test_ids p false lines) r =
        ap (set_counts counts) (record_lines-with_tests p lines r) in
      (
        ap (λ next. next.current) whole,
        ap (λ next. result_at key next.results) whole
            ∙ result_at-change key suite.key (λ q. set_counts counts (record_lines p lines q))
                progress.results r present
            ∙ ap
                (λ (q : SuiteResult).
                  if str_eq key suite.key then ok q else result_at key progress.results)
                recorded,
      )
