-- ===== src/StageEvidence/LastReport/Agreement.antt =====
-- `parse_suites` against the reading of the log from its end.
use Prim.Native.String.{String}
use toi_no_mori_mvs.Common.{
  [], All, Bool, Bool-cases, List, Option, all_distinct, arith, eq_iff, false,
}
use toi_no_mori_mvs.Common.{
  if◌then◌else◌, inl, inr, none, refl, some, str_eq, true, ℕ, ◌&&◌, ◌==◌, ◌∙◌, ◌∷◌, ◌≡◌, ◌⊎◌,
}
use toi_no_mori_mvs.Python.Lines.{splitlines}
use toi_no_mori_mvs.Python.Platform.{Platform}
use toi_no_mori_mvs.StageEvidence.LastReport.{in_section, last_report, tests_of}
use toi_no_mori_mvs.StageEvidence.LastReport.Headings.{other_keys-distinct}
use toi_no_mori_mvs.StageEvidence.Lookup.{distinct-cons, keys_of}
use toi_no_mori_mvs.StageEvidence.Suites.{
  Results, SuiteContract, SuiteResult, change, initial_results,
}

-- The counts and the status of a result, from the last report on its suite: "passed" exactly where
-- the expected number of tests ran and passed and none failed.
abbrev pub Shows : (expected : ℕ) → Option (ℕ × ℕ × ℕ) → SuiteResult → Type 0
Shows expected none r =
    (r.passed ≡ none) × (r.failed ≡ none) × (r.total ≡ none) × (r.status ≡ "not-run")
Shows expected (some (passed, failed, total)) r =
    (r.passed ≡ some passed)
    × (r.failed ≡ some failed)
    × (r.total ≡ some total)
    × (((r.status ≡ "passed") × (passed ≡ expected) × (failed ≡ 0) × (total ≡ expected))
        ⊎ ((r.status ≡ "failed") × (¬ ((passed ≡ expected) × (failed ≡ 0) × (total ≡ expected)))))

-- The lines, the last one first.
abbrev pub onto : (lines past : List String) → List String
onto [] past = past
onto (line ∷ lines) past = onto lines (line ∷ past)

abbrev pub newest_first : String → List String
newest_first log_text = onto (splitlines log_text) []

pub status-cases :
    (expected passed failed total : ℕ) (status : String)
    → status ≡ (
        if (passed == expected) && (failed == 0) && (total == expected) then "passed" else "failed")
    → ((status ≡ "passed") × (passed ≡ expected) × (failed ≡ 0) × (total ≡ expected))
      ⊎ ((status ≡ "failed") × (¬ ((passed ≡ expected) × (failed ≡ 0) × (total ≡ expected))))
status-cases expected passed failed total status h =
    elim (Bool-cases ((passed == expected) && (failed == 0) && (total == expected))) [
      | inl green ↦ inl (rw green at h, ground arith, ground arith, ground arith)
      | inr red ↦ inr (rw red at h, λ (a, b, c). absurd (ground arith))
    ]

module _ (p : Platform) (suites : List SuiteContract) where
  -- The result of a suite is what the lines, the last one first, say of it.
  pub record IsReported (past : List String) (suite : SuiteContract) (r : SuiteResult)
      : Type 0 where
    pub expected : r.expected ≡ suite.expected
    pub shows : Shows suite.expected (last_report p suites suite.heading past) r
    pub passed_ids : r.passed_test_ids ≡ tests_of p suites suite.heading true past
    pub failed_ids : r.failed_test_ids ≡ tests_of p suites suite.heading false past

  -- The results of the suites, in their order, with their keys.
  abbrev pub AreReported : (past : List String) → List SuiteContract → Results → Type 0
  AreReported past [] [] = Unit
  AreReported past [] (item ∷ results) = ⊥
  AreReported past (suite ∷ rest) [] = ⊥
  AreReported past (suite ∷ rest) ((k, r) ∷ results) =
      (k ≡ suite.key) × IsReported past suite r × AreReported past rest results

  -- The suite is the current one exactly where the lines end in a section of it.
  abbrev pub is_current : Option String → SuiteContract → Bool
  is_current none suite = false
  is_current (some key) suite = str_eq key suite.key

  abbrev pub IsOpen : (past : List String) → Option String → SuiteContract → Type 0
  IsOpen past current suite = in_section p suites suite.heading past ≡ is_current current suite

  pub initial-AreReported :
      (rest : List SuiteContract)
      → AreReported [] rest (initial_results rest) × All (IsOpen [] none) rest
  unfolding last_report tests_of in_section
  initial-AreReported [] = (tt, tt)
  initial-AreReported (suite ∷ rest) =
      let (reported, closed) = initial-AreReported rest in
      (
        (
          refl,
          record {
            expected = refl;
            shows = (refl, refl, refl, refl);
            passed_ids = refl;
            failed_ids = refl;
          },
          reported,
        ),
        (refl, closed),
      )

  -- A line that changes no result.
  pub kept :
      (past past' : List String) (current : Option String)
      → ((suite : SuiteContract) (r : SuiteResult)
          → IsOpen past current suite
          → IsReported past suite r
          → IsReported past' suite r)
      → (rest : List SuiteContract) (results : Results) → All (IsOpen past current) rest
      → AreReported past rest results
      → AreReported past' rest results
  kept past past' current step [] [] opened h = tt
  kept past past' current step [] (item ∷ results) opened h = elim h [ ]
  kept past past' current step (suite ∷ rest) [] opened h = elim h [ ]
  kept past past' current step (suite ∷ rest) ((k, r) ∷ results) (here, opened) (key, h, later) =
      (key, step suite r here h, kept past past' current step rest results opened later)

  -- A line that changes the result of the current suite.
  pub changed :
      (past past' : List String) (key : String) (f : SuiteResult → SuiteResult)
      → ((suite : SuiteContract) (r : SuiteResult)
          → in_section p suites suite.heading past ≡ true
          → IsReported past suite r
          → IsReported past' suite (f r))
      → ((suite : SuiteContract) (r : SuiteResult)
          → in_section p suites suite.heading past ≡ false
          → IsReported past suite r
          → IsReported past' suite r)
      → (rest : List SuiteContract) (results : Results) → all_distinct (keys_of rest) ≡ true
      → All (IsOpen past (some key)) rest
      → AreReported past rest results
      → AreReported past' rest (change key f results)
  changed past past' key f inside outside [] [] distinct opened h = tt
  changed past past' key f inside outside [] (item ∷ results) distinct opened h = elim h [ ]
  changed past past' key f inside outside (suite ∷ rest) [] distinct opened h = elim h [ ]
  changed past past' key f inside outside (suite ∷ rest) ((k, r) ∷ results) distinct (here, opened)
        (same, h, later) =
      elim (Bool-cases (str_eq key suite.key)) [
        | inl own ↦
            let found : str_eq key k ≡ true = rw same own in
            let equal : key ≡ suite.key = (eq_iff key suite.key).0 own in
            let closed : All (λ other. str_eq key other.key ≡ false) rest =
              rw equal (other_keys-distinct suite rest distinct) in
            rw found
              (same, inside suite r (here ∙ own) h, untouched rest results closed opened later)
        | inr foreign ↦
            let missed : str_eq key k ≡ false = rw same foreign in
            let rest_distinct = (distinct-cons _ (all_distinct (keys_of rest)) distinct).1 in
            rw missed (
              same,
              outside suite r (here ∙ foreign) h,
              changed past past' key f inside outside rest results rest_distinct opened later,
            )
      ]
    where
      untouched :
          (rest : List SuiteContract) (results : Results)
          → All (λ other. str_eq key other.key ≡ false) rest
          → All (IsOpen past (some key)) rest
          → AreReported past rest results
          → AreReported past' rest results
      untouched [] [] closed opened h = tt
      untouched [] (item ∷ results) closed opened h = elim h [ ]
      untouched (suite ∷ rest) [] closed opened h = elim h [ ]
      untouched (suite ∷ rest) ((k, r) ∷ results) (foreign, closed) (here, opened) (key, h, later) =
          (key, outside suite r (here ∙ foreign) h, untouched rest results closed opened later)
