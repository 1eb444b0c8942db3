-- ===== src/StageEvidence/Patterns.antt =====
-- The regular expressions of scripts/ci/write-stage6r*-evidence.py, each a reader of one line.
use Prim.Native.String.{String, [], ◌∷◌}
use toi_no_mori_mvs.Common.{
  [], Bool, List, Option, false, if◌then◌else◌, leb, none, some, str_eq, true,
}
use toi_no_mori_mvs.Common.{ℕ, ◌&&◌, ◌<>◌, ◌∷◌}
use toi_no_mori_mvs.Python.Lines.{lstrip, split_lf}
use toi_no_mori_mvs.Python.Matching.{after, counted, read_number, span, ◌&>◌}
use toi_no_mori_mvs.Python.Platform.{Platform}

-- `[0-9]` and `[A-Z]`
abbrev is_ascii_digit : ℕ → Bool
is_ascii_digit n = leb b'0' n && leb n b'9'

abbrev is_capital : ℕ → Bool
is_capital n = leb b'A' n && leb n b'Z'

-- `(?:-[A-Z]+)?`, with what it matched.
unfoldable pub suffix : String → String
unfolding after span
suffix s = elim (after "-" s) [
  | none ↦ ""
  | some t ↦ let letters = (span is_capital t).0 in if str_eq letters "" then "" else "-" <> letters
]

-- `TC-(?:ACC|PERF)-MVS01-[0-9]{3}(?:-[A-Z]+)?` at the front of a text, with what it matched.
unfoldable pub test_id : String → Option String
unfolding after counted suffix
test_id s = after "TC-" s &> (λ t. kind t &> (λ (name, u). after "-MVS01-" u &> (λ w.
    counted is_ascii_digit 3 w
    &> (λ (digits, rest). some ("TC-" <> (name <> ("-MVS01-" <> (digits <> suffix rest))))))))
  where
    kind : String → Option (String × String)
    kind t = elim (after "ACC" t) [
      | some rest ↦ some ("ACC", rest)
      | none ↦ elim (after "PERF" t) [ some rest ↦ some ("PERF", rest) | none ↦ none ]
    ]

-- `(ok|not ok)`: whether it was `ok`, and the rest.
abbrev pub verdict : String → Option (Bool × String)
verdict s = elim (after "ok" s) [
  | some rest ↦ some (true, rest)
  | none ↦ elim (after "not ok" s) [ some rest ↦ some (false, rest) | none ↦ none ]
]

module _ (p : Platform) where
  -- `TEST_LINE.match(line)`: the verdict and the id of the test.
  unfoldable pub test_line : String → Option (Bool × String)
  unfolding after read_number test_id
  test_line line = verdict line &> (λ (is_ok, s). after " " s &> (λ t.
      read_number p t &> (λ (_, u). after " - " u &> (λ w. test_id w &> (λ id. some (is_ok, id))))))

  -- `RESULT.match(line)`: the tests that passed, that failed, and all of them.
  unfoldable pub result_line : String → Option (ℕ × ℕ × ℕ)
  unfolding after read_number
  result_line line = after "# result: " line &> (λ s. read_number p s &> (λ (passed, t).
      after " passed; " t &> (λ u. read_number p u &> (λ (failed, w). after " failed; " w &> (λ x.
        read_number p x &> (λ (total, rest).
          if str_eq rest " total" then some (passed, failed, total) else none))))))

  -- A line that is `\s*(\d+)` with a fixed text behind it.
  abbrev pub count_line : (label line : String) → Option ℕ
  count_line label line =
      read_number p (lstrip line) &> (λ (n, rest). if str_eq rest label then some n else none)

  abbrev pub count_lines : (label : String) → List String → List ℕ
  count_lines label [] = []
  count_lines label (line ∷ lines) =
      let rest = count_lines label lines in
      elim (count_line label line) [ none ↦ rest | some n ↦ n ∷ rest ]

  -- `[int(value) for value in WARNING_COUNT.findall(log_text)]`, and the same for `ERROR_COUNT`:
  -- blank lines that `\s*` may take in front of a line change no count.
  unfoldable pub warning_counts : String → List ℕ
  unfolding read_number lstrip split_lf
  warning_counts log_text = count_lines " Warning(s)" (split_lf log_text)

  unfoldable pub error_counts : String → List ℕ
  unfolding read_number lstrip split_lf
  error_counts log_text = count_lines " Error(s)" (split_lf log_text)
