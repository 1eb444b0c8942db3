-- ===== src/StageEvidence/Counts.antt =====
-- The counts of warnings and errors in a log, line by line.
use Prim.Native.String.{String}
use toi_no_mori_mvs.Common.{
  All, Bool-cases, List, Option-cases, [], ap, eq_iff, inl, inr, none, refl,
}
use toi_no_mori_mvs.Common.{some, str_eq, subst, sym, ℕ, ◌↔◌, ◌∙◌, ◌∷◌, ◌≡◌, ◌≢◌, ◌⊎◌}
use toi_no_mori_mvs.Python.Lines.{lstrip}
use toi_no_mori_mvs.Python.Matching.{read_number}
use toi_no_mori_mvs.Python.Platform.{Platform}
use toi_no_mori_mvs.StageEvidence.Patterns.{count_line, count_lines}

-- Some of the lines is like that.
abbrev pub SomeLine : (String → Type 0) → List String → Type 0
SomeLine P [] = ⊥
SomeLine P (line ∷ lines) = P line ⊎ SomeLine P lines

module _ (p : Platform) (label : String) where
  -- The line is white space, a number in decimal digits, and the label.
  abbrev pub Counts : (line : String) → ℕ → Type 0
  Counts line n = read_number p (lstrip line) ≡ some (n, label)

  -- The line counts 0, or it is no such line.
  abbrev pub CountsNone : (line : String) → Type 0
  CountsNone line = Counts line 0 ⊎ (¬ ((n : ℕ) × Counts line n))

  count_line-cases :
      (line : String)
      → ((count_line p label line ≡ none) × (¬ ((n : ℕ) × Counts line n)))
        ⊎ ((n : ℕ) × (count_line p label line ≡ some n) × Counts line n)
  count_line-cases line = elim (Option-cases (read_number p (lstrip line))) [
    | inl missing ↦ inl (rw missing refl, λ (n, h). cc)
    | inr ((n, rest), read) ↦ elim (Bool-cases (str_eq rest label)) [
      | inl same ↦
          let equal : rest ≡ label = (eq_iff rest label).0 same in
          inr (n, rw (read, same) refl, read ∙ ap (λ s. some (n, s)) equal)
      | inr other ↦ inl (
        rw (read, other) refl,
        λ (m, h). let equal : rest ≡ label = cc in let same = (eq_iff rest label).1 equal in cc,
      )
    ]
  ]

  count_lines-missing :
      (line : String) (lines : List String)
      → count_line p label line ≡ none
      → count_lines p label (line ∷ lines) ≡ count_lines p label lines
  count_lines-missing line lines h = rw (count_lines, h) refl

  count_lines-found :
      (line : String) (lines : List String) (n : ℕ)
      → count_line p label line ≡ some n
      → count_lines p label (line ∷ lines) ≡ n ∷ count_lines p label lines
  count_lines-found line lines n h = rw (count_lines, h) refl

  abbrev AreZero : List ℕ → Type 0
  AreZero ns = All (λ n. n ≡ 0) ns

  zeros_sound : (lines : List String) → AreZero (count_lines p label lines) → All CountsNone lines
  zeros_sound [] h = tt
  zeros_sound (line ∷ lines) h = elim (count_line-cases line) [
    | inl (missing, not_counted) ↦ (
      inr not_counted,
      zeros_sound lines (subst AreZero (count_lines-missing line lines missing) h),
    )
    | inr (n, found, counted) ↦
        let (zero_count, later) = subst AreZero (count_lines-found line lines n found) h in
        (inl (counted ∙ ap (λ m. some (m, label)) zero_count), zeros_sound lines later)
  ]

  zeros_complete :
      (lines : List String) → All CountsNone lines → AreZero (count_lines p label lines)
  zeros_complete [] h = tt
  zeros_complete (line ∷ lines) (here, h) = elim (count_line-cases line) [
    | inl (missing, _) ↦
        subst AreZero (sym (count_lines-missing line lines missing)) (zeros_complete lines h)
    | inr (n, found, counted) ↦
        let zero_count : n ≡ 0 = elim here [
          | inl counts_zero ↦ cc
          | inr not_counted ↦ absurd (not_counted (n, counted))
        ] in
        subst AreZero (sym (count_lines-found line lines n found))
          (zero_count, zeros_complete lines h)
  ]

  some_sound :
      (lines : List String)
      → count_lines p label lines ≢ []
      → All CountsNone lines
      → SomeLine (λ line. Counts line 0) lines
  some_sound [] h k = absurd (h refl)
  some_sound (line ∷ lines) h (here, k) = elim here [
    | inl counts_zero ↦ inl counts_zero
    | inr not_counted ↦ elim (count_line-cases line) [
      | inl (missing, _) ↦
          inr (some_sound lines (λ e. h (count_lines-missing line lines missing ∙ e)) k)
      | inr (n, found, counted) ↦ absurd (not_counted (n, counted))
    ]
  ]

  some_complete :
      (lines : List String)
      → SomeLine (λ line. Counts line 0) lines
      → count_lines p label lines ≢ []
  some_complete [] h e = elim h [ ]
  some_complete (line ∷ lines) h e = elim (count_line-cases line) [
    | inl (missing, not_counted) ↦ elim h [
      | inl counts_zero ↦ not_counted (0, counts_zero)
      | inr later ↦ some_complete lines later (sym (count_lines-missing line lines missing) ∙ e)
    ]
    | inr (n, found, counted) ↦ let cons = sym (count_lines-found line lines n found) ∙ e in cc
  ]

  -- There are counts and all of them are 0, exactly where some line counts 0 and no line counts
  -- anything else.
  pub Counts-iff :
      (lines : List String)
      → ((count_lines p label lines ≢ []) × All (λ n. n ≡ 0) (count_lines p label lines))
        ↔ (SomeLine (λ line. Counts line 0) lines × All CountsNone lines)
  Counts-iff lines = (
    λ (some_counts, zeros).
        let quiet = zeros_sound lines zeros in (some_sound lines some_counts quiet, quiet),
    λ (some_zero, quiet). (some_complete lines some_zero, zeros_complete lines quiet),
  )
