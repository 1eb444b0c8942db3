-- ===== src/Python/Matching/RoundTrip.antt =====
-- Reading back what was printed.
use Prim.Native.Char.{Char, code}
use Prim.Native.String.{String, [], ◌∷◌}
use text.Mathlib.TextLemmas.{nil-append, cons-append, append_assoc}
use toi_no_mori_mvs.Common.{
  Bool-cases, [], ap, arith, inl, inr, ltb, none, refl, some, suc, sym, true, zero,
}
use toi_no_mori_mvs.Common.{ℕ, ◌%◌, ◌*◌, ◌+◌, ◌/◌, ◌<>◌, ◌<◌, ◌==◌, ◌∙◌, ◌∷◌, ◌≡◌, ◌≤◌}
use toi_no_mori_mvs.Python.Canonical.{decimal, decimal_fuel, digit}
use toi_no_mori_mvs.Python.Matching.{after, digits_from, read_number}
use toi_no_mori_mvs.Python.Platform.{Platform}

equal_self : (n : ℕ) → (n == n) ≡ true
equal_self n = ground arith

-- A fixed text is matched at the front of a text that begins with it.
pub after-append : (fixed s : String) → after fixed (fixed <> s) ≡ some s
unfolding after
after-append [] s = ap some (nil-append s)
after-append (a ∷ fixed) s =
    rw (cons-append a fixed s, after, equal_self (code a)) (after-append fixed s)

-- The services read the digits 0 to 9 as Python does, and no digit in a space.
pub record ReadsDecimal (p : Platform) : Type 0 where
  pub digits : (d : ℕ) → d < 10 → p.digit_value (b'0' + d) ≡ some d
  pub space : p.digit_value 32 ≡ none

digit_char : (d : ℕ) → d < 10 → (c : Char) × (digit d ≡ c ∷ []) × (code c ≡ b'0' + d)
digit_char zero h = ("0", refl, refl)
digit_char (suc zero) h = ("1", refl, refl)
digit_char (suc (suc zero)) h = ("2", refl, refl)
digit_char (suc (suc (suc zero))) h = ("3", refl, refl)
digit_char (suc (suc (suc (suc zero)))) h = ("4", refl, refl)
digit_char (suc (suc (suc (suc (suc zero))))) h = ("5", refl, refl)
digit_char (suc (suc (suc (suc (suc (suc zero)))))) h = ("6", refl, refl)
digit_char (suc (suc (suc (suc (suc (suc (suc zero))))))) h = ("7", refl, refl)
digit_char (suc (suc (suc (suc (suc (suc (suc (suc zero)))))))) h = ("8", refl, refl)
digit_char (suc (suc (suc (suc (suc (suc (suc (suc (suc zero))))))))) h = ("9", refl, refl)
digit_char (suc (suc (suc (suc (suc (suc (suc (suc (suc (suc n)))))))))) h = absurd (omega arith)

module _ (p : Platform) (reads : ReadsDecimal p) where
  digits_from-digit :
      (m d : ℕ) (rest : String)
      → d < 10
      → digits_from p m (digit d <> rest) ≡ digits_from p (m * 10 + d) rest
  unfolding digits_from
  digits_from-digit m d rest h =
      let (c, printed, value) = digit_char d h in
      let read : p.digit_value (code c) ≡ some d = ap p.digit_value value ∙ reads.digits d h in
      let front : digit d <> rest ≡ c ∷ rest =
        ap (λ s. s <> rest) printed ∙ cons-append c [] rest ∙ ap (λ s. c ∷ s) (nil-append rest) in
      ap (digits_from p m) front ∙ rw (digits_from, read) refl

  -- The digits that were printed are read back, and reading goes on behind them.
  digits_from-decimal_fuel :
      (fuel n : ℕ) (rest : String)
      → n < fuel
      → digits_from p 0 (decimal_fuel fuel n <> rest) ≡ digits_from p n rest
  digits_from-decimal_fuel zero n rest h = absurd (omega arith)
  digits_from-decimal_fuel (suc fuel) n rest h = elim (Bool-cases (ltb n 10)) [
    | inl small ↦
        let below : n < 10 = ground arith in
        rw small (digits_from-digit 0 n rest below ∙ ap (λ k. digits_from p k rest) (omega arith))
    | inr large ↦
        let split : n / 10 * 10 + n % 10 ≡ n = omega arith in
        let least : 10 ≤ n = ground arith in
        rw large (
          ap (digits_from p 0) (append_assoc (decimal_fuel fuel (n / 10)) (digit (n % 10)) rest)
          ∙ digits_from-decimal_fuel fuel (n / 10) (digit (n % 10) <> rest) (omega arith)
          ∙ digits_from-digit (n / 10) (n % 10) rest (omega arith)
          ∙ ap (λ k. digits_from p k rest) split)
  ]

  first_digit :
      (fuel n : ℕ)
      → n < fuel
      → (c : Char) × (t : String) × (d : ℕ) × (decimal_fuel fuel n ≡ c ∷ t)
        × (p.digit_value (code c) ≡ some d)
  first_digit zero n h = absurd (omega arith)
  first_digit (suc fuel) n h = elim (Bool-cases (ltb n 10)) [
    | inl small ↦
        let (c, printed, value) = digit_char n (ground arith) in
        (c, [], n, rw small printed, ap p.digit_value value ∙ reads.digits n (ground arith))
    | inr large ↦
        let least : 10 ≤ n = ground arith in
        let (c, t, d, printed, read) = first_digit fuel (n / 10) (omega arith) in
        (
          c,
          t <> digit (n % 10),
          d,
          rw large (ap (λ s. s <> digit (n % 10)) printed ∙ cons-append c t (digit (n % 10))),
          read,
        )
  ]

  stops : (n : ℕ) (rest : String) → digits_from p n (" " <> rest) ≡ (n, " " <> rest)
  unfolding digits_from
  stops n rest =
      let front : " " <> rest ≡ " " ∷ rest =
        cons-append " " [] rest ∙ ap (λ s. " " ∷ s) (nil-append rest) in
      ap (digits_from p n) front ∙ rw (digits_from, reads.space) refl ∙ ap (λ s. (n, s)) (sym front)

  -- A printed number is read back in front of anything that begins with a space.
  pub read_number-decimal :
      (n : ℕ) (rest : String) → read_number p (decimal n <> (" " <> rest)) ≡ some (n, " " <> rest)
  unfolding read_number digits_from
  read_number-decimal n rest =
      let (c, t, d, printed, read) = first_digit (suc n) n (omega arith) in
      let whole : decimal n <> (" " <> rest) ≡ c ∷ (t <> (" " <> rest)) =
        ap (λ s. s <> (" " <> rest)) printed ∙ cons-append c t (" " <> rest) in
      let same : digits_from p (0 * 10 + d) (t <> (" " <> rest))
          ≡ digits_from p 0 (decimal n <> (" " <> rest)) =
        rw (whole, digits_from, read) refl in
      let zero_first : d ≡ 0 * 10 + d = omega arith in
      ap (read_number p) whole
      ∙ rw (read_number, read) refl
      ∙ ap (λ k. some (digits_from p k (t <> (" " <> rest)))) zero_first
      ∙ ap some
          (same ∙ digits_from-decimal_fuel (suc n) n (" " <> rest) (omega arith) ∙ stops n rest)
