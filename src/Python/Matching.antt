-- ===== src/Python/Matching.antt =====
-- What the sources' regular expressions are made of: fixed texts, digits and counted classes, each
-- read from the front of a text, which leaves the rest.
pub mod RoundTrip
use Prim.Native.Char.{code}
use Prim.Native.String.{String, [], ◌∷◌}
use toi_no_mori_mvs.Common.{
  Bool, Option, [], false, if◌then◌else◌, none, some, str_eq, suc, true, zero,
}
use toi_no_mori_mvs.Common.{ℕ, ◌*◌, ◌+◌, ◌==◌, ◌∷◌}
use toi_no_mori_mvs.Python.Platform.{Platform}

infixl 5 ◌&>◌
-- A match, then a match of what is left.
abbrev pub ◌&>◌ {ℓ κ} : {A : Type ℓ} {B : Type κ} → Option A → (A → Option B) → Option B
none &> next = none
some found &> next = next found

-- The text behind a fixed one.
unfoldable pub after : (fixed s : String) → Option String
after [] s = some s
after (a ∷ fixed) [] = none
after (a ∷ fixed) (c ∷ s) = elim (code a == code c) [ true ↦ after fixed s | false ↦ none ]

-- `$`, in a text without a line feed.
abbrev pub at_end : String → Bool
at_end s = str_eq s ""

module _ (p : Platform) where
  -- `int` of the digits that follow, and the rest.
  unfoldable pub digits_from : ℕ → String → ℕ × String
  digits_from n [] = (n, [])
  digits_from n (c ∷ s) = elim (p.digit_value (code c)) [
    | none ↦ (n, c ∷ s)
    | some d ↦ digits_from (n * 10 + d) s
  ]

  -- `(\d+)` with its `int`; the interpreter's limit on the number of digits is left out.
  unfoldable pub read_number : String → Option (ℕ × String)
  unfolding digits_from
  read_number [] = none
  read_number (c ∷ s) = elim (p.digit_value (code c)) [
    | none ↦ none
    | some d ↦ some (digits_from d s)
  ]

-- The longest front of a text whose code points pass a test, and the rest.
unfoldable pub span : (ℕ → Bool) → String → String × String
span test [] = ([], [])
span test (c ∷ s) =
    let rest = span test s in if test (code c) then (c ∷ rest.0, rest.1) else ([], c ∷ s)

-- Exactly as many code points of a class.
unfoldable pub counted : (ℕ → Bool) → ℕ → String → Option (String × String)
counted test zero s = some ([], s)
counted test (suc n) [] = none
counted test (suc n) (c ∷ s) = elim (test (code c)) [
  | true ↦ counted test n s &> (λ (front, rest). some (c ∷ front, rest))
  | false ↦ none
]
