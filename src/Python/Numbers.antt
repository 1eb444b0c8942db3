-- ===== src/Python/Numbers.antt =====
-- Integers and floating-point numbers with their exact values, and Python's `==` and `<` on them.
use toi_no_mori_mvs.Common.{ℕ, zero, suc, ◌+◌, ◌*◌, ◌%◌, ◌^◌, Bool, true, false, ltb, ◌==◌}
use toi_no_mori_mvs.Common.{if◌then◌else◌}

-- `negsuc n` is -(n + 1).
pub data ℤ : Type 0 where
  pos : ℕ → ℤ
  negsuc : ℕ → ℤ

abbrev pub pos_part : ℤ → ℕ
pos_part (pos n) = n
pos_part (negsuc n) = 0

abbrev pub neg_part : ℤ → ℕ
neg_part (pos n) = 0
neg_part (negsuc n) = suc n

abbrev pub int_eq : ℤ → ℤ → Bool
int_eq a b = (pos_part a + neg_part b) == (pos_part b + neg_part a)

abbrev pub int_lt : ℤ → ℤ → Bool
int_lt a b = ltb (pos_part a + neg_part b) (pos_part b + neg_part a)

-- A double: plus or minus `mantissa / 2 ^ scale`, an infinity, or not a number.
pub data Float : Type 0 where
  finite : (negative : Bool) (mantissa scale : ℕ) → Float
  infinite : (negative : Bool) → Float
  nan : Float

abbrev pub signed : Bool → ℕ → ℤ
signed false n = pos n
signed true zero = pos zero
signed true (suc n) = negsuc n

abbrev pub magnitude : ℤ → ℕ
magnitude (pos n) = n
magnitude (negsuc n) = suc n

abbrev pub is_negative : ℤ → Bool
is_negative (pos n) = false
is_negative (negsuc n) = true

abbrev pub of_int : ℤ → Float
of_int z = finite (is_negative z) (magnitude z) 0

-- `math.isfinite`.
abbrev pub is_finite : Float → Bool
is_finite (finite s m k) = true
is_finite (infinite s) = false
is_finite nan = false

-- `float.is_integer`.
abbrev pub is_integer : Float → Bool
is_integer (finite s m k) = (m % 2 ^ k) == 0
is_integer (infinite s) = false
is_integer nan = false

abbrev same_sign : Bool → Bool → Bool
same_sign true b = b
same_sign false b = if b then false else true

abbrev pub float_eq : Float → Float → Bool
float_eq (finite s m j) (finite t n k) = int_eq (signed s (m * 2 ^ k)) (signed t (n * 2 ^ j))
float_eq (infinite s) (infinite t) = same_sign s t
float_eq _ _ = false

abbrev pub float_lt : Float → Float → Bool
float_lt (finite s m j) (finite t n k) = int_lt (signed s (m * 2 ^ k)) (signed t (n * 2 ^ j))
float_lt (finite s m j) (infinite t) = if t then false else true
float_lt (infinite s) (finite t n k) = s
float_lt (infinite true) (infinite false) = true
float_lt _ _ = false
