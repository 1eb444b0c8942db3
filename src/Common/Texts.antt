-- ===== src/Common/Texts.antt =====
-- Python's operations on `str` that the sources use, by recursion on the characters.
use Prim.Native.Nat.{ℕ, suc}
use Prim.Native.Char.{Char, code}
use Prim.Native.String.{String, [], ◌∷◌}
use mathlib.Core.Bool.{Bool, true, false, ◌&&◌, ◌||◌}
use mathlib.Core.List.{List, [], ◌∷◌}
use text.Mathlib.Text.{◌==◌ as str_eq, starts_with}
use toi_no_mori_mvs.Common.Tests.{leb, ◌==◌, if◌then◌else◌}

-- `len(s)`, in code points.
abbrev pub size : String → ℕ
size [] = 0
size (c ∷ s) = suc (size s)

-- Every code point passes the test.
abbrev pub all_codes : (ℕ → Bool) → String → Bool
all_codes p [] = true
all_codes p (c ∷ s) = p (code c) && all_codes p s

-- Some code point passes the test.
abbrev pub any_code : (ℕ → Bool) → String → Bool
any_code p [] = false
any_code p (c ∷ s) = p (code c) || any_code p s

-- `t in s`.
unfoldable pub contains_text : String → String → Bool
contains_text t [] = starts_with [] t
contains_text t (c ∷ s) = starts_with (c ∷ s) t || contains_text t s

abbrev pub cons_head : Char → List String → List String
cons_head c [] = (c ∷ []) ∷ []
cons_head c (w ∷ ws) = (c ∷ w) ∷ ws

-- `s.split("/")`.
unfoldable pub split_slash : String → List String
split_slash [] = [] ∷ []
split_slash (c ∷ s) =
    let rest = split_slash s in if code c == b'/' then [] ∷ rest else cons_head c rest

-- `s.rstrip("*")`.
unfoldable pub rstrip_star : String → String
rstrip_star [] = []
rstrip_star (c ∷ s) =
    let rest = rstrip_star s in if (code c == b'*') && str_eq rest [] then [] else c ∷ rest

-- `str.isspace` of one code point.
abbrev pub is_space : ℕ → Bool
is_space n =
    (leb 9 n && leb n 13)
    || (leb 28 n && leb n 32)
    || (n == 0x85)
    || (n == 0xa0)
    || (n == 0x1680)
    || (leb 0x2000 n && leb n 0x200a)
    || (n == 0x2028)
    || (n == 0x2029)
    || (n == 0x202f)
    || (n == 0x205f)
    || (n == 0x3000)

-- The truth value of `s.strip()`.
abbrev pub is_not_blank : String → Bool
is_not_blank s = any_code (λ n. if is_space n then false else true) s

abbrev is_hex_digit : ℕ → Bool
is_hex_digit n = (leb b'0' n && leb n b'9') || (leb b'a' n && leb n b'f')

-- `re.compile(r"^[0-9a-f]{n}$").fullmatch(s) is not None`.
unfoldable pub is_hex : ℕ → String → Bool
is_hex n s = (size s == n) && all_codes is_hex_digit s
