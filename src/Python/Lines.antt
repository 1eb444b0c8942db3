-- ===== src/Python/Lines.antt =====
-- `str.splitlines`, `str.split("\n")`, `str.strip` and `str.rstrip("\r\n")`.
use Prim.Native.Char.{code}
use Prim.Native.String.{String, [], ◌∷◌}
use toi_no_mori_mvs.Common.{
  Bool, List, [], cons_head, if◌then◌else◌, is_space, leb, map, starts_with,
}
use toi_no_mori_mvs.Common.{str_eq, ℕ, ◌&&◌, ◌==◌, ◌||◌, ◌∷◌}

-- The code points at which `splitlines` ends a line.
abbrev pub is_break : ℕ → Bool
is_break n =
    (leb 10 n && leb n 13)
    || (leb 28 n && leb n 30)
    || (n == 0x85)
    || (n == 0x2028)
    || (n == 0x2029)

-- `s.splitlines()`; a carriage return before a line feed ends no line of its own.
unfoldable pub splitlines : String → List String
splitlines [] = []
splitlines (c ∷ s) =
    let rest = splitlines s in
    if is_break (code c)
    then if (code c == 13) && starts_with s "\n" then rest else "" ∷ rest
    else cons_head c rest

-- `s.split("\n")`, the lines that `^` and `$` see under `re.MULTILINE`.
unfoldable pub split_lf : String → List String
split_lf [] = "" ∷ []
split_lf (c ∷ s) = let rest = split_lf s in if code c == 10 then "" ∷ rest else cons_head c rest

-- `s.lstrip()`
unfoldable pub lstrip : String → String
lstrip [] = []
lstrip (c ∷ s) = let rest = lstrip s in if is_space (code c) then rest else c ∷ s

-- `s.rstrip()` for a class of code points.
unfoldable pub rstrip_codes : (ℕ → Bool) → String → String
rstrip_codes test [] = []
rstrip_codes test (c ∷ s) =
    let rest = rstrip_codes test s in if test (code c) && str_eq rest [] then [] else c ∷ rest

-- `s.strip()`
unfoldable pub strip : String → String
unfolding lstrip rstrip_codes
strip s = lstrip (rstrip_codes is_space s)

-- `[line.strip() for line in text.splitlines() if line.strip()]`
abbrev pub filled : List String → List String
filled [] = []
filled (s ∷ ss) = let rest = filled ss in if str_eq s "" then rest else s ∷ rest

unfoldable pub stripped_lines : String → List String
unfolding splitlines strip
stripped_lines text = filled (map strip (splitlines text))

-- `[line.rstrip("\r\n") for line in text.splitlines() if line.rstrip("\r\n")]`
unfoldable pub canary_lines : String → List String
unfolding splitlines rstrip_codes
canary_lines text = filled (map (rstrip_codes (λ n. (n == 10) || (n == 13))) (splitlines text))
