-- ===== src/Controller/Schema/Formats.antt =====
-- `_format_is_valid` and `RFC3339_DATE_TIME` of scripts/ai_controller/core.py.
use Prim.Native.Char.{code}
use Prim.Native.String.{String, [], ◌∷◌}
use toi_no_mori_mvs.Common.{
  Bool, List, Option, [], false, if◌then◌else◌, none, refl, some, str_eq, true,
}
use toi_no_mori_mvs.Common.{ℕ, ◌&&◌, ◌<>◌, ◌==◌, ◌||◌, ◌∷◌, ◌≡◌}
use toi_no_mori_mvs.Controller.Constants.{is_decimal}
use toi_no_mori_mvs.Python.Platform.{Platform}

-- A fixed row of character classes at the start of a text, and the text behind it.
eat : List (ℕ → Bool) → String → Option String
eat [] s = some s
eat (p ∷ ps) [] = none
eat (p ∷ ps) (c ∷ s) = elim (p (code c)) [ true ↦ eat ps s | false ↦ none ]

abbrev is_at : ℕ → ℕ → Bool
is_at expected n = n == expected

-- `[0-9]{4}-[0-9]{2}-[0-9]{2}`
abbrev date_row : List (ℕ → Bool)
date_row =
    is_decimal
    ∷ is_decimal
    ∷ is_decimal
    ∷ is_decimal
    ∷ is_at b'-'
    ∷ is_decimal
    ∷ is_decimal
    ∷ is_at b'-'
    ∷ is_decimal
    ∷ is_decimal
    ∷ []

-- `T[0-9]{2}:[0-9]{2}:[0-9]{2}`
abbrev time_row : List (ℕ → Bool)
time_row =
    is_at b'T'
    ∷ is_decimal
    ∷ is_decimal
    ∷ is_at b':'
    ∷ is_decimal
    ∷ is_decimal
    ∷ is_at b':'
    ∷ is_decimal
    ∷ is_decimal
    ∷ []

-- `[+-][0-9]{2}:[0-9]{2}`
abbrev offset_row : List (ℕ → Bool)
offset_row =
    (λ n. (n == b'+') || (n == b'-'))
    ∷ is_decimal
    ∷ is_decimal
    ∷ is_at b':'
    ∷ is_decimal
    ∷ is_decimal
    ∷ []

-- The whole text is used up.
abbrev is_spent : Option String → Bool
is_spent (some []) = true
is_spent _ = false

-- `(?:Z|[+-][0-9]{2}:[0-9]{2})` to the end of the text.
is_zone : String → Bool
unfolding eat
is_zone s = is_spent (eat (is_at b'Z' ∷ []) s) || is_spent (eat offset_row s)

drop_decimals : String → String
drop_decimals [] = []
drop_decimals (c ∷ s) = let rest = drop_decimals s in if is_decimal (code c) then rest else c ∷ s

-- `(?:\.[0-9]+)?` and the zone behind it.
is_fraction_and_zone : String → Bool
unfolding is_zone drop_decimals
is_fraction_and_zone (p ∷ d ∷ s) =
    if code p == b'.' then is_decimal (code d) && is_zone (drop_decimals s) else is_zone (p ∷ d ∷ s)
is_fraction_and_zone s = is_zone s

-- `RFC3339_DATE_TIME.fullmatch(s) is not None`.
unfoldable pub is_rfc3339 : String → Bool
unfolding eat is_fraction_and_zone
is_rfc3339 s = elim (eat date_row s) [
  | none ↦ false
  | some rest ↦ elim (eat time_row rest) [ none ↦ false | some rest' ↦ is_fraction_and_zone rest' ]
]

-- `re.fullmatch(r"[0-9]{4}-[0-9]{2}-[0-9]{2}", s) is not None`.
unfoldable pub is_date_text : String → Bool
unfolding eat
is_date_text s = is_spent (eat date_row s)

-- `s.replace("Z", "+00:00")`
unfoldable pub replace_z : String → String
replace_z [] = []
replace_z (c ∷ s) = let rest = replace_z s in if code c == b'Z' then "+00:00" <> rest else c ∷ rest

abbrev pub is_some {ℓ} : {A : Type ℓ} → Option A → Bool
is_some none = false
is_some (some a) = true

-- A date or a date and time that the calendar accepts; no other format is valid.
unfoldable pub format_is_valid : Platform → String → String → Bool
unfolding is_date_text is_rfc3339 replace_z
format_is_valid p value name =
    if str_eq name "date"
    then is_date_text value && is_some (p.date_from_iso value)
    else if str_eq name "date-time"
    then is_rfc3339 value && is_some (p.datetime_from_iso (replace_z value))
    else false

rfc3339_tests :
    (is_rfc3339 "2026-08-28T09:00:00.125+09:00" ≡ true)
    × (is_rfc3339 "2026-08-28T09:00:00Z" ≡ true)
    × (is_rfc3339 "2026-08-28 09:00:00Z" ≡ false)
    × (is_rfc3339 "2026-08-28T09:00:00." ≡ false)
unfolding is_rfc3339
rfc3339_tests = (refl, refl, refl, refl)
