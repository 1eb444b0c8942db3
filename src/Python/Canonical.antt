-- ===== src/Python/Canonical.antt =====
-- `canonical_json`, `sha256_text` and `content_hash` of scripts/ai_controller/core.py, with the
-- `json.dumps(value, ensure_ascii=False, sort_keys=True, separators=(",", ":"))` that they call.
mod Order
pub mod KeyOrder
use Prim.Native.Nat.{Ordering}
use Prim.Native.Char.{Char, code}
use Prim.Native.String.{String, [], ◌∷◌, compare}
use toi_no_mori_mvs.Common.{ℕ, zero, suc, ◌+◌, ◌/◌, ◌%◌, Bool, true, false, ◌<>◌, List, [], ◌∷◌}
use toi_no_mori_mvs.Common.{ltb, ◌==◌, if◌then◌else◌, ◌≡◌, refl}
use toi_no_mori_mvs.Python.Numbers.{ℤ, pos, negsuc, Float, finite, infinite, nan}
use toi_no_mori_mvs.Python.Json.{Json, null, bool, int, float, str, arr, obj, Items, nil, cons}
use toi_no_mori_mvs.Python.Json.{Fields, end, field, to_fields}
use toi_no_mori_mvs.Python.Platform.{Platform}

-- The character at an index.
abbrev char_at : ℕ → String → String
char_at n [] = ""
char_at zero (c ∷ s) = c ∷ []
char_at (suc n) (c ∷ s) = char_at n s

-- One digit, decimal or hexadecimal.
abbrev pub digit : ℕ → String
digit n = char_at n "0123456789abcdef"

-- Decimal digits; a number below the fuel is printed in full.
abbrev pub decimal_fuel : ℕ → ℕ → String
decimal_fuel zero n = ""
decimal_fuel (suc fuel) n =
    let rest = decimal_fuel fuel (n / 10) <> digit (n % 10) in if ltb n 10 then digit n else rest

abbrev pub decimal : ℕ → String
decimal n = decimal_fuel (suc n) n

-- `str` of an integer.
abbrev pub int_text : ℤ → String
int_text (pos n) = decimal n
int_text (negsuc n) = "-" <> decimal (suc n)

-- `json.dumps` of a character inside a text.
abbrev escape_char : Char → String
escape_char c =
    if code c == b'"'
    then "\\\""
    else if code c == 92
    then "\\\\"
    else if code c == 8
    then "\\b"
    else if code c == 9
    then "\\t"
    else if code c == 10
    then "\\n"
    else if code c == 12
    then "\\f"
    else if code c == 13
    then "\\r"
    else if ltb (code c) 32
    then "\\u00" <> digit (code c / 16) <> digit (code c % 16)
    else c ∷ []

abbrev escape : String → String
escape [] = ""
escape (c ∷ s) = escape_char c <> escape s

-- A text between quotation marks.
unfoldable pub quote : String → String
quote s = "\"" <> (escape s <> "\"")

-- `",".join(parts)`.
unfoldable pub join_comma : List String → String
join_comma [] = ""
join_comma (x ∷ []) = x
join_comma (x ∷ y ∷ ys) = x <> ("," <> join_comma (y ∷ ys))

abbrev pub insert_entry {ℓ} : {A : Type ℓ} → String × A → List (String × A) → List (String × A)
insert_entry (k, v) [] = (k, v) ∷ []
insert_entry (k, v) ((j, w) ∷ fs) =
    let later = insert_entry (k, v) fs in
    elim (compare k j) [ Ordering.gt ↦ (j, w) ∷ later | _ ↦ (k, v) ∷ (j, w) ∷ fs ]

-- `sorted(d.items())`: the keys of a dict differ.
unfoldable pub sort_entries {ℓ} : {A : Type ℓ} → List (String × A) → List (String × A)
sort_entries [] = []
sort_entries ((k, v) ∷ fs) = insert_entry (k, v) (sort_entries fs)

-- `"key":value` for each entry.
unfoldable pub pair_texts : List (String × String) → List String
pair_texts [] = []
pair_texts ((k, t) ∷ fs) = (quote k <> (":" <> t)) ∷ pair_texts fs

abbrev float_text : Platform → Float → String
float_text p (infinite false) = "Infinity"
float_text p (infinite true) = "-Infinity"
float_text p nan = "NaN"
float_text p f = p.float_repr f

module _ (p : Platform) where
  unfoldable mutual
    pub canonical_json : Json → String
    canonical_json null = "null"
    canonical_json (bool true) = "true"
    canonical_json (bool false) = "false"
    canonical_json (int z) = int_text z
    canonical_json (float f) = float_text p f
    canonical_json (str s) = quote s
    canonical_json (arr vs) = "[" <> (join_comma (item_texts vs) <> "]")
    canonical_json (obj fs) =
        "{" <> (join_comma (pair_texts (sort_entries (field_texts fs))) <> "}")

    pub item_texts : Items → List String
    item_texts nil = []
    item_texts (cons v vs) = canonical_json v ∷ item_texts vs

    pub field_texts : Fields → List (String × String)
    field_texts end = []
    field_texts (field k v fs) = (k, canonical_json v) ∷ field_texts fs

  -- The texts of the model can be encoded: `UnicodeEncodeError` needs a lone surrogate.
  unfoldable pub sha256_text : String → String
  sha256_text value = p.sha256 value

  unfoldable pub content_hash : Json → String
  content_hash value = sha256_text (canonical_json value)

  -- `str(value)`.
  unfoldable pub text_of : Json → String
  text_of null = "None"
  text_of (bool true) = "True"
  text_of (bool false) = "False"
  text_of (int z) = int_text z
  text_of (float f) = p.float_repr f
  text_of (str s) = s
  text_of v = p.repr v
