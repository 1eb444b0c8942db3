-- ===== src/Python/Platform.antt =====
-- The run-time services that the controller calls and does not implement.
use toi_no_mori_mvs.Common.{Bool, Option, String, ℕ}
use toi_no_mori_mvs.Python.Json.{Json}
use toi_no_mori_mvs.Python.Numbers.{Float, ℤ}

-- What `datetime.fromisoformat` returns: local microseconds since the start of year 1, and the
-- offset from UTC in microseconds, if the text states one.
pub record DateTime : Type 0 where
  pub local : ℕ
  pub offset : Option ℤ

-- What `Path.read_text` does: it returns a text, or raises `OSError` or `UnicodeDecodeError`.
pub data ReadText : Type 0 where
  readable : (text : String) → ReadText
  unreadable undecodable : ReadText

pub record Platform : Type 0 where
  -- `hashlib.sha256(text.encode("utf-8")).hexdigest()`
  pub sha256 : String → String
  -- `repr` of a finite float, and of any value
  pub float_repr : Float → String
  pub repr : Json → String
  -- `re.compile(pattern)` with its `search`, none where it raises `re.error`
  pub re_compile : String → Option (String → Bool)
  -- `json.loads`, none where it raises `JSONDecodeError`; a text of the model is made of Unicode scalar
  -- values, so documents with escaped lone surrogates have no counterpart
  pub json_loads : String → Option Json
  -- `read_text(encoding="utf-8")`, by the path from the repository's root
  pub read_text : String → ReadText
  -- `Path.is_file`
  pub is_file : String → Bool
  -- `date.fromisoformat` (as an ordinal) and `datetime.fromisoformat`, none for `ValueError`
  pub date_from_iso : String → Option ℕ
  pub datetime_from_iso : String → Option DateTime
  -- the value of a code point that is a decimal digit, what `\d` matches and `int` reads
  pub digit_value : ℕ → Option ℕ
  -- `str.lower`
  pub lower : String → String
