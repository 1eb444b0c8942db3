-- ===== src/Controller/Schema.antt =====
-- JSON Schema validation in scripts/ai_controller/core.py: the keywords and types that a schema
-- may use, and the parts that the checks of schemas and of documents share.
pub mod Formats
pub mod Definition
pub mod Instance
pub mod Approved
pub mod Keywords
pub mod Nodes
pub mod Totality
use Prim.Native.String.{String, [], ◌∷◌}
use toi_no_mori_mvs.Common.{Bool, List, [], false, if◌then◌else◌, str_eq, true, ◌&&◌, ◌∷◌}
use toi_no_mori_mvs.Python.Json.{
  Fields, Json, arr, bool, end, field, float, get, int, is_dict, is_list, is_null,
}
use toi_no_mori_mvs.Python.Json.{is_str, items, null, obj, str}
use toi_no_mori_mvs.Python.Numbers.{is_finite, is_integer}
use toi_no_mori_mvs.Python.Result.{Result, err, ok, type_error}

abbrev pub draft_2020_12 : String
draft_2020_12 = "https://json-schema.org/draft/2020-12/schema"

-- `APPROVED_SCHEMAS`
abbrev pub approved_schemas : List (String × String)
approved_schemas =
    ("work-order.schema.json", "work-order.schema.json@1")
    ∷ ("manufacturing-result.schema.json", "manufacturing-result.schema.json@3")
    ∷ ("review-request.schema.json", "review-request.schema.json@1")
    ∷ ("technical-review.schema.json", "technical-review.schema.json@3")
    ∷ ("finding-disposition-record.schema.json", "finding-disposition-record.schema.json@2")
    ∷ []

abbrev pub supported_schema_keywords : List String
supported_schema_keywords =
    "$schema" ∷ "$id" ∷ "title" ∷ "type" ∷ "additionalProperties" ∷ "required" ∷ "properties"
    ∷ "const" ∷ "enum" ∷ "items" ∷ "minItems" ∷ "uniqueItems" ∷ "minLength" ∷ "minimum" ∷ "maximum"
    ∷ "pattern" ∷ "format" ∷ []

abbrev pub supported_schema_types : List String
supported_schema_types = "object" ∷ "array" ∷ "string" ∷ "integer" ∷ "boolean" ∷ "null" ∷ []

abbrev pub supported_schema_formats : List String
supported_schema_formats = "date" ∷ "date-time" ∷ []

-- The elements that `for x in v` takes from a value; a number or `None` raises `TypeError`.
abbrev pub key_values : Fields → List Json
key_values end = []
key_values (field k v fs) = str k ∷ key_values fs

-- The characters of a text, each a text.
abbrev pub characters : String → List Json
characters [] = []
characters (c ∷ s) = str (c ∷ []) ∷ characters s

abbrev pub iterate : Json → Result (List Json)
iterate (arr vs) = ok (items vs)
iterate (obj fs) = ok (key_values fs)
iterate (str s) = ok (characters s)
iterate _ = err type_error

-- A list or a dict cannot be hashed.
abbrev pub is_hashable : Json → Bool
is_hashable (arr vs) = false
is_hashable (obj fs) = false
is_hashable _ = true

abbrev pub types_of : Json → Result (List Json)
types_of null = ok []
types_of (str s) = ok (str s ∷ [])
types_of v = iterate v

-- `_schema_types`
abbrev pub schema_types : Fields → Result (List Json)
schema_types schema = types_of (get "type" schema)

-- `_json_type_matches`; `expected` is no string only in a schema that was not checked.
abbrev pub is_json_integer : Json → Bool
is_json_integer (int z) = true
is_json_integer (float f) = is_finite f && is_integer f
is_json_integer _ = false

abbrev pub is_bool : Json → Bool
is_bool (bool b) = true
is_bool _ = false

abbrev pub type_matches : Json → String → Bool
type_matches value expected =
    if str_eq expected "object"
    then is_dict value
    else if str_eq expected "array"
    then is_list value
    else if str_eq expected "string"
    then is_str value
    else if str_eq expected "integer"
    then is_json_integer value
    else if str_eq expected "boolean"
    then is_bool value
    else if str_eq expected "null"
    then is_null value
    else false

abbrev pub json_type_matches : Json → Json → Bool
json_type_matches value (str expected) = type_matches value expected
json_type_matches value _ = false
