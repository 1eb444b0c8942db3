-- ===== src/Controller/Schema/Instance.antt =====
-- `_validate_instance`, `load_approved_schema` and `schema_validation_errors` of
-- scripts/ai_controller/core.py. The path of a value is carried as the text that
-- `_instance_location` makes of it.
use Prim.Native.String.{String}
use toi_no_mori_mvs.Common.{
  Bool, List, Option, [], all_distinct, any, false, if◌then◌else◌, is_empty,
}
use toi_no_mori_mvs.Common.{
  length, map, member, none, not, size, some, sorted_set, str_eq, suc, true,
}
use toi_no_mori_mvs.Common.{ℕ, ◌&&◌, ◌++◌, ◌<>◌, ◌∷◌}
use toi_no_mori_mvs.Controller.Registry.Execution.{select}
use toi_no_mori_mvs.Controller.Schema.{
  is_hashable, is_json_integer, iterate, json_type_matches, schema_types,
}
use toi_no_mori_mvs.Controller.Schema.Formats.{format_is_valid}
use toi_no_mori_mvs.Python.Canonical.{canonical_json, decimal, item_texts, text_of}
use toi_no_mori_mvs.Python.Json.{
  Fields, Items, Json, arr, cons, end, eq, field, find, get, get_or, has, int,
}
use toi_no_mori_mvs.Python.Json.{is_false, is_true, items, keys, nil, number, obj, str}
use toi_no_mori_mvs.Python.Numbers.{Float, float_lt, of_int, pos}
use toi_no_mori_mvs.Python.Platform.{Platform}
use toi_no_mori_mvs.Python.Result.{
  Result, attribute_error, err, ok, re_error, type_error, ◌>>=◌, ◌>>◌,
}

-- `if condition: errors.append(error)`
abbrev pub note : Bool → String → List String
note condition error = if condition then error ∷ [] else []

-- `location + f".{name}"` and `location + f"[{index}]"`
abbrev pub at_name : String → String → String
at_name location name = location <> ("." <> name)

abbrev pub at_index : String → ℕ → String
at_index location index = location <> ("[" <> (decimal index <> "]"))

-- `a < b` for numbers; any other operand raises `TypeError`.
abbrev pub less : Option Float → Option Float → Result Bool
less (some a) (some b) = ok (float_lt a b)
less _ _ = err type_error

-- Both lists of errors of two parts that run in turn.
abbrev pub then_errors : Result (List String) → Result (List String) → Result (List String)
then_errors first second = do xs ← first; ys ← second; ok (xs ++ ys)

-- `set(xs)` and `name in value`: a list or a dict among the elements raises.
abbrev pub require_hashable : List Json → Result (Unit {0})
require_hashable [] = ok tt
require_hashable (v ∷ vs) = if is_hashable v then require_hashable vs else err type_error

abbrev pub has_key : Json → Fields → Bool
has_key (str name) fs = has name fs
has_key _ fs = false

-- The loop over the elements of a list.
unfoldable pub over_items :
    (Json → String → Result (List String)) → ℕ → Items → String → Result (List String)
over_items element index nil location = ok []
over_items element index (cons v vs) location =
    then_errors (element v (at_index location index)) (over_items element (suc index) vs location)

-- `if name in value: _validate_instance(value[name], …)`
abbrev pub if_has : (Json → Result (List String)) → Option Json → Result (List String)
if_has validate none = ok []
if_has validate (some v) = validate v

module _ (p : Platform) where
  -- The loop over `schema.get("required", [])`.
  unfoldable pub required_errors : List Json → Fields → String → Result (List String)
  required_errors [] value location = ok []
  required_errors (name ∷ names) value location =
      then_errors
        (if is_hashable name
          then ok
              (note (not (has_key name value)) (at_name location (text_of p name) <> ":required"))
          else err type_error)
        (required_errors names value location)

  -- The loop over the keys that the schema does not name.
  unfoldable pub unnamed_errors : Json → Fields → String → Result (List String)
  unnamed_errors properties value location = do
    names ← iterate properties
    require_hashable names
    ok (
        map (λ name. at_name location name <> ":additionalProperties")
          (sorted_set (select (λ name. not (any (λ n. eq n (str name)) names)) (keys value))))

  unfoldable pub additional_errors :
      (allow properties : Json) → Fields → String → Result (List String)
  unfolding unnamed_errors
  additional_errors allow properties value location =
      if is_false allow then unnamed_errors properties value location else ok []

  unfoldable pub check_const : Option Json → Json → String → List String
  check_const none value location = []
  check_const (some v) value location =
      note (not (str_eq (canonical_json p value) (canonical_json p v))) (location <> ":const")

  unfoldable pub check_enum_value : Option Json → Json → String → Result (List String)
  check_enum_value none value location = ok []
  check_enum_value (some v) value location = do
    choices ← iterate v
    ok (
        note (not (member (canonical_json p value) (map (canonical_json p) choices)))
          (location <> ":enum"))

  unfoldable pub length_errors : ℕ → Json → String → Result (List String)
  length_errors n bound error = do
    short ← less (some (of_int (pos n))) (number bound)
    ok (note short error)

  unfoldable pub unique_errors : Json → Items → String → List String
  unique_errors unique vs location =
      note (is_true unique && not (all_distinct (item_texts p vs))) (location <> ":uniqueItems")

  unfoldable pub pattern_errors : Option Json → String → String → Result (List String)
  pattern_errors none value location = ok []
  pattern_errors (some (str pattern)) value location = elim (p.re_compile pattern) [
    | none ↦ err re_error
    | some search ↦ ok (note (not (search value)) (location <> ":pattern"))
  ]
  pattern_errors (some v) value location = err type_error

  unfoldable pub format_errors : Option Json → String → String → List String
  format_errors none value location = []
  format_errors (some (str name)) value location =
      note (not (format_is_valid p value name)) (location <> ":format")
  format_errors (some v) value location = (location <> ":format") ∷ []

  unfoldable pub bound_errors :
      (below : Option Float → Option Float → Result Bool)
      → Option Json
      → Json
      → String
      → Result (List String)
  bound_errors below none value error = ok []
  bound_errors below (some bound) value error = do
    out ← below (number value) (number bound)
    ok (note out error)

  -- What a text or a number is checked for, and a list and a dict before their parts.
  unfoldable pub text_errors : Fields → Json → String → Result (List String)
  text_errors schema (str s) location = do
    short ←
        length_errors (size s) (get_or (int (pos 0)) "minLength" schema) (location <> ":minLength")
    matched ← pattern_errors (find "pattern" schema) s location
    ok (short ++ (matched ++ format_errors (find "format" schema) s location))
  text_errors schema value location = ok []

  unfoldable pub integer_errors : Fields → Json → String → Result (List String)
  integer_errors schema value location =
      if is_json_integer value
      then then_errors (bound_errors less (find "minimum" schema) value (location <> ":minimum"))
          (bound_errors (λ a b. less b a) (find "maximum" schema) value (location <> ":maximum"))
      else ok []

  -- The parts of a dict, with the checks of its properties handed in.
  unfoldable pub dict_errors :
      (children : Fields → String → Result (List String))
      → Fields
      → Json
      → String
      → Result (List String)
  dict_errors children schema (obj value) location = do
    names ← iterate (get_or (arr nil) "required" schema)
    missing ← required_errors names value location
    extra ←
        additional_errors (get "additionalProperties" schema) (get_or (obj end) "properties" schema)
          value location
    inner ← children value location
    ok (missing ++ (extra ++ inner))
  dict_errors children schema value location = ok []

  -- The parts of a list, with the check of its elements handed in.
  unfoldable pub list_errors :
      (elements : Items → String → Result (List String))
      → Fields
      → Json
      → String
      → Result (List String)
  list_errors elements schema (arr vs) location = do
    short ←
        length_errors (length (items vs)) (get_or (int (pos 0)) "minItems" schema)
          (location <> ":minItems")
    let repeated = unique_errors (get "uniqueItems" schema) vs location
    inner ← elements vs location
    ok (short ++ (repeated ++ inner))
  list_errors elements schema value location = ok []

  unfoldable pub matched_errors :
      (children : Fields → String → Result (List String))
      → (elements : Items → String → Result (List String)) → Fields
      → Json
      → String
      → Result (List String)
  matched_errors children elements schema value location = do
    let constant = check_const (find "const" schema) value location
    chosen ← check_enum_value (find "enum" schema) value location
    fields ← dict_errors children schema value location
    elems ← list_errors elements schema value location
    text ← text_errors schema value location
    number ← integer_errors schema value location
    ok (constant ++ (chosen ++ (fields ++ (elems ++ (text ++ number)))))

  -- A value of no declared type is reported as that alone.
  unfoldable pub node_errors :
      (children : Fields → String → Result (List String))
      → (elements : Items → String → Result (List String)) → Fields
      → Json
      → String
      → Result (List String)
  node_errors children elements schema value location = do
    types ← schema_types schema
    let other_type = not (is_empty types) && not (any (json_type_matches value) types)
    let inner = matched_errors children elements schema value location
    (if other_type then ok ((location <> ":type") ∷ []) else inner)

  unfoldable mutual
    -- `_validate_instance`, on the schema.
    pub validate_instance : Json → Json → String → Result (List String)
    validate_instance (obj schema) value location =
        node_errors (property_errors schema) (element_errors schema) schema value location
    validate_instance _ value location = err attribute_error

    -- The loop over `schema.get("properties", {}).items()`.
    pub property_errors : Fields → Fields → String → Result (List String)
    property_errors end value location = ok []
    property_errors (field k v fs) value location = elim (str_eq "properties" k) [
      | true ↦ child_errors v value location
      | false ↦ property_errors fs value location
    ]

    pub child_errors : Json → Fields → String → Result (List String)
    child_errors (obj children) value location = each_errors children value location
    child_errors _ value location = err attribute_error

    pub each_errors : Fields → Fields → String → Result (List String)
    each_errors end value location = ok []
    each_errors (field name child rest) value location =
        then_errors
          (if_has (λ v. validate_instance child v (at_name location name)) (find name value))
          (each_errors rest value location)

    -- `if "items" in schema`, the loop over the elements.
    pub element_errors : Fields → Items → String → Result (List String)
    element_errors end vs location = ok []
    element_errors (field k v fs) vs location = elim (str_eq "items" k) [
      | true ↦ over_items (validate_instance v) 0 vs location
      | false ↦ element_errors fs vs location
    ]
