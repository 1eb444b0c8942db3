-- ===== src/Controller/Schema/Definition.antt =====
-- `validate_schema_definition`, `_schema_location` and `_schema_requires_type` of
-- scripts/ai_controller/core.py. A check that raises gives the exception in place of `ok tt`.
use Prim.Native.String.{String}
use toi_no_mori_mvs.Common.{
  Bool, List, Option, [], all_distinct, any, false, if◌then◌else◌, is_empty,
}
use toi_no_mori_mvs.Common.{
  leb, map, member, none, not, some, str_eq, subset, true, ◌&&◌, ◌++◌, ◌-◌,
}
use toi_no_mori_mvs.Common.{◌<>◌, ◌^◌, ◌||◌, ◌∷◌}
use toi_no_mori_mvs.Controller.Registry.{difference, listed}
use toi_no_mori_mvs.Controller.Registry.Execution.{select}
use toi_no_mori_mvs.Controller.Schema.{
  draft_2020_12, is_bool, is_hashable, schema_types, supported_schema_formats,
}
use toi_no_mori_mvs.Controller.Schema.{supported_schema_keywords, supported_schema_types}
use toi_no_mori_mvs.Controller.Schema.Formats.{is_some}
use toi_no_mori_mvs.Python.Canonical.{item_texts}
use toi_no_mori_mvs.Python.Json.{
  Fields, Json, all_texts, arr, dict_or_empty, end, eq, field, find, float,
}
use toi_no_mori_mvs.Python.Json.{
  get, has, int, is_null, is_str, items, keys, nil, null, number, obj, str,
}
use toi_no_mori_mvs.Python.Json.{to_items}
use toi_no_mori_mvs.Python.Numbers.{Float, float_lt, is_finite, is_negative, magnitude, ℤ}
use toi_no_mori_mvs.Python.Platform.{Platform}
use toi_no_mori_mvs.Python.Result.{
  Result, err, ok, overflow_error, require, type_error, ◌>>=◌, ◌>>◌,
}

-- `_schema_location`: the path's parts behind `$`.
abbrev pub dotted : List String → String
dotted [] = ""
dotted (part ∷ parts) = "." <> (part <> dotted parts)

abbrev pub schema_location : List String → String
schema_location path = "$" <> dotted path

-- `raise ControllerError(f"schema {location}: …")` unless the test passes.
abbrev pub check : Bool → List String → String → Result (Unit {0})
check passed path problem =
    require passed ("schema " <> (schema_location path <> (": " <> problem)))

abbrev pub fail : List String → String → Result (Unit {0})
fail path problem = check false path problem

-- `key in node and …`, for a test of the value.
abbrev pub if_present : (Json → Bool) → Option Json → Bool
if_present test none = true
if_present test (some v) = test v

abbrev pub texts_equal : Json → String → Bool
texts_equal v s = eq v (str s)

-- The `$id` that is expected, if any.
abbrev pub id_matches : Option String → Json → Bool
id_matches none v = true
id_matches (some expected) v = eq v (str expected)

abbrev pub id_problem : Option String → String
id_problem none = ""
id_problem (some expected) = "$id must be " <> expected

-- A list of distinct strings.
abbrev pub distinct_texts : Option (List String) → Bool
distinct_texts none = false
distinct_texts (some ss) = all_distinct ss

abbrev pub subset_of : Option (List String) → List String → Bool
subset_of none ks = false
subset_of (some ss) ks = subset ss ks

-- The declared types, `none` where they are no string and no non-empty list of strings.
abbrev pub declared_types : Json → Option (List String)
declared_types (str s) = some (s ∷ [])
declared_types (arr nil) = none
declared_types (arr vs) = all_texts vs
declared_types v = none

-- `math.isfinite(n)` raises `OverflowError` where an integer rounds to no double.
unfoldable pub overflows : ℤ → Bool
overflows z = leb (2 ^ 1024 - 2 ^ 970) (magnitude z)

-- An `int` or `float` that is no `bool`, and is finite.
abbrev pub is_bound : Json → Result Bool
is_bound (int z) = if overflows z then err overflow_error else ok true
is_bound (float f) = ok (is_finite f)
is_bound v = ok false

abbrev pub is_size : Json → Bool
is_size (int z) = not (is_negative z)
is_size v = false

abbrev pub exceeds : Option Float → Option Float → Bool
exceeds (some a) (some b) = float_lt b a
exceeds _ _ = false

-- A child that is `None` is not walked.
abbrev pub unless_null : Json → Result (Unit {0}) → Result (Unit {0})
unless_null null result = ok tt
unless_null _ result = result

module _ (p : Platform) (expected_id : Option String) where
  unfoldable pub check_keywords : Fields → List String → Result (Unit {0})
  check_keywords node path =
      let unknown = difference (keys node) supported_schema_keywords in
      check (is_empty unknown) path ("unsupported keywords " <> listed p unknown)

  -- The keywords that the root alone may use, or must.
  unfoldable pub check_metadata : Fields → List String → Result (Unit {0})
  check_metadata node [] = do
    check (texts_equal (get "$schema" node) draft_2020_12) [] "$schema must be Draft 2020-12"
    check (id_matches expected_id (get "$id" node)) [] (id_problem expected_id)
    check (if_present is_str (find "title" node)) [] "title must be a string"
  check_metadata node (part ∷ path) =
      let metadata = select (λ k. member k ("$schema" ∷ "$id" ∷ "title" ∷ [])) (keys node) in
      check (is_empty metadata) (part ∷ path) ("root-only keywords used " <> listed p metadata)

  unfoldable pub check_declared : Json → List String → Result (Unit {0})
  check_declared null path = ok tt
  check_declared v path = elim (declared_types v) [
    | none ↦ fail path "type must be a string or non-empty string list"
    | some types ↦
        check (is_empty (difference types supported_schema_types) && all_distinct types) path
          ("unsupported or duplicate types " <> p.repr (arr (to_items (map str types))))
  ]

  unfoldable pub check_required : (properties required : Json) → List String → Result (Unit {0})
  check_required properties null path = ok tt
  check_required properties (arr vs) path = do
    check (distinct_texts (all_texts vs)) path "required must contain unique strings"
    check (is_null properties || subset_of (all_texts vs) (keys (dict_or_empty properties))) path
        "required names must exist in properties"
  check_required properties _ path = fail path "required must contain unique strings"

  unfoldable pub check_enum : Json → List String → Result (Unit {0})
  check_enum null path = ok tt
  check_enum (arr nil) path = fail path "enum must be a non-empty list"
  check_enum (arr vs) path =
      check (all_distinct (item_texts p vs)) path "enum values must be unique"
  check_enum _ path = fail path "enum must be a non-empty list"

  unfoldable pub check_size : String → Fields → List String → Result (Unit {0})
  check_size keyword node path =
      check (if_present is_size (find keyword node)) path
        (keyword <> " must be a non-negative integer")

  unfoldable pub check_bound : String → Option Json → List String → Result (Unit {0})
  check_bound keyword none path = ok tt
  check_bound keyword (some v) path = do
    passed ← is_bound v
    check passed path (keyword <> " must be finite")

  unfoldable pub check_pattern : Option Json → List String → Result (Unit {0})
  check_pattern none path = ok tt
  check_pattern (some (str s)) path = check (is_some (p.re_compile s)) path "pattern is invalid"
  check_pattern (some v) path = fail path "pattern must be a string"

  unfoldable pub check_format : Option Json → List String → Result (Unit {0})
  check_format none path = ok tt
  check_format (some (str s)) path =
      check (member s supported_schema_formats) path ("unsupported format " <> p.repr (str s))
  check_format (some v) path =
      if is_hashable v then fail path ("unsupported format " <> p.repr v) else err type_error

  -- `_schema_requires_type`
  unfoldable pub requires_type : Fields → String → String → List String → Result (Unit {0})
  requires_type node required_type keyword path = elim (has keyword node) [
    | false ↦ ok tt
    | true ↦ do
      types ← schema_types node
      check (any (λ t. eq t (str required_type)) types) path
          (keyword <> " requires type " <> required_type)
  ]

  unfoldable pub require_types : Fields → String → List String → List String → Result (Unit {0})
  unfolding requires_type
  require_types node required_type [] path = ok tt
  require_types node required_type (keyword ∷ keywords) path = do
    requires_type node required_type keyword path
    require_types node required_type keywords path

  -- The checks that follow those of the child schemas, in the source's order.
  unfoldable pub check_tail : Fields → List String → Result (Unit {0})
  unfolding require_types
  check_tail node path = do
    check_size "minLength" node path
    check_size "minItems" node path
    check_bound "minimum" (find "minimum" node) path
    check_bound "maximum" (find "maximum" node) path
    check (not (exceeds (number (get "minimum" node)) (number (get "maximum" node)))) path
        "minimum exceeds maximum"
    check (if_present is_bool (find "uniqueItems" node)) path "uniqueItems must be boolean"
    check_pattern (find "pattern" node) path
    check_format (find "format" node) path
    require_types node "object" ("properties" ∷ "required" ∷ "additionalProperties" ∷ []) path
    require_types node "array" ("items" ∷ "minItems" ∷ "uniqueItems" ∷ []) path
    require_types node "string" ("minLength" ∷ "pattern" ∷ "format" ∷ []) path
    require_types node "integer" ("minimum" ∷ "maximum" ∷ []) path

  unfoldable pub check_middle : Fields → List String → Result (Unit {0})
  check_middle node path = do
    check_required (get "properties" node) (get "required" node) path
    check (if_present is_bool (find "additionalProperties" node)) path
        "only boolean additionalProperties is supported"
    check_enum (get "enum" node) path

  -- `walk`; the checks of the child schemas are handed to the node as functions of the path.
  unfoldable pub check_node :
      (properties items : List String → Result (Unit {0}))
      → Fields
      → List String
      → Result (Unit {0})
  check_node properties items node path = do
    check_keywords node path
    check_metadata node path
    check_declared (get "type" node) path
    properties path
    check_middle node path
    items path
    check_tail node path

  unfoldable mutual
    pub walk : Json → List String → Result (Unit {0})
    walk (obj node) path = check_node (walk_properties node) (walk_items node) node path
    walk _ path = fail path "definition must be an object"

    -- `node.get("properties")`, each value walked if it is a dict.
    pub walk_properties : Fields → List String → Result (Unit {0})
    walk_properties end path = ok tt
    walk_properties (field k v fs) path = elim (str_eq "properties" k) [
      | true ↦ walk_children v path
      | false ↦ walk_properties fs path
    ]

    pub walk_children : Json → List String → Result (Unit {0})
    walk_children null path = ok tt
    walk_children (obj children) path = walk_each children path
    walk_children _ path = fail path "properties must be an object"

    pub walk_each : Fields → List String → Result (Unit {0})
    walk_each end path = ok tt
    walk_each (field name child rest) path =
        walk child (path ++ "properties" ∷ name ∷ []) >> walk_each rest path

    -- `node.get("items")`, walked unless it is `None`.
    pub walk_items : Fields → List String → Result (Unit {0})
    walk_items end path = ok tt
    walk_items (field k v fs) path = elim (str_eq "items" k) [
      | true ↦ unless_null v (walk v (path ++ "items" ∷ []))
      | false ↦ walk_items fs path
    ]

  unfoldable pub validate_schema_definition : Json → Result (Unit {0})
  validate_schema_definition schema = walk schema []
