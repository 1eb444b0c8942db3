-- ===== src/Controller/Schema/Approved.antt =====
-- `load_approved_schema` and `schema_validation_errors` of scripts/ai_controller/core.py.
use Prim.Native.String.{String}
use toi_no_mori_mvs.Common.{List, Option, [], if◌then◌else◌, none, some, str_eq, ◌<>◌, ◌∷◌}
use toi_no_mori_mvs.Controller.Registry.{load_json_yaml}
use toi_no_mori_mvs.Controller.Schema.{approved_schemas}
use toi_no_mori_mvs.Controller.Schema.Definition.{validate_schema_definition}
use toi_no_mori_mvs.Controller.Schema.Instance.{validate_instance}
use toi_no_mori_mvs.Python.Json.{Json, is_dict}
use toi_no_mori_mvs.Python.Platform.{Platform}
use toi_no_mori_mvs.Python.Result.{Result, controller_error, err, ok, require, ◌>>=◌, ◌>>◌}

abbrev pub schema_dir : String
schema_dir = ".github/ai/schemas/"

-- `APPROVED_SCHEMAS.get(name)`
abbrev pub approved_id : String → List (String × String) → Option String
approved_id name [] = none
approved_id name ((n, i) ∷ rest) = if str_eq name n then some i else approved_id name rest

unfoldable pub load_approved_schema : Platform → String → Result Json
unfolding load_json_yaml
load_approved_schema p name = elim (approved_id name approved_schemas) [
  | none ↦ err (controller_error ("unapproved schema: " <> name))
  | some expected_id ↦ do
    schema ← load_json_yaml p (schema_dir <> name)
    require (is_dict schema) ("schema " <> (name <> ": root must be an object"))
    validate_schema_definition p (some expected_id) schema
    ok schema
]

unfoldable pub schema_validation_errors : Platform → Json → String → Result (List String)
schema_validation_errors p document name = do
  schema ← load_approved_schema p name
  validate_instance p schema document "$"
