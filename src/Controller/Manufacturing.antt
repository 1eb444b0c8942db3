-- ===== src/Controller/Manufacturing.antt =====
-- `validate_manufacturing_result` of scripts/ai_controller/core.py.
pub mod Envelope
use Prim.Native.String.{String}
use toi_no_mori_mvs.Common.{
  Bool, List, [], false, if◌then◌else◌, is_empty, leb, not, same_set, sorted_set,
}
use toi_no_mori_mvs.Common.{str_eq, true, ◌&&◌, ◌++◌, ◌||◌, ◌∷◌}
use toi_no_mori_mvs.Controller.Constants.{is_sha256, is_sha40, protocol}
use toi_no_mori_mvs.Controller.Decision.{
  Decision, collect, empty, entry, json, manufactured, stopped, texts,
}
use toi_no_mori_mvs.Controller.Schema.Approved.{schema_validation_errors}
use toi_no_mori_mvs.Controller.Scope.{validate_scope}
use toi_no_mori_mvs.Controller.WorkOrder.{is_int_with, part}
use toi_no_mori_mvs.Python.Canonical.{content_hash}
use toi_no_mori_mvs.Python.Json.{
  Fields, Json, arr, dict_or_empty, eq, get, get_or, is_list, keys, nil, obj,
}
use toi_no_mori_mvs.Python.Json.{str, texts_or_empty}
use toi_no_mori_mvs.Python.Numbers.{negsuc, pos, ℤ}
use toi_no_mori_mvs.Python.Platform.{Platform}
use toi_no_mori_mvs.Python.Result.{Result, ok, ◌>>=◌, ◌>>◌}

abbrev pub result_fields : List String
result_fields =
    "protocol" ∷ "schema_version" ∷ "role" ∷ "work_order_id" ∷ "work_order_ref" ∷ "work_order_hash"
    ∷ "base_sha" ∷ "patch_sha256" ∷ "scope_changed" ∷ "tests_requested" ∷ "known_limits"
    ∷ "iteration" ∷ []

-- `xs == ys` for two lists of texts.
abbrev pub same_texts : (xs ys : List String) → Bool
same_texts [] [] = true
same_texts (x ∷ xs) (y ∷ ys) = str_eq x y && same_texts xs ys
same_texts _ _ = false

-- `1 <= iteration <= 4`
abbrev pub is_iteration : ℤ → Bool
is_iteration (pos n) = leb 1 n && leb n 4
is_iteration (negsuc n) = false

-- `d.get(key, [])` where it is a list of texts, `[]` otherwise.
abbrev pub texts_of : String → Fields → List String
texts_of key fs = texts_or_empty (get_or (arr nil) key fs)

module _ (p : Platform) where
  -- The tests of the envelope, each with its reason.
  unfoldable pub envelope_tests :
      (schema_errors : List String) (result metadata spec : Fields) (patch_sha256 base_sha : String)
      (paths : List String)
      → List (Bool × String)
  unfolding is_sha40 is_sha256 sorted_set
  envelope_tests schema_errors result metadata spec patch_sha256 base_sha paths =
      (not (is_empty schema_errors), "manufacturing-result-json-schema")
      ∷ (not (same_set (keys result) result_fields), "manufacturing-result-shape")
      ∷ (not (eq (get "protocol" result) (str protocol)), "manufacturing-result-protocol")
      ∷ (
        not (eq (get "schema_version" result) (str "manufacturing-result.schema.json@3")),
        "manufacturing-result-schema",
      )
      ∷ (not (eq (get "role" result) (str "codex_manufacturer")), "manufacturing-result-role")
      ∷ (
        not (eq (get "work_order_id" result) (get "id" metadata)),
        "manufacturing-result-work-order",
      )
      ∷ (
        not (eq (get "work_order_hash" result) (str (content_hash p (obj spec)))),
        "manufacturing-result-work-order-hash",
      )
      ∷ (
        not (eq (get "base_sha" result) (str base_sha)) || not (is_sha40 base_sha),
        "manufacturing-result-base",
      )
      ∷ (
        not (eq (get "patch_sha256" result) (str patch_sha256)) || not (is_sha256 patch_sha256),
        "manufacturing-result-patch",
      )
      ∷ (
        not (same_texts (sorted_set (texts_of "scope_changed" result)) paths),
        "manufacturing-result-scope",
      )
      ∷ (
        not (same_set (texts_of "tests_requested" result) (texts_of "required_tests" spec)),
        "manufacturing-result-tests",
      )
      ∷ (not (is_list (get "known_limits" result)), "manufacturing-result-known-limits")
      ∷ (not (is_int_with is_iteration (get "iteration" result)), "manufacturing-result-iteration")
      ∷ []

-- The decision from the reasons, sorted and without repetitions.
unfoldable pub manufacturing_decision :
    (reasons paths : List String) (patch_sha256 : String) (schema_errors : List String) → Decision
unfolding sorted_set
manufacturing_decision reasons paths patch_sha256 schema_errors = record {
  state = if is_empty reasons then manufactured else stopped;
  accepted = is_empty reasons;
  reasons = sorted_set reasons;
  evidence = entry "changed_paths" (texts paths) (
      entry "patch_sha256" (json (str patch_sha256))
        (entry "schema_errors" (texts schema_errors) empty));
}

-- `if not scope.accepted: reasons.extend(scope.reasons)`
abbrev pub scope_reasons : Decision → List String
scope_reasons scope = if scope.accepted then [] else scope.reasons

unfoldable pub validate_manufacturing_result :
    Platform
    → (result work_order : Json) (patch_sha256 base_sha : String) (changed_paths : List String)
    → Result Decision
unfolding sorted_set
validate_manufacturing_result p result work_order patch_sha256 base_sha changed_paths = do
  schema_errors ← schema_validation_errors p result "manufacturing-result.schema.json"
  let spec = part "spec" work_order
  let paths = sorted_set changed_paths
  let problems = collect (
      envelope_tests p schema_errors (dict_or_empty result) (part "metadata" work_order) spec
        patch_sha256 base_sha paths)
  let scope = validate_scope paths (texts_of "scope" spec) (texts_of "prohibited_paths" spec)
  ok (manufacturing_decision (problems ++ scope_reasons scope) paths patch_sha256 schema_errors)
