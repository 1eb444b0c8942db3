-- ===== src/Tests/Documents.antt =====
-- Schemas, registries and the canonical text of a dict.
use Prim.Native.String.{String}
use toi_no_mori_mvs.Common.{
  Bool-cases, List, Option, [], eq_iff, inl, inr, none, refl, some, sorted_set,
}
use toi_no_mori_mvs.Common.{str_eq, subst, sym, ◌∷◌, ◌≡◌}
use toi_no_mori_mvs.Controller.Registry.{
  RegistryResult, entries_of, entry_id, entry_ids, load_json_yaml, load_registry,
}
use toi_no_mori_mvs.Controller.Registry.{registry_ids, validate_registry}
use toi_no_mori_mvs.Controller.Registry.Contract.{IsRegistry, validate_registry_sound}
use toi_no_mori_mvs.Controller.Schema.Definition.{
  check_bound, check_declared, check_enum, check_format, check_keywords, check_metadata,
}
use toi_no_mori_mvs.Controller.Schema.Definition.{
  check_middle, check_node, check_pattern, check_required, check_size, check_tail,
}
use toi_no_mori_mvs.Controller.Schema.Definition.{
  overflows, require_types, requires_type, validate_schema_definition, walk,
}
use toi_no_mori_mvs.Controller.Schema.Instance.{
  additional_errors, check_const, check_enum_value, dict_errors, matched_errors,
}
use toi_no_mori_mvs.Controller.Schema.Instance.{node_errors, required_errors, validate_instance}
use toi_no_mori_mvs.Controller.Schema.Totality.{has_no_null_keyword, validate_instance_total}
use toi_no_mori_mvs.Python.Canonical.{
  canonical_json, content_hash, join_comma, pair_texts, quote, sha256_text,
}
use toi_no_mori_mvs.Python.Canonical.{sort_entries, text_of}
use toi_no_mori_mvs.Python.Canonical.KeyOrder.{SameDict, content_hash-SameDict}
use toi_no_mori_mvs.Python.Json.{Fields, Json, end, eq, field, find, int, null, obj, str}
use toi_no_mori_mvs.Python.Numbers.{pos}
use toi_no_mori_mvs.Python.Result.{attribute_error, err, ok}
use toi_no_mori_mvs.Tests.Services.{hash_0, order_schema, services}

documents : Unit {0}
unfolding validate_schema_definition walk check_node check_keywords check_metadata check_declared
    check_middle check_tail check_required check_enum check_enum_value check_const check_bound
    check_size check_pattern check_format overflows require_types requires_type eq sorted_set
    validate_instance has_no_null_keyword validate_registry load_registry load_json_yaml entries_of
    entry_ids entry_id sha256_text text_of
documents = tt

validate_instance_total_example :
    (errors : List String) × (validate_instance services order_schema
        (obj (field "spec" null end))
        "$"
      ≡ ok errors)
unfolding documents
validate_instance_total_example =
    validate_instance_total services none order_schema (obj (field "spec" null end)) "$" refl refl

-- A schema that sets `properties` to `None` passes, and validation against it raises.
abbrev null_schema : Json
null_schema = obj (
    field "$schema" (str "https://json-schema.org/draft/2020-12/schema")
      (field "type" (str "object") (field "properties" null end)))

null_schema_tests :
    (validate_schema_definition services none null_schema ≡ ok tt)
    × (validate_instance services null_schema (obj end) "$" ≡ err attribute_error)
unfolding documents validate_instance dict_errors node_errors matched_errors required_errors
    additional_errors
null_schema_tests = (refl, refl)

abbrev gates : RegistryResult
gates = record { ids = "G-1" ∷ "G-2" ∷ []; sha256 = hash_0 }

abbrev implemented : Option (List String)
implemented = some ("G-2" ∷ "G-1" ∷ [])

validate_registry_sound_example :
    IsRegistry services "gates.yml" implemented gates.ids
    × (registry_ids services "gates.yml" ≡ ok gates.ids)
unfolding documents
validate_registry_sound_example =
    validate_registry_sound services "gates.yml" implemented gates refl

abbrev first_order : Fields
first_order = field "b" (int (pos 2)) (field "a" (str "x\ny") end)

abbrev other_order : Fields
other_order = field "a" (str "x\ny") (field "b" (int (pos 2)) end)

canonical_json_tests : canonical_json services (obj first_order) ≡ "{\"a\":\"x\\ny\",\"b\":2}"
unfolding canonical_json sort_entries pair_texts join_comma quote
canonical_json_tests = refl

same_lookups : SameDict first_order other_order
same_lookups key = elim (Bool-cases (str_eq key "a")) [
  | inl a ↦ subst (λ k. find k first_order ≡ find k other_order) (sym ((eq_iff key "a").0 a)) refl
  | inr b ↦ rw b refl
]

content_hash-SameDict_example :
    (canonical_json services (obj first_order) ≡ canonical_json services (obj other_order))
    × (content_hash services (obj first_order) ≡ content_hash services (obj other_order))
content_hash-SameDict_example =
    content_hash-SameDict services first_order other_order (refl, (refl, tt)) (refl, (refl, tt))
      same_lookups
