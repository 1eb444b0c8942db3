-- ===== src/Tests/SelfCheck.antt =====
-- The self-check of the control plane, and the gates after it.
use Prim.Native.String.{String}
use toi_no_mori_mvs.Common.{
  All, List, [], false, member, refl, some, sorted_set, split_slash, starts_with,
}
use toi_no_mori_mvs.Common.{◌++◌, ◌∷◌, ◌≡◌}
use toi_no_mori_mvs.Controller.Constants.{
  control_plane_deny_files, control_plane_denylist, gate_ids, precondition_ids,
}
use toi_no_mori_mvs.Controller.Constants.{stop_ids, stop_implementations}
use toi_no_mori_mvs.Controller.ControlPlane.{
  ControlPlane, check_denylist, check_implementations, declared_implementations,
}
use toi_no_mori_mvs.Controller.ControlPlane.{
  declared_paths, executed_implementations, ids_of, load_all, names, validate_control_plane,
}
use toi_no_mori_mvs.Controller.ControlPlane.Aligned.{
  validate_review_gate-aligned, validate_work_order-aligned,
}
use toi_no_mori_mvs.Controller.ControlPlane.Denylist.{path_is_denied-registry}
use toi_no_mori_mvs.Controller.Registry.{
  RegistryResult, entries_of, entry_id, entry_ids, load_json_yaml, load_registry,
}
use toi_no_mori_mvs.Controller.Registry.{registry_ids, texts_at, validate_registry}
use toi_no_mori_mvs.Controller.Registry.Execution.{check_execution, check_registry_execution}
use toi_no_mori_mvs.Controller.Schema.{approved_schemas}
use toi_no_mori_mvs.Controller.Schema.Approved.{load_approved_schema}
use toi_no_mori_mvs.Controller.Schema.Definition.{
  check_bound, check_declared, check_enum, check_format, check_keywords, check_metadata,
}
use toi_no_mori_mvs.Controller.Schema.Definition.{
  check_middle, check_node, check_pattern, check_required, check_size, check_tail,
}
use toi_no_mori_mvs.Controller.Schema.Definition.{
  overflows, require_types, requires_type, validate_schema_definition, walk,
}
use toi_no_mori_mvs.Controller.Schema.Instance.{check_const, check_enum_value}
use toi_no_mori_mvs.Controller.Scope.{path_is_denied}
use toi_no_mori_mvs.Controller.Scope.Resolution.{resolve}
use toi_no_mori_mvs.Python.Canonical.{sha256_text, text_of}
use toi_no_mori_mvs.Python.Json.{Json, eq}
use toi_no_mori_mvs.Python.Result.{ok}
use toi_no_mori_mvs.Tests.Gates.{observed, passed_decision, passed_returned, request, review_with}
use toi_no_mori_mvs.Tests.Orders.{decision, order, returned, setting}
use toi_no_mori_mvs.Tests.Services.{hash_0, services}

self_check : Unit {0}
unfolding validate_control_plane split_slash check_denylist check_implementations declared_paths
    declared_implementations load_all validate_registry load_registry load_json_yaml entries_of
    entry_ids entry_id texts_at registry_ids check_registry_execution check_execution sorted_set
    sha256_text text_of eq load_approved_schema validate_schema_definition walk check_node
    check_keywords check_metadata check_declared check_middle check_tail check_required check_enum
    check_enum_value check_const check_bound check_size check_pattern check_format overflows
    require_types requires_type path_is_denied
self_check = tt

abbrev result_of : List String → RegistryResult
result_of ids = record { ids = ids; sha256 = hash_0 }

abbrev checked_plane : ControlPlane
checked_plane = record {
  gate_checks = result_of gate_ids;
  work_order_preconditions = result_of precondition_ids;
  stop_conditions = result_of stop_ids;
  required_checks = result_of ("build" ∷ "test" ∷ []);
  finding_ids = result_of ("F-1" ∷ []);
  organizer_allowlist = result_of ("owner" ∷ []);
  manufacturing_denylist = result_of (control_plane_denylist ++ control_plane_deny_files);
  stop_alignment =
      check_execution stop_ids (names stop_implementations)
        (executed_implementations stop_implementations);
  schemas = sorted_set (names approved_schemas);
  schema_ids = ids_of (sorted_set (names approved_schemas));
}

plane_returned : validate_control_plane services ≡ ok checked_plane
unfolding self_check
plane_returned = refl

validate_work_order-aligned_example : member "STOP-007" decision.reasons ≡ false
validate_work_order-aligned_example =
    validate_work_order-aligned services checked_plane setting order decision plane_returned
      returned

validate_review_gate-aligned_example : member "REV-GATE-020" passed_decision.reasons ≡ false
validate_review_gate-aligned_example =
    validate_review_gate-aligned services checked_plane observed request
      (some (review_with "PASS" false)) passed_decision plane_returned passed_returned

path_is_denied-registry_example :
    (document : Json) × (key : String) × (entries : List Json) × (prefixes : List String)
    × (files : List String) × (load_registry services "manufacturing-denylist.yml" ≡ ok document)
    × (entries_of document ≡ ok (key, entries))
    × (declared_paths services "prefix" entries ≡ ok prefixes)
    × (declared_paths services "file" entries ≡ ok files)
    × All (λ directory. starts_with (resolve "./docs/a.md") directory ≡ false) prefixes
    × (member (resolve "./docs/a.md") files ≡ false)
unfolding self_check
path_is_denied-registry_example =
    path_is_denied-registry services checked_plane "./docs/a.md" plane_returned refl
