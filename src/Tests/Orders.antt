-- ===== src/Tests/Orders.antt =====
-- A work order.
use toi_no_mori_mvs.Common.{
  All, List, [], if◌then◌else◌, is_hex, none, refl, sorted_set, str_eq, true,
}
use toi_no_mori_mvs.Common.{◌<>◌, ◌↔◌, ◌∷◌, ◌≡◌}
use toi_no_mori_mvs.Controller.Constants.{is_sha256, is_sha40, precondition_ids}
use toi_no_mori_mvs.Controller.Decision.{Decision, manufacturing, no_op}
use toi_no_mori_mvs.Controller.Registry.{
  column, entries_of, load_json_yaml, load_registry, organizer_logins, registry_ids,
}
use toi_no_mori_mvs.Controller.Registry.{required_check_names, texts_at}
use toi_no_mori_mvs.Controller.Registry.Execution.{
  Alignment, check_execution, check_registry_execution,
}
use toi_no_mori_mvs.Controller.Schema.Approved.{load_approved_schema, schema_validation_errors}
use toi_no_mori_mvs.Controller.Schema.Definition.{
  check_bound, check_declared, check_enum, check_format, check_keywords, check_metadata,
}
use toi_no_mori_mvs.Controller.Schema.Definition.{
  check_middle, check_node, check_pattern, check_required, check_size, check_tail,
}
use toi_no_mori_mvs.Controller.Schema.Definition.{
  overflows, require_types, requires_type, validate_schema_definition, walk,
}
use toi_no_mori_mvs.Controller.Schema.Formats.{replace_z}
use toi_no_mori_mvs.Controller.Schema.Instance.{
  additional_errors, check_const, check_enum_value, dict_errors, integer_errors,
}
use toi_no_mori_mvs.Controller.Schema.Instance.{
  list_errors, matched_errors, node_errors, required_errors, text_errors, validate_instance,
}
use toi_no_mori_mvs.Controller.WorkOrder.{
  Row, Setting, executed_rows, parse_time, validate_work_order, work_order_decision,
}
use toi_no_mori_mvs.Controller.WorkOrder.{work_order_rows}
use toi_no_mori_mvs.Controller.WorkOrder.Authorization.{
  IsAuthorized, validate_work_order_sound, work_order_decision_iff,
}
use toi_no_mori_mvs.Python.Canonical.{
  canonical_json, content_hash, join_comma, pair_texts, quote, sha256_text,
}
use toi_no_mori_mvs.Python.Canonical.{sort_entries, text_of}
use toi_no_mori_mvs.Python.Json.{Fields, Json, end, eq, field, int, obj, str}
use toi_no_mori_mvs.Python.Numbers.{pos}
use toi_no_mori_mvs.Python.Result.{ok}
use toi_no_mori_mvs.Tests.Services.{hash_0, services, sha_a, text_list}

orders : Unit {0}
unfolding validate_work_order schema_validation_errors load_approved_schema load_json_yaml
    validate_schema_definition walk check_node check_keywords check_metadata check_declared
    check_middle check_tail check_required check_enum check_enum_value check_const check_bound
    check_size check_pattern check_format overflows require_types requires_type eq sorted_set
    validate_instance node_errors matched_errors required_errors additional_errors dict_errors
    list_errors text_errors integer_errors registry_ids load_registry entries_of texts_at column
    organizer_logins required_check_names check_registry_execution check_execution work_order_rows
    work_order_decision content_hash canonical_json quote join_comma sort_entries pair_texts
    sha256_text text_of is_sha40 is_sha256 is_hex parse_time replace_z
orders = tt

abbrev metadata : Fields
metadata =
    field "id" (str "WO-1") (field "version" (int (pos 1)) (field "organizer" (str "owner") end))

abbrev spec : Fields
spec = field "scope" (text_list ("src/**" ∷ [])) (
    field "prohibited_paths" (text_list ("docs/**" ∷ [])) (
      field "risk_class" (str "normal")
        (field "required_tests" (text_list ("test" ∷ "build" ∷ [])) end)))

abbrev budget : Fields
budget = field "max_iterations" (int (pos 3)) (
    field "max_wall_minutes" (int (pos 60)) (
      field "max_openai_tokens" (int (pos 1000)) (
        field "max_anthropic_tokens" (int (pos 1000))
          (field "max_actions_minutes" (int (pos 30)) end))))

abbrev approval : Fields
approval = field "organizer_decision" (str "APPROVED") (
    field "execution_state" (str "READY") (
      field "execution_id" (str ("WO-1:1:" <> hash_0)) (
        field "work_order_hash" (str hash_0) (
          field "expires_at" (str "2027-01-01T00:00:00Z") (
            field "base_sha" (str sha_a) (
              field "second_human_decision" (str "NOT_REQUIRED")
                (field "budget" (obj budget) end)))))))

abbrev pub order : Json
order = obj (
    field "metadata" (obj metadata) (field "spec" (obj spec) (field "approval" (obj approval) end)))

abbrev pub setting : Setting
setting = record {
  actor = "owner";
  default_branch_sha = sha_a;
  workflow_sha = none;
  base_is_ancestor = true;
  now = 999;
  dedup_state = "first";
  visibility = "public";
}

-- The rows of the order, where the schema finds no error and the time has not passed.
abbrev pub rows : List Row
rows = work_order_rows services [] ("owner" ∷ []) ("build" ∷ "test" ∷ []) true setting order

abbrev pub alignment : Alignment
alignment = check_execution precondition_ids precondition_ids (executed_rows rows)

abbrev pub decision : Decision
decision = work_order_decision "first" rows alignment

pub returned : validate_work_order services setting order ≡ ok decision
unfolding orders
returned = refl

accepted : decision.accepted ≡ true
unfolding orders
accepted = refl

validate_work_order_sound_example :
    IsAuthorized services setting order
    × (decision.state ≡ (if str_eq setting.dedup_state "processed" then no_op else manufacturing))
validate_work_order_sound_example =
    validate_work_order_sound services setting order decision returned accepted

work_order_decision_iff_example :
    ((work_order_decision "first" rows alignment).accepted ≡ true)
    ↔ (All (λ r. r.passed ≡ true) rows × (alignment.accepted ≡ true))
work_order_decision_iff_example = work_order_decision_iff "first" rows alignment
