-- ===== src/Tests/Gates.antt =====
-- Manufacturing results and the review gate.
use Prim.Native.String.{String}
use toi_no_mori_mvs.Common.{
  Bool, List, [], false, if◌then◌else◌, is_empty, is_hex, none, refl, rstrip_star,
}
use toi_no_mori_mvs.Common.{some, sorted_set, split_slash, true, ◌++◌, ◌∷◌, ◌≡◌}
use toi_no_mori_mvs.Controller.Constants.{gate_ids, is_finding_id, is_sha256, is_sha40}
use toi_no_mori_mvs.Controller.Decision.{
  Decision, changes_requested, json, manufactured, review_green,
}
use toi_no_mori_mvs.Controller.Manufacturing.{
  envelope_tests, manufacturing_decision, validate_manufacturing_result,
}
use toi_no_mori_mvs.Controller.Manufacturing.Envelope.{
  IsEnvelope, validate_manufacturing_result_sound,
}
use toi_no_mori_mvs.Controller.Registry.{
  entries_of, load_json_yaml, load_registry, registry_ids, texts_at,
}
use toi_no_mori_mvs.Controller.Registry.Execution.{
  Alignment, check_execution, check_registry_execution,
}
use toi_no_mori_mvs.Controller.ReviewGate.{gate_decision, validate_review_gate}
use toi_no_mori_mvs.Controller.ReviewGate.Findings.{findings_of, is_candidate, is_finding}
use toi_no_mori_mvs.Controller.ReviewGate.Green.{IsReviewed, validate_review_gate_sound}
use toi_no_mori_mvs.Controller.ReviewGate.Rows.{Observed, gate_rows}
use toi_no_mori_mvs.Controller.Schema.Approved.{load_approved_schema, schema_validation_errors}
use toi_no_mori_mvs.Controller.Schema.Definition.{
  check_bound, check_declared, check_enum, check_format, check_keywords, check_metadata,
}
use toi_no_mori_mvs.Controller.Schema.Definition.{
  check_middle, check_node, check_pattern, check_required, check_size, check_tail,
}
use toi_no_mori_mvs.Controller.Schema.Definition.{
  overflows, require_types, requires_type, validate_schema_definition, walk,
}
use toi_no_mori_mvs.Controller.Schema.Instance.{
  additional_errors, check_const, check_enum_value, dict_errors, integer_errors,
}
use toi_no_mori_mvs.Controller.Schema.Instance.{
  list_errors, matched_errors, node_errors, required_errors, text_errors, validate_instance,
}
use toi_no_mori_mvs.Controller.Scope.{path_is_denied, validate_scope}
use toi_no_mori_mvs.Controller.WorkOrder.{Row, executed_rows, row}
use toi_no_mori_mvs.Python.Canonical.{
  canonical_json, content_hash, join_comma, pair_texts, quote, sha256_text,
}
use toi_no_mori_mvs.Python.Canonical.{sort_entries, text_of}
use toi_no_mori_mvs.Python.Json.{Fields, Json, bool, dict_or_empty, end, eq, field, int, obj, str}
use toi_no_mori_mvs.Python.Numbers.{pos}
use toi_no_mori_mvs.Python.Result.{ok, ◌>>=◌}
use toi_no_mori_mvs.Tests.Services.{hash_0, services, sha_a, text_list}

gates : Unit {0}
unfolding validate_manufacturing_result manufacturing_decision envelope_tests validate_scope
    path_is_denied split_slash rstrip_star validate_review_gate gate_decision gate_rows is_finding
    is_candidate is_finding_id schema_validation_errors load_approved_schema load_json_yaml
    validate_schema_definition walk check_node check_keywords check_metadata check_declared
    check_middle check_tail check_required check_enum check_enum_value check_const check_bound
    check_size check_pattern check_format overflows require_types requires_type eq sorted_set
    validate_instance node_errors matched_errors required_errors additional_errors dict_errors
    list_errors text_errors integer_errors registry_ids load_registry entries_of texts_at
    check_registry_execution check_execution content_hash canonical_json quote join_comma
    sort_entries pair_texts sha256_text text_of is_sha40 is_sha256 is_hex
gates = tt

abbrev order : Json
order = obj (
    field "metadata" (obj (field "id" (str "WO-1") end)) (
      field "spec"
        (obj (
          field "scope" (text_list ("src/**" ∷ []))
            (field "required_tests" (text_list ("build" ∷ [])) end)))
        end))

abbrev made : Json
made = obj (
    field "protocol" (str "QF-AI-COLLAB-v5") (
      field "schema_version" (str "manufacturing-result.schema.json@3") (
        field "role" (str "codex_manufacturer") (
          field "work_order_id" (str "WO-1") (
            field "work_order_ref" (str "docs/order") (
              field "work_order_hash" (str hash_0) (
                field "base_sha" (str sha_a) (
                  field "patch_sha256" (str hash_0) (
                    field "scope_changed" (text_list ("src/a" ∷ [])) (
                      field "tests_requested" (text_list ("build" ∷ [])) (
                        field "known_limits" (text_list [])
                          (field "iteration" (int (pos 1)) end))))))))))))

abbrev made_decision : Decision
made_decision = manufacturing_decision [] ("src/a" ∷ []) hash_0 []

made_returned :
    validate_manufacturing_result services made order hash_0 sha_a ("src/a" ∷ []) ≡ ok made_decision
unfolding gates
made_returned = refl

made_accepted : made_decision.accepted ≡ true
unfolding gates
made_accepted = refl

validate_manufacturing_result_sound_example :
    IsEnvelope services made order hash_0 sha_a ("src/a" ∷ [])
    × (made_decision.state ≡ manufactured)
validate_manufacturing_result_sound_example =
    validate_manufacturing_result_sound services made order hash_0 sha_a ("src/a" ∷ [])
      made_decision made_returned made_accepted

-- A path below a denied directory is reported with every other reason.
validate_manufacturing_result_tests :
    validate_manufacturing_result services made order hash_0 sha_a ("src/a" ∷ "AGENTS.md" ∷ [])
      >>= (λ d. ok d.reasons)
    ≡ ok (
        "control-plane-denied:AGENTS.md" ∷ "manufacturing-result-scope" ∷ "scope-exceeded:AGENTS.md"
        ∷ [])
unfolding gates
validate_manufacturing_result_tests = refl

abbrev pub request : Json
request = obj (
    field "protocol" (str "QF-AI-COLLAB-v5") (
      field "schema_version" (str "review-request.schema.json@1") (
        field "pr_number" (int (pos 7)) (
          field "head_sha" (str sha_a) (
            field "tree_sha" (str sha_a) (
              field "expected_review_mode" (str "INITIAL")
                (field "work_order_id" (str "WO-1") end)))))))

abbrev pub coverage : Fields
coverage =
    field "files_read" (text_list [])
      (field "checks_confirmed" (text_list []) (field "review_areas" (text_list []) end))

-- A review without findings, with the given decision.
abbrev pub review_with : (decision : String) (blocking : Bool) → Json
review_with decision blocking = obj (
    field "protocol" (str "QF-AI-COLLAB-v5") (
      field "schema_version" (str "technical-review.schema.json@3") (
        field "role" (str "claude_reviewer") (
          field "work_order_id" (str "WO-1") (
            field "default_branch_sha" (str sha_a) (
              field "reviewed_commit_sha" (str sha_a) (
                field "reviewed_tree_sha" (str sha_a) (
                  field "review_request_sha256" (str hash_0) (
                    field "review_mode" (str "INITIAL") (
                      field "decision" (str decision) (
                        field "blocking" (bool blocking) (
                          field "coverage" (obj coverage) (
                            field "unverified" (text_list [])
                              (field "findings" (text_list []) end))))))))))))))

abbrev pub observed : Observed
observed = record {
  current_head_sha = sha_a;
  actual_tree_sha = sha_a;
  required_checks_green = true;
  claude_exit_code = pos 0;
  base_drift_allowed = true;
  expected_default_branch_sha = none;
}

-- A review that decides FAIL and blocks, but lists no finding, is green.
failed_review_tests :
    validate_review_gate services observed request (some (review_with "FAIL" true))
      >>= (λ d. ok d.state)
    ≡ ok review_green
unfolding gates
failed_review_tests = refl

abbrev pub passed_rows : List Row
passed_rows =
    gate_rows services observed [] [] (dict_or_empty request)
      (dict_or_empty (review_with "PASS" false))

abbrev pub passed_alignment : Alignment
passed_alignment = check_execution gate_ids gate_ids (
    executed_rows (
      passed_rows
      ++ row "REV-GATE-020" true (json (str "registry execution evaluated below")) ∷ []))

abbrev pub passed_decision : Decision
passed_decision = gate_decision passed_rows [] passed_alignment

pub passed_returned :
    validate_review_gate services observed request (some (review_with "PASS" false))
    ≡ ok passed_decision
unfolding gates
passed_returned = refl

passed_accepted : passed_decision.accepted ≡ true
unfolding gates
passed_accepted = refl

validate_review_gate_sound_example :
    let review = review_with "PASS" false in
    (schema_validation_errors services request "review-request.schema.json" ≡ ok [])
    × (schema_validation_errors services review "technical-review.schema.json" ≡ ok [])
    × IsReviewed services observed (dict_or_empty request) (dict_or_empty review)
    × (passed_decision.state ≡ (
        if is_empty (findings_of (dict_or_empty review)) then review_green else changes_requested))
validate_review_gate_sound_example =
    validate_review_gate_sound services observed request (some (review_with "PASS" false))
      passed_decision passed_returned passed_accepted
