-- ===== src/Tests/Roles.antt =====
-- Appointments and disposition records.
use toi_no_mori_mvs.Common.{All, [], false, refl, some, sorted_set, true, ◌∷◌, ◌≡◌}
use toi_no_mori_mvs.Controller.Appointment.{
  IsIndependent, Nomination, appointment_applicability, appointment_decision,
}
use toi_no_mori_mvs.Controller.Appointment.{
  target, validate_appointment, validate_appointment_sound,
}
use toi_no_mori_mvs.Controller.Decision.{
  Decision, applicable, not_applicable, role_appointment_green,
}
use toi_no_mori_mvs.Controller.Disposition.{
  decisions_of, disposition_decision, disposition_reasons, head_tests,
}
use toi_no_mori_mvs.Controller.Disposition.{review_ids, validate_disposition_record}
use toi_no_mori_mvs.Controller.Disposition.Complete.{
  IsDecided, Supersedes, validate_disposition_record_sound,
}
use toi_no_mori_mvs.Controller.Registry.{
  column, entries_of, load_json_yaml, load_registry, organizer_logins,
}
use toi_no_mori_mvs.Controller.Schema.Approved.{load_approved_schema, schema_validation_errors}
use toi_no_mori_mvs.Controller.Schema.Definition.{
  check_bound, check_declared, check_enum, check_format, check_keywords, check_metadata,
}
use toi_no_mori_mvs.Controller.Schema.Definition.{
  check_middle, check_node, check_pattern, check_required, check_size, check_tail,
}
use toi_no_mori_mvs.Controller.Schema.Definition.{
  overflows, require_types, requires_type, validate_schema_definition, walk,
}
use toi_no_mori_mvs.Controller.Schema.Instance.{
  additional_errors, check_const, check_enum_value, dict_errors, integer_errors,
}
use toi_no_mori_mvs.Controller.Schema.Instance.{
  list_errors, matched_errors, node_errors, required_errors, text_errors, validate_instance,
}
use toi_no_mori_mvs.Controller.WorkOrder.{is_str_in}
use toi_no_mori_mvs.Python.Canonical.{
  canonical_json, content_hash, join_comma, pair_texts, quote, sha256_text,
}
use toi_no_mori_mvs.Python.Canonical.{sort_entries, text_of}
use toi_no_mori_mvs.Python.Json.{Fields, arr, cons, end, eq, field, get, nil, null, obj, str}
use toi_no_mori_mvs.Python.Result.{ok}
use toi_no_mori_mvs.Tests.Services.{hash_0, services, sha_a}

roles : Unit {0}
unfolding validate_appointment appointment_decision appointment_applicability organizer_logins
    load_registry load_json_yaml entries_of column text_of eq validate_disposition_record
    disposition_decision disposition_reasons head_tests content_hash canonical_json quote join_comma
    sort_entries pair_texts sha256_text sorted_set schema_validation_errors load_approved_schema
    validate_schema_definition walk check_node check_keywords check_metadata check_declared
    check_middle check_tail check_required check_enum check_enum_value check_const check_bound
    check_size check_pattern check_format overflows require_types requires_type validate_instance
    node_errors matched_errors required_errors additional_errors dict_errors list_errors text_errors
    integer_errors
roles = tt

abbrev nomination : Nomination
nomination = record {
  organizer = "owner";
  nominee = "reviewer";
  head_sha = sha_a;
  latest_review = some (
      field "user" (str "reviewer")
        (field "state" (str "APPROVED") (field "commit_id" (str sha_a) end)));
  nominee_has_write = false;
  only_appointment_path_changed = true;
  pr_author = some "owner";
  nominee_in_organizer_allowlist = false;
}

abbrev appointed : Decision
appointed = appointment_decision ("owner" ∷ []) nomination

logins : organizer_logins services ≡ ok ("owner" ∷ [])
unfolding roles
logins = refl

appointed_returned : validate_appointment services nomination ≡ ok appointed
unfolding roles
appointed_returned = refl

appointed_accepted : appointed.accepted ≡ true
unfolding roles
appointed_accepted = refl

validate_appointment_sound_example :
    IsIndependent ("owner" ∷ []) nomination × (appointed.state ≡ role_appointment_green)
validate_appointment_sound_example =
    validate_appointment_sound services nomination ("owner" ∷ []) appointed logins
      appointed_returned appointed_accepted

appointment_applicability_tests :
    ((appointment_applicability services (field "filename" (str target) end ∷ []) true true).state
      ≡ applicable)
    × ((appointment_applicability services (field "filename" (str "a") end ∷ []) true true).state
        ≡ not_applicable)
    × ((appointment_applicability services [] true true).accepted ≡ false)
unfolding roles
appointment_applicability_tests = (refl, refl, refl)

abbrev reviewed : Fields
reviewed = field "findings" (arr (cons (obj (field "id" (str "AUTO-IMPL-P2-001") end)) nil)) end

abbrev closing : Fields
closing = field "finding_id" (str "AUTO-IMPL-P2-001") (field "disposition" (str "CLOSED") end)

abbrev disposition_record : Fields
disposition_record = field "protocol" (str "QF-AI-COLLAB-v5") (
    field "schema_version" (str "finding-disposition-record.schema.json@2") (
      field "role" (str "organizer") (
        field "decided_by" (str "owner") (
          field "decided_at" (str "2026-07-01T00:00:00Z") (
            field "review_artifact_sha256" (str hash_0) (
              field "reviewed_commit_sha" (str sha_a) (
                field "supersedes_record_sha256" null
                  (field "decisions" (arr (cons (obj closing) nil)) end))))))))

abbrev disposed : Decision
disposed = disposition_decision services [] disposition_record []

disposed_returned :
    validate_disposition_record services (obj disposition_record) (some (obj reviewed)) [] 1
    ≡ ok disposed
unfolding roles
disposed_returned = refl

disposed_accepted : disposed.accepted ≡ true
unfolding roles
disposed_accepted = refl

validate_disposition_record_sound_example :
    (schema_validation_errors services
        (obj disposition_record)
        "finding-disposition-record.schema.json"
      ≡ ok [])
    × (is_str_in ("owner" ∷ []) (get "decided_by" disposition_record) ≡ true)
    × (get "review_artifact_sha256" disposition_record ≡ str (content_hash services (obj reviewed)))
    × All
        (IsDecided services (review_ids services reviewed) 1)
        (decisions_of services disposition_record)
    × Supersedes [] (get "supersedes_record_sha256" disposition_record)
validate_disposition_record_sound_example =
    validate_disposition_record_sound services (obj disposition_record) (some (obj reviewed)) [] 1
      ("owner" ∷ []) disposed logins disposed_returned disposed_accepted
