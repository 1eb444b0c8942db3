-- ===== src/Controller/Disposition.antt =====
-- `validate_disposition_record` of scripts/ai_controller/core.py.
pub mod Complete
use Prim.Native.String.{String}
use toi_no_mori_mvs.Common.{Bool, List, Option, [], false, flat, if◌then◌else◌, is_empty, leb, none}
use toi_no_mori_mvs.Common.{not, same_set, some, sorted_set, ℕ, ◌&&◌, ◌++◌, ◌<>◌, ◌||◌, ◌∷◌}
use toi_no_mori_mvs.Controller.Constants.{protocol}
use toi_no_mori_mvs.Controller.Decision.{
  Decision, collect, disposition_valid, empty, entry, json, stopped, texts,
}
use toi_no_mori_mvs.Controller.Registry.{organizer_logins, texts_in}
use toi_no_mori_mvs.Controller.ReviewGate.Findings.{findings_of, values_at}
use toi_no_mori_mvs.Controller.Schema.Approved.{schema_validation_errors}
use toi_no_mori_mvs.Controller.WorkOrder.{is_str_in}
use toi_no_mori_mvs.Python.Canonical.{content_hash, text_of}
use toi_no_mori_mvs.Python.Json.{
  Fields, Json, arr, dict_or_empty, dicts_or_empty, end, eq, get, get_or, keys,
}
use toi_no_mori_mvs.Python.Json.{nil, null, obj, str, truthy}
use toi_no_mori_mvs.Python.Platform.{Platform}
use toi_no_mori_mvs.Python.Result.{Result, ok, ◌>>=◌, ◌>>◌}

abbrev pub disposition_fields : List String
disposition_fields =
    "protocol" ∷ "schema_version" ∷ "role" ∷ "decided_by" ∷ "decided_at" ∷ "review_artifact_sha256"
    ∷ "reviewed_commit_sha" ∷ "supersedes_record_sha256" ∷ "decisions" ∷ []

abbrev pub dispositions : List String
dispositions =
    "ACCEPTED_PLAN" ∷ "REJECTED_WITH_REASON" ∷ "DEFERRED" ∷ "POLICY_DECISION_REQUIRED" ∷ "CLOSED"
    ∷ []

-- `due`, or `date.min` where it is no date.
abbrev pub date_or_min : Option ℕ → ℕ
date_or_min none = 1
date_or_min (some due) = due

abbrev pub lacks : String → Fields → Bool
lacks key fs = not (truthy (get key fs))

-- `review_record` where it is a dict that is not empty.
abbrev pub filled_record : Option Json → Fields
filled_record none = end
filled_record (some v) = dict_or_empty v

abbrev pub is_unknown_record : (existing : List String) → Json → Bool
is_unknown_record existing null = false
is_unknown_record existing v = not (is_str_in existing v)

module _ (p : Platform) where
  abbrev pub is_deferral : (now : ℕ) → Fields → Bool
  is_deferral now deferral =
      let due = date_or_min (p.date_from_iso (text_of p (get "due" deferral))) in
      truthy (get "owner" deferral) && truthy (get "reason" deferral) && leb now due

  -- The chain of tests on the disposition of one decision.
  unfoldable pub disposition_reasons : (now : ℕ) → Fields → List String
  disposition_reasons now decision =
      let disposition = get "disposition" decision in
      if eq disposition (str "DEFERRED")
      then if is_deferral now (dict_or_empty (get_or (obj end) "deferral" decision))
        then []
        else "deferral-incomplete" ∷ []
      else if eq disposition (str "REJECTED_WITH_REASON") && lacks "reason" decision
      then "rejection-reason-missing" ∷ []
      else if eq disposition (str "POLICY_DECISION_REQUIRED")
          && (lacks "policy_owner" decision || lacks "decision_due" decision)
      then "policy-decision-incomplete" ∷ []
      else if is_str_in dispositions disposition
      then []
      else "disposition-enum" ∷ []

  -- One round of the loop over the decisions.
  abbrev pub decision_reasons : (review_ids : List String) (now : ℕ) → Fields → List String
  decision_reasons review_ids now decision =
      collect ((not (is_str_in review_ids (get "finding_id" decision)), "unknown-finding") ∷ [])
      ++ disposition_reasons now decision

  -- The tests before the loop, each with its reason.
  unfoldable pub head_tests :
      (schema_errors allowlist : List String) (finding_record review_record : Fields)
      → List (Bool × String)
  head_tests schema_errors allowlist finding_record review_record =
      (not (is_empty schema_errors), "disposition-record-json-schema")
      ∷ (not (same_set (keys finding_record) disposition_fields), "disposition-record-shape")
      ∷ (
        not (eq (get "protocol" finding_record) (str protocol))
            || not (
                eq (get "schema_version" finding_record)
                  (str "finding-disposition-record.schema.json@2"))
            || not (eq (get "role" finding_record) (str "organizer")),
        "disposition-record-schema",
      )
      ∷ (not (is_str_in allowlist (get "decided_by" finding_record)), "disposition-actor")
      ∷ (
        not (truthy (obj review_record))
            || not (
                eq (get "review_artifact_sha256" finding_record)
                  (str (content_hash p (obj review_record)))),
        "review-artifact-reference",
      )
      ∷ []

  abbrev pub disposition_path : Fields → String
  disposition_path finding_record =
      "docs/evidence/automation/dispositions/"
      <> (text_of p (get "review_artifact_sha256" finding_record)
          <> ("/" <> (content_hash p (obj finding_record) <> ".json")))

  unfoldable pub disposition_decision :
      (reasons : List String) (finding_record : Fields) (schema_errors : List String) → Decision
  unfolding sorted_set
  disposition_decision reasons finding_record schema_errors = record {
    state = if is_empty reasons then disposition_valid else stopped;
    accepted = is_empty reasons;
    reasons = sorted_set reasons;
    evidence = entry "path" (json (str (disposition_path finding_record))) (
        entry "sha256" (json (str (content_hash p (obj finding_record))))
          (entry "schema_errors" (texts schema_errors) empty));
  }

  abbrev pub review_ids : Fields → List String
  review_ids review_record = texts_in (values_at "id" (findings_of review_record))

  abbrev pub decisions_of : Fields → List Fields
  decisions_of finding_record = dicts_or_empty (get_or (arr nil) "decisions" finding_record)

  unfoldable pub validate_disposition_record :
      (document : Json) (review_record : Option Json) (existing_record_hashes : List String)
      (now : ℕ)
      → Result Decision
  validate_disposition_record document review_record existing_record_hashes now = do
    schema_errors ← schema_validation_errors p document "finding-disposition-record.schema.json"
    allowlist ← organizer_logins p
    let finding_record = dict_or_empty document
    let review = filled_record review_record
    let reasons =
        collect (head_tests schema_errors allowlist finding_record review)
        ++ (flat (decision_reasons (review_ids review) now) (decisions_of finding_record)
            ++ collect (
                (
                  is_unknown_record existing_record_hashes
                      (get "supersedes_record_sha256" finding_record),
                  "supersedes-invalid",
                )
                ∷ []))
    ok (disposition_decision reasons finding_record schema_errors)
