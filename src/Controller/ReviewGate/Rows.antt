-- ===== src/Controller/ReviewGate/Rows.antt =====
-- The gates REV-GATE-001 to REV-GATE-019 of `validate_review_gate` in scripts/ai_controller/core.py.
use Prim.Native.String.{String}
use toi_no_mori_mvs.Common.{
  Bool, List, Option, [], all, all_distinct, false, is_empty, length, none,
}
use toi_no_mori_mvs.Common.{not, some, sorted_set, subset, true, ◌&&◌, ◌||◌, ◌∷◌}
use toi_no_mori_mvs.Controller.Constants.{is_sha256, is_sha40, protocol}
use toi_no_mori_mvs.Controller.Decision.{Evidence, dict, empty, entry, json, text_set, texts}
use toi_no_mori_mvs.Controller.Registry.{texts_in}
use toi_no_mori_mvs.Controller.ReviewGate.Findings.{
  allowed_status, candidate_by_id, candidates_of, eligible_of, findings_of,
}
use toi_no_mori_mvs.Controller.ReviewGate.Findings.{
  fix_ids, is_candidate, is_finding, unresolved, values_at, verified_ids,
}
use toi_no_mori_mvs.Controller.WorkOrder.{Row, is_str_in, part, row}
use toi_no_mori_mvs.Python.Canonical.{content_hash, text_of}
use toi_no_mori_mvs.Python.Json.{
  Fields, Json, arr, bool, eq, get, get_or, has, int, is_false, is_null, is_str,
}
use toi_no_mori_mvs.Python.Json.{is_true, null, obj, str, to_fields, to_items, truthy}
use toi_no_mori_mvs.Python.Numbers.{int_eq, int_lt, pos, ℤ}
use toi_no_mori_mvs.Python.Platform.{Platform}

-- What the caller knows besides the request and the review.
pub record Observed : Type 0 where
  pub current_head_sha : String
  pub actual_tree_sha : String
  pub required_checks_green : Bool
  pub claude_exit_code : ℤ
  pub base_drift_allowed : Bool
  pub expected_default_branch_sha : Option String

-- `isinstance(v, int) and v >= 1`, where a `bool` is an `int`.
abbrev pub is_pr_number : Json → Bool
is_pr_number (int z) = int_lt (pos 0) z
is_pr_number (bool b) = b
is_pr_number _ = false

-- `decision_consistent`
abbrev pub is_consistent : (review : Fields) (has_findings : Bool) → Bool
is_consistent review has_findings =
    let decision = get "decision" review in
    let blocking = get "blocking" review in
    (eq decision (str "PASS") && not has_findings && is_false blocking)
    || (eq decision (str "PASS_WITH_FINDINGS") && has_findings && is_false blocking)
    || (eq decision (str "FAIL") && is_true blocking)

abbrev pub matches_expected : Option String → Json → Bool
matches_expected none v = true
matches_expected (some s) v = eq v (str s)

abbrev pub option_text : Option String → Json
option_text none = null
option_text (some s) = str s

-- A dict of evidence from keys and values.
abbrev pub evidence_of : List (String × Json) → Evidence
evidence_of fs = json (obj (to_fields fs))

module _ (p : Platform) where
  abbrev pub initial_shape : Fields → Bool
  initial_shape request =
      is_null (get "prior_review_artifact_sha256" request)
      && is_empty (eligible_of request)
      && is_empty (candidates_of request)

  abbrev pub reverify_shape : Fields → Bool
  reverify_shape request =
      is_sha256 (text_of p (get_or (str "") "prior_review_artifact_sha256" request))
      && not (is_empty (eligible_of request))
      && not (is_empty (candidates_of request))

  -- The rows in the order of `GATE_IDS`, without the last.
  unfoldable pub gate_rows :
      Observed → (request_errors review_errors : List String) (request review : Fields) → List Row
  unfolding sorted_set is_finding is_candidate
  gate_rows o request_errors review_errors request review =
      let findings = findings_of review in
      let candidates = candidates_of request in
      let mode = get "expected_review_mode" request in
      let head = o.current_head_sha in
      let decision = get "decision" review in
      let blocking = get "blocking" review in
      let ids = values_at "id" findings in
      row "REV-GATE-001" (int_eq o.claude_exit_code (pos 0)) (json (int o.claude_exit_code))
      ∷ row "REV-GATE-002" (truthy (obj review)) (json (bool (truthy (obj review))))
      ∷ row "REV-GATE-003" (eq (get "reviewed_commit_sha" review) (str head))
          (evidence_of (("reviewed", get "reviewed_commit_sha" review) ∷ ("head", str head) ∷ []))
      ∷ row "REV-GATE-004"
          (eq (get "tree_sha" request) (get "reviewed_tree_sha" review)
            && eq (get "reviewed_tree_sha" review) (str o.actual_tree_sha))
          (evidence_of (
            ("request", get "tree_sha" request)
            ∷ ("reviewed", get "reviewed_tree_sha" review)
            ∷ ("actual", str o.actual_tree_sha)
            ∷ []))
      ∷ row "REV-GATE-005" o.required_checks_green (json (bool o.required_checks_green))
      ∷ row "REV-GATE-006"
          (all (λ key. has key (part "coverage" (obj review)))
              ("files_read" ∷ "checks_confirmed" ∷ "review_areas" ∷ [])
            && has "unverified" review)
          (json (obj (part "coverage" (obj review))))
      ∷ row "REV-GATE-007"
          (is_empty request_errors
            && eq (get "protocol" request) (str protocol)
            && eq (get "schema_version" request) (str "review-request.schema.json@1")
            && is_pr_number (get "pr_number" request)
            && is_sha40 (text_of p (get_or (str "") "head_sha" request)))
          (dict (
            entry "schema_version" (json (get "schema_version" request))
              (entry "schema_errors" (texts request_errors) empty)))
      ∷ row "REV-GATE-008"
          (is_empty review_errors
            && eq (get "protocol" review) (str protocol)
            && eq (get "schema_version" review) (str "technical-review.schema.json@3")
            && eq (get "role" review) (str "claude_reviewer")
            && eq (get "work_order_id" review) (get "work_order_id" request)
            && is_sha40 (text_of p (get_or (str "") "default_branch_sha" review)))
          (dict (
            entry "schema_version" (json (get "schema_version" review)) (
              entry "role" (json (get "role" review)) (
                entry "work_order_id" (json (get "work_order_id" review))
                  (entry "schema_errors" (texts review_errors) empty)))))
      ∷ row "REV-GATE-009"
          (is_str_in ("PASS" ∷ "PASS_WITH_FINDINGS" ∷ "FAIL" ∷ []) decision
            && is_consistent review (not (is_empty findings)))
          (evidence_of (
            ("decision", decision)
            ∷ ("blocking", blocking)
            ∷ ("findings", int (pos (length findings)))
            ∷ []))
      ∷ row "REV-GATE-010"
          (is_str_in ("INITIAL" ∷ "REVERIFY" ∷ []) mode
            && eq (get "review_mode" review) mode
            && ((eq mode (str "INITIAL") && initial_shape request)
                || (eq mode (str "REVERIFY") && reverify_shape request)))
          (json mode)
      ∷ row "REV-GATE-011"
          (eq (get "review_request_sha256" review) (str (content_hash p (obj request))))
          (json (str (content_hash p (obj request))))
      ∷ row "REV-GATE-012"
          (all is_str ids && all_distinct (texts_in ids) && all (is_finding p) findings)
          (json (arr (to_items ids)))
      ∷ row "REV-GATE-013"
          (all (λ f. is_str_in (allowed_status mode) (get "verification_status" f)) findings)
          (text_set (allowed_status mode))
      ∷ row "REV-GATE-014"
          (subset (verified_ids findings) (eligible_of request)
            && subset (verified_ids findings) (fix_ids candidates)
            && all (is_candidate p head) (candidate_by_id candidates))
          (dict (
            entry "verified" (texts (sorted_set (verified_ids findings)))
              (entry "candidates" (texts (sorted_set (fix_ids candidates))) empty)))
      ∷ row "REV-GATE-015"
          (all (λ f. not (eq (get "verification_status" f) (str "CLOSED"))) findings)
          (json (str "CLOSED forbidden"))
      ∷ row "REV-GATE-016" (all (λ f. eq (get "disposition" f) (str "UNDECIDED")) findings)
          (json (str "UNDECIDED only"))
      ∷ row "REV-GATE-017" (is_empty (unresolved findings) || is_true blocking)
          (json (arr (to_items (values_at "id" (unresolved findings)))))
      ∷ row "REV-GATE-018"
          (eq (get "head_sha" request) (str head)
            && eq (str head) (get "reviewed_commit_sha" review))
          (json (str head))
      ∷ row "REV-GATE-019"
          (o.base_drift_allowed
            && matches_expected o.expected_default_branch_sha (get "default_branch_sha" review))
          (evidence_of (
            ("allowed", bool o.base_drift_allowed)
            ∷ ("reviewed_default", get "default_branch_sha" review)
            ∷ ("expected_default", option_text o.expected_default_branch_sha)
            ∷ []))
      ∷ []
