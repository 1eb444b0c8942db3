-- ===== src/Controller/ReviewGate.antt =====
-- `validate_review_gate` of scripts/ai_controller/core.py.
pub mod Findings
pub mod Rows
pub mod Green
use Prim.Native.String.{String}
use toi_no_mori_mvs.Controller.ReviewGate.Findings.{findings_of, unresolved}
use toi_no_mori_mvs.Controller.ReviewGate.Rows.{Observed, gate_rows}
use toi_no_mori_mvs.Common.{Bool, List, Option, [], false, if◌then◌else◌, is_empty, none, not, some}
use toi_no_mori_mvs.Common.{true, ◌++◌, ◌||◌, ◌∷◌}
use toi_no_mori_mvs.Controller.Constants.{gate_ids}
use toi_no_mori_mvs.Controller.Decision.{
  Decision, State, changes_requested, dict, empty, entry, json, review_green,
}
use toi_no_mori_mvs.Controller.Decision.{stopped}
use toi_no_mori_mvs.Controller.Registry.Execution.{
  Alignment, alignment_evidence, check_registry_execution,
}
use toi_no_mori_mvs.Controller.Schema.Approved.{schema_validation_errors}
use toi_no_mori_mvs.Controller.WorkOrder.{Row, executed_rows, failed_rows, row}
use toi_no_mori_mvs.Python.Json.{Fields, Json, dict_or_empty, end, null, obj, str}
use toi_no_mori_mvs.Python.Platform.{Platform}
use toi_no_mori_mvs.Python.Result.{Result, ok, ◌>>=◌, ◌>>◌}

-- The row of REV-GATE-020 before and after the alignment is known.
abbrev pub alignment_row : Alignment → Row
alignment_row alignment =
    if alignment.accepted
    then row "REV-GATE-020" true (json (str "registry execution evaluated below"))
    else row "REV-GATE-020" false (alignment_evidence alignment)

-- The state from the reasons and the findings.
abbrev pub gate_state : (reasons : List String) (blocking has_findings : Bool) → State
gate_state reasons blocking has_findings =
    if not (is_empty reasons)
    then stopped
    else if blocking || has_findings
    then changes_requested
    else review_green

unfoldable pub gate_decision : List Row → (findings : List Fields) → Alignment → Decision
gate_decision rows findings alignment =
    let executed = rows ++ alignment_row alignment ∷ [] in
    let reasons = failed_rows executed in
    record {
      state = gate_state reasons (not (is_empty (unresolved findings))) (not (is_empty findings));
      accepted = is_empty reasons;
      reasons = reasons;
      evidence =
          entry "gate_checks" (dict (executed_rows executed))
            (entry "alignment" (alignment_evidence alignment) empty);
    }

-- `review if review is not None else {}`
abbrev pub review_or_empty : Option Json → Json
review_or_empty none = obj end
review_or_empty (some null) = obj end
review_or_empty (some v) = v

unfoldable pub validate_review_gate :
    Platform → Observed → (request : Json) (review : Option Json) → Result Decision
validate_review_gate p o request review = do
  request_errors ← schema_validation_errors p request "review-request.schema.json"
  review_errors ← schema_validation_errors p (review_or_empty review) "technical-review.schema.json"
  let rows =
      gate_rows p o request_errors review_errors (dict_or_empty request)
        (dict_or_empty (review_or_empty review))
  let provisional =
      rows ++ row "REV-GATE-020" true (json (str "registry execution evaluated below")) ∷ []
  alignment ← check_registry_execution p "gate-checks.yml" gate_ids (executed_rows provisional)
  ok (gate_decision rows (findings_of (dict_or_empty (review_or_empty review))) alignment)
