-- ===== src/Controller/WorkOrder.antt =====
-- `_parse_time` and `validate_work_order` of scripts/ai_controller/core.py.
pub mod Authorization
use Prim.Native.String.{String}
use toi_no_mori_mvs.Common.{
  Bool, List, Option, [], all, false, if◌then◌else◌, is_empty, leb, ltb, member,
}
use toi_no_mori_mvs.Common.{
  none, not, same_set, some, str_eq, suc, true, ℕ, ◌&&◌, ◌*◌, ◌++◌, ◌+◌, ◌-◌,
}
use toi_no_mori_mvs.Common.{◌<>◌, ◌||◌, ◌∷◌}
use toi_no_mori_mvs.Controller.Constants.{is_sha256, is_sha40, precondition_ids}
use toi_no_mori_mvs.Controller.Decision.{
  Decision, Entries, Evidence, dict, empty, entry, json, manufacturing, no_op,
}
use toi_no_mori_mvs.Controller.Decision.{stopped, texts}
use toi_no_mori_mvs.Controller.Registry.{organizer_logins, required_check_names}
use toi_no_mori_mvs.Controller.Registry.Execution.{
  Alignment, alignment_evidence, check_entry, check_registry_execution,
}
use toi_no_mori_mvs.Controller.Schema.Approved.{schema_validation_errors}
use toi_no_mori_mvs.Controller.Schema.Formats.{replace_z}
use toi_no_mori_mvs.Python.Canonical.{content_hash, text_of}
use toi_no_mori_mvs.Python.Json.{
  Fields, Json, arr, bool, dict_or_empty, end, eq, get, get_or, int, nil, obj,
}
use toi_no_mori_mvs.Python.Json.{str, texts_or_empty, truthy}
use toi_no_mori_mvs.Python.Numbers.{int_lt, negsuc, pos, ℤ}
use toi_no_mori_mvs.Python.Platform.{Platform}
use toi_no_mori_mvs.Python.Result.{
  Result, err, ok, overflow_error, type_error, value_error, ◌>>=◌, ◌>>◌,
}

-- Microseconds from the start of year 1 to the end of year 9999.
abbrev pub end_of_time : ℕ
end_of_time = 3652059 * 86400000000

-- `parsed.astimezone(timezone.utc)`, which raises `OverflowError` outside the years 1 to 9999.
abbrev pub to_utc : ℕ → ℤ → Result ℕ
to_utc local (pos n) = if leb n local then ok (local - n) else err overflow_error
to_utc local (negsuc n) =
    if ltb (local + suc n) end_of_time then ok (local + suc n) else err overflow_error

abbrev pub offset_or_utc : Option ℤ → ℤ
offset_or_utc none = pos 0
offset_or_utc (some z) = z

-- `_parse_time`
unfoldable pub parse_time : Platform → String → Result ℕ
parse_time p value = elim (p.datetime_from_iso (replace_z value)) [
  | none ↦ err value_error
  | some parsed ↦ to_utc parsed.local (offset_or_utc parsed.offset)
]

-- `_parse_time(text) > now`, with `except (TypeError, ValueError)` giving false.
abbrev pub later_than : ℕ → Result ℕ → Result Bool
later_than now (ok t) = ok (ltb now t)
later_than now (err type_error) = ok false
later_than now (err value_error) = ok false
later_than now (err e) = err e

-- An `int` that is no `bool`, with a test of it.
abbrev pub is_int_with : (ℤ → Bool) → Json → Bool
is_int_with test (int z) = test z
is_int_with test _ = false

abbrev pub is_at_most_3 : ℤ → Bool
is_at_most_3 (pos n) = leb n 3
is_at_most_3 (negsuc n) = false

abbrev pub is_positive : ℤ → Bool
is_positive z = int_lt (pos 0) z

abbrev pub budget_fields : List String
budget_fields =
    "max_wall_minutes" ∷ "max_openai_tokens" ∷ "max_anthropic_tokens" ∷ "max_actions_minutes" ∷ []

abbrev pub is_budget : Fields → Bool
is_budget budget =
    is_int_with is_at_most_3 (get "max_iterations" budget)
    && all (λ key. is_int_with is_positive (get key budget)) budget_fields

-- `isinstance(v, str) and v in xs`
abbrev pub is_str_in : List String → Json → Bool
is_str_in xs (str s) = member s xs
is_str_in xs _ = false

-- `workflow_sha or default_branch_sha`
abbrev pub or_default : Option String → String → String
or_default none default = default
or_default (some s) default = if str_eq s "" then default else s

-- One precondition, or one gate: its identifier, whether it passed, and its evidence.
pub record Row : Type 0 where
  pub id : String
  pub passed : Bool
  pub evidence : Evidence

abbrev pub row : String → Bool → Evidence → Row
row i b e = record { id = i; passed = b; evidence = e }

-- `{identifier: {"result": …, "evidence": …}}`
abbrev pub executed_rows : List Row → Entries
executed_rows [] = empty
executed_rows (r ∷ rs) = entry r.id (check_entry r.passed r.evidence) (executed_rows rs)

-- `[identifier for … if not passed]`
abbrev pub failed_rows : List Row → List String
failed_rows [] = []
failed_rows (r ∷ rs) = let later = failed_rows rs in if r.passed then later else r.id ∷ later

-- What the caller knows besides the work order.
pub record Setting : Type 0 where
  pub actor : String
  pub default_branch_sha : String
  pub workflow_sha : Option String
  pub base_is_ancestor : Bool
  pub now : ℕ  -- microseconds since the start of year 1, in UTC
  pub dedup_state : String
  pub visibility : String

abbrev pub part : String → Json → Fields
part key work_order = dict_or_empty (get_or (obj end) key (dict_or_empty work_order))

module _ (p : Platform) where
  abbrev pub expected_execution : Json → String
  expected_execution work_order =
      text_of p (get "id" (part "metadata" work_order))
      <> (":"
          <> (text_of p (get "version" (part "metadata" work_order))
              <> (":" <> content_hash p (obj (part "spec" work_order)))))

  -- WO-PRE-013: who else has approved.
  abbrev pub second_human : Setting → Json → Bool
  second_human s work_order =
      let risk = get "risk_class" (part "spec" work_order) in
      let approval = part "approval" work_order in
      let reviewer = get "second_human_reviewer" approval in
      let decision = get "second_human_decision" approval in
      (eq risk (str "normal") && eq decision (str "NOT_REQUIRED"))
      || (is_str_in ("sensitive" ∷ "governance" ∷ []) risk
          && truthy reviewer
          && not (eq reviewer (get "organizer" (part "metadata" work_order)))
          && eq decision (str "APPROVED")
          && eq (get "second_human_approved_sha" approval) (str s.default_branch_sha))

  -- WO-PRE-011: the hashes that the approval names.
  abbrev pub names_hashes : Setting → Fields → Bool
  names_hashes s approval =
      is_sha40 (text_of p (get_or (str "") "base_sha" approval))
      && is_sha256 (text_of p (get_or (str "") "work_order_hash" approval))
      && s.base_is_ancestor

  -- The preconditions in the order of `PRECONDITION_IDS`, from what the files and the clock say.
  unfoldable pub work_order_rows :
      (schema_errors allowlist check_names : List String) (unexpired : Bool)
      → Setting
      → Json
      → List Row
  work_order_rows schema_errors allowlist check_names unexpired s work_order =
      let metadata = part "metadata" work_order in
      let spec = part "spec" work_order in
      let approval = part "approval" work_order in
      let expected_hash = content_hash p (obj spec) in
      let budget = dict_or_empty (get_or (obj end) "budget" approval) in
      let required_tests = texts_or_empty (get_or (arr nil) "required_tests" spec) in
      let workflow_sha = or_default s.workflow_sha s.default_branch_sha in
      row "WO-PRE-001" (is_sha40 s.default_branch_sha) (json (str s.default_branch_sha))
      ∷ row "WO-PRE-002" (member s.actor allowlist) (json (str s.actor))
      ∷ row "WO-PRE-003" (is_str_in allowlist (get "organizer" metadata))
          (json (get "organizer" metadata))
      ∷ row "WO-PRE-004" (eq (get "organizer_decision" approval) (str "APPROVED"))
          (json (get "organizer_decision" approval))
      ∷ row "WO-PRE-005" (is_empty schema_errors) (
          dict (
            entry "id" (json (get "id" metadata))
              (entry "schema_errors" (texts schema_errors) empty)))
      ∷ row "WO-PRE-006" (eq (get "execution_state" approval) (str "READY"))
          (json (get "execution_state" approval))
      ∷ row "WO-PRE-007" (eq (get "execution_id" approval) (str (expected_execution work_order)))
          (json (str (expected_execution work_order)))
      ∷ row "WO-PRE-008" (member s.dedup_state ("first" ∷ "processed" ∷ []))
          (json (str s.dedup_state))
      ∷ row "WO-PRE-009" (eq (get "work_order_hash" approval) (str expected_hash))
          (json (str expected_hash))
      ∷ row "WO-PRE-010" unexpired (json (get "expires_at" approval))
      ∷ row "WO-PRE-011" (names_hashes s approval) (
          dict (
            entry "base_sha" (json (get "base_sha" approval)) (
              entry "work_order_hash" (json (get "work_order_hash" approval))
                (entry "base_is_default_ancestor" (json (bool s.base_is_ancestor)) empty))))
      ∷ row "WO-PRE-012" (same_set required_tests check_names) (texts required_tests)
      ∷ row "WO-PRE-013" (second_human s work_order) (
          dict (
            entry "reviewer" (json (get "second_human_reviewer" approval))
              (entry "decision" (json (get "second_human_decision" approval)) empty)))
      ∷ row "WO-PRE-014" (is_budget budget) (json (obj budget))
      ∷ row "WO-PRE-015" (str_eq s.visibility "public") (json (str s.visibility))
      ∷ row "WO-PRE-016" (truthy (get "scope" spec) && truthy (get "prohibited_paths" spec))
          (json (get "scope" spec))
      ∷ row "WO-PRE-017"
          (is_str_in ("normal" ∷ "sensitive" ∷ "governance" ∷ []) (get "risk_class" spec))
          (json (get "risk_class" spec))
      ∷ row "WO-PRE-018" (is_sha40 workflow_sha && str_eq workflow_sha s.default_branch_sha) (
          dict (
            entry "workflow_sha" (json (str workflow_sha))
              (entry "default_branch_sha" (json (str s.default_branch_sha)) empty)))
      ∷ []

-- The decision from the rows and their alignment with the registry.
unfoldable pub work_order_decision : (dedup_state : String) → List Row → Alignment → Decision
work_order_decision dedup_state rows alignment =
    let reasons = failed_rows rows ++ (if alignment.accepted then [] else "STOP-007" ∷ []) in
    let evidence =
      entry "preconditions" (dict (executed_rows rows))
        (entry "alignment" (alignment_evidence alignment) empty) in
    if str_eq dedup_state "processed" && is_empty reasons
    then record {
      state = no_op;
      accepted = true;
      reasons = "already-processed" ∷ [];
      evidence = evidence;
    }
    else record {
      state = if is_empty reasons then manufacturing else stopped;
      accepted = is_empty reasons;
      reasons = reasons;
      evidence = evidence;
    }

unfoldable pub validate_work_order : Platform → Setting → Json → Result Decision
validate_work_order p s work_order = do
  schema_errors ← schema_validation_errors p work_order "work-order.schema.json"
  allowlist ← organizer_logins p
  check_names ← required_check_names p
  unexpired ←
      later_than s.now (parse_time p (text_of p (get "expires_at" (part "approval" work_order))))
  let rows = work_order_rows p schema_errors allowlist check_names unexpired s work_order
  alignment ←
      check_registry_execution p "work-order-preconditions.yml" precondition_ids
        (executed_rows rows)
  ok (work_order_decision s.dedup_state rows alignment)
