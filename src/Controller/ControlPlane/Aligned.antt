-- ===== src/Controller/ControlPlane/Aligned.antt =====
-- After a self-check that returns, the gates agree with their registries whatever they decide.
use Prim.Native.String.{String}
use mathlib.Core.List.{append-nil}
use toi_no_mori_mvs.Common.{
  All, All-of_In, Bool, Bool-cases, In, List, Option, [], all, all_distinct,
}
use toi_no_mori_mvs.Common.{
  all_iff, ap, arith, false, if◌then◌else◌, inl, inr, is_empty, member, or_false,
}
use toi_no_mori_mvs.Common.{
  refl, same_set, same_set_iff, some, sorted_set, str_eq, subst, sym, true,
}
use toi_no_mori_mvs.Common.{◌&&◌, ◌++◌, ◌∙◌, ◌∷◌, ◌≡◌}
use toi_no_mori_mvs.Controller.Constants.{gate_ids, precondition_ids}
use toi_no_mori_mvs.Controller.ControlPlane.{ControlPlane, validate_control_plane}
use toi_no_mori_mvs.Controller.Decision.{Decision, Entries, Evidence, State, find_evidence, json}
use toi_no_mori_mvs.Controller.Registry.{
  RegistryResult, organizer_logins, registry_ids, required_check_names, validate_registry,
}
use toi_no_mori_mvs.Controller.Registry.Contract.{validate_registry_sound}
use toi_no_mori_mvs.Controller.Registry.Execution.{
  Alignment, check_entry, check_execution, check_registry_execution, evidence_keys,
}
use toi_no_mori_mvs.Controller.Registry.Execution.{has_result, lacks_evidence, select}
use toi_no_mori_mvs.Controller.ReviewGate.{
  alignment_row, gate_decision, review_or_empty, validate_review_gate,
}
use toi_no_mori_mvs.Controller.ReviewGate.Findings.{keep}
use toi_no_mori_mvs.Controller.ReviewGate.Rows.{Observed, gate_rows}
use toi_no_mori_mvs.Controller.Schema.Approved.{schema_validation_errors}
use toi_no_mori_mvs.Controller.WorkOrder.{
  Row, Setting, executed_rows, failed_rows, later_than, parse_time, part, row,
}
use toi_no_mori_mvs.Controller.WorkOrder.{validate_work_order, work_order_decision, work_order_rows}
use toi_no_mori_mvs.Python.Canonical.{text_of}
use toi_no_mori_mvs.Python.Json.{Json, dict_or_empty, get, str}
use toi_no_mori_mvs.Python.Platform.{Platform}
use toi_no_mori_mvs.Python.Result.{>>=-eq-ok, ok, ok_injective}

-- The identifiers of rows, in order.
row_ids : List Row → List String
row_ids [] = []
row_ids (r ∷ rs) = r.id ∷ row_ids rs

evidence_keys-executed_rows : (rs : List Row) → evidence_keys (executed_rows rs) ≡ row_ids rs
unfolding row_ids
evidence_keys-executed_rows [] = refl
evidence_keys-executed_rows (r ∷ rs) = ap (λ l. r.id ∷ l) (evidence_keys-executed_rows rs)

found-executed_rows :
    (rs : List Row) (i : String)
    → In i (row_ids rs)
    → (passed : Bool) × (evidence : Evidence) × (find_evidence i (executed_rows rs)
        ≡ some (check_entry passed evidence))
unfolding row_ids
found-executed_rows [] i h = cc
found-executed_rows (r ∷ rs) i h = elim (Bool-cases (str_eq i r.id)) [
  | inl here ↦ (r.passed, r.evidence, rw here refl)
  | inr later ↦
      let (passed, evidence, e) = found-executed_rows rs i (ground (arith, later)) in
      (passed, evidence, rw later e)
]

-- An entry that is looked up holds a result and its evidence.
has_result_of :
    (executed : Entries) (i : String) (passed : Bool) (evidence : Evidence)
    → find_evidence i executed ≡ some (check_entry passed evidence)
    → (has_result executed i ≡ true) × (lacks_evidence executed i ≡ false)
has_result_of executed i true evidence found = (ground (arith, found), ground (arith, found))
has_result_of executed i false evidence found = (ground (arith, found), ground (arith, found))

select-false :
    (keep : String → Bool) (xs : List String) → All (λ x. keep x ≡ false) xs → select keep xs ≡ []
select-false keep [] h = refl
select-false keep (x ∷ xs) (first, rest) = rw first (select-false keep xs rest)

-- Rows that carry exactly the registry's identifiers agree with it.
check_execution-rows :
    (expected implemented : List String) (rs : List Row)
    → same_set expected implemented ≡ true
    → row_ids rs ≡ implemented
    → all_distinct implemented ≡ true
    → (check_execution expected implemented (executed_rows rs)).accepted ≡ true
unfolding check_execution sorted_set
check_execution-rows expected implemented rs same ids distinct =
    let keys : evidence_keys (executed_rows rs) ≡ implemented =
      evidence_keys-executed_rows rs ∙ ids in
    let each = λ (i : String) (m : In i expected).
      let here : In i (row_ids rs) =
        ap (member i) ids ∙ sym ((same_set_iff expected implemented).0 same i) ∙ m in
      let (passed, evidence, found) = found-executed_rows rs i here in
      has_result_of (executed_rows rs) i passed evidence found in
    let complete : select (lacks_evidence (executed_rows rs)) expected ≡ [] =
      select-false _ expected (All-of_In expected (λ i m. (each i m).1)) in
    let results : all (has_result (executed_rows rs)) expected ≡ true =
      (all_iff _ expected).1 (All-of_In expected (λ i m. (each i m).0)) in
    rw (keys, complete, results, same, distinct)
      (ground (arith, (same_set_iff implemented implemented).1 (λ a. refl)))

member-failed_rows :
    (x : String) (rs : List Row) → member x (row_ids rs) ≡ false → member x (failed_rows rs) ≡ false
unfolding row_ids
member-failed_rows x [] h = refl
member-failed_rows x (r ∷ rs) h =
    let (other, rest) = or_false (str_eq x r.id) (member x (row_ids rs)) h in
    let later : member x (failed_rows rs) ≡ false = member-failed_rows x rs rest in
    elim (Bool-cases r.passed) [
      | inl good ↦ rw good later
      | inr bad ↦ rw bad (ground (arith, other))
    ]

failed_rows-append_passed :
    (rs : List Row) (r : Row) → r.passed ≡ true → failed_rows (rs ++ r ∷ []) ≡ failed_rows rs
failed_rows-append_passed [] r h = rw h refl
failed_rows-append_passed (q ∷ rs) r h = elim (Bool-cases q.passed) [
  | inl good ↦ rw good (failed_rows-append_passed rs r h)
  | inr bad ↦ rw bad (ap (λ l. q.id ∷ l) (failed_rows-append_passed rs r h))
]

-- A registry without drift has the implemented ids, and agrees with rows that carry them.
aligned_of_registry :
    (p : Platform) (name : String) (implemented : List String) (result : RegistryResult)
    (rs : List Row) (a : Alignment)
    → validate_registry p name (some implemented) ≡ ok result
    → row_ids rs ≡ implemented
    → all_distinct implemented ≡ true
    → check_registry_execution p name implemented (executed_rows rs) ≡ ok a
    → a.accepted ≡ true
unfolding check_registry_execution
aligned_of_registry p name implemented result rs a valid ids distinct returned =
    let (registry, read) = validate_registry_sound p name (some implemented) result valid in
    let (expected, found, e) = >>=-eq-ok (registry_ids p name) _ returned in
    let same_ids : result.ids ≡ expected = ok_injective (sym read ∙ found) in
    let same : same_set expected implemented ≡ true =
      subst (λ l. same_set l implemented ≡ true) same_ids
        ((same_set_iff result.ids implemented).1 (registry.no_drift implemented refl)) in
    sym (ap (λ q. q.accepted) (ok_injective e))
    ∙ check_execution-rows expected implemented rs same ids distinct

-- The registries of the gates have passed where the self-check returns.
gate_registries :
    (p : Platform) (r : ControlPlane)
    → validate_control_plane p ≡ ok r
    → ((g : RegistryResult) × (validate_registry p "gate-checks.yml" (some gate_ids) ≡ ok g))
      × ((w : RegistryResult) × (validate_registry p "work-order-preconditions.yml"
              (some precondition_ids)
            ≡ ok w))
unfolding validate_control_plane
gate_registries p r h =
    let (gates, gates_valid, h₁) =
      >>=-eq-ok (validate_registry p "gate-checks.yml" (some gate_ids)) _ h in
    let (orders, orders_valid, h₂) =
      >>=-eq-ok (validate_registry p "work-order-preconditions.yml" (some precondition_ids)) _ h₁ in
    ((gates, gates_valid), (orders, orders_valid))

decided_without_drift :
    (dedup : String) (rs : List Row) (a : Alignment)
    → a.accepted ≡ true
    → member "STOP-007" (row_ids rs) ≡ false
    → member "STOP-007" (work_order_decision dedup rs a).reasons ≡ false
unfolding work_order_decision
decided_without_drift dedup rs a aligned other =
    let none_failed : member "STOP-007" (failed_rows rs) ≡ false =
      member-failed_rows "STOP-007" rs other in
    let whole : failed_rows rs ++ [] ≡ failed_rows rs = append-nil (failed_rows rs) in
    rw (aligned, whole)
      (reasons_of (str_eq dedup "processed" && is_empty (failed_rows rs)) (failed_rows rs)
        none_failed _ _ _ _ _ _)
  where
    reasons_of :
        (done : Bool) (rs : List String)
        → member "STOP-007" rs ≡ false
        → (t u : State) (b c : Bool) (e f : Entries)
        → member "STOP-007"
            (if done
              then record {
                state = t;
                accepted = b;
                reasons = "already-processed" ∷ [];
                evidence = e;
              }
              else let q : Decision = record {
                state = u;
                accepted = c;
                reasons = rs;
                evidence = f;
              } in
                q).reasons
          ≡ false
    reasons_of true rs h t u b c e f = refl
    reasons_of false rs h t u b c e f = h

-- Once the self-check returns, a work order is never stopped by STOP-007: the preconditions that it
-- runs are those of the registry.
pub validate_work_order-aligned :
    (p : Platform) (r : ControlPlane) (s : Setting) (work_order : Json) (d : Decision)
    → validate_control_plane p ≡ ok r
    → validate_work_order p s work_order ≡ ok d
    → member "STOP-007" d.reasons ≡ false
unfolding validate_work_order work_order_rows row_ids
validate_work_order-aligned p r s work_order d checked returned =
    let (_, (result, valid)) = gate_registries p r checked in
    let (errors, _, h₁) =
      >>=-eq-ok (schema_validation_errors p work_order "work-order.schema.json") _ returned in
    let (allowlist, _, h₂) = >>=-eq-ok (organizer_logins p) _ h₁ in
    let (checks, _, h₃) = >>=-eq-ok (required_check_names p) _ h₂ in
    let (unexpired, _, h₄) =
      >>=-eq-ok
        (later_than s.now
          (parse_time p (text_of p (get "expires_at" (part "approval" work_order)))))
        _ h₃ in
    let rows = work_order_rows p errors allowlist checks unexpired s work_order in
    let (alignment, executed, h₅) =
      >>=-eq-ok
        (check_registry_execution p "work-order-preconditions.yml" precondition_ids
          (executed_rows rows))
        _ h₄ in
    let aligned =
      aligned_of_registry p "work-order-preconditions.yml" precondition_ids result rows alignment
        valid refl refl executed in
    subst (λ (q : Decision). member "STOP-007" q.reasons ≡ false) (ok_injective h₅)
      (decided_without_drift s.dedup_state rows alignment aligned refl)

-- Once the self-check returns, REV-GATE-020 never stops a review: the gates that were run are those
-- of the registry.
pub validate_review_gate-aligned :
    (p : Platform) (r : ControlPlane) (o : Observed) (request : Json) (review : Option Json)
    (d : Decision)
    → validate_control_plane p ≡ ok r
    → validate_review_gate p o request review ≡ ok d
    → member "REV-GATE-020" d.reasons ≡ false
unfolding validate_review_gate gate_rows gate_decision row_ids
validate_review_gate-aligned p r o request review d checked returned =
    let ((result, valid), _) = gate_registries p r checked in
    let (request_errors, _, h₁) =
      >>=-eq-ok (schema_validation_errors p request "review-request.schema.json") _ returned in
    let (review_errors, _, h₂) =
      >>=-eq-ok (schema_validation_errors p (review_or_empty review) "technical-review.schema.json")
        _ h₁ in
    let rows =
      gate_rows p o request_errors review_errors (dict_or_empty request)
        (dict_or_empty (review_or_empty review)) in
    let last = row "REV-GATE-020" true (json (str "registry execution evaluated below")) in
    let (alignment, executed, h₃) =
      >>=-eq-ok
        (check_registry_execution p "gate-checks.yml" gate_ids (executed_rows (rows ++ last ∷ [])))
        _ h₂ in
    let aligned =
      aligned_of_registry p "gate-checks.yml" gate_ids result (rows ++ last ∷ []) alignment valid
        refl refl executed in
    let passed : (alignment_row alignment).passed ≡ true = rw aligned refl in
    let reasons : d.reasons ≡ failed_rows rows =
      sym (ap (λ q. q.reasons) (ok_injective h₃))
      ∙ failed_rows-append_passed rows (alignment_row alignment) passed in
    ap (member "REV-GATE-020") reasons ∙ member-failed_rows "REV-GATE-020" rows refl
