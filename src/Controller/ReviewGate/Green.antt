-- ===== src/Controller/ReviewGate/Green.antt =====
-- What an accepted review is known to satisfy.
use Prim.Native.String.{String}
use toi_no_mori_mvs.Common.{
  All, Bool, Bool-cases, List, Option, [], all, ap, arith, false, if◌then◌else◌,
}
use toi_no_mori_mvs.Common.{
  inl, inr, is_empty, is_empty_iff, not, refl, sym, true, ◌&&◌, ◌++◌, ◌||◌,
}
use toi_no_mori_mvs.Common.{◌∙◌, ◌∷◌, ◌≡◌, ◌≢◌, ◌⊎◌}
use toi_no_mori_mvs.Controller.Constants.{gate_ids}
use toi_no_mori_mvs.Controller.Decision.{Decision, changes_requested, json, review_green}
use toi_no_mori_mvs.Controller.Registry.Execution.{Alignment, check_registry_execution}
use toi_no_mori_mvs.Controller.ReviewGate.{
  alignment_row, gate_decision, review_or_empty, validate_review_gate,
}
use toi_no_mori_mvs.Controller.ReviewGate.Findings.{findings_of, is_open_severe, keep, unresolved}
use toi_no_mori_mvs.Controller.ReviewGate.Rows.{Observed, gate_rows, is_consistent}
use toi_no_mori_mvs.Controller.Schema.Approved.{schema_validation_errors}
use toi_no_mori_mvs.Controller.WorkOrder.{Row, executed_rows, failed_rows, row}
use toi_no_mori_mvs.Controller.WorkOrder.Authorization.{failed-empty_iff}
use toi_no_mori_mvs.Python.Canonical.{content_hash}
use toi_no_mori_mvs.Python.Json.{
  Fields, Json, bool, dict_or_empty, eq, eq-str, get, is_false, is_true, obj,
}
use toi_no_mori_mvs.Python.Json.{str}
use toi_no_mori_mvs.Python.Numbers.{int_eq, pos}
use toi_no_mori_mvs.Python.Platform.{Platform}
use toi_no_mori_mvs.Python.Result.{>>=-eq-ok, ok, ok_injective}

keep-empty {ℓ} :
    {A : Type ℓ} (test : A → Bool) (xs : List A)
    → is_empty (keep test xs) ≡ true
    → All (λ x. test x ≡ false) xs
keep-empty test [] h = tt
keep-empty test (x ∷ xs) h = elim (Bool-cases (test x)) [
  | inl bad ↦ absurd (cc (rw bad at h))
  | inr good ↦ (good, keep-empty test xs (rw good at h))
]

two : (a b : Bool) → (a && b) ≡ true → (a ≡ true) × (b ≡ true)
two a b h = ground arith

first_of_5 : (a b c d e : Bool) → (a && b && c && d && e) ≡ true → a ≡ true
first_of_5 a b c d e h = ground arith

first_of_6 : (a b c d e f : Bool) → (a && b && c && d && e && f) ≡ true → a ≡ true
first_of_6 a b c d e f h = ground arith

is_false_sound : (v : Json) → is_false v ≡ true → v ≡ bool false
is_false_sound (bool true) h = cc
is_false_sound (bool false) h = refl
is_false_sound _ h = cc

is_true_sound : (v : Json) → is_true v ≡ true → v ≡ bool true
is_true_sound (bool b) h = ap bool h
is_true_sound _ h = cc

-- The three consistent kinds of decision.
consistent_sound :
    (review : Fields) (findings : List Fields)
    → is_consistent review (not (is_empty findings)) ≡ true
    → ((get "decision" review ≡ str "PASS")
        × (findings ≡ [])
        × (get "blocking" review ≡ bool false))
      ⊎ ((get "decision" review ≡ str "PASS_WITH_FINDINGS")
          × (findings ≢ [])
          × (get "blocking" review ≡ bool false))
      ⊎ ((get "decision" review ≡ str "FAIL") × (get "blocking" review ≡ bool true))
consistent_sound review [] h =
    elim (Bool-cases
      (eq (get "decision" review) (str "PASS") && is_false (get "blocking" review))) [
        | inl passed ↦ let (p, b) = two _ _ passed in inl (eq-str _ _ p, refl, is_false_sound _ b)
        | inr other ↦
            let (f, b) =
              two (eq (get "decision" review) (str "FAIL")) (is_true (get "blocking" review))
                (ground arith) in
            inr (inr (eq-str _ _ f, is_true_sound _ b))
      ]
consistent_sound review (x ∷ xs) h =
    elim (Bool-cases
      (eq (get "decision" review) (str "PASS_WITH_FINDINGS") && is_false (get "blocking" review))) [
        | inl passed ↦
            let (p, b) = two _ _ passed in inr (inl (eq-str _ _ p, λ e. cc (e), is_false_sound _ b))
        | inr other ↦
            let (f, b) =
              two (eq (get "decision" review) (str "FAIL")) (is_true (get "blocking" review))
                (ground arith) in
            inr (inr (eq-str _ _ f, is_true_sound _ b))
      ]

failed-append :
    (rs ss : List Row)
    → is_empty (failed_rows (rs ++ ss)) ≡ (is_empty (failed_rows rs) && is_empty (failed_rows ss))
failed-append [] ss = refl
failed-append (r ∷ rs) ss = elim (Bool-cases r.passed) [
  | inl good ↦ rw good (failed-append rs ss)
  | inr bad ↦ rw bad refl
]

either_sound :
    (findings : List Fields) (blocking : Json)
    → (is_empty (unresolved findings) || is_true blocking) ≡ true
    → All (λ f. is_open_severe f ≡ false) findings ⊎ (blocking ≡ bool true)
either_sound findings blocking h = elim (Bool-cases (is_empty (unresolved findings))) [
  | inl none_open ↦ inl (keep-empty is_open_severe findings none_open)
  | inr some_open ↦ inr (is_true_sound blocking (ground arith))
]

undecided_sound :
    (findings : List Fields)
    → all (λ f. eq (get "disposition" f) (str "UNDECIDED")) findings ≡ true
    → All (λ f. get "disposition" f ≡ str "UNDECIDED") findings
undecided_sound [] h = tt
undecided_sound (f ∷ fs) h =
    let (first, rest) = two _ _ h in (eq-str _ _ first, undecided_sound fs rest)

module _ (p : Platform) (o : Observed) (request review : Fields) where
  -- The review is of exactly this request, commit and tree, its decision agrees with its findings, and
  -- severe findings that are not verified block.
  pub record IsReviewed : Type 0 where
    pub exit_code : int_eq o.claude_exit_code (pos 0) ≡ true
    pub checks_green : o.required_checks_green ≡ true
    pub reviewed_head : get "reviewed_commit_sha" review ≡ str o.current_head_sha
    pub requested_head : get "head_sha" request ≡ str o.current_head_sha
    pub reviewed_tree : get "reviewed_tree_sha" review ≡ str o.actual_tree_sha
    pub request_hash : get "review_request_sha256" review ≡ str (content_hash p (obj request))
    pub undecided : All (λ f. get "disposition" f ≡ str "UNDECIDED") (findings_of review)
    pub blocks :
        All (λ f. is_open_severe f ≡ false) (findings_of review)
        ⊎ (get "blocking" review ≡ bool true)
    pub consistent :
        ((get "decision" review ≡ str "PASS")
          × (findings_of review ≡ [])
          × (get "blocking" review ≡ bool false))
        ⊎ ((get "decision" review ≡ str "PASS_WITH_FINDINGS")
            × (findings_of review ≢ [])
            × (get "blocking" review ≡ bool false))
        ⊎ ((get "decision" review ≡ str "FAIL") × (get "blocking" review ≡ bool true))

  gate_rows_sound :
      (request_errors review_errors : List String)
      → All (λ r. r.passed ≡ true) (gate_rows p o request_errors review_errors request review)
      → IsReviewed × (request_errors ≡ []) × (review_errors ≡ [])
  unfolding gate_rows
  gate_rows_sound request_errors review_errors
        (
          code,
          (
            _,
            (
              head,
              (
                tree,
                (
                  green,
                  (
                    _,
                    (
                      g7,
                      (
                        g8,
                        (
                          decided,
                          (_, (hash, (_, (_, (_, (_, (undecided, (blocks, (heads, _))))))))),
                        ),
                      ),
                    ),
                  ),
                ),
              ),
            ),
          ),
        ) =
      let no_request_errors = first_of_5 (is_empty request_errors) _ _ _ _ g7 in
      let no_review_errors = first_of_6 (is_empty review_errors) _ _ _ _ _ g8 in
      (
        record {
          exit_code = code;
          checks_green = green;
          reviewed_head = eq-str _ _ head;
          requested_head = eq-str _ _ (two _ _ heads).0;
          reviewed_tree = eq-str _ _ (two _ _ tree).1;
          request_hash = eq-str _ _ hash;
          undecided = undecided_sound (findings_of review) undecided;
          blocks = either_sound (findings_of review) _ blocks;
          consistent = consistent_sound review (findings_of review) (two _ _ decided).1;
        },
        (is_empty_iff request_errors).0 no_request_errors,
        (is_empty_iff review_errors).0 no_review_errors,
      )

gate_decision_sound :
    (rows : List Row) (findings : List Fields) (alignment : Alignment)
    → (gate_decision rows findings alignment).accepted ≡ true
    → All (λ r. r.passed ≡ true) rows
      × (alignment.accepted ≡ true)
      × ((gate_decision rows findings alignment).state
          ≡ (if is_empty findings then review_green else changes_requested))
unfolding gate_decision
gate_decision_sound rows findings alignment h =
    let last = alignment_row alignment ∷ [] in
    let (first, aligned) =
      two (is_empty (failed_rows rows)) (is_empty (failed_rows last))
        (sym (failed-append rows last) ∙ h) in
    ((failed-empty_iff rows).0 first, aligned_row alignment aligned, rw h (state_of findings))
  where
    aligned_row :
        (a : Alignment) → is_empty (failed_rows (alignment_row a ∷ [])) ≡ true → a.accepted ≡ true
    aligned_row a h = elim (Bool-cases a.accepted) [
      | inl good ↦ good
      | inr bad ↦ absurd (cc (rw bad at h))
    ]

    state_of :
        (findings : List Fields)
        → (if not (is_empty (unresolved findings)) || not (is_empty findings)
            then changes_requested
            else review_green)
          ≡ (if is_empty findings then review_green else changes_requested)
    state_of [] = refl
    state_of (x ∷ xs) = ground arith

-- If the gate accepts, request and review follow their schemas, the review is of exactly this
-- request (by its content hash), of the current commit and of its tree, the reviewer's process ended
-- with 0, the required checks are green, every finding is UNDECIDED, and the review blocks if a finding
-- of severity P0 or P1 is not verified. Its decision is PASS without findings and not blocking,
-- PASS_WITH_FINDINGS with findings and not blocking, or FAIL and blocking, which may be without
-- findings. The state is `qf:review-green` where there is no finding, whatever the decision, and
-- `qf:changes-requested` otherwise.
pub validate_review_gate_sound :
    (p : Platform) (o : Observed) (request : Json) (review : Option Json) (d : Decision)
    → validate_review_gate p o request review ≡ ok d
    → d.accepted ≡ true
    → (schema_validation_errors p request "review-request.schema.json" ≡ ok [])
      × (schema_validation_errors p (review_or_empty review) "technical-review.schema.json" ≡ ok [])
      × IsReviewed p o (dict_or_empty request) (dict_or_empty (review_or_empty review))
      × (d.state ≡ (
          if is_empty (findings_of (dict_or_empty (review_or_empty review)))
          then review_green
          else changes_requested))
unfolding validate_review_gate
validate_review_gate_sound p o request review d returned accepted =
    let (request_errors, checked, h₁) =
      >>=-eq-ok (schema_validation_errors p request "review-request.schema.json") _ returned in
    let (review_errors, checked', h₂) =
      >>=-eq-ok (schema_validation_errors p (review_or_empty review) "technical-review.schema.json")
        _ h₁ in
    let rows =
      gate_rows p o request_errors review_errors (dict_or_empty request)
        (dict_or_empty (review_or_empty review)) in
    let provisional =
      rows ++ row "REV-GATE-020" true (json (str "registry execution evaluated below")) ∷ [] in
    let (alignment, _, h₃) =
      >>=-eq-ok (check_registry_execution p "gate-checks.yml" gate_ids (executed_rows provisional))
        _ h₂ in
    let same = ok_injective h₃ in
    let findings = findings_of (dict_or_empty (review_or_empty review)) in
    let (pass, _, state) =
      gate_decision_sound rows findings alignment (ap (λ q. q.accepted) same ∙ accepted) in
    let (reviewed, none_in_request, none_in_review) =
      gate_rows_sound p o (dict_or_empty request) (dict_or_empty (review_or_empty review))
        request_errors review_errors pass in
    (
      checked ∙ ap ok none_in_request,
      checked' ∙ ap ok none_in_review,
      reviewed,
      sym (ap (λ q. q.state) same) ∙ state,
    )
