-- ===== src/Controller/WorkOrder/Authorization.antt =====
-- What an accepted work order is known to satisfy.
use Prim.Native.String.{String}
use toi_no_mori_mvs.Common.{
  All, Bool, Bool-cases, In, List, [], ap, arith, eq_iff, false, if◌then◌else◌,
}
use toi_no_mori_mvs.Common.{
  inl, inr, is_empty, is_empty-append_iff, is_empty_iff, member, refl, same_set_iff,
}
use toi_no_mori_mvs.Common.{str_eq, sym, true, ℕ, ◌&&◌, ◌++◌, ◌<◌, ◌↔◌, ◌∙◌, ◌∷◌, ◌≡◌}
use toi_no_mori_mvs.Controller.Constants.{is_sha40, precondition_ids}
use toi_no_mori_mvs.Controller.Decision.{Decision, Entries, State, manufacturing, no_op}
use toi_no_mori_mvs.Controller.Registry.{organizer_logins, required_check_names}
use toi_no_mori_mvs.Controller.Registry.Execution.{Alignment, check_registry_execution}
use toi_no_mori_mvs.Controller.Schema.Approved.{schema_validation_errors}
use toi_no_mori_mvs.Controller.WorkOrder.{
  Row, Setting, executed_rows, expected_execution, failed_rows, is_str_in,
}
use toi_no_mori_mvs.Controller.WorkOrder.{
  later_than, or_default, parse_time, part, validate_work_order, work_order_decision,
}
use toi_no_mori_mvs.Controller.WorkOrder.{work_order_rows}
use toi_no_mori_mvs.Python.Canonical.{content_hash, text_of}
use toi_no_mori_mvs.Python.Json.{Json, arr, eq-str, get, get_or, nil, obj, str, texts_or_empty}
use toi_no_mori_mvs.Python.Platform.{Platform}
use toi_no_mori_mvs.Python.Result.{
  >>=-eq-ok, Result, err, ok, ok_injective, type_error, value_error,
}

pub failed-empty_iff :
    (rs : List Row) → (is_empty (failed_rows rs) ≡ true) ↔ All (λ r. r.passed ≡ true) rs
failed-empty_iff [] = (λ h. tt, λ h. refl)
failed-empty_iff (r ∷ rs) = elim (Bool-cases r.passed) [
  | inl good ↦ (
    λ h. (good, (failed-empty_iff rs).0 (rw good at h)),
    λ h. rw good ((failed-empty_iff rs).1 h.1),
  )
  | inr bad ↦ (λ h. absurd (cc (rw bad at h)), λ h. absurd (cc (bad, h.0)))
]

accepted_lem :
    (dedup : String) (rows : List Row) (alignment : Alignment)
    → (work_order_decision dedup rows alignment).accepted
      ≡ is_empty (failed_rows rows ++ (if alignment.accepted then [] else "STOP-007" ∷ []))
unfolding work_order_decision
accepted_lem dedup rows alignment =
    go (str_eq dedup "processed")
      (failed_rows rows ++ (if alignment.accepted then [] else "STOP-007" ∷ [])) _ _ _ _ _ _
  where
    go :
        (done : Bool) (reasons : List String) (st st' : State) (rs rs' : List String)
        (ev ev' : Entries)
        → (if done && is_empty reasons
            then record { state = st; accepted = true; reasons = rs; evidence = ev }
            else let d : Decision = record {
              state = st';
              accepted = is_empty reasons;
              reasons = rs';
              evidence = ev';
            } in
              d).accepted
          ≡ is_empty reasons
    go true [] st st' rs rs' ev ev' = refl
    go true (x ∷ xs) st st' rs rs' ev ev' = refl
    go false reasons st st' rs rs' ev ev' = refl

-- The decision accepts exactly where every precondition passed and the registry agrees.
pub work_order_decision_iff :
    (dedup : String) (rows : List Row) (alignment : Alignment)
    → ((work_order_decision dedup rows alignment).accepted ≡ true)
      ↔ (All (λ r. r.passed ≡ true) rows × (alignment.accepted ≡ true))
work_order_decision_iff dedup rows alignment = (
  λ h.
      let (rows_pass, aligned) =
        (is_empty-append_iff (failed_rows rows) _).0
          (sym (accepted_lem dedup rows alignment) ∙ h) in
      ((failed-empty_iff rows).0 rows_pass, ground arith),
  λ (rows_pass, aligned).
      accepted_lem dedup rows alignment
      ∙ (is_empty-append_iff (failed_rows rows) _).1
          ((failed-empty_iff rows).1 rows_pass, rw aligned refl),
)

work_order_decision_state :
    (dedup : String) (rows : List Row) (alignment : Alignment)
    → let d = work_order_decision dedup rows alignment in
      d.accepted ≡ true → d.state ≡ (if str_eq dedup "processed" then no_op else manufacturing)
unfolding work_order_decision
work_order_decision_state dedup rows alignment h = ground arith

later_than_sound :
    (now : ℕ) (r : Result ℕ) → later_than now r ≡ ok true → (t : ℕ) × (r ≡ ok t) × (now < t)
later_than_sound now (ok t) h = (t, refl, ground arith)
later_than_sound now (err type_error) h = cc
later_than_sound now (err value_error) h = cc
later_than_sound now (err _) h = cc

is_str_in_sound :
    (xs : List String) (v : Json) → is_str_in xs v ≡ true → (s : String) × (v ≡ str s) × In s xs
is_str_in_sound xs (str s) h = (s, refl, h)
is_str_in_sound xs _ h = cc

module _ (p : Platform) (s : Setting) (work_order : Json) where
  -- The work order is complete, is approved for exactly this content, and is in force.
  pub record IsAuthorized : Type 0 where
    pub schema_valid : schema_validation_errors p work_order "work-order.schema.json" ≡ ok []
    pub allowlist : List String
    pub listed : organizer_logins p ≡ ok allowlist
    pub actor_listed : In s.actor allowlist
    pub organizer : String
    pub organizer_named : get "organizer" (part "metadata" work_order) ≡ str organizer
    pub organizer_listed : In organizer allowlist
    pub decided : get "organizer_decision" (part "approval" work_order) ≡ str "APPROVED"
    pub ready : get "execution_state" (part "approval" work_order) ≡ str "READY"
    pub content :
        get "work_order_hash" (part "approval" work_order)
        ≡ str (content_hash p (obj (part "spec" work_order)))
    pub execution :
        get "execution_id" (part "approval" work_order) ≡ str (expected_execution p work_order)
    pub expiry : ℕ
    pub expiry_read :
        parse_time p (text_of p (get "expires_at" (part "approval" work_order))) ≡ ok expiry
    pub in_force : s.now < expiry
    pub check_names : List String
    pub checks_listed : required_check_names p ≡ ok check_names
    pub same_checks :
        (a : String)
        → member a (texts_or_empty (get_or (arr nil) "required_tests" (part "spec" work_order)))
          ≡ member a check_names
    pub visible : s.visibility ≡ "public"
    pub workflow : or_default s.workflow_sha s.default_branch_sha ≡ s.default_branch_sha
    pub full_sha : is_sha40 s.default_branch_sha ≡ true

  rows_sound :
      (errors allowlist names : List String) (unexpired : Bool)
      → schema_validation_errors p work_order "work-order.schema.json" ≡ ok errors
      → organizer_logins p ≡ ok allowlist
      → required_check_names p ≡ ok names
      → later_than s.now (parse_time p (text_of p (get "expires_at" (part "approval" work_order))))
        ≡ ok unexpired
      → All (λ r. r.passed ≡ true) (work_order_rows p errors allowlist names unexpired s work_order)
      → IsAuthorized
  unfolding work_order_rows
  rows_sound errors allowlist names unexpired schema logins checks time
        (
          sha,
          (
            actor,
            (
              organizer,
              (
                decided,
                (
                  valid,
                  (
                    ready,
                    (
                      execution,
                      (
                        dedup,
                        (
                          content,
                          (
                            fresh,
                            (
                              hashes,
                              (tests, (human, (budget, (visible, (scope, (risk, (workflow, _))))))),
                            ),
                          ),
                        ),
                      ),
                    ),
                  ),
                ),
              ),
            ),
          ),
        ) =
      let (o, named, listed) = is_str_in_sound allowlist _ organizer in
      let (expiry, read, later) = later_than_sound s.now _ (time ∙ ap ok fresh) in
      record {
        schema_valid = schema ∙ ap ok ((is_empty_iff errors).0 valid);
        allowlist = allowlist;
        listed = logins;
        actor_listed = actor;
        organizer = o;
        organizer_named = named;
        organizer_listed = listed;
        decided = eq-str _ _ decided;
        ready = eq-str _ _ ready;
        content = eq-str _ _ content;
        execution = eq-str _ _ execution;
        expiry = expiry;
        expiry_read = read;
        in_force = later;
        check_names = names;
        checks_listed = checks;
        same_checks = (same_set_iff _ names).0 tests;
        visible = (eq_iff s.visibility "public").0 visible;
        workflow = (eq_iff _ s.default_branch_sha).0 (ground (arith, workflow));
        full_sha = sha;
      }

  -- If a work order is accepted, it is authorised: it follows its schema, the actor and the named
  -- organizer stand in the allowlist, the organizer approved exactly this content, which is ready and
  -- has not expired, the tests are the required checks, the repository is public, and the workflow
  -- runs at a full commit hash of the default branch. One already processed changes nothing; any
  -- other goes to manufacturing.
  pub validate_work_order_sound :
      (d : Decision)
      → validate_work_order p s work_order ≡ ok d
      → d.accepted ≡ true
      → IsAuthorized
        × (d.state ≡ (if str_eq s.dedup_state "processed" then no_op else manufacturing))
  unfolding validate_work_order
  validate_work_order_sound d h accepted =
      let (errors, schema, h₁) =
        >>=-eq-ok (schema_validation_errors p work_order "work-order.schema.json") _ h in
      let (allowlist, logins, h₂) = >>=-eq-ok (organizer_logins p) _ h₁ in
      let (names, checks, h₃) = >>=-eq-ok (required_check_names p) _ h₂ in
      let (unexpired, time, h₄) =
        >>=-eq-ok
          (later_than s.now
            (parse_time p (text_of p (get "expires_at" (part "approval" work_order)))))
          _ h₃ in
      let rows = work_order_rows p errors allowlist names unexpired s work_order in
      let (alignment, _, h₅) =
        >>=-eq-ok
          (check_registry_execution p "work-order-preconditions.yml" precondition_ids
            (executed_rows rows))
          _ h₄ in
      let same = ok_injective h₅ in
      let accepted' = ap (λ q. q.accepted) same ∙ accepted in
      (
        rows_sound errors allowlist names unexpired schema logins checks time
            ((work_order_decision_iff s.dedup_state rows alignment).0 accepted').0,
        sym (ap (λ q. q.state) same)
            ∙ work_order_decision_state s.dedup_state rows alignment accepted',
      )
