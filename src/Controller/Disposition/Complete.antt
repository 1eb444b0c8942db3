-- ===== src/Controller/Disposition/Complete.antt =====
-- What an accepted disposition record is known to satisfy.
use Prim.Native.String.{String}
use toi_no_mori_mvs.Common.{
  [], All, All-map, Bool, Bool-cases, List, Option, ap, arith, false, flat,
}
use toi_no_mori_mvs.Common.{
  flat-empty_iff, if◌then◌else◌, inl, inr, is_empty, is_empty-append_iff, is_empty_iff,
}
use toi_no_mori_mvs.Common.{
  leb, member, none, not, not-false, or_not-false, refl, some, str_eq, sym, true, ℕ, ◌&&◌, ◌||◌,
  ◌≤◌,
}
use toi_no_mori_mvs.Common.{◌∙◌, ◌∷◌, ◌≡◌, ◌⊎◌}
use toi_no_mori_mvs.Controller.Decision.{Decision, collect, collect-nil_iff}
use toi_no_mori_mvs.Controller.Disposition.{
  decision_reasons, decisions_of, disposition_decision, disposition_reasons,
}
use toi_no_mori_mvs.Controller.Disposition.{
  date_or_min, dispositions, filled_record, head_tests, is_deferral, is_unknown_record,
}
use toi_no_mori_mvs.Controller.Disposition.{lacks, review_ids, validate_disposition_record}
use toi_no_mori_mvs.Controller.Registry.{organizer_logins}
use toi_no_mori_mvs.Controller.Schema.Approved.{schema_validation_errors}
use toi_no_mori_mvs.Controller.WorkOrder.{is_str_in}
use toi_no_mori_mvs.Python.Canonical.{content_hash, text_of}
use toi_no_mori_mvs.Python.Json.{
  Fields, Json, arr, bool, dict_or_empty, end, eq, eq-str, float, get, get_or, int, null, obj,
}
use toi_no_mori_mvs.Python.Json.{str, truthy}
use toi_no_mori_mvs.Python.Platform.{Platform}
use toi_no_mori_mvs.Python.Result.{>>=-eq-ok, ok, ok_injective}

exclusive :
    (v : Json) (a b : String) → eq v (str a) ≡ true → str_eq a b ≡ false → eq v (str b) ≡ false
unfolding eq
exclusive v a b h d = rw (eq-str v a h) d

known_of :
    (v : Json) (s : String)
    → eq v (str s) ≡ true
    → member s dispositions ≡ true
    → is_str_in dispositions v ≡ true
known_of v s h m = rw (eq-str v s h) m

-- The chain of tests lets a disposition through only if it is known and its own test passed.
chain_sound :
    (v : Json) (deferral no_reason no_policy : Bool)
    → is_empty {A = String} (
        if eq v (str "DEFERRED")
        then if deferral then [] else "deferral-incomplete" ∷ []
        else if eq v (str "REJECTED_WITH_REASON") && no_reason
        then "rejection-reason-missing" ∷ []
        else if eq v (str "POLICY_DECISION_REQUIRED") && no_policy
        then "policy-decision-incomplete" ∷ []
        else if is_str_in dispositions v
        then []
        else "disposition-enum" ∷ [])
      ≡ true
    → (is_str_in dispositions v ≡ true)
      × ((eq v (str "DEFERRED") ≡ false) ⊎ (deferral ≡ true))
      × ((eq v (str "REJECTED_WITH_REASON") ≡ false) ⊎ (no_reason ≡ false))
      × ((eq v (str "POLICY_DECISION_REQUIRED") ≡ false) ⊎ (no_policy ≡ false))
chain_sound v deferral no_reason no_policy h = elim (Bool-cases (eq v (str "DEFERRED"))) [
  | inl d ↦ (
    known_of v "DEFERRED" d refl,
    inr (ground arith),
    inl (exclusive v "DEFERRED" "REJECTED_WITH_REASON" d refl),
    inl (exclusive v "DEFERRED" "POLICY_DECISION_REQUIRED" d refl),
  )
  | inr d ↦ (
    ground arith,
    inl d,
    and_false (eq v (str "REJECTED_WITH_REASON")) no_reason (ground arith),
    and_false (eq v (str "POLICY_DECISION_REQUIRED")) no_policy (ground arith),
  )
]
  where
    and_false : (a b : Bool) → (a && b) ≡ false → (a ≡ false) ⊎ (b ≡ false)
    and_false true b h = inr h
    and_false false b h = inl refl

-- No record is superseded, or an existing one.
abbrev pub Supersedes : (existing : List String) → Json → Type 0
Supersedes existing v =
    (v ≡ null) ⊎ ((digest : String) × (v ≡ str digest) × (member digest existing ≡ true))

is_unknown_record-Supersedes :
    (existing : List String) (v : Json)
    → is_unknown_record existing v ≡ false
    → Supersedes existing v
is_unknown_record-Supersedes existing null h = inl refl
is_unknown_record-Supersedes existing (str s) h = inr (s, refl, not-false (member s existing) h)
is_unknown_record-Supersedes existing (bool b) h = cc
is_unknown_record-Supersedes existing (int z) h = cc
is_unknown_record-Supersedes existing (float f) h = cc
is_unknown_record-Supersedes existing (arr vs) h = cc
is_unknown_record-Supersedes existing (obj fs) h = cc

module _ (p : Platform) where
  -- A deferral with an owner, a reason, and a date that is not before today. A text that is no date
  -- counts as the first day of the year 1, which is before every later day.
  abbrev pub IsDeferral : (now : ℕ) → Fields → Type 0
  IsDeferral now deferral =
      (truthy (get "owner" deferral) ≡ true)
      × (truthy (get "reason" deferral) ≡ true)
      × (((due : ℕ) × (p.date_from_iso (text_of p (get "due" deferral)) ≡ some due) × (now ≤ due))
          ⊎ (now ≤ 1))

  is_due :
      (now : ℕ) (o : Option ℕ)
      → leb now (date_or_min o) ≡ true
      → ((due : ℕ) × (o ≡ some due) × (now ≤ due)) ⊎ (now ≤ 1)
  is_due now none h = inr (ground arith)
  is_due now (some due) h = inl (due, refl, ground arith)

  is_deferral-IsDeferral :
      (now : ℕ) (deferral : Fields) → is_deferral p now deferral ≡ true → IsDeferral now deferral
  is_deferral-IsDeferral now deferral h =
      let date = p.date_from_iso (text_of p (get "due" deferral)) in
      let due : leb now (date_or_min date) ≡ true = ground arith in
      (ground arith, ground arith, is_due now date due)

  -- A decision on a finding of the review, of a known kind, with what its kind demands.
  pub record IsDecided (ids : List String) (now : ℕ) (decision : Fields) : Type 0 where
    pub finding : is_str_in ids (get "finding_id" decision) ≡ true
    pub known :
        is_str_in
          ("ACCEPTED_PLAN" ∷ "REJECTED_WITH_REASON" ∷ "DEFERRED" ∷ "POLICY_DECISION_REQUIRED"
            ∷ "CLOSED" ∷ [])
          (get "disposition" decision)
        ≡ true
    pub deferred :
        (eq (get "disposition" decision) (str "DEFERRED") ≡ false)
        ⊎ IsDeferral now (dict_or_empty (get_or (obj end) "deferral" decision))
    pub rejected :
        (eq (get "disposition" decision) (str "REJECTED_WITH_REASON") ≡ false)
        ⊎ (truthy (get "reason" decision) ≡ true)
    pub policy :
        (eq (get "disposition" decision) (str "POLICY_DECISION_REQUIRED") ≡ false)
        ⊎ ((truthy (get "policy_owner" decision) ≡ true)
            × (truthy (get "decision_due" decision) ≡ true))

  either {ℓ κ} : {A : Type ℓ} {B C : Type κ} → (B → C) → A ⊎ B → A ⊎ C
  either f (inl a) = inl a
  either f (inr b) = inr (f b)

  decision_reasons-IsDecided :
      (ids : List String) (now : ℕ) (decision : Fields)
      → is_empty (decision_reasons p ids now decision) ≡ true
      → IsDecided ids now decision
  unfolding disposition_reasons
  decision_reasons-IsDecided ids now decision h =
      let (finding, kind) =
        (is_empty-append_iff
            (collect ((not (is_str_in ids (get "finding_id" decision)), "unknown-finding") ∷ []))
            _).0
          h in
      let (known, deferred, rejected, policy) =
        chain_sound (get "disposition" decision)
          (is_deferral p now (dict_or_empty (get_or (obj end) "deferral" decision)))
          (lacks "reason" decision) (lacks "policy_owner" decision || lacks "decision_due" decision)
          kind in
      record {
        finding = ground arith;
        known = known;
        deferred =
            either
              (is_deferral-IsDeferral now (dict_or_empty (get_or (obj end) "deferral" decision)))
              deferred;
        rejected = either (not-false (truthy (get "reason" decision))) rejected;
        policy = either (or_not-false _ _) policy;
      }

  -- If a disposition record is accepted, it follows its schema, an organizer of the allowlist decided
  -- it, and it names the review by the review's content hash. Each decision is on a finding of that
  -- review and of one of the five kinds: a rejection has a reason, a deferral an owner, a reason and a
  -- date that is not past (on the first day of the year 1, any), and a policy decision an owner and
  -- a due date. The record that it supersedes, if any, is one of the existing records.
  pub validate_disposition_record_sound :
      (document : Json) (review_record : Option Json) (existing : List String) (now : ℕ)
      (allowlist : List String) (d : Decision)
      → organizer_logins p ≡ ok allowlist
      → validate_disposition_record p document review_record existing now ≡ ok d
      → d.accepted ≡ true
      → let finding_record = dict_or_empty document in
        let review = filled_record review_record in
        (schema_validation_errors p document "finding-disposition-record.schema.json" ≡ ok [])
        × (is_str_in allowlist (get "decided_by" finding_record) ≡ true)
        × (get "review_artifact_sha256" finding_record ≡ str (content_hash p (obj review)))
        × All (IsDecided (review_ids p review) now) (decisions_of p finding_record)
        × Supersedes existing (get "supersedes_record_sha256" finding_record)
  unfolding validate_disposition_record disposition_decision head_tests
  validate_disposition_record_sound document review_record existing now allowlist d logins returned
        accepted =
      let finding_record = dict_or_empty document in
      let review = filled_record review_record in
      let (errors, schema, h₁) =
        >>=-eq-ok (schema_validation_errors p document "finding-disposition-record.schema.json") _
          returned in
      let (found, read, h₂) = >>=-eq-ok (organizer_logins p) _ h₁ in
      let listed : found ≡ allowlist = ok_injective (sym read ∙ logins) in
      let clean = ap (λ q. q.accepted) (ok_injective h₂) ∙ accepted in
      let (first, rest) =
        (is_empty-append_iff (collect (head_tests p errors found finding_record review)) _).0
          clean in
      let (decided, last) =
        (is_empty-append_iff
            (flat (decision_reasons p (review_ids p review) now) (decisions_of p finding_record))
            _).0
          rest in
      let (valid, (_, (_, (actor, (reference, _))))) =
        (collect-nil_iff (head_tests p errors found finding_record review)).0 first in
      (
        schema ∙ ap ok ((is_empty_iff errors).0 (not-false _ valid)),
        ap (λ l. is_str_in l (get "decided_by" finding_record)) (sym listed) ∙ not-false _ actor,
        eq-str _ _ (or_not-false (truthy (obj review)) _ reference).1,
        All-map (λ x. decision_reasons-IsDecided _ now x) (decisions_of p finding_record)
            ((flat-empty_iff _ _).0 decided),
        is_unknown_record-Supersedes existing _
            ((collect-nil_iff (
                (
                  is_unknown_record existing (get "supersedes_record_sha256" finding_record),
                  "supersedes-invalid",
                )
                ∷ [])).0
              last).0,
      )
