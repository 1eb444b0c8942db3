-- ===== src/Failover/Accepted.antt =====
-- What evidence of a failover drill is that `validate` accepts.
use Prim.Native.String.{String}
use toi_no_mori_mvs.Common.{
  [], All, List, ap, arith, contains_text, eq_iff, false, leb, length, not, refl, same_set,
}
use toi_no_mori_mvs.Common.{str_eq, subst, sym, true, ℕ, ◌==◌, ◌∙◌, ◌∷◌, ◌≡◌, ◌≢◌}
use toi_no_mori_mvs.Failover.Clean.{
  HasKey, HasText, is_plain-parts, is_sensitive-parts, keys-clean, require_valid->>, texts-clean,
}
use toi_no_mori_mvs.Failover.Rules.{
  approval_dicts, are_roles, check_approval, check_approvals, check_hashable,
}
use toi_no_mori_mvs.Failover.Rules.{check_timeline, first_time, last_time, parse_utc, times_at}
use toi_no_mori_mvs.Failover.Sensitive.{reject_sensitive_keys, without_underscores}
use toi_no_mori_mvs.Failover.Single.{
  check_head, check_metrics, check_safety, check_schema, check_topology, dict_or,
}
use toi_no_mori_mvs.Failover.Single.{
  expected_keys, is_ordered, is_safe_identifier, list_or, timeline_keys,
}
use toi_no_mori_mvs.Failover.Sound.{
  AreTimes, IsApproval, IsApprovedBefore, IsChronological, approved_before-All,
}
use toi_no_mori_mvs.Failover.Sound.{
  check_approval-IsApproval, is_ordered-IsChronological, parse_utc-IsTime,
}
use toi_no_mori_mvs.Failover.Sound.{AreTimes-last, IsTime, times_at-AreTimes}
use toi_no_mori_mvs.Failover.Validate.{validate}
use toi_no_mori_mvs.Python.Json.{
  Fields, Items, Json, arr, bool, eq, get, is_false, items, keys, obj, str,
}
use toi_no_mori_mvs.Python.Platform.{Platform}
use toi_no_mori_mvs.Python.Result.{>>-eq-ok, >>=-eq-ok, ok, ok_injective}

-- Evidence of a drill that was not simulated, with two approvals, by two different people, one in each
-- role; whose snapshot and steps happened in order, and whose approvals came no later than the switch
-- of the route; and in which no key is sensitive and no text holds connection material, at any depth.
pub record IsDrill (p : Platform) (candidate : Fields) : Type 0 where
  pub not_simulated : get "isSimulated" candidate ≡ bool false
  pub approvals : Items
  pub approvals_at : get "approvals" candidate ≡ arr approvals
  pub two_approvals : length (items approvals) ≡ 2
  pub commander : String
  pub lead : String
  pub approved_recovery :
      IsApproval "IncidentCommander" "approve-recovery" commander (items approvals)
  pub approved_switch : IsApproval "RecoveryLead" "approve-route-switch" lead (items approvals)
  pub two_people : commander ≢ lead
  pub timeline : Fields
  pub timeline_at : get "timeline" candidate ≡ obj timeline
  pub times : List ℕ
  pub times_read :
      AreTimes p timeline
        ("snapshotStartedAtUtc" ∷ "disasterDeclaredAtUtc" ∷ "sourceWriteIsolatedAtUtc"
          ∷ "recoveryRestoreStartedAtUtc" ∷ "recoveryRestoreCompletedAtUtc"
          ∷ "recoveryAcceptedAtUtc" ∷ "routeSwitchedAtUtc" ∷ [])
        times
  pub chronological : IsChronological times
  pub switched : ℕ
  pub switched_at : IsTime p (get "routeSwitchedAtUtc" timeline) switched
  pub approved_in_time : All (IsApprovedBefore p switched) (items approvals)
  pub no_sensitive_key :
      (key : String)
      → HasKey key (obj candidate)
      → All
          (λ part. contains_text part (p.lower (without_underscores key)) ≡ false)
          ("password" ∷ "secret" ∷ "token" ∷ "cookie" ∷ "credential" ∷ "connectionstring"
            ∷ "privatekey" ∷ [])
  pub no_connection :
      (text : String)
      → HasText text (obj candidate)
      → (contains_text "Host=" text ≡ false) × (contains_text "Password=" text ≡ false)

is_false-eq : (v : Json) → is_false v ≡ true → v ≡ bool false
is_false-eq (bool true) h = cc
is_false-eq (bool false) h = refl
is_false-eq _ h = cc

pub dict_or-ok :
    (message : String) (v : Json) (fs : Fields) → dict_or message v ≡ ok fs → v ≡ obj fs
dict_or-ok message (obj gs) fs h = ap obj (ok_injective h)
dict_or-ok message _ fs h = cc

list_or-ok :
    (message : String) (v : Json) (vs : List Json)
    → list_or message v ≡ ok vs
    → (elements : Items) × (v ≡ arr elements) × (items elements ≡ vs)
list_or-ok message (arr elements) vs h = (elements, refl, ok_injective h)
list_or-ok message _ vs h = cc

check_head-not_simulated :
    (candidate : Fields) → check_head candidate ≡ ok tt → get "isSimulated" candidate ≡ bool false
unfolding check_head
check_head-not_simulated candidate h =
    let (_, a) = require_valid->> (same_set (keys candidate) expected_keys) _ _ h in
    let (_, b) = require_valid->> (eq (get "schemaVersion" candidate) (str "1.0")) _ _ a in
    let (_, c) = require_valid->> (is_safe_identifier (get "incidentId" candidate)) _ _ b in
    let (real, _) = require_valid->> (is_false (get "isSimulated" candidate)) _ _ c in
    is_false-eq (get "isSimulated" candidate) real

after_snapshot :
    (p : Platform) (timeline : Fields) (approvals : List Json) (snapshot : ℕ) (ordered : List ℕ)
    → AreTimes p timeline timeline_keys ordered
    → leb snapshot (first_time ordered) ≡ true
    → is_ordered ordered ≡ true
    → All (IsApprovedBefore p (last_time ordered)) approvals
    → IsChronological (snapshot ∷ ordered)
      × All (IsApprovedBefore p (last_time (snapshot ∷ ordered))) approvals
after_snapshot p timeline approvals snapshot [] times early in_order h = elim times [ ]
after_snapshot p timeline approvals snapshot (n ∷ ns) times early in_order h =
    ((ground arith, is_ordered-IsChronological (n ∷ ns) in_order), h)

module _ (p : Platform) (candidate : Fields) where
  check_approvals-people :
      (approvals : List Json)
      → check_approvals p candidate ≡ ok approvals
      → (elements : Items) × (get "approvals" candidate ≡ arr elements)
        × (items elements ≡ approvals)
        × (length approvals ≡ 2)
        × (commander : String) × (lead : String) × IsApproval "IncidentCommander" "approve-recovery"
            commander approvals
        × IsApproval "RecoveryLead" "approve-route-switch" lead approvals
        × (commander ≢ lead)
  unfolding check_approvals
  check_approvals-people approvals h =
      let (vs, listed, a) =
        >>=-eq-ok (list_or "exactly two approvals are required" (get "approvals" candidate)) _ h in
      let dicts = approval_dicts vs in
      let (two, b) = require_valid->> (length vs == 2) _ _ a in
      let (_, c) = >>-eq-ok (check_hashable dicts) _ b in
      let (_, d) = require_valid->> (are_roles dicts) _ _ c in
      let (commander, first, e) =
        >>=-eq-ok (check_approval p "IncidentCommander" "approve-recovery" dicts) _ d in
      let (lead, second, f) =
        >>=-eq-ok (check_approval p "RecoveryLead" "approve-route-switch" dicts) _ e in
      let (distinct, last) = require_valid->> (not (str_eq commander lead)) _ _ f in
      let same : vs ≡ approvals = ok_injective last in
      let (elements, at, inside) = list_or-ok _ (get "approvals" candidate) vs listed in
      let two_listed : length vs ≡ 2 = ground arith in
      (
        elements,
        at,
        inside ∙ same,
        subst (λ xs. length xs ≡ 2) same two_listed,
        commander,
        lead,
        subst (IsApproval "IncidentCommander" "approve-recovery" commander) same
            (check_approval-IsApproval p "IncidentCommander" "approve-recovery" commander vs first),
        subst (IsApproval "RecoveryLead" "approve-route-switch" lead) same
            (check_approval-IsApproval p "RecoveryLead" "approve-route-switch" lead vs second),
        λ equal. let other = (eq_iff commander lead).1 equal in ground arith,
      )

  check_timeline-times :
      (approvals : List Json)
      → check_timeline p candidate approvals ≡ ok tt
      → (timeline : Fields) × (times : List ℕ) × (get "timeline" candidate ≡ obj timeline)
        × AreTimes p timeline ("snapshotStartedAtUtc" ∷ timeline_keys) times
        × IsChronological times
        × All (IsApprovedBefore p (last_time times)) approvals
  unfolding check_timeline
  check_timeline-times approvals h =
      let (timeline, at, a) =
        >>=-eq-ok (dict_or "timeline must be an object" (get "timeline" candidate)) _ h in
      let (snapshot, read, b) =
        >>=-eq-ok
          (parse_utc p (get "snapshotStartedAtUtc" timeline) "timeline.snapshotStartedAtUtc") _ a in
      let (ordered, times, c) = >>=-eq-ok (times_at p timeline timeline_keys) _ b in
      let (early, d) = require_valid->> (leb snapshot (first_time ordered)) _ _ c in
      let (in_order, last) = require_valid->> (is_ordered ordered) _ _ d in
      let are_times = times_at-AreTimes p timeline timeline_keys ordered times in
      let (chronological, approved) =
        after_snapshot p timeline approvals snapshot ordered are_times early in_order
          (approved_before-All p (last_time ordered) approvals last) in
      (
        timeline,
        snapshot ∷ ordered,
        dict_or-ok _ (get "timeline" candidate) timeline at,
        (parse_utc-IsTime p (get "snapshotStartedAtUtc" timeline) _ snapshot read, are_times),
        chronological,
        approved,
      )

  -- Evidence that `validate` accepts is that of a drill that was not simulated: its list "approvals"
  -- has two entries, in which an incident commander and a recovery lead, two different people,
  -- approved it; the snapshot and the six steps have UTC times in order, and no entry of the list has
  -- an approval time after the route was switched; no key at any depth holds one of the denied words
  -- when its underscores are removed and its letters lowered, and no text at any depth holds "Host="
  -- or "Password=".
  pub validate-IsDrill : (result : Json) → validate p candidate ≡ ok result → IsDrill p candidate
  unfolding validate
  validate-IsDrill result h =
      let (head, a) = >>-eq-ok (check_head candidate) _ h in
      let (_, b) = >>-eq-ok (check_topology candidate) _ a in
      let (approvals, approved, c) = >>=-eq-ok (check_approvals p candidate) _ b in
      let (timed, d) = >>-eq-ok (check_timeline p candidate approvals) _ c in
      let (_, e) = >>-eq-ok (check_safety candidate) _ d in
      let (_, f) = >>-eq-ok (check_schema candidate) _ e in
      let (_, g) = >>-eq-ok (check_metrics candidate) _ f in
      let (clean, _) = >>-eq-ok (reject_sensitive_keys p (obj candidate) "$") _ g in
      let (elements, listed, same, two, commander, lead, first, second, distinct) =
        check_approvals-people approvals approved in
      let (timeline, times, at, read, chronological, early) =
        check_timeline-times approvals timed in
      record {
        not_simulated = check_head-not_simulated candidate head;
        approvals = elements;
        approvals_at = listed;
        two_approvals = ap length same ∙ two;
        commander = commander;
        lead = lead;
        approved_recovery = subst (IsApproval _ _ commander) (sym same) first;
        approved_switch = subst (IsApproval _ _ lead) (sym same) second;
        two_people = distinct;
        timeline = timeline;
        timeline_at = at;
        times = times;
        times_read = read;
        chronological = chronological;
        switched = last_time times;
        switched_at = AreTimes-last p timeline "snapshotStartedAtUtc" timeline_keys times read;
        approved_in_time = subst (All (IsApprovedBefore p (last_time times))) (sym same) early;
        no_sensitive_key = λ key found.
            is_sensitive-parts p key (keys-clean p (obj candidate) "$" key clean found);
        no_connection = λ text found.
            is_plain-parts p text (texts-clean p (obj candidate) "$" text clean found);
      }
