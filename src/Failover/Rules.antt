-- ===== src/Failover/Rules.antt =====
-- `parse_utc`, and the approvals and the timeline in `validate` of
-- scripts/dr/seal-failover-evidence.py.
use Prim.Native.String.{String}
use toi_no_mori_mvs.Common.{
  [], Bool, List, Option, all, any, false, if◌then◌else◌, leb, length, none,
}
use toi_no_mori_mvs.Common.{not, some, str_eq, true, ℕ, ◌&&◌, ◌<>◌, ◌==◌, ◌||◌, ◌∷◌}
use toi_no_mori_mvs.Controller.Schema.Formats.{replace_z}
use toi_no_mori_mvs.Failover.Sensitive.{require_valid}
use toi_no_mori_mvs.Failover.Single.{
  dict_or, ends_with, is_ordered, is_safe_identifier, is_utc, list_or, timeline_keys,
}
use toi_no_mori_mvs.Python.Json.{Fields, Json, arr, dicts, eq, get, keys, obj, str}
use toi_no_mori_mvs.Python.Platform.{DateTime, Platform}
use toi_no_mori_mvs.Python.Result.{
  ◌>>=◌, Result, err, key_error, ok, type_error, validation_error, ◌>>◌,
}

-- `[approval for approval in approvals if isinstance(approval, dict)]`
abbrev pub approval_dicts : List Json → List Fields
approval_dicts [] = []
approval_dicts (obj fs ∷ vs) = fs ∷ approval_dicts vs
approval_dicts (_ ∷ vs) = approval_dicts vs

abbrev is_hashable : Json → Bool
is_hashable (arr vs) = false
is_hashable (obj fs) = false
is_hashable _ = true

abbrev pub has_role : (role : String) → Fields → Bool
has_role role approval = eq (get "role" approval) (str role)

-- `by_role[role]`: the last dict with the role.
unfoldable pub by_role : (role : String) → List Fields → Result Fields
unfolding eq
by_role role [] = err key_error
by_role role (approval ∷ approvals) = elim (by_role role approvals) [
  | ok later ↦ ok later
  | err raised ↦ if has_role role approval then ok approval else err raised
]

-- `set(by_role) == {"IncidentCommander", "RecoveryLead"}`
abbrev pub are_roles : List Fields → Bool
are_roles approvals =
    all (λ approval. has_role "IncidentCommander" approval || has_role "RecoveryLead" approval)
      approvals
    && any (has_role "IncidentCommander") approvals
    && any (has_role "RecoveryLead") approvals

-- A key of `by_role` that is a list or a dict raises `TypeError`.
abbrev pub check_hashable : List Fields → Result (Unit {0})
check_hashable dicts =
    if all (λ approval. is_hashable (get "role" approval)) dicts then ok tt else err type_error

abbrev pub text_or_empty : Json → String
text_or_empty (str s) = s
text_or_empty _ = ""

abbrev pub first_time : List ℕ → ℕ
first_time [] = 0
first_time (n ∷ ns) = n

abbrev pub last_time : List ℕ → ℕ
last_time [] = 0
last_time (n ∷ []) = n
last_time (n ∷ m ∷ ns) = last_time (m ∷ ns)

-- What follows the call of `datetime.fromisoformat`.
abbrev pub utc_time : Option DateTime → (name : String) → Result ℕ
utc_time none name = err (validation_error (name <> " is not a valid UTC timestamp"))
utc_time (some parsed) name =
    require_valid (is_utc parsed) (name <> " must be UTC") >> ok (parsed.local)

module _ (p : Platform) where
  unfoldable pub parse_utc : Json → (name : String) → Result ℕ
  unfolding replace_z ends_with
  parse_utc (str s) name =
      require_valid (ends_with "Z" s) (name <> " must be UTC with Z suffix")
      >> utc_time (p.datetime_from_iso (replace_z s)) name
  parse_utc _ name = err (validation_error (name <> " must be UTC with Z suffix"))

  -- The body of the loop over the roles: the subject who approved.
  unfoldable pub check_approval : (role decision : String) → List Fields → Result String
  unfolding by_role parse_utc eq
  check_approval role decision approvals = do
    approval ← by_role role approvals
    let subject = get "subjectId" approval
    require_valid (is_safe_identifier subject) (role <> " subjectId is invalid")
    require_valid (eq (get "decision" approval) (str decision)) (role <> " decision is invalid")
    _ ← parse_utc (get "approvedAtUtc" approval) ("approvals." <> (role <> ".approvedAtUtc"))
    ok (text_or_empty subject)

  unfoldable pub check_approvals : Fields → Result (List Json)
  unfolding check_approval
  check_approvals candidate = do
    approvals ← list_or "exactly two approvals are required" (get "approvals" candidate)
    require_valid (length approvals == 2) "exactly two approvals are required"
    let dicts = approval_dicts approvals
    check_hashable dicts
    require_valid (are_roles dicts) "required approval roles are missing"
    commander ← check_approval "IncidentCommander" "approve-recovery" dicts
    lead ← check_approval "RecoveryLead" "approve-route-switch" dicts
    require_valid (not (str_eq commander lead)) "approval subjects must be distinct"
    ok approvals

  -- `[parse_utc(timeline.get(key), f"timeline.{key}") for key in TIMELINE_KEYS]`
  unfoldable pub times_at : Fields → List String → Result (List ℕ)
  unfolding parse_utc
  times_at timeline [] = ok []
  times_at timeline (key ∷ keys) = do
    time ← parse_utc (get key timeline) ("timeline." <> key)
    times ← times_at timeline keys
    ok (time ∷ times)

  -- The loop over the approvals; an item that is no dict raises.
  unfoldable pub approved_before : (route_switched : ℕ) → List Json → Result (Unit {0})
  unfolding parse_utc
  approved_before route_switched [] = ok tt
  approved_before route_switched (obj approval ∷ approvals) = do
    time ← parse_utc (get "approvedAtUtc" approval) "approval.approvedAtUtc"
    require_valid (leb time route_switched) "route switched before approval"
    approved_before route_switched approvals
  approved_before route_switched (_ ∷ approvals) = err type_error

  unfoldable pub check_timeline : Fields → (approvals : List Json) → Result (Unit {0})
  unfolding times_at approved_before
  check_timeline candidate approvals = do
    timeline ← dict_or "timeline must be an object" (get "timeline" candidate)
    snapshot ← parse_utc (get "snapshotStartedAtUtc" timeline) "timeline.snapshotStartedAtUtc"
    ordered ← times_at timeline timeline_keys
    require_valid (leb snapshot (first_time ordered))
        "snapshot must not start after disaster declaration"
    require_valid (is_ordered ordered) "failover timeline is out of order"
    approved_before (last_time ordered) approvals
