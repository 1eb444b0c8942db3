-- ===== src/Controller/Decision.antt =====
-- `Decision` of scripts/ai_controller/core.py, and its `as_dict`.
use Prim.Native.Char.{code}
use Prim.Native.String.{String, [], ◌∷◌}
use toi_no_mori_mvs.Common.{
  All, Bool, List, Option, [], false, flat, if◌then◌else◌, is_empty, map, none,
}
use toi_no_mori_mvs.Common.{refl, some, sorted_set, str_eq, suc, true, zero, ℕ, ◌&&◌, ◌↔◌, ◌∷◌, ◌≡◌}
use toi_no_mori_mvs.Controller.Constants.{is_decimal, protocol, stop_implementations}
use toi_no_mori_mvs.Python.Json.{Fields, Json, arr, bool, end, field, obj, str, to_items}
use toi_no_mori_mvs.Python.Result.{Result, err, ok, type_error, ◌>>=◌}

-- The values of `Decision.state`.
pub data State : Type 0 where
  stopped manufacturing no_op route ci_green ci_red patch_verified manufactured : State
  changes_requested review_green organizer_acceptance review_record_valid : State
  disposition_valid applicable not_applicable role_appointment_green : State
  bootstrap_safe phase_a_baseline : State

-- The text that the source writes for each.
abbrev pub state_text : State → String
state_text stopped = "qf:stopped"
state_text manufacturing = "qf:manufacturing"
state_text no_op = "qf:no-op"
state_text route = "qf:route"
state_text ci_green = "qf:ci-green"
state_text ci_red = "qf:ci-red"
state_text patch_verified = "qf:patch-verified"
state_text manufactured = "qf:manufactured"
state_text changes_requested = "qf:changes-requested"
state_text review_green = "qf:review-green"
state_text organizer_acceptance = "qf:organizer-acceptance"
state_text review_record_valid = "qf:review-record-valid"
state_text disposition_valid = "qf:disposition-valid"
state_text applicable = "applicable"
state_text not_applicable = "not_applicable"
state_text role_appointment_green = "qf:role-appointment-green"
state_text bootstrap_safe = "qf:bootstrap-safe"
state_text phase_a_baseline = "qf:phase-a-baseline"

-- A value of an evidence dict: a JSON value, a `set` of strings, or a dict of evidence.
mutual
  pub data Evidence : Type 0 where
    json : Json → Evidence
    text_set : List String → Evidence
    dict : Entries → Evidence

  pub data Entries : Type 0 where
    empty : Entries
    entry : String → Evidence → Entries → Entries

abbrev pub texts : List String → Evidence
texts xs = json (arr (to_items (map str xs)))

abbrev pub find_evidence : String → Entries → Option Evidence
find_evidence key empty = none
find_evidence key (entry k v es) = if str_eq key k then some v else find_evidence key es

-- `d[key] = value`.
abbrev pub set_evidence : String → Evidence → Entries → Entries
set_evidence key value empty = entry key value empty
set_evidence key value (entry k v es) =
    if str_eq key k then entry k value es else entry k v (set_evidence key value es)

-- Whether `json.dumps` returns: it raises `TypeError` on a `set`.
unfoldable mutual
  pub is_serializable : Evidence → Bool
  is_serializable (json v) = true
  is_serializable (text_set xs) = false
  is_serializable (dict es) = are_serializable es

  pub are_serializable : Entries → Bool
  are_serializable empty = true
  are_serializable (entry k v es) = is_serializable v && are_serializable es

pub record Decision : Type 0 where
  pub state : State
  pub accepted : Bool
  pub reasons : List String
  pub evidence : Entries

-- `if condition: reasons.append(reason)`, for each pair in turn.
abbrev pub collect : List (Bool × String) → List String
collect [] = []
collect ((condition, reason) ∷ rest) =
    let later = collect rest in if condition then reason ∷ later else later

-- No reason is collected exactly where every condition fails.
pub collect-nil_iff :
    (l : List (Bool × String)) → (is_empty (collect l) ≡ true) ↔ All (λ r. r.0 ≡ false) l
collect-nil_iff [] = (λ h. tt, λ h. refl)
collect-nil_iff ((true, r) ∷ l) = (λ h. cc, λ h. cc (h.0))
collect-nil_iff ((false, r) ∷ l) =
    (λ h. (refl, (collect-nil_iff l).0 h), λ h. (collect-nil_iff l).1 h.1)

-- `STOP-[0-9]{3}` at the start of a text.
abbrev stop_id_at : String → Option String
stop_id_at (s ∷ t ∷ o ∷ p ∷ d ∷ x ∷ y ∷ z ∷ _) =
    if str_eq (s ∷ t ∷ o ∷ p ∷ d ∷ []) "STOP-"
      && is_decimal (code x)
      && is_decimal (code y)
      && is_decimal (code z)
    then some (s ∷ t ∷ o ∷ p ∷ d ∷ x ∷ y ∷ z ∷ [])
    else none
stop_id_at _ = none

-- `re.findall(r"STOP-[0-9]{3}", text)`; `skip` characters of the last match are still to pass.
unfoldable pub find_stop_ids : (skip : ℕ) (text : String) → List String
find_stop_ids skip [] = []
find_stop_ids (suc skip) (c ∷ s) = find_stop_ids skip s
find_stop_ids zero (c ∷ s) = elim (stop_id_at (c ∷ s)) [
  | none ↦ find_stop_ids 0 s
  | some i ↦ i ∷ find_stop_ids 7 s
]

-- The stop conditions that the reasons name.
unfoldable pub named_stop_ids : List String → List String
unfolding find_stop_ids sorted_set
named_stop_ids reasons = sorted_set (flat (find_stop_ids 0) reasons)

abbrev pub implementation : String → List (String × String) → String
implementation key [] = "unknown"
implementation key ((k, v) ∷ rest) = if str_eq key k then v else implementation key rest

-- `{"result": "RED", "implemented_by": …}`
abbrev pub red_entry : String → Evidence
red_entry identifier = dict (
    entry "result" (json (str "RED"))
      (entry "implemented_by" (json (str (implementation identifier stop_implementations))) empty))

-- The loop over `stop_ids`.
unfoldable pub add_stop_conditions : List String → Entries → Entries
add_stop_conditions [] conditions = conditions
add_stop_conditions (i ∷ is) conditions =
    add_stop_conditions is (set_evidence i (red_entry i) conditions)

abbrev from_fields : Fields → Entries
from_fields end = empty
from_fields (field k v fs) = entry k (json v) (from_fields fs)

-- `dict(d.get(key, {}))`, which raises unless the value is a dict. (A list of pairs or an empty
-- list would do too; no decision holds one there.)
abbrev dict_at : String → Entries → Result Entries
dict_at key es = elim (find_evidence key es) [
  | none ↦ ok empty
  | some (dict ds) ↦ ok ds
  | some (json (obj fs)) ↦ ok (from_fields fs)
  | some _ ↦ err type_error
]

-- The evidence with the stop conditions that the reasons name.
unfoldable pub with_stop_conditions : List String → Entries → Result Entries
unfolding add_stop_conditions
with_stop_conditions [] evidence = ok evidence
with_stop_conditions (i ∷ is) evidence = do
  controller ← dict_at "controller" evidence
  conditions ← dict_at "stop_conditions" controller
  let conditions' = add_stop_conditions (i ∷ is) conditions
  ok (
      set_evidence "controller"
        (dict (set_evidence "stop_conditions" (dict conditions') controller)) evidence)

-- `Decision.as_dict`.
unfoldable pub as_dict : Decision → Result Entries
unfolding with_stop_conditions named_stop_ids
as_dict d = do
  evidence ← with_stop_conditions (named_stop_ids d.reasons) d.evidence
  ok (
      entry "protocol" (json (str protocol)) (
        entry "state" (json (str (state_text d.state))) (
          entry "accepted" (json (bool d.accepted))
            (entry "reasons" (texts d.reasons) (entry "evidence" (dict evidence) empty)))))
