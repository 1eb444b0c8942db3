-- ===== src/Controller/Threat/Measured.antt =====
-- What an accepted baseline of phase A is known to satisfy.
use Prim.Native.String.{String}
use mathlib.Core.List.{Memᴰ}
use toi_no_mori_mvs.Common.{
  List, Option, [], ap, arith, is_empty, is_empty-append_iff, not-false, or_not-false,
}
use toi_no_mori_mvs.Common.{refl, sym, true, ◌∙◌, ◌∷◌, ◌≡◌}
use toi_no_mori_mvs.Controller.Decision.{Decision, collect, collect-nil_iff}
use toi_no_mori_mvs.Controller.Threat.{
  any_unmeasured, any_value_unmeasured, baseline_decision, baseline_tests,
}
use toi_no_mori_mvs.Controller.Threat.{
  child, contains_unmeasured, phase_a_tests, phase_reasons, validate_threat_baseline,
}
use toi_no_mori_mvs.Python.Json.{
  Fields, Items, Json, arr, cons, end, eq, eq-str, field, get, is_false, is_true,
}
use toi_no_mori_mvs.Python.Json.{items, nil, obj, str}
use toi_no_mori_mvs.Python.Platform.{Platform}
use toi_no_mori_mvs.Python.Result.{>>=-eq-ok, ok, ok_injective}

abbrev pub field_values : Fields → List Json
field_values end = []
field_values (field k v fs) = v ∷ field_values fs

-- The value itself, or a value inside a list or a dict.
pub data Within (needle : Json) : Json → Type 0 where
  itself : Within needle needle
  in_list : {vs : Items} {v : Json} → Memᴰ v (items vs) → Within needle v → Within needle (arr vs)
  in_dict :
      {fs : Fields} {v : Json} → Memᴰ v (field_values fs) → Within needle v → Within needle (obj fs)

items_unmeasured :
    (vs : Items) (v : Json)
    → Memᴰ v (items vs)
    → contains_unmeasured v ≡ true
    → any_unmeasured vs ≡ true
unfolding contains_unmeasured
items_unmeasured nil v m h = elim m [ ]
items_unmeasured (cons w vs) v (Memᴰ.head e) h = rw (sym e, h) refl
items_unmeasured (cons w vs) v (Memᴰ.tail m) h =
    let later = items_unmeasured vs v m h in ground arith

fields_unmeasured :
    (fs : Fields) (v : Json)
    → Memᴰ v (field_values fs)
    → contains_unmeasured v ≡ true
    → any_value_unmeasured fs ≡ true
unfolding contains_unmeasured
fields_unmeasured end v m h = elim m [ ]
fields_unmeasured (field k w fs) v (Memᴰ.head e) h = rw (sym e, h) refl
fields_unmeasured (field k w fs) v (Memᴰ.tail m) h =
    let later = fields_unmeasured fs v m h in ground arith

Within-unmeasured : {v : Json} → Within (str "NOT_MEASURED") v → contains_unmeasured v ≡ true
unfolding contains_unmeasured
Within-unmeasured itself = refl
Within-unmeasured (in_list {vs} {v} m w) = items_unmeasured vs v m (Within-unmeasured w)
Within-unmeasured (in_dict {fs} {v} m w) = fields_unmeasured fs v m (Within-unmeasured w)

-- What phase A demands of the baseline, next to the repository and the rights of the app.
pub record IsMeasured (baseline : Fields) : Type 0 where
  pub repository : Fields
  pub app : Fields
  pub permissions : Fields
  pub appointment : Fields
  pub visible : get "visibility" repository ≡ str "public"
  pub no_bypass : is_false (get "branch_protection_bypass" app) ≡ true
  pub no_workflows : get "workflows" permissions ≡ str "none"
  pub no_actions : get "actions" permissions ≡ str "none"
  pub appointed : get "status" appointment ≡ str "APPOINTED"
  pub installed : is_true (get "installed" app) ≡ true
  pub measured : ¬ Within (str "NOT_MEASURED") (obj baseline)
  pub repository_read : child "repository" baseline ≡ ok repository
  pub app_read : child "github_app" baseline ≡ ok app
  pub permissions_read : child "permissions" app ≡ ok permissions
  pub appointment_read : child "role_appointment" baseline ≡ ok appointment

phase_a_reasons :
    (baseline app automation : Fields) (phase : Json) (reasons : List String)
    → eq phase (str "A") ≡ true
    → phase_reasons baseline app automation phase ≡ ok reasons
    → (appointment : Fields) × (child "role_appointment" baseline ≡ ok appointment)
      × (collect (phase_a_tests baseline app automation appointment) ≡ reasons)
unfolding phase_reasons eq
phase_a_reasons baseline app automation phase reasons is_a h =
    let phase_a : phase ≡ str "A" = eq-str phase "A" is_a in
    let h' = rw phase_a at h in
    let (appointment, read, e) = >>=-eq-ok (child "role_appointment" baseline) _ h' in
    (appointment, read, ok_injective e)

-- If a baseline of phase A is accepted, the repository is public, the app cannot bypass branch
-- protection and has no rights on workflows and actions, the reviewer is appointed, the app is
-- installed, and "NOT_MEASURED" stands nowhere in the baseline, however deep.
pub validate_threat_baseline_sound :
    (p : Platform) (baseline automation : Fields) (expected_phase : Option String) (d : Decision)
    → child "automation" baseline ≡ ok automation
    → eq (get "phase" automation) (str "A") ≡ true
    → validate_threat_baseline p baseline expected_phase ≡ ok d
    → d.accepted ≡ true
    → IsMeasured baseline
unfolding validate_threat_baseline baseline_decision baseline_tests phase_a_tests
validate_threat_baseline_sound p baseline automation expected_phase d read is_a returned accepted =
    let (repository, repository_read, h₁) = >>=-eq-ok (child "repository" baseline) _ returned in
    let (app, app_read, h₂) = >>=-eq-ok (child "github_app" baseline) _ h₁ in
    let (permissions, permissions_read, h₃) = >>=-eq-ok (child "permissions" app) _ h₂ in
    let (found, found_read, h₄) = >>=-eq-ok (child "automation" baseline) _ h₃ in
    let same : found ≡ automation = ok_injective (sym found_read ∙ read) in
    let phase_a : eq (get "phase" found) (str "A") ≡ true =
      ap (λ a. eq (get "phase" a) (str "A")) same ∙ is_a in
    let (of_phase, of_phase_read, h₅) =
      >>=-eq-ok (phase_reasons baseline app found (get "phase" found)) _ h₄ in
    let (appointment, appointment_read, reasons) =
      phase_a_reasons baseline app found (get "phase" found) of_phase phase_a of_phase_read in
    let clean = ap (λ q. q.accepted) (ok_injective h₅) ∙ accepted in
    let tests = baseline_tests repository app permissions (get "phase" found) expected_phase in
    let (common, of_a) = (is_empty-append_iff (collect tests) of_phase).0 clean in
    let (is_public, (bypass, (rights, _))) = (collect-nil_iff tests).0 common in
    let (appointed, (measured, (installed, _))) =
      (collect-nil_iff (phase_a_tests baseline app found appointment)).0
        (ap is_empty reasons ∙ of_a) in
    let (workflows, actions) = or_not-false _ _ rights in
    record {
      repository = repository;
      app = app;
      permissions = permissions;
      appointment = appointment;
      visible = eq-str _ _ (not-false _ is_public);
      no_bypass = not-false _ bypass;
      no_workflows = eq-str _ _ workflows;
      no_actions = eq-str _ _ actions;
      appointed = eq-str _ _ (not-false _ appointed);
      installed = (or_not-false _ _ installed).0;
      measured = λ w. absurd (cc (Within-unmeasured w, measured));
      repository_read = repository_read;
      app_read = app_read;
      permissions_read = permissions_read;
      appointment_read = appointment_read;
    }
