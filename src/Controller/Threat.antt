-- ===== src/Controller/Threat.antt =====
-- `public_output_is_clean` and `validate_threat_baseline` of scripts/ai_controller/core.py.
pub mod Measured
use Prim.Native.String.{String}
use toi_no_mori_mvs.Common.{
  Bool, List, Option, [], all, contains_text, false, if◌then◌else◌, is_empty,
}
use toi_no_mori_mvs.Common.{none, not, some, str_eq, ◌++◌, ◌||◌, ◌∷◌}
use toi_no_mori_mvs.Controller.Decision.{
  Decision, bootstrap_safe, collect, empty, entry, json, phase_a_baseline,
}
use toi_no_mori_mvs.Controller.Decision.{stopped}
use toi_no_mori_mvs.Controller.Registry.{as_fields}
use toi_no_mori_mvs.Controller.ReviewGate.Rows.{option_text}
use toi_no_mori_mvs.Python.Canonical.{canonical_json, content_hash}
use toi_no_mori_mvs.Python.Json.{
  Fields, Items, Json, arr, cons, end, eq, field, get, get_or, is_false, is_true,
}
use toi_no_mori_mvs.Python.Json.{nil, obj, str, truthy}
use toi_no_mori_mvs.Python.Platform.{Platform}
use toi_no_mori_mvs.Python.Result.{Result, ok, ◌>>=◌, ◌>>◌}

-- No canary stands in the value's canonical text.
unfoldable pub public_output_is_clean : Platform → Json → (canaries : List String) → Bool
unfolding contains_text canonical_json
public_output_is_clean p value canaries =
    all (λ canary. not (contains_text canary (canonical_json p value))) canaries

-- `contains_unmeasured`
unfoldable mutual
  pub contains_unmeasured : Json → Bool
  contains_unmeasured (str s) = str_eq s "NOT_MEASURED"
  contains_unmeasured (arr vs) = any_unmeasured vs
  contains_unmeasured (obj fs) = any_value_unmeasured fs
  contains_unmeasured _ = false

  pub any_unmeasured : Items → Bool
  any_unmeasured nil = false
  any_unmeasured (cons v vs) = contains_unmeasured v || any_unmeasured vs

  pub any_value_unmeasured : Fields → Bool
  any_value_unmeasured end = false
  any_value_unmeasured (field k v fs) = contains_unmeasured v || any_value_unmeasured fs

-- `d.get(key, {})`, of which `.get` is then taken.
abbrev pub child : String → Fields → Result Fields
child key fs = as_fields (get_or (obj end) key fs)

-- `expected_phase is not None and phase != expected_phase`
abbrev pub is_other_phase : Option String → Json → Bool
is_other_phase none phase = false
is_other_phase (some expected) phase = not (eq phase (str expected))

-- The tests in every phase, each with its reason.
unfoldable pub baseline_tests :
    (repository app permissions : Fields) (phase : Json) (expected_phase : Option String)
    → List (Bool × String)
baseline_tests repository app permissions phase expected_phase =
    (not (eq (get "visibility" repository) (str "public")), "STOP-024")
    ∷ (not (is_false (get "branch_protection_bypass" app)), "app-bypass")
    ∷ (
      not (eq (get "workflows" permissions) (str "none"))
          || not (eq (get "actions" permissions) (str "none")),
      "app-privilege",
    )
    ∷ (is_other_phase expected_phase phase, "STOP-023:phase-mismatch")
    ∷ []

-- The tests of phase A.
unfoldable pub phase_a_tests : (baseline app automation appointment : Fields) → List (Bool × String)
unfolding contains_unmeasured
phase_a_tests baseline app automation appointment =
    (not (eq (get "status" appointment) (str "APPOINTED")), "phase-enabled-before-appointment")
    ∷ (contains_unmeasured (obj baseline), "STOP-023")
    ∷ (
      not (is_true (get "installed" app)) || not (truthy (get "repository_scope" app)),
      "app-not-measured-or-installed",
    )
    ∷ (not (truthy (get "default_branch_workflows" automation)), "default-workflows-unmeasured")
    ∷ []

-- The reasons of the phase; the appointment is read in the two known phases only.
unfoldable pub phase_reasons :
    (baseline app automation : Fields) (phase : Json) → Result (List String)
phase_reasons baseline app automation phase =
    if eq phase (str "BOOTSTRAP_DISABLED")
    then (child "role_appointment" baseline >>= (λ appointment. ok (
        collect (
          (not (eq (get "status" appointment) (str "VACANT")), "unexpected-bootstrap-role") ∷ []))))
    else if eq phase (str "A")
    then (child "role_appointment" baseline
        >>= (λ appointment. ok (collect (phase_a_tests baseline app automation appointment))))
    else ok ("unsupported-phase" ∷ [])

unfoldable pub baseline_decision :
    Platform
    → (reasons : List String) (baseline : Fields) (phase : Json) (expected_phase : Option String)
    → Decision
baseline_decision p reasons baseline phase expected_phase = record {
  state =
      if not (is_empty reasons)
      then stopped
      else if eq phase (str "BOOTSTRAP_DISABLED")
      then bootstrap_safe
      else phase_a_baseline;
  accepted = is_empty reasons;
  reasons = reasons;
  evidence = entry "baseline_hash" (json (str (content_hash p (obj baseline)))) (
      entry "baseline_phase" (json phase)
        (entry "expected_phase" (json (option_text expected_phase)) empty));
}

unfoldable pub validate_threat_baseline :
    Platform → (baseline : Fields) (expected_phase : Option String) → Result Decision
validate_threat_baseline p baseline expected_phase = do
  repository ← child "repository" baseline
  app ← child "github_app" baseline
  permissions ← child "permissions" app
  automation ← child "automation" baseline
  let phase = get "phase" automation
  of_phase ← phase_reasons baseline app automation phase
  let reasons = collect (baseline_tests repository app permissions phase expected_phase) ++ of_phase
  ok (baseline_decision p reasons baseline phase expected_phase)
