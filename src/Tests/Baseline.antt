-- ===== src/Tests/Baseline.antt =====
-- A threat baseline of phase A, and canaries.
use Prim.Native.String.{String}
use toi_no_mori_mvs.Common.{[], contains_text, false, none, refl, some, true, ◌∷◌, ◌≡◌}
use toi_no_mori_mvs.Controller.Decision.{Decision}
use toi_no_mori_mvs.Controller.Schema.Instance.{note}
use toi_no_mori_mvs.Controller.Threat.{
  baseline_decision, baseline_tests, contains_unmeasured, phase_a_tests, phase_reasons,
}
use toi_no_mori_mvs.Controller.Threat.{public_output_is_clean, validate_threat_baseline}
use toi_no_mori_mvs.Controller.Threat.Measured.{IsMeasured, validate_threat_baseline_sound}
use toi_no_mori_mvs.Python.Canonical.{
  canonical_json, content_hash, join_comma, pair_texts, quote, sha256_text,
}
use toi_no_mori_mvs.Python.Canonical.{sort_entries}
use toi_no_mori_mvs.Python.Json.{Fields, bool, end, eq, field, get, obj, str}
use toi_no_mori_mvs.Python.Result.{ok, ◌>>=◌}
use toi_no_mori_mvs.Tests.Services.{services, text_list}

baselines : Unit {0}
unfolding validate_threat_baseline baseline_decision baseline_tests phase_a_tests phase_reasons
    contains_unmeasured eq content_hash canonical_json quote join_comma sort_entries pair_texts
    sha256_text public_output_is_clean contains_text
baselines = tt

abbrev automation : Fields
automation =
    field "phase" (str "A") (field "default_branch_workflows" (text_list ("ci.yml" ∷ [])) end)

abbrev permissions : Fields
permissions = field "workflows" (str "none") (field "actions" (str "none") end)

abbrev app : Fields
app = field "branch_protection_bypass" (bool false) (
    field "permissions" (obj permissions)
      (field "installed" (bool true) (field "repository_scope" (str "one") end)))

-- A baseline with a note.
abbrev baseline : String → Fields
baseline note = field "repository" (obj (field "visibility" (str "public") end)) (
    field "github_app" (obj app) (
      field "automation" (obj automation) (
        field "role_appointment"
          (obj (field "status" (str "APPOINTED") (field "notes" (text_list (note ∷ [])) end)))
          end)))

abbrev enabled : Decision
enabled = baseline_decision services [] (baseline "done") (str "A") (some "A")

enabled_returned : validate_threat_baseline services (baseline "done") (some "A") ≡ ok enabled
unfolding baselines
enabled_returned = refl

enabled_accepted : enabled.accepted ≡ true
unfolding baselines
enabled_accepted = refl

phase_a : eq (get "phase" automation) (str "A") ≡ true
unfolding baselines
phase_a = refl

validate_threat_baseline_sound_example : IsMeasured (baseline "done")
validate_threat_baseline_sound_example =
    validate_threat_baseline_sound services (baseline "done") automation (some "A") enabled refl
      phase_a enabled_returned enabled_accepted

unmeasured_tests :
    validate_threat_baseline services (baseline "NOT_MEASURED") none >>= (λ d. ok d.reasons)
    ≡ ok ("STOP-023" ∷ [])
unfolding baselines
unmeasured_tests = refl

-- A canary with a quotation mark is escaped in the canonical text, and is not found there.
public_output_tests :
    (public_output_is_clean services (str "token x1") ("x1" ∷ []) ≡ false)
    × (public_output_is_clean services (str "a\"b") ("a\"b" ∷ []) ≡ true)
unfolding baselines
public_output_tests = (refl, refl)
