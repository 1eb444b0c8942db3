-- ===== src/Controller/Constants.antt =====
-- The constants of scripts/ai_controller/core.py, and its patterns for hashes and finding ids.
use Prim.Native.Char.{code}
use Prim.Native.String.{String, [], ◌∷◌}
use toi_no_mori_mvs.Common.{ℕ, zero, suc, ◌/◌, ◌%◌, Bool, false, ◌<>◌, List, [], ◌∷◌}
use toi_no_mori_mvs.Common.{◌++◌, ◌==◌, ◌&&◌, leb, is_hex}
use toi_no_mori_mvs.Python.Canonical.{digit}

abbrev pub protocol : String
protocol = "QF-AI-COLLAB-v5"

-- `SHA40.fullmatch(s) is not None` and `SHA256.fullmatch(s) is not None`.
unfoldable pub is_sha40 : String → Bool
is_sha40 s = is_hex 40 s

unfoldable pub is_sha256 : String → Bool
is_sha256 s = is_hex 64 s

abbrev pub is_decimal : ℕ → Bool
is_decimal n = leb b'0' n && leb n b'9'

-- `[0-9]{3}` to the end of the text.
abbrev three_decimals : String → Bool
three_decimals (a ∷ b ∷ c ∷ []) = is_decimal (code a) && is_decimal (code b) && is_decimal (code c)
three_decimals _ = false

-- `-[0-9]{3}`
abbrev dash_three_decimals : String → Bool
dash_three_decimals (a ∷ s) = (code a == b'-') && three_decimals s
dash_three_decimals _ = false

-- `[0-3]-[0-9]{3}`
abbrev priority_suffix : String → Bool
priority_suffix (a ∷ s) = leb b'0' (code a) && leb (code a) b'3' && dash_three_decimals s
priority_suffix _ = false

-- The text behind a prefix, where the prefix stands.
abbrev pub after_prefix : (prefix s : String) → (String → Bool) → Bool
after_prefix [] s rest = rest s
after_prefix (a ∷ prefix) [] rest = false
after_prefix (a ∷ prefix) (c ∷ s) rest = (code a == code c) && after_prefix prefix s rest

-- `FINDING_ID.fullmatch(s) is not None`.
unfoldable pub is_finding_id : String → Bool
is_finding_id s = after_prefix "AUTO-IMPL-P" s priority_suffix

abbrev pub control_plane_denylist : List String
control_plane_denylist =
    ".github/ai/" ∷ ".github/workflows/" ∷ "docs/governance/" ∷ "docs/evidence/automation/reviews/"
    ∷ "docs/evidence/automation/dispositions/" ∷ "scripts/ai_controller/" ∷ "tests/automation/" ∷ []

abbrev pub control_plane_deny_files : List String
control_plane_deny_files =
    "AGENTS.md" ∷ "CLAUDE.md" ∷ "REVIEW.md" ∷ "scripts/qf-ai-controller.py"
    ∷ "scripts/test-github-autodrive-controller.sh" ∷ []

-- `f"{n:03d}"` of a number below 1000.
abbrev pad3 : ℕ → String
pad3 n = digit (n / 100) <> (digit (n / 10 % 10) <> digit (n % 10))

-- `tuple(f"{prefix}{number:03d}" for number in range(1, count + 1))`.
abbrev numbered : String → ℕ → List String
numbered prefix zero = []
numbered prefix (suc n) = numbered prefix n ++ (prefix <> pad3 (suc n)) ∷ []

abbrev pub gate_ids : List String
gate_ids = numbered "REV-GATE-" 20

abbrev pub precondition_ids : List String
precondition_ids = numbered "WO-PRE-" 18

abbrev pub stop_ids : List String
stop_ids = numbered "STOP-" 31

-- The function that implements each stop condition.
abbrev pub stop_implementations : List (String × String)
stop_implementations =
    ("STOP-001", "scripts.ai_controller.core.loop_transition")
    ∷ ("STOP-002", "scripts.ai_controller.core.route_origin")
    ∷ ("STOP-003", "scripts.ai_controller.core.validate_work_order")
    ∷ ("STOP-004", "scripts.ai_controller.core.validate_work_order")
    ∷ ("STOP-005", "scripts.ai_controller.core.validate_scope")
    ∷ ("STOP-006", "scripts.ai_controller.core.validate_required_checks")
    ∷ ("STOP-007", "scripts.ai_controller.core.validate_control_plane")
    ∷ ("STOP-008", "scripts.ai_controller.core.validate_review_gate")
    ∷ ("STOP-009", "scripts.ai_controller.core.validate_required_checks")
    ∷ ("STOP-010", "scripts.ai_controller.core.validate_review_gate")
    ∷ ("STOP-011", "scripts.ai_controller.core.validate_review_gate")
    ∷ ("STOP-012", "scripts.ai_controller.core.validate_review_gate")
    ∷ ("STOP-013", "scripts.ai_controller.core.validate_review_gate")
    ∷ ("STOP-014", "scripts.ai_controller.core.validate_review_record")
    ∷ ("STOP-015", "scripts.ai_controller.core.validate_review_gate")
    ∷ ("STOP-016", "scripts.ai_controller.core.validate_disposition_record")
    ∷ ("STOP-017", "scripts.ai_controller.core.validate_work_order")
    ∷ ("STOP-018", "scripts.ai_controller.core.loop_transition")
    ∷ ("STOP-019", "scripts.ai_controller.core.validate_review_gate")
    ∷ ("STOP-020", "scripts.ai_controller.core.loop_transition")
    ∷ ("STOP-021", "scripts.ai_controller.core.validate_required_checks")
    ∷ ("STOP-022", "scripts.ai_controller.core.validate_work_order")
    ∷ ("STOP-023", "scripts.ai_controller.core.validate_threat_baseline")
    ∷ ("STOP-024", "scripts.ai_controller.core.validate_threat_baseline")
    ∷ ("STOP-025", "scripts.ai_controller.core.validate_work_order")
    ∷ ("STOP-026", "scripts.ai_controller.core.validate_work_order")
    ∷ ("STOP-027", "scripts.ai_controller.core.validate_appointment")
    ∷ ("STOP-028", "scripts.ai_controller.core.validate_appointment")
    ∷ ("STOP-029", "scripts.ai_controller.core.appointment_applicability")
    ∷ ("STOP-030", "scripts.ai_controller.core.validate_review_record")
    ∷ ("STOP-031", "scripts.ai_controller.core.validate_disposition_record")
    ∷ []
