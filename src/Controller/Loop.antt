-- ===== src/Controller/Loop.antt =====
-- `loop_transition` of scripts/ai_controller/core.py.
pub mod Retries
use Prim.Native.String.{String}
use toi_no_mori_mvs.Common.{
  Bool, List, Option, [], false, if◌then◌else◌, is_empty, not, some, str_eq,
}
use toi_no_mori_mvs.Common.{suc, true, zero, ℕ, ◌&&◌, ◌||◌, ◌∷◌}
use toi_no_mori_mvs.Controller.Decision.{
  Decision, Entries, changes_requested, collect, empty, entry, json, manufacturing,
}
use toi_no_mori_mvs.Controller.Decision.{organizer_acceptance, stopped}
use toi_no_mori_mvs.Controller.Schema.{is_hashable, iterate}
use toi_no_mori_mvs.Python.Json.{Fields, Json, arr, eq, get, get_or, int, nil, obj, str, truthy}
use toi_no_mori_mvs.Python.Numbers.{int_lt, negsuc, pos, ℤ}
use toi_no_mori_mvs.Python.Result.{Result, attribute_error, err, ok, type_error, ◌>>=◌, ◌>>◌}

-- `item.get("severity") in {"P0", "P1"} and item.get("verification_status") != "VERIFIED"`; a
-- severity that cannot be hashed raises `TypeError`.
abbrev pub is_severe : Json → Bool
is_severe severity = eq severity (str "P0") || eq severity (str "P1")

abbrev pub is_unresolved : Fields → Bool
is_unresolved finding =
    is_severe (get "severity" finding)
    && not (eq (get "verification_status" finding) (str "VERIFIED"))

-- The `any` over the findings, which stops at the first that is unresolved.
unfoldable pub any_unresolved : List Json → Result Bool
any_unresolved [] = ok false
any_unresolved (obj finding ∷ findings) =
    let later = any_unresolved findings in
    if is_hashable (get "severity" finding)
    then if is_unresolved finding then ok true else later
    else err type_error
any_unresolved (_ ∷ findings) = err attribute_error

-- `patch_hash and previous_patch_hash and patch_hash == previous_patch_hash`
abbrev pub same_patch : (patch_hash previous_patch_hash : Option String) → Bool
same_patch (some a) (some b) = not (str_eq a "") && str_eq a b
same_patch _ _ = false

-- The tests before the phase is looked at, each with its reason.
abbrev pub stop_tests :
    (iteration max_iterations : ℤ) (previous_patch_hash patch_hash : Option String)
    (budget_exceeded unresolved : Bool)
    → List (Bool × String)
stop_tests iteration max_iterations previous_patch_hash patch_hash budget_exceeded unresolved =
    (budget_exceeded || int_lt max_iterations iteration, "STOP-020")
    ∷ (same_patch patch_hash previous_patch_hash, "STOP-018")
    ∷ (unresolved, "STOP-001")
    ∷ []

abbrev pub iteration_evidence : ℤ → Entries
iteration_evidence iteration = entry "iteration" (json (int iteration)) empty

-- `{"A": 0, "B": 1, "C": 3}.get(phase, 0)`
abbrev pub phase_limit : String → ℕ
phase_limit phase = if str_eq phase "B" then 1 else if str_eq phase "C" then 3 else 0

-- `phase == "A" or iteration >= min(permitted, max_iterations)`
abbrev pub is_exhausted : (phase : String) (iteration max_iterations : ℤ) → Bool
is_exhausted phase iteration max_iterations =
    str_eq phase "A"
    || not (int_lt iteration (pos (phase_limit phase)))
    || not (int_lt iteration max_iterations)

abbrev pub int_suc : ℤ → ℤ
int_suc (pos n) = pos (suc n)
int_suc (negsuc zero) = pos zero
int_suc (negsuc (suc n)) = negsuc n

unfoldable pub decide_loop :
    (reasons : List String) (has_findings : Bool) (phase : String) (iteration max_iterations : ℤ)
    → Decision
decide_loop reasons has_findings phase iteration max_iterations =
    if not (is_empty reasons)
    then record {
      state = stopped;
      accepted = false;
      reasons = reasons;
      evidence = iteration_evidence iteration;
    }
    else if not has_findings
    then record {
      state = organizer_acceptance;
      accepted = true;
      reasons = [];
      evidence = iteration_evidence iteration;
    }
    else if is_exhausted phase iteration max_iterations
    then record {
      state = changes_requested;
      accepted = true;
      reasons = "human-return" ∷ [];
      evidence = iteration_evidence iteration;
    }
    else record {
      state = manufacturing;
      accepted = true;
      reasons = "bounded-retry" ∷ [];
      evidence = iteration_evidence (int_suc iteration);
    }

unfoldable pub loop_transition :
    (review : Fields) (phase : String) (iteration max_iterations : ℤ)
    (previous_patch_hash patch_hash : Option String) (budget_exceeded : Bool)
    → Result Decision
loop_transition review phase iteration max_iterations previous_patch_hash patch_hash
      budget_exceeded =
    do
      let findings = get_or (arr nil) "findings" review
      elements ← iterate findings
      unresolved ← any_unresolved elements
      let tests =
          stop_tests iteration max_iterations previous_patch_hash patch_hash budget_exceeded
            unresolved
      ok (decide_loop (collect tests) (truthy findings) phase iteration max_iterations)
