-- ===== src/Controller/ReviewGate/Findings.antt =====
-- What `validate_review_gate` of scripts/ai_controller/core.py reads from findings and candidates.
use Prim.Native.String.{String}
use toi_no_mori_mvs.Common.{Bool, List, [], if◌then◌else◌, member, not, same_set, true, ◌&&◌, ◌∷◌}
use toi_no_mori_mvs.Controller.Constants.{is_finding_id, is_sha256}
use toi_no_mori_mvs.Controller.Registry.{texts_in}
use toi_no_mori_mvs.Controller.WorkOrder.{is_str_in}
use toi_no_mori_mvs.Python.Canonical.{text_of}
use toi_no_mori_mvs.Python.Json.{
  Fields, Json, arr, dicts_or_empty, eq, get, get_or, items, keys, nil, str,
}
use toi_no_mori_mvs.Python.Json.{texts_or_empty}
use toi_no_mori_mvs.Python.Platform.{Platform}

-- `[item for item in review.get("findings", []) if isinstance(item, dict)]`
abbrev pub findings_of : Fields → List Fields
findings_of review = dicts_or_empty (get_or (arr nil) "findings" review)

abbrev pub candidates_of : Fields → List Fields
candidates_of request = dicts_or_empty (get_or (arr nil) "fix_candidates" request)

abbrev pub eligible_of : Fields → List String
eligible_of request = texts_or_empty (get_or (arr nil) "eligible_finding_ids" request)

-- `item.get(key)` of each item, and those of them that are texts.
abbrev pub values_at : String → List Fields → List Json
values_at key [] = []
values_at key (fs ∷ items) = get key fs ∷ values_at key items

abbrev pub fix_ids : List Fields → List String
fix_ids candidates = texts_in (values_at "finding_id" candidates)

abbrev pub is_verified : Fields → Bool
is_verified finding = eq (get "verification_status" finding) (str "VERIFIED")

abbrev pub keep {ℓ} : {A : Type ℓ} → (A → Bool) → List A → List A
keep test [] = []
keep test (x ∷ xs) = let later = keep test xs in if test x then x ∷ later else later

abbrev pub verified_ids : List Fields → List String
verified_ids findings = texts_in (values_at "id" (keep is_verified findings))

-- `isinstance(v, str) and v in {"P0", "P1"}`, for a finding that is not verified.
abbrev pub is_open_severe : Fields → Bool
is_open_severe finding =
    is_str_in ("P0" ∷ "P1" ∷ []) (get "severity" finding) && not (is_verified finding)

abbrev pub unresolved : List Fields → List Fields
unresolved findings = keep is_open_severe findings

-- `finding_id` as a key of `candidate_by_id`: a later candidate replaces an earlier one.
abbrev pub is_replaced : Json → List Fields → Bool
is_replaced (str i) later = member i (fix_ids later)
is_replaced _ later = true

abbrev pub candidate_by_id : List Fields → List Fields
candidate_by_id [] = []
candidate_by_id (fs ∷ candidates) =
    let later = candidate_by_id candidates in
    if is_replaced (get "finding_id" fs) candidates then later else fs ∷ later

abbrev pub finding_fields : List String
finding_fields =
    "id" ∷ "severity" ∷ "verification_status" ∷ "disposition" ∷ "path" ∷ "evidence" ∷ "risk"
    ∷ "required_change" ∷ "residual_risk" ∷ []

abbrev pub allowed_status : (mode : Json) → List String
allowed_status mode = if eq mode (str "INITIAL") then "OPEN" ∷ [] else "OPEN" ∷ "VERIFIED" ∷ []

module _ (p : Platform) where
  -- The shape of one finding, in REV-GATE-012.
  unfoldable pub is_finding : Fields → Bool
  unfolding is_finding_id
  is_finding finding =
      is_finding_id (text_of p (get_or (str "") "id" finding))
      && is_str_in ("P0" ∷ "P1" ∷ "P2" ∷ "P3" ∷ []) (get "severity" finding)
      && same_set finding_fields (keys finding)

  -- `candidate_identity` of one candidate.
  unfoldable pub is_candidate : (current_head_sha : String) → Fields → Bool
  unfolding is_sha256
  is_candidate current_head_sha candidate =
      eq (get "candidate_sha" candidate) (str current_head_sha)
      && is_sha256 (text_of p (get_or (str "") "record_sha256" candidate))
