-- ===== src/Controller/RequiredChecks.antt =====
-- `validate_required_checks` of scripts/ai_controller/core.py.
use Prim.Native.String.{String}
use toi_no_mori_mvs.Common.{
  Bool, List, [], ap, arith, eq_refl, false, if◌then◌else◌, is_empty, is_empty_iff,
}
use toi_no_mori_mvs.Common.{member, refl, same_set, same_set_iff, sorted_set, true, ◌&&◌, ◌<>◌, ◌↔◌}
use toi_no_mori_mvs.Common.{◌∙◌, ◌∷◌, ◌≡◌}
use toi_no_mori_mvs.Controller.Decision.{Decision, ci_green, ci_red, empty, entry, json, texts}
use toi_no_mori_mvs.Controller.Registry.{as_fields}
use toi_no_mori_mvs.Python.Json.{Fields, Json, end, eq, eq-str, field, get, keys, obj, str}
use toi_no_mori_mvs.Python.Result.{>>=-eq-ok, Result, ok, ok_injective, ◌>>=◌}

-- The loop over `actual.items()`; a result that is no dict raises `AttributeError`.
unfoldable pub result_reasons : (expected_sha : String) → Fields → Result (List String)
result_reasons expected_sha end = ok []
result_reasons expected_sha (field name result rest) = do
  fs ← as_fields result
  later ← result_reasons expected_sha rest
  let good = eq (get "conclusion" fs) (str "success") && eq (get "head_sha" fs) (str expected_sha)
  ok (if good then later else ("AUTO-T09b:" <> name) ∷ later)

-- The names agree.
abbrev pub names_agree : (registry work_order actual : List String) → Bool
names_agree registry work_order actual = same_set registry work_order && same_set work_order actual

-- The decision from the reasons that the results give.
unfoldable pub checks_decision :
    (registry work_order actual : List String) (expected_sha : String) (results : List String)
    → Decision
unfolding sorted_set
checks_decision registry work_order actual expected_sha results =
    let reasons =
      if names_agree registry work_order actual then results else "AUTO-T09a" ∷ results in
    record {
      state = if is_empty reasons then ci_green else ci_red;
      accepted = is_empty reasons;
      reasons = reasons;
      evidence = entry "registry" (texts (sorted_set registry)) (
          entry "work_order" (texts (sorted_set work_order)) (
            entry "actual" (texts (sorted_set actual))
              (entry "head_sha" (json (str expected_sha)) empty)));
    }

unfoldable pub validate_required_checks :
    (registry_checks work_order_checks : List String)
    → Fields
    → (expected_sha : String) → Result Decision
unfolding result_reasons checks_decision
validate_required_checks registry_checks work_order_checks actual expected_sha = do
  results ← result_reasons expected_sha actual
  ok (checks_decision registry_checks work_order_checks (keys actual) expected_sha results)

-- A check that ended in success on the expected commit.
pub record IsSuccess (expected_sha : String) (result : Json) : Type 0 where
  pub fields : Fields
  pub is_dict : result ≡ obj fields
  pub conclusion : get "conclusion" fields ≡ str "success"
  pub head_sha : get "head_sha" fields ≡ str expected_sha

abbrev pub AllSuccess : String → Fields → Type 0
AllSuccess expected_sha end = Unit
AllSuccess expected_sha (field name result rest) =
    IsSuccess expected_sha result × AllSuccess expected_sha rest

is_good : String → Fields → Bool
is_good expected_sha fs =
    eq (get "conclusion" fs) (str "success") && eq (get "head_sha" fs) (str expected_sha)

is_good_sound :
    (expected_sha : String) (fs : Fields)
    → is_good expected_sha fs ≡ true
    → IsSuccess expected_sha (obj fs)
unfolding is_good
is_good_sound sha fs h = record {
  fields = fs;
  is_dict = refl;
  conclusion = eq-str (get "conclusion" fs) "success" (ground arith);
  head_sha = eq-str (get "head_sha" fs) sha (ground arith);
}

is_good_complete :
    (expected_sha : String) (fs : Fields)
    → IsSuccess expected_sha (obj fs)
    → is_good expected_sha fs ≡ true
unfolding is_good eq
is_good_complete sha fs s =
    let same : fs ≡ s.fields = cc (s.is_dict) in
    rw (same, s.conclusion, s.head_sha) (ground (arith, eq_refl "success", eq_refl sha))

if-nil :
    (b : Bool) (x : String) (xs : List String)
    → (if b then xs else x ∷ xs) ≡ []
    → (b ≡ true) × (xs ≡ [])
if-nil true x xs h = (refl, h)
if-nil false x xs h = cc

result_reasons_sound :
    (expected_sha : String) (actual : Fields)
    → result_reasons expected_sha actual ≡ ok []
    → AllSuccess expected_sha actual
unfolding result_reasons
result_reasons_sound sha end h = tt
result_reasons_sound sha (field name (obj fs) rest) h =
    let (later, found, e) = >>=-eq-ok (result_reasons sha rest) _ h in
    let (good, none_later) =
      if-nil (is_good sha fs) ("AUTO-T09b:" <> name) later (unfold is_good in ok_injective e) in
    (is_good_sound sha fs good, result_reasons_sound sha rest (found ∙ ap ok none_later))
result_reasons_sound sha (field name _ rest) h = cc

result_reasons_complete :
    (expected_sha : String) (actual : Fields)
    → AllSuccess expected_sha actual
    → result_reasons expected_sha actual ≡ ok []
unfolding result_reasons is_good
result_reasons_complete sha end h = refl
result_reasons_complete sha (field name (obj fs) rest) (s, h) =
    rw (result_reasons_complete sha rest h, is_good_complete sha fs s) refl
result_reasons_complete sha (field name _ rest) (s, h) = cc (s.is_dict)

checks_decision_iff :
    (registry work_order actual : List String) (sha : String) (results : List String)
    → ((checks_decision registry work_order actual sha results).accepted ≡ true)
      ↔ ((names_agree registry work_order actual ≡ true) × (results ≡ []))
unfolding checks_decision
checks_decision_iff registry work_order actual sha results =
    go (names_agree registry work_order actual) results
  where
    go :
        (agree : Bool) (results : List String)
        → (is_empty (if agree then results else "AUTO-T09a" ∷ results) ≡ true)
          ↔ ((agree ≡ true) × (results ≡ []))
    go true results = (λ h. (refl, (is_empty_iff results).0 h), λ h. (is_empty_iff results).1 h.1)
    go false results = (λ h. cc, λ h. cc (h.0))

-- The checks are accepted exactly where the registry, the work order and the results name the same
-- set of checks and each result is a success on the expected commit.
pub validate_required_checks_iff :
    (registry_checks work_order_checks : List String) (actual : Fields) (expected_sha : String)
    → ((d : Decision) × (validate_required_checks registry_checks work_order_checks actual
            expected_sha
          ≡ ok d)
        × (d.accepted ≡ true))
      ↔ (((a : String) → member a registry_checks ≡ member a work_order_checks)
          × ((a : String) → member a work_order_checks ≡ member a (keys actual))
          × AllSuccess expected_sha actual)
unfolding validate_required_checks
validate_required_checks_iff registry work_order actual sha = (
  λ (d, returned, accepted).
      let (results, found, e) = >>=-eq-ok (result_reasons sha actual) _ returned in
      let (agree, clean) =
        (checks_decision_iff registry work_order (keys actual) sha results).0
          (ap (λ r. r.accepted) (ok_injective e) ∙ accepted) in
      (
        (same_set_iff registry work_order).0 (ground arith),
        (same_set_iff work_order (keys actual)).0 (ground arith),
        result_reasons_sound sha actual (found ∙ ap ok clean),
      ),
  λ (same, same', good). (
    checks_decision registry work_order (keys actual) sha [],
    rw (result_reasons_complete sha actual good) refl,
    (checks_decision_iff registry work_order (keys actual) sha []).1 (
      ground (
        arith,
        (same_set_iff registry work_order).1 same,
        (same_set_iff work_order (keys actual)).1 same',
      ),
      refl,
    ),
  ),
)
