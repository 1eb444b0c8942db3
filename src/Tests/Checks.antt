-- ===== src/Tests/Checks.antt =====
-- Check results, patch hashes and run origins.
use Prim.Native.String.{String}
use toi_no_mori_mvs.Common.{
  List, Option, [], false, if◌then◌else◌, is_hex, member, none, refl, some,
}
use toi_no_mori_mvs.Common.{sorted_set, true, ◌↔◌, ◌∷◌, ◌≡◌, ◌≢◌}
use toi_no_mori_mvs.Controller.Constants.{is_sha256}
use toi_no_mori_mvs.Controller.Decision.{Decision, no_op, patch_verified, route, stopped}
use toi_no_mori_mvs.Controller.Origin.{route_origin, route_origin_iff, untouched}
use toi_no_mori_mvs.Controller.PatchIdentity.{validate_patch_identity, validate_patch_identity_iff}
use toi_no_mori_mvs.Controller.RequiredChecks.{
  AllSuccess, checks_decision, result_reasons, validate_required_checks,
  validate_required_checks_iff,
}
use toi_no_mori_mvs.Python.Json.{Fields, Json, end, eq, field, keys, obj, str}
use toi_no_mori_mvs.Python.Numbers.{pos}
use toi_no_mori_mvs.Python.Result.{attribute_error, err, ok, ◌>>=◌}
use toi_no_mori_mvs.Tests.Services.{hash_0, sha_a}

checks : Unit {0}
unfolding validate_required_checks result_reasons checks_decision sorted_set eq
    validate_patch_identity route_origin is_sha256 is_hex
checks = tt

abbrev result : String → String → Json
result conclusion sha = obj (field "conclusion" (str conclusion) (field "head_sha" (str sha) end))

abbrev results : Fields
results = field "test" (result "success" sha_a) (field "build" (result "success" sha_a) end)

abbrev names : List String
names = "build" ∷ "test" ∷ []

validate_required_checks_tests :
    (validate_required_checks names names
          (field "build" (result "failure" sha_a) (field "test" (result "success" "b") end))
          sha_a
        >>= (λ d. ok d.reasons)
      ≡ ok ("AUTO-T09b:build" ∷ "AUTO-T09b:test" ∷ []))
    × (validate_required_checks names ("build" ∷ []) results sha_a >>= (λ d. ok d.reasons)
        ≡ ok ("AUTO-T09a" ∷ []))
    × (validate_required_checks names names (field "build" (str "success") end) sha_a
        ≡ err attribute_error)
unfolding checks
validate_required_checks_tests = (refl, refl, refl)

validate_required_checks_iff_example :
    ((d : Decision) × (validate_required_checks names ("test" ∷ "build" ∷ []) results sha_a ≡ ok d)
      × (d.accepted ≡ true))
    ↔ (((a : String) → member a names ≡ member a ("test" ∷ "build" ∷ []))
        × ((a : String) → member a ("test" ∷ "build" ∷ []) ≡ member a (keys results))
        × AllSuccess sha_a results)
validate_required_checks_iff_example =
    validate_required_checks_iff names ("test" ∷ "build" ∷ []) results sha_a

validate_patch_identity_iff_example :
    let d = validate_patch_identity hash_0 hash_0 hash_0 in
    ((d.accepted ≡ true) ↔ ((is_sha256 hash_0 ≡ true) × (hash_0 ≡ hash_0) × (hash_0 ≡ hash_0)))
    × (d.state ≡ (if d.accepted then patch_verified else stopped))
    × (d.reasons ≡ (if d.accepted then [] else "patch-hash-mismatch" ∷ []))
validate_patch_identity_iff_example = validate_patch_identity_iff hash_0 hash_0 hash_0

validate_patch_identity_tests :
    ((validate_patch_identity hash_0 hash_0 hash_0).accepted ≡ true)
    × ((validate_patch_identity sha_a sha_a sha_a).accepted ≡ false)
unfolding checks
validate_patch_identity_tests = (refl, refl)

abbrev routed : Option String → Decision
routed head = route_origin "owner/repo" head (pos 7) none "main"

route_origin_iff_example :
    let d = routed (some "owner/fork") in
    let head : Option String = some "owner/fork" in
    ((d.state ≡ route) ↔ (head ≡ some "owner/repo"))
    × (((d.state ≡ no_op) × (d.evidence ≡ untouched)) ↔ (head ≢ some "owner/repo"))
route_origin_iff_example = route_origin_iff "owner/repo" (some "owner/fork") (pos 7) none "main"
