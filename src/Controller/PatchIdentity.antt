-- ===== src/Controller/PatchIdentity.antt =====
-- `validate_patch_identity` of scripts/ai_controller/core.py.
use Prim.Native.String.{String}
use toi_no_mori_mvs.Common.{
  [], arith, eq_iff, if◌then◌else◌, refl, str_eq, true, ◌&&◌, ◌↔◌, ◌∷◌, ◌≡◌,
}
use toi_no_mori_mvs.Controller.Constants.{is_sha256}
use toi_no_mori_mvs.Controller.Decision.{Decision, empty, entry, json, patch_verified, stopped}
use toi_no_mori_mvs.Python.Json.{str}

unfoldable pub validate_patch_identity : (manufactured verified published : String) → Decision
unfolding is_sha256
validate_patch_identity made verified published =
    let valid = is_sha256 made && is_sha256 verified && is_sha256 published in
    let identical = str_eq made verified && str_eq verified published in
    record {
      state = if valid && identical then patch_verified else stopped;
      accepted = valid && identical;
      reasons = if valid && identical then [] else "patch-hash-mismatch" ∷ [];
      evidence =
          entry "manufactured" (json (str made)) (
            entry "verified" (json (str verified))
              (entry "published" (json (str published)) empty));
    }

-- The patch is accepted exactly where one valid SHA-256 was manufactured, verified and published;
-- the state is then `qf:patch-verified` without a reason, and otherwise `qf:stopped` with the reason
-- `patch-hash-mismatch`.
pub validate_patch_identity_iff :
    (made verified published : String)
    → let d = validate_patch_identity made verified published in
      ((d.accepted ≡ true) ↔ ((is_sha256 made ≡ true) × (made ≡ verified) × (verified ≡ published)))
      × (d.state ≡ (if d.accepted then patch_verified else stopped))
      × (d.reasons ≡ (if d.accepted then [] else "patch-hash-mismatch" ∷ []))
unfolding validate_patch_identity
validate_patch_identity_iff made verified published = (
  (
    λ h. ground (arith, eq_iff made verified, eq_iff verified published),
    λ (v, e, f). ground (arith, eq_iff made verified, eq_iff verified published),
  ),
  refl,
  refl,
)
