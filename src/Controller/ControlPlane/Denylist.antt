-- ===== src/Controller/ControlPlane/Denylist.antt =====
-- After a self-check that returns, the registry's deny list holds of every path that is let through.
use Prim.Native.String.{String}
use toi_no_mori_mvs.Common.{
  All, All-of_In, All_In, List, arith, false, member, none, same_set, same_set_iff,
}
use toi_no_mori_mvs.Common.{some, starts_with, sym, true, ◌∙◌, ◌≡◌}
use toi_no_mori_mvs.Controller.Constants.{
  control_plane_deny_files, control_plane_denylist, gate_ids, precondition_ids,
}
use toi_no_mori_mvs.Controller.Constants.{stop_ids}
use toi_no_mori_mvs.Controller.ControlPlane.{
  ControlPlane, check_denylist, declared_paths, validate_control_plane,
}
use toi_no_mori_mvs.Controller.Registry.{entries_of, load_registry, validate_registry}
use toi_no_mori_mvs.Controller.Scope.{path_is_denied}
use toi_no_mori_mvs.Controller.Scope.Resolution.{path_is_denied-resolve, resolve}
use toi_no_mori_mvs.Python.Json.{Json, entries}
use toi_no_mori_mvs.Python.Platform.{Platform}
use toi_no_mori_mvs.Python.Result.{>>-eq-ok, >>=-eq-ok, ok, require-eq-ok}

deny_list_checked :
    (p : Platform) (r : ControlPlane) → validate_control_plane p ≡ ok r → check_denylist p ≡ ok tt
unfolding validate_control_plane
deny_list_checked p r h =
    let (_, _, h₁) = >>=-eq-ok (validate_registry p "gate-checks.yml" (some gate_ids)) _ h in
    let (_, _, h₂) =
      >>=-eq-ok (validate_registry p "work-order-preconditions.yml" (some precondition_ids)) _ h₁ in
    let (_, _, h₃) = >>=-eq-ok (validate_registry p "stop-conditions.yml" (some stop_ids)) _ h₂ in
    let (_, _, h₄) = >>=-eq-ok (validate_registry p "required-checks.yml" none) _ h₃ in
    let (_, _, h₅) = >>=-eq-ok (validate_registry p "finding-ids.yml" none) _ h₄ in
    let (_, _, h₆) = >>=-eq-ok (validate_registry p "organizer-allowlist.yml" none) _ h₅ in
    let (_, _, h₇) = >>=-eq-ok (validate_registry p "manufacturing-denylist.yml" none) _ h₆ in
    (>>-eq-ok (check_denylist p) _ h₇).0

-- Once the self-check returns, a path that is not denied refers to no file that the registry
-- manufacturing-denylist.yml declares, and to nothing below a prefix that it declares, however the
-- path is spelled.
pub path_is_denied-registry :
    (p : Platform) (r : ControlPlane) (path : String)
    → validate_control_plane p ≡ ok r
    → path_is_denied path ≡ false
    → (document : Json) × (key : String) × (entries : List Json) × (prefixes : List String)
      × (files : List String) × (load_registry p "manufacturing-denylist.yml" ≡ ok document)
      × (entries_of document ≡ ok (key, entries))
      × (declared_paths p "prefix" entries ≡ ok prefixes)
      × (declared_paths p "file" entries ≡ ok files)
      × All (λ directory. starts_with (resolve path) directory ≡ false) prefixes
      × (member (resolve path) files ≡ false)
unfolding check_denylist
path_is_denied-registry p r path checked allowed =
    let h = deny_list_checked p r checked in
    let (document, loaded, h₁) = >>=-eq-ok (load_registry p "manufacturing-denylist.yml") _ h in
    let ((key, entries), found, h₂) = >>=-eq-ok (entries_of document) _ h₁ in
    let (prefixes, prefixes_read, h₃) = >>=-eq-ok (declared_paths p "prefix" entries) _ h₂ in
    let (files, files_read, h₄) = >>=-eq-ok (declared_paths p "file" entries) _ h₃ in
    let agree = require-eq-ok _ _ h₄ in
    let same_prefixes : same_set prefixes control_plane_denylist ≡ true = ground arith in
    let same_files : same_set files control_plane_deny_files ≡ true = ground arith in
    let (_, _, outside, below) = path_is_denied-resolve path allowed in
    (
      document,
      key,
      entries,
      prefixes,
      files,
      loaded,
      found,
      prefixes_read,
      files_read,
      All-of_In prefixes (λ directory m.
          All_In (λ directory. starts_with (resolve path) directory ≡ false) directory
            control_plane_denylist below
            (sym ((same_set_iff prefixes control_plane_denylist).0 same_prefixes directory) ∙ m)),
      (same_set_iff files control_plane_deny_files).0 same_files (resolve path) ∙ outside,
    )
