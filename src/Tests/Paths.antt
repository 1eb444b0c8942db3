-- ===== src/Tests/Paths.antt =====
-- Paths and change sets.
use Prim.Native.String.{String}
use toi_no_mori_mvs.Common.{
  All, In, List, [], arith, false, member, refl, rstrip_star, sorted_set, split_slash,
}
use toi_no_mori_mvs.Common.{starts_with, true, ◌↔◌, ◌∷◌, ◌≡◌}
use toi_no_mori_mvs.Controller.Constants.{control_plane_deny_files, control_plane_denylist}
use toi_no_mori_mvs.Controller.Scope.{path_is_denied, strip_dot_slash, validate_scope}
use toi_no_mori_mvs.Controller.Scope.Acceptance.{IsInScope, validate_scope-ext, validate_scope_iff}
use toi_no_mori_mvs.Controller.Scope.Resolution.{path_is_denied-resolve, resolve}

paths : Unit {0}
unfolding path_is_denied validate_scope resolve sorted_set rstrip_star split_slash
paths = tt

path_is_denied_tests :
    (path_is_denied "docs/a.md" ≡ false)
    × (path_is_denied "./AGENTS.md" ≡ true)
    × (path_is_denied "docs/../AGENTS.md" ≡ true)
    × (path_is_denied "C:/x" ≡ true)
    × (path_is_denied "docs/governance/x.md" ≡ true)
unfolding paths
path_is_denied_tests = (refl, refl, refl, refl, refl)

-- A prohibited prefix is compared with the path as it is spelled, so a leading "./" passes it.
validate_scope_tests :
    ((validate_scope ("src/a" ∷ "docs/b" ∷ []) ("src/**" ∷ []) []).reasons
      ≡ "scope-exceeded:docs/b" ∷ [])
    × ((validate_scope ("docs/b" ∷ []) [] ("docs/" ∷ [])).accepted ≡ false)
    × ((validate_scope ("./docs/b" ∷ []) [] ("docs/" ∷ [])).accepted ≡ true)
unfolding paths
validate_scope_tests = (refl, refl, refl)

path_is_denied-resolve_example :
    (resolve "./docs/a.md" ≡ strip_dot_slash "./docs/a.md")
    × (starts_with "./docs/a.md" "/" ≡ false)
    × (member (resolve "./docs/a.md") control_plane_deny_files ≡ false)
    × All
        (λ directory. starts_with (resolve "./docs/a.md") directory ≡ false)
        control_plane_denylist
unfolding paths
path_is_denied-resolve_example = path_is_denied-resolve "./docs/a.md" refl

abbrev changed : List String
changed = "src/b" ∷ "src/a" ∷ []

abbrev changed_again : List String
changed_again = "src/a" ∷ "src/b" ∷ "src/a" ∷ []

validate_scope_iff_example :
    ((validate_scope changed ("src/**" ∷ []) ("src/x" ∷ [])).accepted ≡ true)
    ↔ ((path : String) → In path changed → IsInScope ("src/**" ∷ []) ("src/x" ∷ []) path)
validate_scope_iff_example = validate_scope_iff changed ("src/**" ∷ []) ("src/x" ∷ [])

same_paths : (path : String) → member path changed ≡ member path changed_again
same_paths path = ground arith

validate_scope-ext_example :
    validate_scope changed ("src/**" ∷ []) [] ≡ validate_scope changed_again ("src/**" ∷ []) []
validate_scope-ext_example = validate_scope-ext changed changed_again ("src/**" ∷ []) [] same_paths
