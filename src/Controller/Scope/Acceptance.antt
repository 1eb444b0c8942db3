-- ===== src/Controller/Scope/Acceptance.antt =====
-- Which change sets `validate_scope` accepts.
use Prim.Native.String.{String}
use toi_no_mori_mvs.Common.{
  All, All_In, All-of_In, In, List, [], any, ap, arith, false, flat-empty_iff,
}
use toi_no_mori_mvs.Common.{
  inl, inr, is_empty, map, member, member-sorted_set, not, refl, rstrip_star,
}
use toi_no_mori_mvs.Common.{
  sorted_set, sorted_set-ext, starts_with, sym, true, ◌&&◌, ◌||◌, ◌↔◌, ◌∙◌,
}
use toi_no_mori_mvs.Common.{◌∷◌, ◌≡◌, ◌⊎◌}
use toi_no_mori_mvs.Controller.Decision.{collect-nil_iff}
use toi_no_mori_mvs.Controller.Scope.{path_is_denied, path_reasons, path_tests, validate_scope}

-- A path that the work order lets a change touch: one that is not denied, that begins with no
-- prohibited prefix, and that begins with an allowed one if any is named. Stars at the end of a
-- prefix are dropped.
abbrev pub IsInScope : (allowed prohibited : List String) → String → Type 0
IsInScope allowed prohibited path =
    (path_is_denied path ≡ false)
    × All (λ prefix. starts_with path (rstrip_star prefix) ≡ false) prohibited
    × ((allowed ≡ []) ⊎ (any (λ prefix. starts_with path (rstrip_star prefix)) allowed ≡ true))

any-map-false :
    (path : String) (prefixes : List String)
    → (any (starts_with path) (map rstrip_star prefixes) ≡ false)
      ↔ All (λ prefix. starts_with path (rstrip_star prefix) ≡ false) prefixes
any-map-false path [] = (λ h. tt, λ h. refl)
any-map-false path (x ∷ xs) = (
  λ h. (ground arith, (any-map-false path xs).0 (ground arith)),
  λ (p, h). ground (arith, (any-map-false path xs).1 h),
)

any-map :
    (path : String) (prefixes : List String)
    → any (starts_with path) (map rstrip_star prefixes)
      ≡ any (λ prefix. starts_with path (rstrip_star prefix)) prefixes
any-map path [] = refl
any-map path (x ∷ xs) = ap (λ b. starts_with path (rstrip_star x) || b) (any-map path xs)

prohibited_iff :
    (path : String) (prohibited : List String)
    → ((not (is_empty (map rstrip_star prohibited))
          && any (starts_with path) (map rstrip_star prohibited))
        ≡ false)
      ↔ All (λ prefix. starts_with path (rstrip_star prefix) ≡ false) prohibited
prohibited_iff path [] = (λ h. tt, λ h. refl)
prohibited_iff path (x ∷ xs) = any-map-false path (x ∷ xs)

allowed_iff :
    (path : String) (allowed : List String)
    → ((not (is_empty (map rstrip_star allowed))
          && not (any (starts_with path) (map rstrip_star allowed)))
        ≡ false)
      ↔ ((allowed ≡ []) ⊎ (any (λ prefix. starts_with path (rstrip_star prefix)) allowed ≡ true))
allowed_iff path [] = (λ h. inl refl, λ h. refl)
allowed_iff path (x ∷ xs) =
    (λ h. inr (ground (arith, any-map path (x ∷ xs))), λ h. ground (arith, any-map path (x ∷ xs)))

path_reasons_iff :
    (allowed prohibited : List String) (path : String)
    → (is_empty (path_reasons (map rstrip_star allowed) (map rstrip_star prohibited) path) ≡ true)
      ↔ IsInScope allowed prohibited path
path_reasons_iff allowed prohibited path =
    let tests = path_tests (map rstrip_star allowed) (map rstrip_star prohibited) path in
    (
      λ h.
          let t = (collect-nil_iff tests).0 h in
          (t.0, (prohibited_iff path prohibited).0 t.1.0, (allowed_iff path allowed).0 t.1.1.0),
      λ (denied, banned, exceeded). (collect-nil_iff tests).1 (
        denied,
        ((prohibited_iff path prohibited).1 banned, ((allowed_iff path allowed).1 exceeded, tt)),
      ),
    )

-- `validate_scope` accepts a change exactly where each changed path is in scope.
pub validate_scope_iff :
    (changed_paths allowed prohibited : List String)
    → ((validate_scope changed_paths allowed prohibited).accepted ≡ true)
      ↔ ((path : String) → In path changed_paths → IsInScope allowed prohibited path)
unfolding validate_scope
validate_scope_iff changed_paths allowed prohibited = (
  λ h path m. (path_reasons_iff allowed prohibited path).0 (
      All_In _ path (sorted_set changed_paths) ((flat-empty_iff _ _).0 h)
        (member-sorted_set path changed_paths ∙ m)),
  λ h. (flat-empty_iff _ _).1 (
      All-of_In (sorted_set changed_paths) λ path m.
        (path_reasons_iff allowed prohibited path).1
          (h path (sym (member-sorted_set path changed_paths) ∙ m))),
)

-- The decision depends on the set of changed paths alone: their order and repetitions in the list
-- do not matter to its state, its reasons or its evidence.
pub validate_scope-ext :
    (changed_paths other allowed prohibited : List String)
    → ((path : String) → member path changed_paths ≡ member path other)
    → validate_scope changed_paths allowed prohibited ≡ validate_scope other allowed prohibited
unfolding validate_scope
validate_scope-ext changed_paths other allowed prohibited same =
    rw (sorted_set-ext changed_paths other same) refl
