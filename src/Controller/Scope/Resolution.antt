-- ===== src/Controller/Scope/Resolution.antt =====
-- What a path that `path_is_denied` lets through can refer to, by an independent account of how
-- a path is resolved.
use Prim.Native.Char.{Char, code}
use Prim.Native.String.{String, [], ◌∷◌}
use text.Mathlib.TextEquality.{Char-path}
use mathlib.Core.List.{append_assoc, append-nil}
use toi_no_mori_mvs.Common.{
  All, Bool, Bool-cases, List, [], any, ap, arith, false, if◌then◌else◌, inl,
}
use toi_no_mori_mvs.Common.{
  inr, member, or_false, refl, split_slash, starts_with, str_eq, subst, sym,
}
use toi_no_mori_mvs.Common.{true, ◌&&◌, ◌++◌, ◌==◌, ◌||◌, ◌∙◌, ◌∷◌, ◌≡◌}
use toi_no_mori_mvs.Controller.Constants.{control_plane_deny_files, control_plane_denylist}
use toi_no_mori_mvs.Controller.Registry.{listed}
use toi_no_mori_mvs.Controller.Scope.{
  has_drive, is_control_plane, is_special, path_is_denied, strip_dot_slash,
}
use toi_no_mori_mvs.Controller.Scope.Segments.{join-split_slash, join_slash}

abbrev drop_last : List String → List String
drop_last [] = []
drop_last (x ∷ []) = []
drop_last (x ∷ y ∷ ys) = x ∷ drop_last (y ∷ ys)

-- One step down a path from a directory: an empty segment and "." stay, ".." goes up.
abbrev visit : List String → String → List String
visit place segment =
    if str_eq segment "" || str_eq segment "."
    then place
    else if str_eq segment ".."
    then drop_last place
    else place ++ segment ∷ []

walk : List String → List String → List String
walk place [] = place
walk place (segment ∷ segments) = walk (visit place segment) segments

-- The canonical form of a relative path, from the repository's root.
unfoldable pub resolve : String → String
unfolding walk join_slash split_slash
resolve path = join_slash (walk [] (split_slash path))

visit_plain :
    (place : List String) (segment : String)
    → is_special segment ≡ false
    → visit place segment ≡ place ++ segment ∷ []
visit_plain place segment h = ground arith

walk_plain :
    (place segments : List String)
    → any is_special segments ≡ false
    → walk place segments ≡ place ++ segments
unfolding walk
walk_plain place [] h = sym (append-nil place)
walk_plain place (segment ∷ segments) h =
    ap (λ here. walk here segments) (visit_plain place segment (ground arith))
    ∙ walk_plain (place ++ segment ∷ []) segments (ground arith)
    ∙ append_assoc place (segment ∷ []) segments

resolve_plain : (path : String) → any is_special (split_slash path) ≡ false → resolve path ≡ path
unfolding resolve
resolve_plain path h = ap join_slash (walk_plain [] (split_slash path) h) ∙ join-split_slash path

-- A leading "./" does not change what a path refers to.
walk_dot :
    (c : Char) (segments : List String)
    → (code c == b'.') ≡ true
    → walk [] ((c ∷ []) ∷ segments) ≡ walk [] segments
unfolding walk
walk_dot c segments dot =
    let dot_char : Char = "." in
    let same : dot_char ≡ c = Char-path dot_char c (ground arith) in
    subst (λ d. walk [] ((d ∷ []) ∷ segments) ≡ walk [] segments) same refl

split-dot_slash :
    (c d : Char) (s : String)
    → (code c == b'.') ≡ true
    → (code d == b'/') ≡ true
    → split_slash (c ∷ d ∷ s) ≡ (c ∷ []) ∷ split_slash s
unfolding split_slash
split-dot_slash c d s dot slash =
    let other : (code c == b'/') ≡ false = ground arith in rw (other, slash) refl

resolve-strip_dot_slash : (path : String) → resolve (strip_dot_slash path) ≡ resolve path
unfolding resolve
resolve-strip_dot_slash [] = refl
resolve-strip_dot_slash (c ∷ []) = refl
resolve-strip_dot_slash (c ∷ d ∷ s) = elim (Bool-cases ((code c == b'.') && (code d == b'/'))) [
  | inl both ↦ rw both (
      ap join_slash (
        sym (walk_dot c (split_slash s) (ground arith))
        ∙ sym (ap (walk []) (split-dot_slash c d s (ground arith) (ground arith)))))
  | inr other ↦ rw other refl
]

-- A ladder of tests that ends in `false` has passed them all.
ladder_false :
    (a b c d e : Bool)
    → (if a then true else if b then true else if c then true else if d then true else e) ≡ false
    → (b ≡ false) × (d ≡ false) × (e ≡ false)
ladder_false a b c d e h = ground arith

-- What `path_is_denied` has tested where it lets a path through.
passed_tests :
    (path : String)
    → path_is_denied path ≡ false
    → (any is_special (split_slash (strip_dot_slash path)) ≡ false)
      × (is_control_plane (strip_dot_slash path) ≡ false)
      × (starts_with path "/" ≡ false)
unfolding path_is_denied
passed_tests path h =
    let (named, special, plane) = ladder_false _ _ _ _ _ h in
    (special, plane, (or_false (starts_with path "/") (has_drive path) named).0)

any-false {ℓ} :
    {A : Type ℓ} (p : A → Bool) (xs : List A) → any p xs ≡ false → All (λ x. p x ≡ false) xs
any-false p [] h = tt
any-false p (x ∷ xs) h = (ground arith, any-false p xs (ground arith))

-- A path that is not denied is no absolute path, and the file that it refers to is neither one of
-- the control plane's files nor below one of its directories, however the path is spelled.
pub path_is_denied-resolve :
    (path : String)
    → path_is_denied path ≡ false
    → (resolve path ≡ strip_dot_slash path)
      × (starts_with path "/" ≡ false)
      × (member (resolve path) control_plane_deny_files ≡ false)
      × All (λ directory. starts_with (resolve path) directory ≡ false) control_plane_denylist
path_is_denied-resolve path h =
    let (plain, outside, relative) = passed_tests path h in
    let (listed, below) =
      or_false (member (strip_dot_slash path) control_plane_deny_files)
        (any (starts_with (strip_dot_slash path)) control_plane_denylist) outside in
    let same : resolve path ≡ strip_dot_slash path =
      sym (resolve-strip_dot_slash path) ∙ resolve_plain (strip_dot_slash path) plain in
    (
      same,
      relative,
      rw same listed,
      rw same (any-false (starts_with (strip_dot_slash path)) control_plane_denylist below),
    )
