-- ===== src/Controller/Scope.antt =====
-- `path_is_denied` and `validate_scope` of scripts/ai_controller/core.py.
pub mod Segments
pub mod Resolution
pub mod Acceptance
use Prim.Native.Char.{code}
use Prim.Native.String.{String, [], ◌∷◌}
use toi_no_mori_mvs.Common.{
  Bool, List, [], any, any_code, false, flat, if◌then◌else◌, is_empty, leb,
}
use toi_no_mori_mvs.Common.{
  map, member, not, rstrip_star, sorted_set, split_slash, starts_with, str_eq,
}
use toi_no_mori_mvs.Common.{true, ℕ, ◌&&◌, ◌<>◌, ◌==◌, ◌||◌, ◌∷◌}
use toi_no_mori_mvs.Controller.Constants.{control_plane_deny_files, control_plane_denylist}
use toi_no_mori_mvs.Controller.Decision.{
  Decision, collect, empty, entry, manufacturing, stopped, texts,
}

abbrev is_letter : ℕ → Bool
is_letter n = (leb b'A' n && leb n b'Z') || (leb b'a' n && leb n b'z')

-- `re.match(r"^[A-Za-z]:/", path)`.
abbrev pub has_drive : String → Bool
has_drive (c ∷ d ∷ e ∷ s) = is_letter (code c) && (code d == b':') && (code e == b'/')
has_drive _ = false

-- `path[2:] if path.startswith("./") else path`.
abbrev pub strip_dot_slash : String → String
strip_dot_slash (c ∷ d ∷ s) = if (code c == b'.') && (code d == b'/') then s else c ∷ d ∷ s
strip_dot_slash s = s

-- `segment in {"", ".", ".."}`.
abbrev pub is_special : String → Bool
is_special segment = member segment ("" ∷ "." ∷ ".." ∷ [])

-- `normalized in CONTROL_PLANE_DENY_FILES or normalized.startswith(CONTROL_PLANE_DENYLIST)`.
abbrev pub is_control_plane : String → Bool
is_control_plane path =
    member path control_plane_deny_files || any (starts_with path) control_plane_denylist

unfoldable pub path_is_denied : String → Bool
unfolding split_slash
path_is_denied path =
    let normalized = strip_dot_slash path in
    if str_eq path "" || any_code (λ n. n == 0) path || any_code (λ n. n == 92) path
    then true
    else if starts_with path "/" || has_drive path
    then true
    else if str_eq normalized ""
    then true
    else if any is_special (split_slash normalized)
    then true
    else is_control_plane normalized

-- The tests of one path, each with the reason that it adds.
abbrev pub path_tests : (allowed prohibited : List String) → String → List (Bool × String)
path_tests allowed prohibited path =
    (path_is_denied path, "control-plane-denied:" <> path)
    ∷ (
      not (is_empty prohibited) && any (starts_with path) prohibited,
      "work-order-prohibited:" <> path,
    )
    ∷ (not (is_empty allowed) && not (any (starts_with path) allowed), "scope-exceeded:" <> path)
    ∷ []

abbrev pub path_reasons : (allowed prohibited : List String) → String → List String
path_reasons allowed prohibited path = collect (path_tests allowed prohibited path)

unfoldable pub validate_scope : (changed_paths allowed prohibited : List String) → Decision
unfolding sorted_set rstrip_star
validate_scope changed_paths allowed prohibited =
    let paths = sorted_set changed_paths in
    let errors = flat (path_reasons (map rstrip_star allowed) (map rstrip_star prohibited)) paths in
    record {
      state = if is_empty errors then manufacturing else stopped;
      accepted = is_empty errors;
      reasons = errors;
      evidence = entry "changed_paths" (texts paths) empty;
    }
