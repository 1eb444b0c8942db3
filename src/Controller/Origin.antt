-- ===== src/Controller/Origin.antt =====
-- `route_origin` of scripts/ai_controller/core.py.
use Prim.Native.String.{String}
use toi_no_mori_mvs.Common.{
  Bool, Bool-cases, Option, [], ap, arith, eq_iff, false, if◌then◌else◌, inl,
}
use toi_no_mori_mvs.Common.{inr, none, refl, some, str_eq, true, ◌<>◌, ◌↔◌, ◌∷◌, ◌≡◌, ◌≢◌}
use toi_no_mori_mvs.Controller.Decision.{Decision, Entries, empty, entry, json, no_op, route}
use toi_no_mori_mvs.Python.Canonical.{int_text}
use toi_no_mori_mvs.Python.Json.{bool, str}
use toi_no_mori_mvs.Python.Numbers.{int_eq, pos, ℤ}

-- `head_repository_id or repository_id`
abbrev pub group_id : (repository_id : ℤ) → Option ℤ → ℤ
group_id repository_id none = repository_id
group_id repository_id (some i) = if int_eq i (pos 0) then repository_id else i

-- `f"qf-ai-{head_repository_id or repository_id}-{branch}"`
abbrev pub concurrency_group : (repository_id : ℤ) → Option ℤ → (branch : String) → String
concurrency_group repository_id head_repository_id branch =
    "qf-ai-" <> (int_text (group_id repository_id head_repository_id) <> ("-" <> branch))

abbrev pub untouched : Entries
untouched =
    entry "artifact_read" (json (bool false))
      (entry "secret_read" (json (bool false)) (entry "write_attempted" (json (bool false)) empty))

-- `head_repository == repository`, false where the head repository is `None`.
abbrev pub is_same_repository : String → Option String → Bool
is_same_repository repository none = false
is_same_repository repository (some head) = str_eq head repository

unfoldable pub route_origin :
    (repository : String) (head_repository : Option String) (repository_id : ℤ)
    (head_repository_id : Option ℤ) (branch : String)
    → Decision
route_origin repository head_repository repository_id head_repository_id branch =
    if is_same_repository repository head_repository
    then record {
      state = route;
      accepted = true;
      reasons = [];
      evidence =
          entry "concurrency_group"
            (json (str (concurrency_group repository_id head_repository_id branch))) empty;
    }
    else record {
      state = no_op;
      accepted = true;
      reasons = "external-or-indeterminate-origin" ∷ [];
      evidence = untouched;
    }

is_other : (head repository : String) → some head ≢ some repository → str_eq head repository ≡ false
is_other head repository h = elim (Bool-cases (str_eq head repository)) [
  | inl same ↦ absurd (h (ap some ((eq_iff head repository).0 same)))
  | inr other ↦ other
]

-- A run is routed exactly where the head repository is known and is the repository itself. It is a
-- no-op, whose evidence says that no artifact and no secret was read and nothing written, exactly
-- where the head repository is another one or unknown.
pub route_origin_iff :
    (repository : String) (head_repository : Option String) (repository_id : ℤ)
    (head_repository_id : Option ℤ) (branch : String)
    → let d = route_origin repository head_repository repository_id head_repository_id branch in
      ((d.state ≡ route) ↔ (head_repository ≡ some repository))
      × (((d.state ≡ no_op) × (d.evidence ≡ untouched)) ↔ (head_repository ≢ some repository))
unfolding route_origin
route_origin_iff repository none repository_id head_repository_id branch =
    ((λ h. cc, λ h. cc), (λ h e. cc, λ h. (refl, refl)))
route_origin_iff repository (some head) repository_id head_repository_id branch = (
  (
    λ h. ap some (ground (arith, eq_iff head repository)),
    λ h. ground (arith, eq_iff head repository),
  ),
  (
    λ (h, _) e.
        let same : head ≡ repository = cc (e) in
        let same_text : str_eq head repository ≡ true = (eq_iff head repository).1 same in
        absurd (cc (rw same_text at h)),
    λ h.
        let other : str_eq head repository ≡ false = is_other head repository h in
        (rw other refl, rw other refl),
  ),
)
