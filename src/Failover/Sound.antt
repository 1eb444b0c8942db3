-- ===== src/Failover/Sound.antt =====
-- What the sections of `validate` require of the approvals and the timeline.
use Prim.Native.String.{String}
use toi_no_mori_mvs.Common.{
  [], All, Bool-cases, List, Option, ap, arith, false, inl, inr, leb, none, refl,
}
use toi_no_mori_mvs.Common.{some, subst, sym, true, ℕ, ◌<>◌, ◌∙◌, ◌∷◌, ◌≡◌, ◌≤◌, ◌⊎◌}
use toi_no_mori_mvs.Controller.Schema.Formats.{replace_z}
use toi_no_mori_mvs.Failover.Clean.{require_valid->>}
use toi_no_mori_mvs.Failover.Rules.{
  approval_dicts, approved_before, by_role, check_approval, has_role, last_time, parse_utc,
}
use toi_no_mori_mvs.Failover.Rules.{text_or_empty, times_at, utc_time}
use toi_no_mori_mvs.Failover.Single.{ends_with, is_ordered, is_safe_identifier, is_utc}
use toi_no_mori_mvs.Python.Json.{
  Fields, Json, arr, bool, eq, eq-str, float, get, has, int, keys, null, obj,
}
use toi_no_mori_mvs.Python.Json.{str}
use toi_no_mori_mvs.Python.Numbers.{int_eq, negsuc, pos, ℤ}
use toi_no_mori_mvs.Python.Platform.{DateTime, Platform}
use toi_no_mori_mvs.Python.Result.{>>=-eq-ok, Result-cases, err, ok, ok_injective}

-- A text that is a UTC time, in microseconds.
abbrev pub IsTime : Platform → Json → ℕ → Type 0
IsTime p v time =
    (s : String) × (parsed : DateTime) × (v ≡ str s)
    × (p.datetime_from_iso (replace_z s) ≡ some parsed)
    × (parsed.offset ≡ some (pos 0))
    × (parsed.local ≡ time)

-- The times at the keys, in their order.
abbrev pub AreTimes : Platform → Fields → List String → List ℕ → Type 0
AreTimes p timeline [] [] = Unit
AreTimes p timeline (key ∷ keys) (time ∷ times) =
    IsTime p (get key timeline) time × AreTimes p timeline keys times
AreTimes p timeline _ _ = ⊥

abbrev pub IsChronological : List ℕ → Type 0
IsChronological [] = Unit
IsChronological (n ∷ []) = Unit
IsChronological (n ∷ m ∷ ns) = (n ≤ m) × IsChronological (m ∷ ns)

-- The approval was given no later than a time.
abbrev pub IsApprovedBefore : Platform → ℕ → Json → Type 0
IsApprovedBefore p limit approval =
    (fields : Fields) × (time : ℕ) × (approval ≡ obj fields)
    × IsTime p (get "approvedAtUtc" fields) time
    × (time ≤ limit)

abbrev pub Holds : Fields → List Fields → Type 0
Holds approval [] = ⊥
Holds approval (other ∷ approvals) = (approval ≡ other) ⊎ Holds approval approvals

-- The dict is one of the items of a list.
abbrev pub HasItem : Fields → List Json → Type 0
HasItem approval [] = ⊥
HasItem approval (v ∷ vs) = (v ≡ obj approval) ⊎ HasItem approval vs

-- Somebody approved in the role, with the decision of the role.
abbrev pub IsApproval : (role decision subject : String) → List Json → Type 0
IsApproval role decision subject approvals =
    (approval : Fields) × HasItem approval approvals
    × (get "role" approval ≡ str role)
    × (get "decision" approval ≡ str decision)
    × (get "subjectId" approval ≡ str subject)

is_utc-offset :
    (offset : Option ℤ)
    → (elim offset [ none ↦ false | some z ↦ int_eq z (pos 0) ]) ≡ true
    → offset ≡ some (pos 0)
is_utc-offset none h = cc
is_utc-offset (some (pos n)) h = ground arith
is_utc-offset (some (negsuc n)) h = absurd (ground arith)

Holds-HasItem :
    (approval : Fields) (vs : List Json) → Holds approval (approval_dicts vs) → HasItem approval vs
Holds-HasItem approval [] h = elim h [ ]
Holds-HasItem approval (obj fs ∷ vs) (inl same) = inl (ap obj (sym same))
Holds-HasItem approval (obj fs ∷ vs) (inr later) = inr (Holds-HasItem approval vs later)
Holds-HasItem approval (null ∷ vs) h = inr (Holds-HasItem approval vs h)
Holds-HasItem approval (bool b ∷ vs) h = inr (Holds-HasItem approval vs h)
Holds-HasItem approval (int z ∷ vs) h = inr (Holds-HasItem approval vs h)
Holds-HasItem approval (float x ∷ vs) h = inr (Holds-HasItem approval vs h)
Holds-HasItem approval (str s ∷ vs) h = inr (Holds-HasItem approval vs h)
Holds-HasItem approval (arr ws ∷ vs) h = inr (Holds-HasItem approval vs h)

utc_time-ok :
    (o : Option DateTime) (name : String) (time : ℕ)
    → utc_time o name ≡ ok time
    → (parsed : DateTime) × (o ≡ some parsed)
      × (parsed.offset ≡ some (pos 0))
      × (parsed.local ≡ time)
utc_time-ok none name time h = cc
utc_time-ok (some parsed) name time h =
    let (utc, last) = require_valid->> (is_utc parsed) _ _ h in
    (parsed, refl, is_utc-offset parsed.offset utc, ok_injective last)

pub parse_utc-IsTime :
    (p : Platform) (v : Json) (name : String) (time : ℕ)
    → parse_utc p v name ≡ ok time
    → IsTime p v time
unfolding parse_utc
parse_utc-IsTime p (str s) name time h =
    let (_, next) = require_valid->> (ends_with "Z" s) _ _ h in
    let (parsed, read, utc, at) = utc_time-ok (p.datetime_from_iso (replace_z s)) name time next in
    (s, parsed, refl, read, utc, at)
parse_utc-IsTime p null name time h = cc
parse_utc-IsTime p (bool b) name time h = cc
parse_utc-IsTime p (int z) name time h = cc
parse_utc-IsTime p (float f) name time h = cc
parse_utc-IsTime p (arr vs) name time h = cc
parse_utc-IsTime p (obj fs) name time h = cc

by_role-Holds :
    (role : String) (approvals : List Fields) (approval : Fields)
    → by_role role approvals ≡ ok approval
    → Holds approval approvals × (get "role" approval ≡ str role)
unfolding by_role
by_role-Holds role [] approval h = cc
by_role-Holds role (other ∷ approvals) approval h = elim (Result-cases (by_role role approvals)) [
  | inl (later, found) ↦
      let whole : by_role role (other ∷ approvals) ≡ ok later = rw (by_role, found) refl in
      let same : later ≡ approval = ok_injective (sym whole ∙ h) in
      let (inside, named) = by_role-Holds role approvals later found in
      subst (λ a. Holds a (other ∷ approvals) × (get "role" a ≡ str role)) same (inr inside, named)
  | inr (raised, missing) ↦ elim (Bool-cases (has_role role other)) [
    | inl named ↦
        let whole : by_role role (other ∷ approvals) ≡ ok other =
          rw (by_role, missing, named) refl in
        let same : other ≡ approval = ok_injective (sym whole ∙ h) in
        subst (λ a. Holds a (other ∷ approvals) × (get "role" a ≡ str role)) same
          (inl refl, eq-str (get "role" other) role named)
    | inr unnamed ↦
        let whole : by_role role (other ∷ approvals) ≡ err raised =
          rw (by_role, missing, unnamed) refl in
        cc
  ]
]

pub times_at-AreTimes :
    (p : Platform) (timeline : Fields) (keys : List String) (times : List ℕ)
    → times_at p timeline keys ≡ ok times
    → AreTimes p timeline keys times
unfolding times_at
times_at-AreTimes p timeline [] times h = rw (sym (ok_injective h)) tt
times_at-AreTimes p timeline (key ∷ keys) times h =
    let (time, first, next) = >>=-eq-ok (parse_utc p (get key timeline) ("timeline." <> key)) _ h in
    let (later, rest, last) = >>=-eq-ok (times_at p timeline keys) _ next in
    rw (sym (ok_injective last)) (
      parse_utc-IsTime p (get key timeline) _ time first,
      times_at-AreTimes p timeline keys later rest,
    )

-- The last of several times is the one at the last key.
abbrev pub last_key : (key : String) → List String → String
last_key key [] = key
last_key key (next ∷ keys) = last_key next keys

pub AreTimes-last :
    (p : Platform) (timeline : Fields) (key : String) (keys : List String) (times : List ℕ)
    → AreTimes p timeline (key ∷ keys) times
    → IsTime p (get (last_key key keys) timeline) (last_time times)
AreTimes-last p timeline key keys [] h = elim h [ ]
AreTimes-last p timeline key [] (time ∷ []) (h, _) = h
AreTimes-last p timeline key [] (time ∷ later ∷ times) (_, h) = elim h [ ]
AreTimes-last p timeline key (next ∷ keys) (time ∷ []) (_, h) = elim h [ ]
AreTimes-last p timeline key (next ∷ keys) (time ∷ later ∷ times) (_, h) =
    AreTimes-last p timeline next keys (later ∷ times) h

pub is_ordered-IsChronological : (ns : List ℕ) → is_ordered ns ≡ true → IsChronological ns
is_ordered-IsChronological [] h = tt
is_ordered-IsChronological (n ∷ []) h = tt
is_ordered-IsChronological (n ∷ m ∷ ns) h =
    (ground arith, is_ordered-IsChronological (m ∷ ns) (ground arith))

pub approved_before-All :
    (p : Platform) (limit : ℕ) (approvals : List Json)
    → approved_before p limit approvals ≡ ok tt
    → All (IsApprovedBefore p limit) approvals
unfolding approved_before
approved_before-All p limit [] h = tt
approved_before-All p limit (obj fields ∷ approvals) h =
    let (time, read, next) = >>=-eq-ok (parse_utc p (get "approvedAtUtc" fields) _) _ h in
    let (early, rest) = require_valid->> (leb time limit) _ _ next in
    (
      (
        fields,
        time,
        refl,
        parse_utc-IsTime p (get "approvedAtUtc" fields) _ time read,
        ground arith,
      ),
      approved_before-All p limit approvals rest,
    )
approved_before-All p limit (null ∷ approvals) h = cc
approved_before-All p limit (bool b ∷ approvals) h = cc
approved_before-All p limit (int z ∷ approvals) h = cc
approved_before-All p limit (float f ∷ approvals) h = cc
approved_before-All p limit (str s ∷ approvals) h = cc
approved_before-All p limit (arr vs ∷ approvals) h = cc

text_or_empty-identifier :
    (v : Json) (subject : String)
    → is_safe_identifier v ≡ true
    → text_or_empty v ≡ subject
    → v ≡ str subject
text_or_empty-identifier (str s) subject safe h = ap str h
text_or_empty-identifier _ subject safe h = cc

-- Inversion of the body of the loop over the roles.
pub check_approval-IsApproval :
    (p : Platform) (role decision subject : String) (approvals : List Json)
    → check_approval p role decision (approval_dicts approvals) ≡ ok subject
    → IsApproval role decision subject approvals
unfolding check_approval
check_approval-IsApproval p role decision subject approvals h =
    let (approval, found, next) = >>=-eq-ok (by_role role (approval_dicts approvals)) _ h in
    let (named, has) = by_role-Holds role (approval_dicts approvals) approval found in
    let (safe, later) = require_valid->> (is_safe_identifier (get "subjectId" approval)) _ _ next in
    let (decided, rest) =
      require_valid->> (eq (get "decision" approval) (str decision)) _ _ later in
    let (_, _, last) = >>=-eq-ok (parse_utc p (get "approvedAtUtc" approval) _) _ rest in
    (
      approval,
      Holds-HasItem approval approvals named,
      has,
      eq-str (get "decision" approval) decision decided,
      text_or_empty-identifier (get "subjectId" approval) subject safe (ok_injective last),
    )
