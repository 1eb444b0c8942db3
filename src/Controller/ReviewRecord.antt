-- ===== src/Controller/ReviewRecord.antt =====
-- `review_record_path` and `validate_review_record` of scripts/ai_controller/core.py.
use Prim.Native.String.{String}
use toi_no_mori_mvs.Common.{
  Bool, List, Option, [], ap, arith, eq_iff, false, if◌then◌else◌, is_empty,
}
use toi_no_mori_mvs.Common.{
  all_codes, is_hex, leb, size, ◌&&◌, ◌||◌, none, not, refl, some, str_eq, true, ◌<>◌, ◌↔◌, ◌∙◌,
  ◌∷◌, ◌≡◌, ◌≢◌,
}
use toi_no_mori_mvs.Controller.Constants.{is_sha40}
use toi_no_mori_mvs.Controller.Decision.{
  Decision, collect, collect-nil_iff, empty, entry, json, review_record_valid,
}
use toi_no_mori_mvs.Controller.Decision.{stopped}
use toi_no_mori_mvs.Python.Canonical.{content_hash, text_of}
use toi_no_mori_mvs.Python.Json.{Fields, get_or, obj, str}
use toi_no_mori_mvs.Python.Platform.{Platform}
use toi_no_mori_mvs.Python.Result.{
  >>=-eq-ok, Result, ok, ok_injective, require, require->>, ◌>>=◌, ◌>>◌,
}

-- `Decision.evidence["durability"]`
abbrev pub durability : Option Bool → String
durability (some true) = "default-branch"
durability (some false) = "absent"
durability none = "candidate"

abbrev pub is_absent : Option Bool → Bool
is_absent (some false) = true
is_absent _ = false

abbrev pub record_path : (sha digest : String) → String
record_path sha digest =
    "docs/evidence/automation/reviews/" <> (sha <> ("/" <> (digest <> ".json")))

-- The tests of a record, each with its reason.
abbrev pub record_tests : (path expected_path : String) → Option Bool → List (Bool × String)
record_tests path expected_path exists_on_default =
    (not (str_eq path expected_path), "review-record-path-or-hash")
    ∷ (is_absent exists_on_default, "review-record-not-durable")
    ∷ []

-- The decision once the expected path is known.
unfoldable pub record_decision :
    (path : String) (exists_on_default : Option Bool) (expected_path digest : String) → Decision
record_decision path exists_on_default expected_path digest =
    let reasons = collect (record_tests path expected_path exists_on_default) in
    record {
      state = if is_empty reasons then review_record_valid else stopped;
      accepted = is_empty reasons;
      reasons = reasons;
      evidence = entry "path" (json (str expected_path)) (
          entry "sha256" (json (str digest))
            (entry "durability" (json (str (durability exists_on_default))) empty));
    }

record_decision_iff :
    (path expected_path digest : String) (exists_on_default : Option Bool)
    → ((record_decision path exists_on_default expected_path digest).accepted ≡ true)
      ↔ ((path ≡ expected_path) × (exists_on_default ≢ some false))
unfolding record_decision
record_decision_iff path expected_path digest exists_on_default = (
  λ h.
      let t = (collect-nil_iff (record_tests path expected_path exists_on_default)).0 h in
      ((eq_iff path expected_path).0 (ground (arith, t.0)), present exists_on_default t.1.0),
  λ (e, f).
      (collect-nil_iff (record_tests path expected_path exists_on_default)).1
        (ground (arith, (eq_iff path expected_path).1 e), (absent exists_on_default f, tt)),
)
  where
    present : (o : Option Bool) → is_absent o ≡ false → o ≢ some false
    present none h e = cc
    present (some true) h e = cc
    present (some false) h e = cc

    absent : (o : Option Bool) → o ≢ some false → is_absent o ≡ false
    absent none h = refl
    absent (some true) h = refl
    absent (some false) h = absurd (h refl)

-- A text of 40 digits and lower-case letters from a to f.
abbrev pub IsCommit : String → Type 0
IsCommit sha =
    (size sha ≡ 40)
    × (all_codes (λ n. (leb b'0' n && leb n b'9') || (leb b'a' n && leb n b'f')) sha ≡ true)

is_sha40-IsCommit_iff : (sha : String) → (is_sha40 sha ≡ true) ↔ IsCommit sha
unfolding is_sha40 is_hex
is_sha40-IsCommit_iff sha = (λ h. (ground arith, ground arith), λ (a, b). ground arith)

module _ (p : Platform) where
  unfoldable pub review_record_path : Fields → Result (String × String)
  review_record_path review = do
    let sha = text_of p (get_or (str "") "reviewed_commit_sha" review)
    require (is_sha40 sha) "reviewed_commit_sha is invalid"
    let digest = content_hash p (obj review)
    ok (record_path sha digest, digest)

  unfoldable pub validate_review_record :
      (path : String) (review : Fields) (exists_on_default : Option Bool) → Result Decision
  validate_review_record path review exists_on_default = do
    (expected_path, digest) ← review_record_path review
    ok (record_decision path exists_on_default expected_path digest)

  -- A record is accepted exactly where it names a commit by 40 lower-case hexadecimal digits, its path
  -- is docs/evidence/automation/reviews/, that commit, a slash, the record's own content hash and
  -- .json, and it is not known to be absent from the default branch.
  pub validate_review_record_iff :
      (path : String) (review : Fields) (exists_on_default : Option Bool)
      → let sha = text_of p (get_or (str "") "reviewed_commit_sha" review) in
        ((d : Decision) × (validate_review_record path review exists_on_default ≡ ok d)
          × (d.accepted ≡ true))
        ↔ (IsCommit sha
            × (path
                ≡ "docs/evidence/automation/reviews/"
                  <> (sha <> ("/" <> (content_hash p (obj review) <> ".json"))))
            × (exists_on_default ≢ some false))
  unfolding validate_review_record review_record_path
  validate_review_record_iff path review exists_on_default =
      let sha = text_of p (get_or (str "") "reviewed_commit_sha" review) in
      let digest = content_hash p (obj review) in
      let decided = record_decision_iff path (record_path sha digest) digest exists_on_default in
      (
        λ (d, returned, accepted).
            let (r, found, e) = >>=-eq-ok (review_record_path review) _ returned in
            let (valid, e') = require->> (is_sha40 sha) _ _ found in
            let same : record_decision path exists_on_default (record_path sha digest) digest ≡ d =
              ap (λ q. record_decision path exists_on_default q.0 q.1) (ok_injective e')
              ∙ ok_injective e in
            let (at_path, durable) = decided.0 (ap (λ q. q.accepted) same ∙ accepted) in
            ((is_sha40-IsCommit_iff sha).0 valid, at_path, durable),
        λ (commit, at_path, durable).
            let valid = (is_sha40-IsCommit_iff sha).1 commit in
            (
              record_decision path exists_on_default (record_path sha digest) digest,
              rw valid refl,
              decided.1 (at_path, durable),
            ),
      )
