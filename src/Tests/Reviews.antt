-- ===== src/Tests/Reviews.antt =====
-- Review records and the loop.
use mathlib.Core.List.Memᴰ
use toi_no_mori_mvs.Common.{
  In, String, [], false, is_hex, none, refl, some, true, ℕ, ◌<>◌, ◌↔◌, ◌∷◌, ◌≡◌, ◌≢◌, ◌⊎◌,
}
use toi_no_mori_mvs.Common.{◌≤◌}
use toi_no_mori_mvs.Controller.Constants.{is_sha40}
use toi_no_mori_mvs.Controller.Decision.{Decision, stopped}
use toi_no_mori_mvs.Controller.Loop.{any_unresolved, decide_loop, loop_transition}
use toi_no_mori_mvs.Controller.Loop.Retries.{
  IsRetry, Attempts-bounded, loop_transition_severe, none_made, one_more,
}
use toi_no_mori_mvs.Controller.ReviewRecord.{
  record_decision, record_path, review_record_path, validate_review_record,
}
use toi_no_mori_mvs.Controller.ReviewRecord.{IsCommit, validate_review_record_iff}
use toi_no_mori_mvs.Python.Canonical.{
  canonical_json, content_hash, join_comma, pair_texts, quote, sha256_text,
}
use toi_no_mori_mvs.Python.Canonical.{sort_entries, text_of}
use toi_no_mori_mvs.Python.Json.{Fields, Items, arr, cons, end, eq, field, get_or, nil, obj, str}
use toi_no_mori_mvs.Python.Numbers.{pos}
use toi_no_mori_mvs.Python.Result.{controller_error, err, ok, ◌>>=◌}
use toi_no_mori_mvs.Tests.Services.{hash_0, services, sha_a}

reviews : Unit {0}
unfolding validate_review_record review_record_path record_decision content_hash canonical_json
    sort_entries pair_texts join_comma quote text_of sha256_text is_sha40 is_hex loop_transition
    any_unresolved decide_loop eq
reviews = tt

abbrev review : Fields
review = field "reviewed_commit_sha" (str sha_a) end

abbrev review_path : String
review_path = record_path sha_a hash_0

validate_review_record_tests :
    (validate_review_record services review_path review none >>= (λ d. ok d.accepted) ≡ ok true)
    × (validate_review_record services "x.json" review (some false) >>= (λ d. ok d.reasons)
        ≡ ok ("review-record-path-or-hash" ∷ "review-record-not-durable" ∷ []))
    × (validate_review_record services review_path end none
        ≡ err (controller_error "reviewed_commit_sha is invalid"))
unfolding reviews
validate_review_record_tests = (refl, refl, refl)

validate_review_record_iff_example :
    ((d : Decision) × (validate_review_record services review_path review none ≡ ok d)
      × (d.accepted ≡ true))
    ↔ (IsCommit (text_of services (get_or (str "") "reviewed_commit_sha" review))
        × (review_path
            ≡ "docs/evidence/automation/reviews/"
              <> (text_of services (get_or (str "") "reviewed_commit_sha" review)
                  <> ("/" <> (content_hash services (obj review) <> ".json"))))
        × (none ≢ some false))
validate_review_record_iff_example = validate_review_record_iff services review_path review none

abbrev severe : Fields
severe = field "severity" (str "P1") (field "verification_status" (str "OPEN") end)

abbrev minor : Fields
minor = field "severity" (str "P3") end

abbrev found : Items
found = cons (obj minor) (cons (obj severe) nil)

abbrev with_findings : Items → Fields
with_findings vs = field "findings" (arr vs) end

abbrev stop : Decision
stop = decide_loop ("STOP-001" ∷ []) true "C" (pos 0) (pos 3)

loop_transition_severe_example :
    (stop.state ≡ stopped) × (stop.accepted ≡ false) × In "STOP-001" stop.reasons
unfolding reviews
loop_transition_severe_example =
    loop_transition_severe (with_findings found) severe found "C" (pos 0) (pos 3) none none false
      stop refl (Memᴰ.tail (Memᴰ.head refl)) refl refl

abbrev retry : Decision
retry = decide_loop [] true "C" (pos 0) (pos 3)

abbrev one_retry : IsRetry "C" (pos 3) (pos 0) (pos 1)
unfolding reviews
one_retry = record {
  review = with_findings (cons (obj minor) nil);
  previous = none;
  patch = none;
  over = false;
  decision = retry;
  returned = refl;
  again = refl;
  next = refl;
}

abbrev phase_c : String
phase_c = "C"

Attempts-bounded_example :
    ((◌≡◌ {A = ℕ} 1 0) ⊎ ((phase_c ≡ "B") × (1 ≤ 1)) ⊎ ((phase_c ≡ "C") × (1 ≤ 3)))
    × (pos 1 ≡ pos 1)
Attempts-bounded_example = Attempts-bounded phase_c (pos 3) 1 (pos 1) (one_more one_retry none_made)
