-- ===== src/Controller/Appointment.antt =====
-- `appointment_applicability` and `validate_appointment` of scripts/ai_controller/core.py.
use Prim.Native.String.{String}
use toi_no_mori_mvs.Common.{
  Bool, In, List, Option, [], any, ap, arith, eq_iff, false, flat, if◌then◌else◌,
}
use toi_no_mori_mvs.Common.{
  inl, inr, is_empty, length, member, none, not, not-false, or_false, refl,
}
use toi_no_mori_mvs.Common.{some, str_eq, sym, true, ℕ, ◌||◌, ◌∙◌, ◌∷◌, ◌≡◌, ◌≢◌, ◌⊎◌}
use toi_no_mori_mvs.Controller.Decision.{
  Decision, Entries, applicable, collect, collect-nil_iff, empty, entry, json,
}
use toi_no_mori_mvs.Controller.Decision.{not_applicable, role_appointment_green, stopped, texts}
use toi_no_mori_mvs.Controller.Registry.{organizer_logins}
use toi_no_mori_mvs.Python.Canonical.{text_of}
use toi_no_mori_mvs.Python.Json.{Fields, bool, end, eq, eq-str, get, get_or, int, obj, str, truthy}
use toi_no_mori_mvs.Python.Numbers.{pos}
use toi_no_mori_mvs.Python.Platform.{Platform}
use toi_no_mori_mvs.Python.Result.{>>=-eq-ok, Result, ok, ok_injective, ◌>>=◌}

-- `filename` and, where there is one, `previous_filename` of a changed file.
abbrev pub file_paths : Platform → Fields → List String
file_paths p fs =
    let previous = get "previous_filename" fs in
    if truthy previous
    then text_of p (get_or (str "") "filename" fs) ∷ text_of p previous ∷ []
    else text_of p (get_or (str "") "filename" fs) ∷ []

abbrev pub target : String
target = "docs/governance/role-appointments/INDEPENDENT-AUTOMATION-RELEASE-REVIEWER.yml"

abbrev pub file_evidence : (paths : List String) (count : ℕ) (pagination_complete : Bool) → Entries
file_evidence paths count pagination_complete = entry "paths" (texts paths) (
    entry "api_count" (json (int (pos count)))
      (entry "pagination_complete" (json (bool pagination_complete)) empty))

unfoldable pub appointment_applicability :
    Platform → (changed_files : List Fields) (api_success pagination_complete : Bool) → Decision
appointment_applicability p changed_files api_success pagination_complete =
    let paths = flat (file_paths p) changed_files in
    let evidence = file_evidence paths (length changed_files) pagination_complete in
    if not api_success
      || not pagination_complete
      || is_empty changed_files
      || any (λ path. str_eq path "") paths
    then record {
      state = stopped;
      accepted = false;
      reasons = "applicability-indeterminate" ∷ [];
      evidence = evidence;
    }
    else record {
      state = if member target paths then applicable else not_applicable;
      accepted = true;
      reasons = [];
      evidence = evidence;
    }

-- What the caller has read about an appointment.
pub record Nomination : Type 0 where
  pub organizer : String
  pub nominee : String
  pub head_sha : String
  pub latest_review : Option Fields
  pub nominee_has_write : Bool
  pub only_appointment_path_changed : Bool
  pub pr_author : Option String
  pub nominee_in_organizer_allowlist : Bool

-- `latest_review or {}`
abbrev pub review_of : Option Fields → Fields
review_of none = end
review_of (some fs) = fs

-- `pr_author is not None and pr_author != organizer`
abbrev pub is_other_author : Option String → String → Bool
is_other_author none organizer = false
is_other_author (some author) organizer = not (str_eq author organizer)

abbrev pub appointment_tests : (allowlist : List String) → Nomination → List (Bool × String)
appointment_tests allowlist n =
    let review = review_of n.latest_review in
    (not (member n.organizer allowlist) || str_eq n.nominee n.organizer, "independence")
    ∷ (is_other_author n.pr_author n.organizer, "appointment-author")
    ∷ (n.nominee_in_organizer_allowlist, "nominee-organizer")
    ∷ (n.nominee_has_write, "nominee-write")
    ∷ (not n.only_appointment_path_changed, "mixed-change")
    ∷ (
      not (eq (get "user" review) (str n.nominee))
          || not (eq (get "state" review) (str "APPROVED")),
      "review-state",
    )
    ∷ (not (eq (get "commit_id" review) (str n.head_sha)), "stale-approval")
    ∷ []

unfoldable pub appointment_decision : (allowlist : List String) → Nomination → Decision
appointment_decision allowlist n =
    let reasons = collect (appointment_tests allowlist n) in
    record {
      state = if is_empty reasons then role_appointment_green else stopped;
      accepted = is_empty reasons;
      reasons = reasons;
      evidence =
          entry "review" (json (obj (review_of n.latest_review)))
            (entry "head_sha" (json (str n.head_sha)) empty);
    }

unfoldable pub validate_appointment : Platform → Nomination → Result Decision
unfolding appointment_decision
validate_appointment p n = do allowlist ← organizer_logins p; ok (appointment_decision allowlist n)

-- An organizer of the allowlist appoints somebody else, who approved this very commit and can
-- neither write nor appoint.
pub record IsIndependent (allowlist : List String) (n : Nomination) : Type 0 where
  pub organizer_listed : In n.organizer allowlist
  pub other_person : n.nominee ≢ n.organizer
  pub author : (n.pr_author ≡ none) ⊎ (n.pr_author ≡ some n.organizer)
  pub no_organizer : n.nominee_in_organizer_allowlist ≡ false
  pub no_write : n.nominee_has_write ≡ false
  pub alone : n.only_appointment_path_changed ≡ true
  pub by_nominee : get "user" (review_of n.latest_review) ≡ str n.nominee
  pub approved : get "state" (review_of n.latest_review) ≡ str "APPROVED"
  pub current : get "commit_id" (review_of n.latest_review) ≡ str n.head_sha

author_sound :
    (author : Option String) (organizer : String)
    → is_other_author author organizer ≡ false
    → (author ≡ none) ⊎ (author ≡ some organizer)
author_sound none organizer h = inl refl
author_sound (some a) organizer h = inr (ap some ((eq_iff a organizer).0 (ground arith)))

differs : (a b : String) → str_eq a b ≡ false → a ≢ b
differs a b h e = absurd (cc ((eq_iff a b).1 e, h))

-- If an appointment is accepted, an organizer of the allowlist appoints another person, who is no
-- organizer and cannot write, in a change of the appointment alone by that organizer if its author
-- is known, and that person has approved the current commit. The state is then
-- `qf:role-appointment-green`.
pub validate_appointment_sound :
    (p : Platform) (n : Nomination) (allowlist : List String) (d : Decision)
    → organizer_logins p ≡ ok allowlist
    → validate_appointment p n ≡ ok d
    → d.accepted ≡ true
    → IsIndependent allowlist n × (d.state ≡ role_appointment_green)
unfolding validate_appointment
validate_appointment_sound p n allowlist d logins returned accepted =
    let (found, read, e) = >>=-eq-ok (organizer_logins p) _ returned in
    let listed : found ≡ allowlist = ok_injective (sym read ∙ logins) in
    let same : appointment_decision allowlist n ≡ d =
      ap (λ l. appointment_decision l n) (sym listed) ∙ ok_injective e in
    let clean = ap (λ q. q.accepted) same ∙ accepted in
    let (independence, (author, (organizer, (write, (mixed, (review, (stale, _))))))) =
      (collect-nil_iff (appointment_tests allowlist n)).0 clean in
    let (in_list, other) = or_false _ _ independence in
    let (user, approved) = or_false _ _ review in
    (
      record {
        organizer_listed = not-false _ in_list;
        other_person = differs n.nominee n.organizer other;
        author = author_sound n.pr_author n.organizer author;
        no_organizer = organizer;
        no_write = write;
        alone = not-false _ mixed;
        by_nominee = eq-str _ _ (not-false _ user);
        approved = eq-str _ _ (not-false _ approved);
        current = eq-str _ _ (not-false _ stale);
      },
      sym (ap (λ q. q.state) same) ∙ ap (λ b. if b then role_appointment_green else stopped) clean,
    )
