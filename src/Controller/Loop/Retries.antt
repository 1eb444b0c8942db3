-- ===== src/Controller/Loop/Retries.antt =====
-- Severe findings stop the loop, and the loop retries a bounded number of times.
use Prim.Native.String.{String}
use mathlib.Core.List.{Memᴰ}
use toi_no_mori_mvs.Common.{
  [], Bool, Bool-cases, In, List, Option, ap, arith, eq_iff, false, inl, inr, is_empty,
}
use toi_no_mori_mvs.Common.{
  not, refl, str_eq, subst, suc, sym, true, zero, ℕ, ◌+◌, ◌<◌, ◌||◌, ◌∙◌, ◌∷◌,
}
use toi_no_mori_mvs.Common.{◌≡◌, ◌≤◌, ◌⊎◌}
use toi_no_mori_mvs.Controller.Decision.{Decision, collect, manufacturing, stopped}
use toi_no_mori_mvs.Controller.Loop.{
  any_unresolved, decide_loop, is_exhausted, is_unresolved, iteration_evidence,
}
use toi_no_mori_mvs.Controller.Loop.{loop_transition, phase_limit, stop_tests}
use toi_no_mori_mvs.Controller.Registry.{listed}
use toi_no_mori_mvs.Controller.Schema.{iterate}
use toi_no_mori_mvs.Python.Json.{Fields, Items, Json, arr, get_or, items, nil, obj, truthy}
use toi_no_mori_mvs.Python.Numbers.{int_lt, pos, ℤ}
use toi_no_mori_mvs.Python.Result.{>>=-eq-ok, ok, ok_injective}

any_unresolved_mem :
    (findings : List Json) (finding : Fields) (b : Bool)
    → any_unresolved findings ≡ ok b
    → Memᴰ (obj finding) findings
    → is_unresolved finding ≡ true
    → b ≡ true
unfolding any_unresolved
any_unresolved_mem (obj f ∷ fs) finding b h (Memᴰ.head e) u =
    let same : finding ≡ f = cc in
    let u' : is_unresolved f ≡ true = subst (λ g. is_unresolved g ≡ true) same u in ground arith
any_unresolved_mem (obj f ∷ fs) finding b h (Memᴰ.tail m) u =
    ground (arith, any_unresolved_mem fs finding b)
any_unresolved_mem [] finding b h m u = elim m [ ]
any_unresolved_mem (_ ∷ fs) finding b h m u = cc

decide_stopped :
    (tests : List String) (has_findings : Bool) (phase : String) (i m : ℤ)
    → is_empty tests ≡ false
    → let d = decide_loop tests has_findings phase i m in
      (d.state ≡ stopped) × (d.accepted ≡ false) × (d.reasons ≡ tests)
unfolding decide_loop
decide_stopped tests has_findings phase i m h = rw h (refl, refl, refl)

has_stop :
    (a b : Bool)
    → let rs = collect ((a, "STOP-020") ∷ (b, "STOP-018") ∷ (true, "STOP-001") ∷ []) in
      (is_empty rs ≡ false) × In "STOP-001" rs
has_stop false false = (refl, refl)
has_stop false true = (refl, refl)
has_stop true false = (refl, refl)
has_stop true true = (refl, refl)

-- A review with a finding of severity P0 or P1 that is not verified never lets the loop go on: where
-- the transition returns, its state is `qf:stopped`, it is not accepted, and STOP-001 is a reason.
pub loop_transition_severe :
    (review finding : Fields) (findings : Items) (phase : String) (i m : ℤ)
    (previous patch : Option String) (over : Bool) (d : Decision)
    → get_or (arr nil) "findings" review ≡ arr findings
    → Memᴰ (obj finding) (items findings)
    → is_unresolved finding ≡ true
    → loop_transition review phase i m previous patch over ≡ ok d
    → (d.state ≡ stopped) × (d.accepted ≡ false) × In "STOP-001" d.reasons
unfolding loop_transition
loop_transition_severe review finding findings phase i m previous patch over d found mem u h =
    let (elements, listed, h₁) = >>=-eq-ok (iterate (get_or (arr nil) "findings" review)) _ h in
    let (unresolved, decided, h₂) = >>=-eq-ok (any_unresolved elements) _ h₁ in
    let all_items : items findings ≡ elements = ok_injective (sym (ap iterate found) ∙ listed) in
    let severe : unresolved ≡ true =
      any_unresolved_mem elements finding unresolved decided
        (subst (λ es. Memᴰ (obj finding) es) all_items mem) u in
    let tests = stop_tests i m previous patch over unresolved in
    let (e, f, g) =
      decide_stopped (collect tests) (truthy (get_or (arr nil) "findings" review)) phase i m
        (rw severe (has_stop _ _).0) in
    let same = ok_injective h₂ in
    (
      sym (ap (λ q. q.state) same) ∙ e,
      sym (ap (λ q. q.accepted) same) ∙ f,
      subst (λ rs. In "STOP-001" rs) (sym g ∙ ap (λ q. q.reasons) same)
          (rw severe (has_stop _ _).1),
    )

-- One transition that asks for another attempt.
pub record IsRetry (phase : String) (m : ℤ) (i j : ℤ) : Type 0 where
  pub review : Fields
  pub previous : Option String
  pub patch : Option String
  pub over : Bool
  pub decision : Decision
  pub returned : loop_transition review phase i m previous patch over ≡ ok decision
  pub again : decision.state ≡ manufacturing
  pub next : decision.evidence ≡ iteration_evidence j

-- A run of the loop through a number of attempts.
pub data Attempts (phase : String) (m : ℤ) : ℕ → ℤ → ℤ → Type 0 where
  none_made : {i : ℤ} → Attempts phase m zero i i
  one_more :
      {n : ℕ} {i j k : ℤ}
      → IsRetry phase m i j
      → Attempts phase m n j k
      → Attempts phase m (suc n) i k

decide_retry :
    (tests : List String) (has_findings : Bool) (phase : String) (i : ℕ) (m j : ℤ)
    → (decide_loop tests has_findings phase (pos i) m).state ≡ manufacturing
    → (decide_loop tests has_findings phase (pos i) m).evidence ≡ iteration_evidence j
    → (is_exhausted phase (pos i) m ≡ false) × (j ≡ pos (suc i))
unfolding decide_loop
decide_retry [] false phase i m j h e = cc
decide_retry (x ∷ xs) has_findings phase i m j h e = cc
decide_retry [] true phase i m j h e = elim (Bool-cases (is_exhausted phase (pos i) m)) [
  | inl stop ↦ absurd (ground arith)
  | inr go ↦
      let e' : iteration_evidence (pos (suc i)) ≡ iteration_evidence j = rw go at e in (go, cc e')
]

not_exhausted :
    (is_a : Bool) (limit i : ℕ) (m : ℤ)
    → (is_a || not (int_lt (pos i) (pos limit)) || not (int_lt (pos i) m)) ≡ false
    → (i < limit) × (int_lt (pos i) m ≡ true)
not_exhausted is_a limit i m h = (ground arith, ground arith)

-- The limits of the phases.
phase_limit-cases :
    (phase : String)
    → (phase_limit phase ≡ 0)
      ⊎ ((phase ≡ "B") × (phase_limit phase ≡ 1))
      ⊎ ((phase ≡ "C") × (phase_limit phase ≡ 3))
phase_limit-cases phase = elim (Bool-cases (str_eq phase "B")) [
  | inl b ↦ inr (inl ((eq_iff phase "B").0 b, rw b refl))
  | inr not_b ↦ elim (Bool-cases (str_eq phase "C")) [
    | inl c ↦ inr (inr ((eq_iff phase "C").0 c, rw (not_b, c) refl))
    | inr not_c ↦ inl (rw (not_b, not_c) refl)
  ]
]

retry_step :
    (phase : String) (m : ℤ) (i : ℕ) (j : ℤ)
    → IsRetry phase m (pos i) j
    → (i < phase_limit phase) × (int_lt (pos i) m ≡ true) × (j ≡ pos (suc i))
unfolding loop_transition
retry_step phase m i j r =
    let review = r.review in
    let (elements, _, h₁) = >>=-eq-ok (iterate (get_or (arr nil) "findings" review)) _ r.returned in
    let (unresolved, _, h₂) = >>=-eq-ok (any_unresolved elements) _ h₁ in
    let tests = collect (stop_tests (pos i) m r.previous r.patch r.over unresolved) in
    let same = ok_injective h₂ in
    let (open_, next) =
      decide_retry tests (truthy (get_or (arr nil) "findings" review)) phase i m j
        (ap (λ q. q.state) same ∙ r.again) (ap (λ q. q.evidence) same ∙ r.next) in
    let (below, below_max) = not_exhausted (str_eq phase "A") (phase_limit phase) i m open_ in
    (below, below_max, next)

Attempts-from :
    (phase : String) (m : ℤ) {n : ℕ} {j k : ℤ} (i : ℕ)
    → j ≡ pos i
    → Attempts phase m n j k
    → (k ≡ pos (i + n)) × ((n ≡ 0) ⊎ (i + n ≤ phase_limit phase))
Attempts-from phase m i e none_made = (e ∙ ap pos (omega arith), inl refl)
Attempts-from phase m i e (one_more {n} {j = t} r rest) =
    let r' : IsRetry phase m (pos i) t = subst (λ z. IsRetry phase m z t) e r in
    let (below, _, next) = retry_step phase m i t r' in
    let (last, bound) = Attempts-from phase m (suc i) next rest in
    (last ∙ ap pos (omega arith), inr (omega arith))

-- Whatever the reviews, the hashes and the budgets, a run of the loop that begins at iteration 0 asks
-- for no new attempt at all, or for at most 1 in phase B, or for at most 3 in phase C; so none in
-- phase A or in any other phase. Each attempt adds one to the iteration.
pub Attempts-bounded :
    (phase : String) (m : ℤ) (n : ℕ) (k : ℤ)
    → Attempts phase m n (pos 0) k
    → ((n ≡ 0) ⊎ ((phase ≡ "B") × (n ≤ 1)) ⊎ ((phase ≡ "C") × (n ≤ 3))) × (k ≡ pos n)
Attempts-bounded phase m n k a =
    let (last, bound) = Attempts-from phase m 0 refl a in
    (
      elim (phase_limit-cases phase) [
        | inl limit ↦ inl (omega arith)
        | inr (inl (b, limit)) ↦ inr (inl (b, omega arith))
        | inr (inr (c, limit)) ↦ inr (inr (c, omega arith))
      ],
      last ∙ ap pos (omega arith),
    )
