-- ===== src/Controller/Scope/Segments.antt =====
-- Splitting a path at its slashes and joining it again.
use Prim.Native.Char.{Char, code}
use Prim.Native.String.{String, [], ◌∷◌}
use text.Mathlib.TextEquality.{Char-path}
use text.Mathlib.TextLemmas.{nil-append, cons-append}
use toi_no_mori_mvs.Common.{Bool-cases, List, [], ap, arith, cons_head, inl, inr, refl, split_slash}
use toi_no_mori_mvs.Common.{true, ◌<>◌, ◌==◌, ◌∙◌, ◌∷◌, ◌≡◌}

-- `"/".join(segments)`.
unfoldable pub join_slash : List String → String
join_slash [] = ""
join_slash (x ∷ []) = x
join_slash (x ∷ y ∷ ys) = x <> ("/" <> join_slash (y ∷ ys))

abbrev pub IsNonempty {ℓ} : {A : Type ℓ} → List A → Type 0
IsNonempty [] = ⊥
IsNonempty (x ∷ xs) = Unit

cons_head-IsNonempty : (c : Char) (ws : List String) → IsNonempty (cons_head c ws)
cons_head-IsNonempty c [] = tt
cons_head-IsNonempty c (w ∷ ws) = tt

split_slash-IsNonempty : (s : String) → IsNonempty (split_slash s)
unfolding split_slash
split_slash-IsNonempty [] = tt
split_slash-IsNonempty (c ∷ s) = elim (Bool-cases (code c == b'/')) [
  | inl slash ↦ rw slash tt
  | inr other ↦ rw other (cons_head-IsNonempty c (split_slash s))
]

join-cons_head :
    (c : Char) (ws : List String) → IsNonempty ws → join_slash (cons_head c ws) ≡ c ∷ join_slash ws
unfolding join_slash
join-cons_head c [] h = elim h [ ]
join-cons_head c (w ∷ []) h = refl
join-cons_head c (w ∷ v ∷ ws) h = cons-append c w ("/" <> join_slash (v ∷ ws))

-- A slash in front of a text.
cons-slash : (c : Char) (s : String) → (code c == b'/') ≡ true → "/" <> s ≡ c ∷ s
cons-slash c s slash =
    let slash_char : Char = "/" in
    let same : slash_char ≡ c = Char-path slash_char c (ground arith) in
    cons-append slash_char [] s ∙ ap (λ t. slash_char ∷ t) (nil-append s) ∙ ap (λ d. d ∷ s) same

join-nil : (ws : List String) → IsNonempty ws → join_slash ("" ∷ ws) ≡ "/" <> join_slash ws
unfolding join_slash
join-nil [] h = elim h [ ]
join-nil (w ∷ ws) h = nil-append ("/" <> join_slash (w ∷ ws))

-- Joining the segments of a path gives the path.
pub join-split_slash : (s : String) → join_slash (split_slash s) ≡ s
unfolding split_slash
join-split_slash [] = unfold join_slash in refl
join-split_slash (c ∷ s) = elim (Bool-cases (code c == b'/')) [
  | inl slash ↦ rw slash (
      join-nil (split_slash s) (split_slash-IsNonempty s)
      ∙ ap (λ t. "/" <> t) (join-split_slash s)
      ∙ cons-slash c s slash)
  | inr other ↦ rw other (
      join-cons_head c (split_slash s) (split_slash-IsNonempty s)
      ∙ ap (λ t. c ∷ t) (join-split_slash s))
]
