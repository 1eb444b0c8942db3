-- ===== src/Common/Lists.antt =====
-- Lists by native lengths, with tests and predicates by recursion.
use Prim.Native.Nat.{ℕ, suc}
use mathlib.Core.Path.{◌≡◌, refl}
use mathlib.Core.Bool.{Bool, true, false, not, ◌&&◌, ◌||◌}
use mathlib.Core.Logic.{◌↔◌}
use mathlib.Core.List.{List, [], ◌∷◌, ◌++◌}
use native.Mathlib.Omega.{arith}

pub not-false : (b : Bool) → not b ≡ false → b ≡ true
not-false true h = refl
not-false false h = cc

pub or_false : (a b : Bool) → (a || b) ≡ false → (a ≡ false) × (b ≡ false)
or_false true b h = cc
or_false false b h = (refl, h)

pub or_not-false : (a b : Bool) → (not a || not b) ≡ false → (a ≡ true) × (b ≡ true)
or_not-false true b h = (refl, not-false b h)
or_not-false false b h = cc

module _ {ℓ} {A : Type ℓ} where
  abbrev pub length : List A → ℕ
  length [] = 0
  length (x ∷ xs) = suc (length xs)

  -- Python's `all` and `any`.
  abbrev pub all : (A → Bool) → List A → Bool
  all p [] = true
  all p (x ∷ xs) = p x && all p xs

  abbrev pub any : (A → Bool) → List A → Bool
  any p [] = false
  any p (x ∷ xs) = p x || any p xs

  -- `not xs` for a list or a tuple.
  abbrev pub is_empty : List A → Bool
  is_empty [] = true
  is_empty (x ∷ xs) = false

  pub is_empty_iff : (xs : List A) → (is_empty xs ≡ true) ↔ (xs ≡ [])
  is_empty_iff [] = (λ h. refl, λ h. refl)
  is_empty_iff (x ∷ xs) = (λ h. cc, λ h. cc)

module _ {ℓ κ} {A : Type ℓ} (P : A → Type κ) where
  abbrev pub All : List A → Type κ
  All [] = Unit
  All (x ∷ xs) = P x × All xs

  pub All-append : (xs ys : List A) → All xs → All ys → All (xs ++ ys)
  All-append [] ys h k = k
  All-append (x ∷ xs) ys (p, h) k = (p, All-append xs ys h k)

  pub All-of_append : (xs ys : List A) → All (xs ++ ys) → All xs × All ys
  All-of_append [] ys k = (tt, k)
  All-of_append (x ∷ xs) ys (p, k) = let (h, h') = All-of_append xs ys k in ((p, h), h')

module _ {ℓ} {A : Type ℓ} where
  pub all_iff : (p : A → Bool) (xs : List A) → (all p xs ≡ true) ↔ All (λ x. p x ≡ true) xs
  all_iff p [] = (λ h. tt, λ h. refl)
  all_iff p (x ∷ xs) = (
    λ h. (ground arith, (all_iff p xs).0 (ground arith)),
    λ (q, h). ground (arith, (all_iff p xs).1 h),
  )

  pub All-map {κ ι} :
      {P : A → Type κ} {Q : A → Type ι} (f : (x : A) → P x → Q x) (xs : List A)
      → All P xs
      → All Q xs
  All-map f [] h = tt
  All-map f (x ∷ xs) (p, h) = (f x p, All-map f xs h)

  pub append-eq-nil_iff : (xs ys : List A) → (xs ++ ys ≡ []) ↔ ((xs ≡ []) × (ys ≡ []))
  append-eq-nil_iff [] ys = (λ h. (refl, h), λ h. h.1)
  append-eq-nil_iff (x ∷ xs) ys = (λ h. cc, λ h. cc)

-- `[y for x in xs for y in f(x)]`.
abbrev pub flat {ℓ κ} : {A : Type ℓ} {B : Type κ} → (A → List B) → List A → List B
flat f [] = []
flat f (x ∷ xs) = f x ++ flat f xs

pub is_empty-append_iff {ℓ} :
    {A : Type ℓ} (xs ys : List A)
    → (is_empty (xs ++ ys) ≡ true) ↔ ((is_empty xs ≡ true) × (is_empty ys ≡ true))
is_empty-append_iff [] ys = (λ h. (refl, h), λ h. h.1)
is_empty-append_iff (x ∷ xs) ys = (λ h. cc, λ h. cc (h.0))

pub flat-empty_iff {ℓ κ} :
    {A : Type ℓ} {B : Type κ} (f : A → List B) (xs : List A)
    → (is_empty (flat f xs) ≡ true) ↔ All (λ x. is_empty (f x) ≡ true) xs
flat-empty_iff f [] = (λ h. tt, λ h. refl)
flat-empty_iff f (x ∷ xs) = (
  λ h.
      let (here, later) = (is_empty-append_iff (f x) (flat f xs)).0 h in
      (here, (flat-empty_iff f xs).0 later),
  λ (here, later). (is_empty-append_iff (f x) (flat f xs)).1 (here, (flat-empty_iff f xs).1 later),
)
