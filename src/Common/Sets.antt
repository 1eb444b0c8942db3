-- ===== src/Common/Sets.antt =====
-- Sets of texts: membership, `set(a) == set(b)`, and `sorted(set(xs))`.
use Prim.Native.Nat.{ℕ, Ordering, compare as compare_nat}
use Prim.Native.Char.{code}
use Prim.Native.String.{String, [], ◌∷◌, compare, then as lex}
use Prim.Native.String.compare
use mathlib.Core.Path.{◌≡◌, refl, sym, ap, ap₂, ◌∙◌, subst}
use mathlib.Core.Logic.{◌↔◌, ◌≢◌, inl, inr}
use mathlib.Core.Bool.{Bool, true, false, ◌&&◌, ◌||◌}
use mathlib.Core.List.{List, [], ◌∷◌}
use native.Mathlib.Omega.{arith}
use text.Mathlib.Text.{◌==◌ as str_eq}
use text.Mathlib.TextEquality.{eq_iff, path_by_compare}
use text.Mathlib.TextPositions.{eq_refl, compare_refl}
use toi_no_mori_mvs.Common.Tests.{if◌then◌else◌, Bool-cases}
use toi_no_mori_mvs.Common.Lists.{all, All, all_iff}

-- `a in xs`.
abbrev pub member : String → List String → Bool
member a [] = false
member a (x ∷ xs) = str_eq a x || member a xs

-- `set(xs) <= set(ys)`.
abbrev pub subset : List String → List String → Bool
subset xs ys = all (λ x. member x ys) xs

-- `set(xs) == set(ys)`.
abbrev pub same_set : List String → List String → Bool
same_set xs ys = subset xs ys && subset ys xs

-- `len(xs) == len(set(xs))`.
abbrev pub all_distinct : List String → Bool
all_distinct [] = true
all_distinct (x ∷ xs) = (if member x xs then false else true) && all_distinct xs

-- One more element of a strictly ascending list.
abbrev pub insert_sorted : String → List String → List String
insert_sorted x [] = x ∷ []
insert_sorted x (y ∷ ys) =
    let later = insert_sorted x ys in
    elim (compare x y) [ Ordering.lt ↦ x ∷ y ∷ ys | Ordering.eq ↦ y ∷ ys | Ordering.gt ↦ y ∷ later ]

-- `sorted(set(xs))`.
unfoldable pub sorted_set : List String → List String
sorted_set [] = []
sorted_set (x ∷ xs) = insert_sorted x (sorted_set xs)

then_flip :
    (m n : ℕ) (o p : Ordering)
    → (o ≡ Ordering.gt → p ≡ Ordering.lt)
    → lex (compare_nat m n) o ≡ Ordering.gt
    → lex (compare_nat n m) p ≡ Ordering.lt
then_flip m n o p h e = ground arith

pub compare_flip : (s t : String) → compare s t ≡ Ordering.gt → compare t s ≡ Ordering.lt
compare_flip [] [] h = cc (compare.nil-nil)
compare_flip [] (d ∷ t) h = cc (compare.nil-cons d t)
compare_flip (c ∷ s) [] h = compare.nil-cons c s
compare_flip (c ∷ s) (d ∷ t) h =
    compare.cons-cons d c t s
    ∙ then_flip (code c) (code d) (compare s t) (compare t s) (compare_flip s t)
        (sym (compare.cons-cons c d s t) ∙ h)

then_trans :
    (m n k : ℕ) (o p q : Ordering)
    → (o ≡ Ordering.lt → p ≡ Ordering.lt → q ≡ Ordering.lt)
    → lex (compare_nat m n) o ≡ Ordering.lt
    → lex (compare_nat n k) p ≡ Ordering.lt
    → lex (compare_nat m k) q ≡ Ordering.lt
then_trans m n k o p q h e f = ground arith

pub compare_trans :
    (s t u : String)
    → compare s t ≡ Ordering.lt
    → compare t u ≡ Ordering.lt
    → compare s u ≡ Ordering.lt
compare_trans [] [] u h k = k
compare_trans [] (d ∷ t) [] h k = cc (compare.cons-nil d t)
compare_trans [] (d ∷ t) (e ∷ u) h k = compare.nil-cons e u
compare_trans (c ∷ s) [] u h k = cc (compare.cons-nil c s)
compare_trans (c ∷ s) (d ∷ t) [] h k = cc (compare.cons-nil d t)
compare_trans (c ∷ s) (d ∷ t) (e ∷ u) h k =
    compare.cons-cons c e s u
    ∙ then_trans (code c) (code d) (code e) (compare s t) (compare t u) (compare s u)
        (compare_trans s t u) (sym (compare.cons-cons c d s t) ∙ h)
        (sym (compare.cons-cons d e t u) ∙ k)

pub compare_irrefl : (s : String) → compare s s ≢ Ordering.lt
compare_irrefl s h = cc (compare_refl s)

-- Membership and its tests.
abbrev pub In : String → List String → Type 0
In a xs = member a xs ≡ true

pub In-insert_sorted :
    (a x : String) (ys : List String) → member a (insert_sorted x ys) ≡ (str_eq a x || member a ys)
In-insert_sorted a x [] = refl
In-insert_sorted a x (y ∷ ys) =
    ground (arith, In-insert_sorted a x ys, path_by_compare x y, eq_iff a x, eq_iff a y)

-- `sorted(set(xs))` has the elements of `xs`.
pub member-sorted_set : (a : String) (xs : List String) → member a (sorted_set xs) ≡ member a xs
unfolding sorted_set
member-sorted_set a [] = refl
member-sorted_set a (x ∷ xs) =
    In-insert_sorted a x (sorted_set xs) ∙ ap (λ b. str_eq a x || b) (member-sorted_set a xs)

-- Strictly ascending.
abbrev pub IsAscending : List String → Type 0
IsAscending [] = Unit
IsAscending (x ∷ xs) = All (λ y. compare x y ≡ Ordering.lt) xs × IsAscending xs

insert_sorted-All :
    (z x : String) (ys : List String)
    → compare z x ≡ Ordering.lt
    → All (λ y. compare z y ≡ Ordering.lt) ys
    → All (λ y. compare z y ≡ Ordering.lt) (insert_sorted x ys)
insert_sorted-All z x [] h k = (h, tt)
insert_sorted-All z x (y ∷ ys) h (k, ks) = ground (arith, insert_sorted-All z x ys h ks)

All-lt_trans :
    (x y : String) (ys : List String)
    → compare x y ≡ Ordering.lt
    → All (λ z. compare y z ≡ Ordering.lt) ys
    → All (λ z. compare x z ≡ Ordering.lt) ys
All-lt_trans x y [] h k = tt
All-lt_trans x y (z ∷ ys) h (k, ks) = (compare_trans x y z h k, All-lt_trans x y ys h ks)

insert_sorted-IsAscending :
    (x : String) (ys : List String) → IsAscending ys → IsAscending (insert_sorted x ys)
insert_sorted-IsAscending x [] h = (tt, tt)
insert_sorted-IsAscending x (y ∷ ys) (h, k) = ground (
  arith,
  All-lt_trans x y ys,
  compare_flip x y,
  insert_sorted-All y x ys,
  insert_sorted-IsAscending x ys k,
)

pub sorted_set-IsAscending : (xs : List String) → IsAscending (sorted_set xs)
unfolding sorted_set
sorted_set-IsAscending [] = tt
sorted_set-IsAscending (x ∷ xs) =
    insert_sorted-IsAscending x (sorted_set xs) (sorted_set-IsAscending xs)

pub All_In {ℓ} : (P : String → Type ℓ) (a : String) (xs : List String) → All P xs → In a xs → P a
All_In P a [] h m = cc
All_In P a (x ∷ xs) (p, h) m = elim (Bool-cases (str_eq a x)) [
  | inl same ↦ subst P (sym ((eq_iff a x).0 same)) p
  | inr other ↦ All_In P a xs h (ground arith)
]

not-In_of_lt :
    (x : String) (xs : List String) → All (λ y. compare x y ≡ Ordering.lt) xs → member x xs ≡ false
not-In_of_lt x xs h = elim (Bool-cases (member x xs)) [
  | inl m ↦ absurd (compare_irrefl x (All_In _ x xs h m))
  | inr e ↦ e
]

-- Two ascending lists with the same elements have the same head.
heads_agree :
    (x y : String) (xs ys : List String)
    → IsAscending (x ∷ xs)
    → IsAscending (y ∷ ys)
    → In x (y ∷ ys)
    → In y (x ∷ xs)
    → x ≡ y
heads_agree x y xs ys (h, _) (k, _) m n = elim (Bool-cases (str_eq x y)) [
  | inl same ↦ (eq_iff x y).0 same
  | inr other ↦
      let below : compare y x ≡ Ordering.lt = All_In _ x ys k (ground arith) in
      elim (Bool-cases (str_eq y x)) [
        | inl same ↦ sym ((eq_iff y x).0 same)
        | inr other' ↦
            absurd (compare_irrefl x (compare_trans x y x (All_In _ y xs h (ground arith)) below))
      ]
]

tails_agree :
    (x : String) (xs ys : List String)
    → member x xs ≡ false
    → member x ys ≡ false
    → ((a : String) → member a (x ∷ xs) ≡ member a (x ∷ ys))
    → (a : String) → member a xs ≡ member a ys
tails_agree x xs ys h k same a = elim (Bool-cases (str_eq a x)) [
  | inl e ↦ rw ((eq_iff a x).0 e) (h ∙ sym k)
  | inr e ↦ ground (arith, same a)
]

-- A strictly ascending list is determined by its elements.
pub IsAscending-ext :
    (xs ys : List String)
    → IsAscending xs
    → IsAscending ys
    → ((a : String) → member a xs ≡ member a ys)
    → xs ≡ ys
IsAscending-ext [] [] h k same = refl
IsAscending-ext [] (y ∷ ys) h k same = cc (same y, eq_refl y)
IsAscending-ext (x ∷ xs) [] h k same = cc (same x, eq_refl x)
IsAscending-ext (x ∷ xs) (y ∷ ys) h k same =
    let e : x ≡ y =
      heads_agree x y xs ys h k (sym (same x) ∙ ground (arith, eq_refl x))
        (same y ∙ ground (arith, eq_refl y)) in
    let h' : IsAscending (y ∷ xs) = subst (λ z. IsAscending (z ∷ xs)) e h in
    let same' : ((a : String) → member a (y ∷ xs) ≡ member a (y ∷ ys)) =
      subst (λ z. (a : String) → member a (z ∷ xs) ≡ member a (y ∷ ys)) e same in
    ap₂ (λ z zs. z ∷ zs) e
      (IsAscending-ext xs ys h.1 k.1
        (tails_agree y xs ys (not-In_of_lt y xs h'.0) (not-In_of_lt y ys k.0) same'))

-- `sorted(set(xs))` depends on the elements alone: order and repetitions of `xs` do not matter.
pub sorted_set-ext :
    (xs ys : List String)
    → ((a : String) → member a xs ≡ member a ys)
    → sorted_set xs ≡ sorted_set ys
sorted_set-ext xs ys same =
    IsAscending-ext (sorted_set xs) (sorted_set ys) (sorted_set-IsAscending xs)
      (sorted_set-IsAscending ys)
      (λ a. member-sorted_set a xs ∙ same a ∙ sym (member-sorted_set a ys))

pub All-of_In {ℓ} :
    {P : String → Type ℓ} (xs : List String) → ((a : String) → In a xs → P a) → All P xs
All-of_In [] h = tt
All-of_In (x ∷ xs) h = (h x (ground (arith, eq_refl x)), All-of_In xs (λ a m. h a (ground arith)))

-- `set(xs) <= set(ys)` in terms of membership.
pub subset_iff : (xs ys : List String) → (subset xs ys ≡ true) ↔ ((a : String) → In a xs → In a ys)
subset_iff xs ys = (
  λ h a m. All_In _ a xs ((all_iff (λ x. member x ys) xs).0 h) m,
  λ h. (all_iff (λ x. member x ys) xs).1 (All-of_In xs h),
)

-- `set(xs) == set(ys)` in terms of membership.
pub same_set_iff :
    (xs ys : List String) → (same_set xs ys ≡ true) ↔ ((a : String) → member a xs ≡ member a ys)
same_set_iff xs ys = (
  λ h a.
      In_both_ways a xs ys ((subset_iff xs ys).0 (ground arith) a)
        ((subset_iff ys xs).0 (ground arith) a),
  λ h.
      ground
        (arith, (subset_iff xs ys).1 (λ a m. sym (h a) ∙ m), (subset_iff ys xs).1 (λ a m. h a ∙ m)),
)
  where
    In_both_ways :
        (a : String) (xs ys : List String)
        → (In a xs → In a ys)
        → (In a ys → In a xs)
        → member a xs ≡ member a ys
    In_both_ways a xs ys f g = ground arith
