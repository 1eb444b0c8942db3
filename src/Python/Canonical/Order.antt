-- ===== src/Python/Canonical/Order.antt =====
-- Lists of entries sorted by key, for the `sort_keys=True` of `canonical_json`.
use Prim.Native.Nat.{Ordering}
use Prim.Native.String.{compare}
use text.Mathlib.TextEquality.{path_by_compare}
use text.Mathlib.TextPositions.{compare_refl}
use toi_no_mori_mvs.Common.{String, List, [], ◌∷◌, ◌≡◌, refl, sym, ◌∙◌, arith, subst}
use toi_no_mori_mvs.Common.{Option, none, some, if◌then◌else◌, str_eq, All, Bool-cases, inl, inr}
use toi_no_mori_mvs.Common.{eq_iff, eq_refl, compare_flip, compare_trans, compare_irrefl}
use toi_no_mori_mvs.Python.Canonical.{insert_entry}

-- The entry of a key in a list of entries.
abbrev pub find_in {ℓ} : {A : Type ℓ} → String → List (String × A) → Option A
find_in key [] = none
find_in key ((k, v) ∷ fs) = if str_eq key k then some v else find_in key fs

module _ {ℓ} {A : Type ℓ} where
  abbrev pub Below : String → List (String × A) → Type 0
  Below k fs = All (λ e. compare k e.0 ≡ Ordering.lt) fs

  abbrev pub IsSorted : List (String × A) → Type 0
  IsSorted [] = Unit
  IsSorted ((k, v) ∷ fs) = Below k fs × IsSorted fs

  Below-trans :
      (x y : String) (fs : List (String × A)) → compare x y ≡ Ordering.lt → Below y fs → Below x fs
  Below-trans x y [] h b = tt
  Below-trans x y ((k, v) ∷ fs) h (b, bs) = (compare_trans x y k h b, Below-trans x y fs h bs)

  insert_entry-Below :
      (x k : String) (v : A) (fs : List (String × A))
      → compare x k ≡ Ordering.lt
      → Below x fs
      → Below x (insert_entry (k, v) fs)
  insert_entry-Below x k v [] h b = (h, tt)
  insert_entry-Below x k v ((j, w) ∷ fs) h (b, bs) =
      ground (arith, insert_entry-Below x k v fs h bs)

  pub find-insert_entry :
      (a k : String) (v : A) (fs : List (String × A))
      → find_in a (insert_entry (k, v) fs) ≡ (if str_eq a k then some v else find_in a fs)
  find-insert_entry a k v [] = refl
  find-insert_entry a k v ((j, w) ∷ fs) = ground (
    arith,
    find-insert_entry a k v fs,
    path_by_compare k j,
    eq_iff a j,
    eq_iff a k,
    compare_refl k,
    compare_refl j,
  )

  pub insert_entry-IsSorted :
      (k : String) (v : A) (fs : List (String × A))
      → find_in k fs ≡ none
      → IsSorted fs
      → IsSorted (insert_entry (k, v) fs)
  insert_entry-IsSorted k v [] n h = (tt, tt)
  insert_entry-IsSorted k v ((j, w) ∷ fs) n (b, h) = ground (
    arith,
    eq_iff k j,
    path_by_compare k j,
    compare_flip k j,
    Below-trans k j fs,
    insert_entry-Below j k v fs,
    insert_entry-IsSorted k v fs,
  )

  find-Below :
      (x a : String) (v : A) (fs : List (String × A))
      → Below x fs
      → find_in a fs ≡ some v
      → compare x a ≡ Ordering.lt
  find-Below x a v [] b e = cc
  find-Below x a v ((k, w) ∷ fs) (b, bs) e = elim (Bool-cases (str_eq a k)) [
    | inl same ↦ subst (λ z. compare x z ≡ Ordering.lt) (sym ((eq_iff a k).0 same)) b
    | inr other ↦ find-Below x a v fs bs (ground arith)
  ]

  find_self_of_Below : (x : String) (fs : List (String × A)) → Below x fs → find_in x fs ≡ none
  find_self_of_Below x fs b = go (find_in x fs) refl
    where
      go : (o : Option A) → find_in x fs ≡ o → o ≡ none
      go none e = refl
      go (some v) e = absurd (compare_irrefl x (find-Below x x v fs b e))

  abbrev pub SameFinds : List (String × A) → List (String × A) → Type ℓ
  SameFinds fs gs = (a : String) → find_in a fs ≡ find_in a gs

  heads_agree :
      (x y : String) (v w : A) (fs gs : List (String × A))
      → Below x fs
      → Below y gs
      → SameFinds ((x, v) ∷ fs) ((y, w) ∷ gs)
      → x ≡ y
  heads_agree x y v w fs gs b c same = elim (Bool-cases (str_eq x y)) [
    | inl e ↦ (eq_iff x y).0 e
    | inr ne ↦ elim (Bool-cases (str_eq y x)) [
      | inl e ↦ sym ((eq_iff y x).0 e)
      | inr ne' ↦ absurd (
          compare_irrefl x (
            compare_trans x y x (find-Below x y w fs b (ground (arith, same y, eq_refl y)))
              (find-Below y x v gs c (ground (arith, same x, eq_refl x)))))
    ]
  ]

  tails_agree :
      (x : String) (v w : A) (fs gs : List (String × A))
      → Below x fs
      → Below x gs
      → SameFinds ((x, v) ∷ fs) ((x, w) ∷ gs)
      → SameFinds fs gs
  tails_agree x v w fs gs b c same a = elim (Bool-cases (str_eq a x)) [
    | inl e ↦ rw ((eq_iff a x).0 e) (find_self_of_Below x fs b ∙ sym (find_self_of_Below x gs c))
    | inr ne ↦ ground (arith, same a)
  ]

  -- A list of entries in strictly ascending order is determined by its lookups.
  pub IsSorted-ext :
      (fs gs : List (String × A)) → IsSorted fs → IsSorted gs → SameFinds fs gs → fs ≡ gs
  IsSorted-ext [] [] h k same = refl
  IsSorted-ext [] ((y, w) ∷ gs) h k same = cc (same y, eq_refl y)
  IsSorted-ext ((x, v) ∷ fs) [] h k same = cc (same x, eq_refl x)
  IsSorted-ext ((x, v) ∷ fs) ((y, w) ∷ gs) (b, h) (c, k) same =
      let e : x ≡ y = heads_agree x y v w fs gs b c same in
      let c' : Below x gs = subst (λ z. Below z gs) (sym e) c in
      let same' : SameFinds ((x, v) ∷ fs) ((x, w) ∷ gs) =
        subst (λ z. SameFinds ((x, v) ∷ fs) ((z, w) ∷ gs)) (sym e) same in
      let values : v ≡ w = ground (arith, same x, eq_refl x, eq_iff x y) in
      let rest = IsSorted-ext fs gs h k (tails_agree x v w fs gs b c' same') in
      λ i. (e i, values i) ∷ rest i
