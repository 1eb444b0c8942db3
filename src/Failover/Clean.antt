-- ===== src/Failover/Clean.antt =====
-- `reject_sensitive_keys` looks at every key and every text of a document.
use Prim.Native.String.{String}
use toi_no_mori_mvs.Common.{
  [], All, Bool, List, any, arith, contains_text, false, inl, inr, not, or_false, refl, suc, true,
}
use toi_no_mori_mvs.Common.{ℕ, ◌∷◌, ◌≡◌, ◌⊎◌}
use toi_no_mori_mvs.Failover.Sensitive.{
  denied_key_parts, is_plain, is_sensitive, reject_in_fields, reject_in_items,
  reject_sensitive_keys,
}
use toi_no_mori_mvs.Failover.Sensitive.{require_valid, without_underscores}
use toi_no_mori_mvs.Python.Json.{
  Fields, Items, Json, arr, bool, cons, end, field, float, int, nil, null,
}
use toi_no_mori_mvs.Python.Json.{obj, str}
use toi_no_mori_mvs.Python.Platform.{Platform}
use toi_no_mori_mvs.Python.Result.{>>-eq-ok, Result, ok, ◌>>◌}

abbrev mutual
  -- A key that some dict of the document has, at any depth.
  pub HasKey : String → Json → Type 0
  HasKey key (obj fs) = HasKeyField key fs
  HasKey key (arr vs) = HasKeyItem key vs
  HasKey key _ = ⊥

  pub HasKeyField : String → Fields → Type 0
  HasKeyField key end = ⊥
  HasKeyField key (field k v fs) = (key ≡ k) ⊎ (HasKey key v ⊎ HasKeyField key fs)

  pub HasKeyItem : String → Items → Type 0
  HasKeyItem key nil = ⊥
  HasKeyItem key (cons v vs) = HasKey key v ⊎ HasKeyItem key vs

abbrev mutual
  -- A text that is a value somewhere in the document.
  pub HasText : String → Json → Type 0
  HasText text (str s) = text ≡ s
  HasText text (obj fs) = HasTextField text fs
  HasText text (arr vs) = HasTextItem text vs
  HasText text _ = ⊥

  pub HasTextField : String → Fields → Type 0
  HasTextField text end = ⊥
  HasTextField text (field k v fs) = HasText text v ⊎ HasTextField text fs

  pub HasTextItem : String → Items → Type 0
  HasTextItem text nil = ⊥
  HasTextItem text (cons v vs) = HasText text v ⊎ HasTextItem text vs

-- Inversion of a sequence that begins with a test.
pub require_valid->> {ℓ} :
    {B : Type ℓ} (b : Bool) (message : String) (k : Result B) {r : B}
    → (require_valid b message >> k) ≡ ok r
    → (b ≡ true) × (k ≡ ok r)
require_valid->> true message k h = (refl, h)
require_valid->> false message k h = cc

pub require_valid-eq-ok : (b : Bool) (message : String) → require_valid b message ≡ ok tt → b ≡ true
require_valid-eq-ok true message h = refl
require_valid-eq-ok false message h = cc

not-true : (b : Bool) → not b ≡ true → b ≡ false
not-true true h = cc
not-true false h = refl

module _ (p : Platform) where
  mutual
    unfolding reject_sensitive_keys reject_in_fields reject_in_items

    pub keys-clean :
        (v : Json) (path key : String)
        → reject_sensitive_keys p v path ≡ ok tt
        → HasKey key v
        → is_sensitive p key ≡ false
    keys-clean (obj fs) path key h found = fields-clean fs path key h found
    keys-clean (arr vs) path key h found = items-clean vs 0 path key h found
    keys-clean null path key h found = elim found [ ]
    keys-clean (bool b) path key h found = elim found [ ]
    keys-clean (int z) path key h found = elim found [ ]
    keys-clean (float f) path key h found = elim found [ ]
    keys-clean (str s) path key h found = elim found [ ]

    fields-clean :
        (fs : Fields) (path key : String)
        → reject_in_fields p fs path ≡ ok tt
        → HasKeyField key fs
        → is_sensitive p key ≡ false
    fields-clean end path key h found = elim found [ ]
    fields-clean (field k v fs) path key h found =
        let (plain, next) = require_valid->> (not (is_sensitive p k)) _ _ h in
        let (value, later) = >>-eq-ok (reject_sensitive_keys p v _) _ next in
        elim found [
          | inl same ↦ rw same (not-true (is_sensitive p k) plain)
          | inr (inl inner) ↦ keys-clean v _ key value inner
          | inr (inr other) ↦ fields-clean fs path key later other
        ]

    items-clean :
        (vs : Items) (index : ℕ) (path key : String)
        → reject_in_items p vs index path ≡ ok tt
        → HasKeyItem key vs
        → is_sensitive p key ≡ false
    items-clean nil index path key h found = elim found [ ]
    items-clean (cons v vs) index path key h found =
        let (value, later) = >>-eq-ok (reject_sensitive_keys p v _) _ h in
        elim found [
          | inl inner ↦ keys-clean v _ key value inner
          | inr other ↦ items-clean vs (suc index) path key later other
        ]

  mutual
    unfolding reject_sensitive_keys reject_in_fields reject_in_items

    pub texts-clean :
        (v : Json) (path text : String)
        → reject_sensitive_keys p v path ≡ ok tt
        → HasText text v
        → is_plain p text ≡ true
    texts-clean (str s) path text h found = rw found (require_valid-eq-ok (is_plain p s) _ h)
    texts-clean (obj fs) path text h found = field_texts-clean fs path text h found
    texts-clean (arr vs) path text h found = item_texts-clean vs 0 path text h found
    texts-clean null path text h found = elim found [ ]
    texts-clean (bool b) path text h found = elim found [ ]
    texts-clean (int z) path text h found = elim found [ ]
    texts-clean (float f) path text h found = elim found [ ]

    field_texts-clean :
        (fs : Fields) (path text : String)
        → reject_in_fields p fs path ≡ ok tt
        → HasTextField text fs
        → is_plain p text ≡ true
    field_texts-clean end path text h found = elim found [ ]
    field_texts-clean (field k v fs) path text h found =
        let (plain, next) = require_valid->> (not (is_sensitive p k)) _ _ h in
        let (value, later) = >>-eq-ok (reject_sensitive_keys p v _) _ next in
        elim found [
          | inl inner ↦ texts-clean v _ text value inner
          | inr other ↦ field_texts-clean fs path text later other
        ]

    item_texts-clean :
        (vs : Items) (index : ℕ) (path text : String)
        → reject_in_items p vs index path ≡ ok tt
        → HasTextItem text vs
        → is_plain p text ≡ true
    item_texts-clean nil index path text h found = elim found [ ]
    item_texts-clean (cons v vs) index path text h found =
        let (value, later) = >>-eq-ok (reject_sensitive_keys p v _) _ h in
        elim found [
          | inl inner ↦ texts-clean v _ text value inner
          | inr other ↦ item_texts-clean vs (suc index) path text later other
        ]

-- No part of a sensitive key occurs in the folded key.
pub is_sensitive-parts :
    (p : Platform) (key : String)
    → is_sensitive p key ≡ false
    → All
        (λ part. contains_text part (p.lower (without_underscores key)) ≡ false)
        ("password" ∷ "secret" ∷ "token" ∷ "cookie" ∷ "credential" ∷ "connectionstring"
          ∷ "privatekey" ∷ [])
unfolding is_sensitive
is_sensitive-parts p key h =
    none_of (λ part. contains_text part (p.lower (without_underscores key))) denied_key_parts h
  where
    none_of :
        (test : String → Bool) (parts : List String)
        → any test parts ≡ false
        → All (λ part. test part ≡ false) parts
    none_of test [] h = tt
    none_of test (part ∷ parts) h =
        let (here, later) = or_false (test part) (any test parts) h in
        (here, none_of test parts later)

pub is_plain-parts :
    (p : Platform) (text : String)
    → is_plain p text ≡ true
    → (contains_text "Host=" text ≡ false) × (contains_text "Password=" text ≡ false)
unfolding is_plain
is_plain-parts p text h = (ground arith, ground arith)
