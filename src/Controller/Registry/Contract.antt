-- ===== src/Controller/Registry/Contract.antt =====
-- What a registry that `validate_registry` returns is known to hold.
use Prim.Native.String.{String}
use toi_no_mori_mvs.Common.{
  All, Bool-cases, In, List, Option, [], all, all_distinct, all_iff, ap, arith,
}
use toi_no_mori_mvs.Common.{
  inl, inr, is_empty, is_not_blank, member, none, refl, same_set, same_set_iff,
}
use toi_no_mori_mvs.Common.{some, subst, suc, sym, true, ℕ, ◌<>◌, ◌∙◌, ◌∷◌, ◌≡◌}
use toi_no_mori_mvs.Controller.Registry.{
  RegistryResult, as_fields, difference, entries_of, entry_id, entry_ids, load_registry,
}
use toi_no_mori_mvs.Controller.Registry.{
  missing_fields, registry_dir, registry_ids, require_no_drift, required_fields,
}
use toi_no_mori_mvs.Controller.Registry.{text_fields, text_hash, texts_at, validate_registry}
use toi_no_mori_mvs.Python.Canonical.{text_of}
use toi_no_mori_mvs.Python.Json.{
  Fields, Json, arr, end, eq, field, get, get_or, int, is_true, keys, null,
}
use toi_no_mori_mvs.Python.Json.{obj, str}
use toi_no_mori_mvs.Python.Numbers.{pos}
use toi_no_mori_mvs.Python.Platform.{Platform}
use toi_no_mori_mvs.Python.Result.{>>=-eq-ok, ok, ok_injective, require->>, require-eq-ok}

module _ (p : Platform) where
  -- An entry with every field present, `required` set and no blank text.
  pub record IsEntry (v : Json) (i : String) : Type 0 where
    pub fields : Fields
    pub is_dict : v ≡ obj fields
    pub present : All (λ key. In key (keys fields)) required_fields
    pub required : is_true (get "required" fields) ≡ true
    pub filled : All (λ key. is_not_blank (text_of p (get key fields)) ≡ true) text_fields
    pub id : i ≡ text_of p (get "id" fields)

  -- The entries of a registry with their ids, in order.
  abbrev pub AreEntries : List Json → List String → Type 0
  AreEntries [] [] = Unit
  AreEntries (v ∷ vs) (i ∷ is) = IsEntry v i × AreEntries vs is
  AreEntries _ _ = ⊥

difference-empty :
    (xs ys : List String) → is_empty (difference xs ys) ≡ true → All (λ x. In x ys) xs
difference-empty [] ys h = tt
difference-empty (x ∷ xs) ys h = elim (Bool-cases (member x ys)) [
  | inl m ↦ (m, difference-empty xs ys (ground arith))
  | inr n ↦ absurd (ground arith)
]

get_or_present :
    (d e : Json) (key : String) (fs : Fields) → In key (keys fs) → get_or d key fs ≡ get_or e key fs
get_or_present d e key end h = cc
get_or_present d e key (field k v fs) h = ground (arith, get_or_present d e key fs)

module _ (p : Platform) where
  entry_id_sound :
      (name : String) (index : ℕ) (v : Json) (i : String)
      → entry_id p name index v ≡ ok i
      → IsEntry p v i
  unfolding entry_id
  entry_id_sound name index (obj fs) i h =
      let (complete, h₁) = require->> (is_empty (missing_fields fs)) _ _ h in
      let (demanded, h₂) = require->> (is_true (get "required" fs)) _ _ h₁ in
      let (full, h₃) =
        require->> (all (λ key. is_not_blank (text_of p (get key fs))) text_fields) _ _ h₂ in
      record {
        fields = fs;
        is_dict = refl;
        present = difference-empty required_fields (keys fs) complete;
        required = demanded;
        filled = (all_iff (λ key. is_not_blank (text_of p (get key fs))) text_fields).0 full;
        id = sym (ok_injective h₃);
      }
  entry_id_sound name index (arr vs) i h = absurd (ground arith)
  entry_id_sound name index _ i h = cc

  texts_at-cons :
      (v : Json) (vs : List Json) (i : String) (is : List String)
      → IsEntry p v i
      → texts_at p "id" vs ≡ ok is
      → texts_at p "id" (v ∷ vs) ≡ ok (i ∷ is)
  unfolding texts_at
  texts_at-cons v vs i is e rest =
      rw (e.is_dict, e.id, rest)
        (ap (λ w. ok (text_of p w ∷ is)) (get_or_present (str "") null "id" e.fields e.present.1.0))

  entry_ids_sound :
      (name : String) (index : ℕ) (vs : List Json) (is : List String)
      → entry_ids p name index vs ≡ ok is
      → AreEntries p vs is × (texts_at p "id" vs ≡ ok is)
  unfolding entry_ids
  entry_ids_sound name index [] is h =
      subst (λ ks. AreEntries p [] ks × (texts_at p "id" [] ≡ ok ks)) (ok_injective h)
        (tt, unfold texts_at in refl)
  entry_ids_sound name index (v ∷ vs) is h =
      let (i, one, h₁) = >>=-eq-ok (entry_id p name index v) _ h in
      let (js, more, h₂) = >>=-eq-ok (entry_ids p name (suc index) vs) _ h₁ in
      let first = entry_id_sound name index v i one in
      let more_ids = entry_ids_sound name (suc index) vs js more in
      subst (λ ks. AreEntries p (v ∷ vs) ks × (texts_at p "id" (v ∷ vs) ≡ ok ks)) (ok_injective h₂)
        ((first, more_ids.0), texts_at-cons v vs i js first more_ids.1)

  -- What a registry that passed holds, with its ids in order.
  pub record IsRegistry (name : String) (implemented : Option (List String)) (ids : List String)
      : Type 0 where
    pub document : Fields
    pub loaded : load_registry p name ≡ ok (obj document)
    pub version : eq (get "schema_version" document) (int (pos 1)) ≡ true
    pub key : String
    pub entries : List Json
    pub single_list : entries_of (obj document) ≡ ok (key, entries)
    pub well_formed : AreEntries p entries ids
    pub distinct : all_distinct ids ≡ true
    pub no_drift :
        (is : List String) → implemented ≡ some is → (i : String) → member i ids ≡ member i is

  drift_sound :
      (name : String) (ids : List String) (implemented : Option (List String))
      → require_no_drift p name ids implemented ≡ ok tt
      → (is : List String) → implemented ≡ some is
      → (i : String) → member i ids ≡ member i is
  drift_sound name ids none h is e = cc
  drift_sound name ids (some js) h is e =
      let same : js ≡ is = cc in
      subst (λ ks. (i : String) → member i ids ≡ member i ks) same
        ((same_set_iff ids js).0 (require-eq-ok (same_set ids js) _ h))

  as_fields_sound : (v : Json) (fs : Fields) → as_fields v ≡ ok fs → v ≡ obj fs
  as_fields_sound (obj gs) fs h = ap obj (ok_injective h)
  as_fields_sound _ fs h = cc

  registry_ids_lem :
      (name : String) (document : Json) (key : String) (entries : List Json) (ids : List String)
      → load_registry p name ≡ ok document
      → entries_of document ≡ ok (key, entries)
      → texts_at p "id" entries ≡ ok ids
      → registry_ids p name ≡ ok ids
  unfolding registry_ids
  registry_ids_lem name document key entries ids loaded found read = rw (loaded, found, read) refl

  -- If `validate_registry` returns, the registry is a version 1 document with one list of entries,
  -- each entry has every field, none blank, and `required` set, the ids are distinct and are the
  -- implemented ones if those are given, and `registry_ids` returns the same ids.
  pub validate_registry_sound :
      (name : String) (implemented : Option (List String)) (r : RegistryResult)
      → validate_registry p name implemented ≡ ok r
      → IsRegistry name implemented r.ids × (registry_ids p name ≡ ok r.ids)
  unfolding validate_registry
  validate_registry_sound name implemented r h =
      let (document, loaded, h₁) = >>=-eq-ok (load_registry p name) _ h in
      let (fs, is_dict, h₂) = >>=-eq-ok (as_fields document) _ h₁ in
      let (version, h₃) = require->> (eq (get "schema_version" fs) (int (pos 1))) _ _ h₂ in
      let ((key, entries), found, h₄) = >>=-eq-ok (entries_of document) _ h₃ in
      let (ids, read, h₅) = >>=-eq-ok (entry_ids p name 0 entries) _ h₄ in
      let (distinct, h₆) = require->> (all_distinct ids) _ _ h₅ in
      let (_, checked, h₇) = >>=-eq-ok (require_no_drift p name ids implemented) _ h₆ in
      let (hash, _, h₈) = >>=-eq-ok (text_hash p (registry_dir <> name)) _ h₇ in
      let ids_eq : ids ≡ r.ids = ap (λ s. s.ids) (ok_injective h₈) in
      let shape = as_fields_sound document fs is_dict in
      let sound = entry_ids_sound name 0 entries ids read in
      subst (λ ks. IsRegistry name implemented ks × (registry_ids p name ≡ ok ks)) ids_eq
        (
          record {
            document = fs;
            loaded = loaded ∙ ap ok shape;
            version = version;
            key = key;
            entries = entries;
            single_list = ap entries_of (sym shape) ∙ found;
            well_formed = sound.0;
            distinct = distinct;
            no_drift = drift_sound name ids implemented checked;
          },
          registry_ids_lem name document key entries ids loaded found sound.1,
        )
