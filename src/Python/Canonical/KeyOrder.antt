-- ===== src/Python/Canonical/KeyOrder.antt =====
-- `canonical_json` of a dict depends on its contents and not on the order of insertion.
use mathlib.Core.Option
use toi_no_mori_mvs.Common.{String, List, [], ◌∷◌, ◌≡◌, refl, ap, sym, ◌∙◌, none, some}
use toi_no_mori_mvs.Common.{if◌then◌else◌, str_eq, Bool-cases, inl, inr, ◌<>◌}
use toi_no_mori_mvs.Python.Json.{obj, end, field, Fields, find}
use toi_no_mori_mvs.Python.Platform.{Platform}
use toi_no_mori_mvs.Python.Canonical.{sort_entries, pair_texts, canonical_json, field_texts}
use toi_no_mori_mvs.Python.Canonical.{join_comma, sha256_text, content_hash}
use toi_no_mori_mvs.Python.Canonical.Order.{find_in, IsSorted, find-insert_entry}
use toi_no_mori_mvs.Python.Canonical.Order.{insert_entry-IsSorted, IsSorted-ext}

-- A dict holds each key once.
abbrev pub HasDistinctKeys : Fields → Type 0
HasDistinctKeys end = Unit
HasDistinctKeys (field k v fs) = (find k fs ≡ none) × HasDistinctKeys fs

-- The same dict, perhaps filled in another order.
abbrev pub SameDict : Fields → Fields → Type 0
SameDict fs gs = (key : String) → find key fs ≡ find key gs

find-sort_entries {ℓ} :
    {A : Type ℓ} (a : String) (fs : List (String × A)) → find_in a (sort_entries fs) ≡ find_in a fs
unfolding sort_entries
find-sort_entries a [] = refl
find-sort_entries a ((k, v) ∷ fs) =
    find-insert_entry a k v (sort_entries fs)
    ∙ ap (λ o. if str_eq a k then some v else o) (find-sort_entries a fs)

module _ (p : Platform) where
  find-field_texts :
      (a : String) (fs : Fields)
      → find_in a (field_texts p fs) ≡ Option.map (canonical_json p) (find a fs)
  unfolding field_texts
  find-field_texts a end = refl
  find-field_texts a (field k v fs) = elim (Bool-cases (str_eq a k)) [
    | inl e ↦ rw e refl
    | inr e ↦ rw e (find-field_texts a fs)
  ]

  sort_entries-field_texts-IsSorted :
      (fs : Fields) → HasDistinctKeys fs → IsSorted (sort_entries (field_texts p fs))
  unfolding sort_entries field_texts
  sort_entries-field_texts-IsSorted end h = tt
  sort_entries-field_texts-IsSorted (field k v fs) (n, h) =
      insert_entry-IsSorted k (canonical_json p v) (sort_entries (field_texts p fs))
        (find-sort_entries k (field_texts p fs) ∙ find-field_texts k fs ∙ ap (Option.map _) n)
        (sort_entries-field_texts-IsSorted fs h)

  sorted_texts_agree :
      (fs gs : Fields)
      → HasDistinctKeys fs
      → HasDistinctKeys gs
      → SameDict fs gs
      → sort_entries (field_texts p fs) ≡ sort_entries (field_texts p gs)
  sorted_texts_agree fs gs h k same =
      IsSorted-ext _ _ (sort_entries-field_texts-IsSorted fs h)
        (sort_entries-field_texts-IsSorted gs k)
        λ a.
          find-sort_entries a (field_texts p fs)
          ∙ find-field_texts a fs
          ∙ ap (Option.map (canonical_json p)) (same a)
          ∙ sym (find-sort_entries a (field_texts p gs) ∙ find-field_texts a gs)

  canonical_json_agree :
      (fs gs : Fields)
      → HasDistinctKeys fs
      → HasDistinctKeys gs
      → SameDict fs gs
      → canonical_json p (obj fs) ≡ canonical_json p (obj gs)
  unfolding canonical_json
  canonical_json_agree fs gs h k same =
      ap (λ es. "{" <> (join_comma (pair_texts es) <> "}")) (sorted_texts_agree fs gs h k same)

  -- Two dicts with distinct keys that look every key up to the same value, in whatever order the
  -- keys were inserted, have the same canonical text and so the same content hash.
  pub content_hash-SameDict :
      (fs gs : Fields)
      → HasDistinctKeys fs
      → HasDistinctKeys gs
      → SameDict fs gs
      → (canonical_json p (obj fs) ≡ canonical_json p (obj gs))
        × (content_hash p (obj fs) ≡ content_hash p (obj gs))
  unfolding content_hash
  content_hash-SameDict fs gs h k same =
      let agree = canonical_json_agree fs gs h k same in (agree, ap (sha256_text p) agree)
