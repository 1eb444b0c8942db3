-- ===== src/Controller/Registry.antt =====
-- The registries of scripts/ai_controller/core.py: `load_json_yaml`, `load_registry`, `_entries`,
-- `registry_ids`, `validate_registry`, `required_check_names` and `organizer_logins`.
pub mod Execution
pub mod Contract
use Prim.Native.String.{String}
use toi_no_mori_mvs.Common.{
  List, Option, [], all, all_distinct, if◌then◌else◌, is_empty, is_not_blank,
}
use toi_no_mori_mvs.Common.{
  map, member, none, not, same_set, some, sorted_set, suc, ℕ, ◌&&◌, ◌<>◌, ◌∷◌,
}
use toi_no_mori_mvs.Controller.Schema.{is_hashable}
use toi_no_mori_mvs.Python.Canonical.{decimal, sha256_text, text_of}
use toi_no_mori_mvs.Python.Json.{
  Fields, Items, Json, arr, end, entries, eq, field, find, get, get_or, int,
}
use toi_no_mori_mvs.Python.Json.{is_true, items, keys, obj, str, to_items}
use toi_no_mori_mvs.Python.Numbers.{pos}
use toi_no_mori_mvs.Python.Platform.{Platform, readable, undecodable, unreadable}
use toi_no_mori_mvs.Python.Result.{
  Result, attribute_error, controller_error, err, key_error, ok, os_error,
}
use toi_no_mori_mvs.Python.Result.{require, type_error, value_error, ◌>>=◌, ◌>>◌}

abbrev pub registry_dir : String
registry_dir = ".github/ai/registries/"

-- `sorted(xs)` written into a message.
abbrev pub listed : Platform → List String → String
listed p xs = p.repr (arr (to_items (map str (sorted_set xs))))

-- `v.get` and `v.items` exist on a dict only.
abbrev pub as_fields : Json → Result Fields
as_fields (obj fs) = ok fs
as_fields _ = err attribute_error

-- The entries whose value is a list.
abbrev pub list_entries : Fields → List (String × Items)
list_entries end = []
list_entries (field k (arr vs) fs) = (k, vs) ∷ list_entries fs
list_entries (field k _ fs) = list_entries fs

abbrev pub single : List (String × Items) → Result (String × List Json)
single ((k, vs) ∷ []) = ok (k, items vs)
single _ = err (controller_error "registry must contain exactly one entry list")

-- `_entries`
unfoldable pub entries_of : Json → Result (String × List Json)
entries_of document = do fs ← as_fields document; single (list_entries fs)

-- The fields that every registry entry has; `required` is tested apart from the others.
abbrev pub text_fields : List String
text_fields = "id" ∷ "name" ∷ "owner" ∷ "implemented_by" ∷ "evidence_field" ∷ []

abbrev pub required_fields : List String
required_fields = "required" ∷ text_fields

-- `[x for x in xs if x not in ys]`
abbrev pub difference : List String → List String → List String
difference [] ys = []
difference (x ∷ xs) ys = if member x ys then difference xs ys else x ∷ difference xs ys

-- `required_fields - set(entry)`
abbrev pub missing_fields : Fields → List String
missing_fields fs = difference required_fields (keys fs)

-- The ids and the hash of the registry's text.
pub record RegistryResult : Type 0 where
  pub ids : List String
  pub sha256 : String

-- The items that are texts.
abbrev pub texts_in : List Json → List String
texts_in [] = []
texts_in (str s ∷ vs) = s ∷ texts_in vs
texts_in (_ ∷ vs) = texts_in vs

module _ (p : Platform) where
  -- `f"{name}[{index}] missing {sorted(missing)}"`
  abbrev pub missing_problem : (name : String) (index : ℕ) → List String → String
  missing_problem name index missing =
      name <> ("[" <> (decimal index <> ("] missing " <> listed p missing)))

  -- `load_json_yaml` of a path below the repository's root. The exception's text is left out.
  -- `UnicodeDecodeError`, which is a `ValueError`, is not handled.
  unfoldable pub load_json_yaml : String → Result Json
  load_json_yaml path = elim (p.read_text path) [
    | unreadable ↦ err (controller_error ("unreadable control-plane document " <> path))
    | undecodable ↦ err value_error
    | readable text ↦ elim (p.json_loads text) [
      | none ↦ err (controller_error ("unreadable control-plane document " <> path))
      | some value ↦ ok value
    ]
  ]

  unfoldable pub load_registry : String → Result Json
  unfolding load_json_yaml
  load_registry name = load_json_yaml (registry_dir <> name)

  -- `tuple(str(item.get(key, "")) for item in entries)`
  unfoldable pub texts_at : String → List Json → Result (List String)
  texts_at key [] = ok []
  texts_at key (v ∷ vs) = do
    fs ← as_fields v
    rest ← texts_at key vs
    ok (text_of p (get_or (str "") key fs) ∷ rest)

  unfoldable pub registry_ids : String → Result (List String)
  unfolding load_registry entries_of texts_at
  registry_ids name = do
    document ← load_registry name
    (_, entries) ← entries_of document
    texts_at "id" entries

  -- One round of the loop of `validate_registry`: the entry's id. `set(entry)` of a text has its
  -- characters, of a list its items, if they can be hashed; an entry that is a list and names every
  -- field raises at `entry["required"]`.
  unfoldable pub entry_id : (name : String) (index : ℕ) → Json → Result String
  entry_id name index (obj fs) = do
    require (is_empty (missing_fields fs)) (missing_problem name index (missing_fields fs))
    require (is_true (get "required" fs))
        (name <> ":" <> text_of p (get "id" fs) <> " required may not be weakened")
    require (all (λ key. is_not_blank (text_of p (get key fs))) text_fields)
        (name <> ":" <> text_of p (get "id" fs) <> " contains an empty field")
    ok (text_of p (get "id" fs))
  entry_id name index (str s) = err (controller_error (missing_problem name index required_fields))
  entry_id name index (arr vs) =
      let missing = difference required_fields (texts_in (items vs)) in
      if all is_hashable (items vs) && not (is_empty missing)
      then err (controller_error (missing_problem name index missing))
      else err type_error
  entry_id name index _ = err type_error

  unfoldable pub entry_ids : (name : String) (index : ℕ) → List Json → Result (List String)
  unfolding entry_id
  entry_ids name index [] = ok []
  entry_ids name index (v ∷ vs) = do
    i ← entry_id name index v
    is ← entry_ids name (suc index) vs
    ok (i ∷ is)

  -- `implemented_ids is None`, or the two sets are equal.
  abbrev pub require_no_drift : String → List String → Option (List String) → Result (Unit {0})
  require_no_drift name ids none = ok tt
  require_no_drift name ids (some implemented) = require (same_set ids implemented) (
      name
      <> ": registry/implementation drift missing="
      <> listed p (difference ids implemented)
      <> " unknown="
      <> listed p (difference implemented ids))

  -- `sha256_text(path.read_text())`
  abbrev pub text_hash : String → Result String
  text_hash path = elim (p.read_text path) [
    | unreadable ↦ err os_error
    | undecodable ↦ err value_error
    | readable text ↦ ok (sha256_text p text)
  ]

  unfoldable pub validate_registry : String → Option (List String) → Result RegistryResult
  unfolding load_registry entries_of entry_ids
  validate_registry name implemented = do
    document ← load_registry name
    fs ← as_fields document
    require (eq (get "schema_version" fs) (int (pos 1))) (name <> ": schema_version must be 1")
    (_, entries) ← entries_of document
    ids ← entry_ids name 0 entries
    require (all_distinct ids) (name <> ": duplicate IDs")
    require_no_drift name ids implemented
    hash ← text_hash (registry_dir <> name)
    ok (record { ids = ids; sha256 = hash })

  -- `item[key]`
  abbrev pub item_at : String → Fields → Result Json
  item_at key fs = elim (find key fs) [ none ↦ err key_error | some v ↦ ok v ]

  -- `tuple(str(item[key]) for item in entries)`; an item that is no dict raises.
  unfoldable pub column : String → List Json → Result (List String)
  column key [] = ok []
  column key (obj fs ∷ vs) = do v ← item_at key fs; rest ← column key vs; ok (text_of p v ∷ rest)
  column key (_ ∷ vs) = err type_error

  unfoldable pub required_check_names : Result (List String)
  unfolding load_registry entries_of column
  required_check_names = do
    document ← load_registry "required-checks.yml"
    (_, entries) ← entries_of document
    column "check_name" entries

  unfoldable pub organizer_logins : Result (List String)
  unfolding load_registry entries_of column
  organizer_logins = do
    document ← load_registry "organizer-allowlist.yml"
    (_, entries) ← entries_of document
    column "github_login" entries
