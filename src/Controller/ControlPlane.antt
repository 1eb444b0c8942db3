-- ===== src/Controller/ControlPlane.antt =====
-- `validate_control_plane` of scripts/ai_controller/core.py.
pub mod Aligned
pub mod Denylist
use Prim.Native.String.{String}
use toi_no_mori_mvs.Common.{
  Bool, List, [], all, false, if◌then◌else◌, is_empty, none, not, same_set,
}
use toi_no_mori_mvs.Common.{some, sorted_set, str_eq, true, ◌&&◌, ◌<>◌, ◌∷◌}
use toi_no_mori_mvs.Controller.Constants.{
  control_plane_deny_files, control_plane_denylist, gate_ids, precondition_ids,
}
use toi_no_mori_mvs.Controller.Constants.{stop_ids, stop_implementations}
use toi_no_mori_mvs.Controller.Decision.{Entries, empty, entry, implementation, json}
use toi_no_mori_mvs.Controller.Registry.{
  RegistryResult, as_fields, entries_of, listed, load_registry, validate_registry,
}
use toi_no_mori_mvs.Controller.Registry.Execution.{
  Alignment, check_entry, check_registry_execution, select,
}
use toi_no_mori_mvs.Controller.Schema.{approved_schemas}
use toi_no_mori_mvs.Controller.Schema.Approved.{load_approved_schema, schema_dir}
use toi_no_mori_mvs.Python.Canonical.{text_of}
use toi_no_mori_mvs.Python.Json.{Json, entries, eq, get, items, str}
use toi_no_mori_mvs.Python.Platform.{Platform}
use toi_no_mori_mvs.Python.Result.{Result, ok, require, ◌>>=◌, ◌>>◌}

-- `str(item.get("path"))` of the items of one kind.
unfoldable pub declared_paths : Platform → (kind : String) → List Json → Result (List String)
declared_paths p kind [] = ok []
declared_paths p kind (item ∷ items) = do
  fs ← as_fields item
  rest ← declared_paths p kind items
  ok (if eq (get "kind" fs) (str kind) then text_of p (get "path" fs) ∷ rest else rest)

-- `d[key] = value`, in a dict of texts.
abbrev pub assign : (key value : String) → List (String × String) → List (String × String)
assign key value [] = (key, value) ∷ []
assign key value ((k, v) ∷ rest) =
    let later = assign key value rest in if str_eq key k then (k, value) ∷ rest else (k, v) ∷ later

-- `{str(item.get("id")): str(item.get("implemented_by")) for item in stop_entries}`
unfoldable pub declared_implementations :
    Platform → List Json → List (String × String) → Result (List (String × String))
declared_implementations p [] built = ok built
declared_implementations p (item ∷ items) built = do
  fs ← as_fields item
  declared_implementations p items
      (assign (text_of p (get "id" fs)) (text_of p (get "implemented_by" fs)) built)

abbrev pub names : List (String × String) → List String
names [] = []
names ((k, v) ∷ rest) = k ∷ names rest

-- `d.get(key) == value` for a dict of texts.
abbrev pub maps_to : List (String × String) → String × String → Bool
maps_to [] (key, value) = false
maps_to ((k, v) ∷ rest) (key, value) =
    if str_eq key k then str_eq v value else maps_to rest (key, value)

-- `==` of two dicts of texts.
abbrev pub same_dict : (built expected : List (String × String)) → Bool
same_dict built expected = same_set (names built) (names expected) && all (maps_to built) expected

-- `{identifier: {"result": "GREEN", "evidence": implementation} …}`
abbrev pub executed_implementations : List (String × String) → Entries
executed_implementations [] = empty
executed_implementations ((i, implementation) ∷ rest) =
    entry i (check_entry true (json (str implementation))) (executed_implementations rest)

abbrev pub is_missing : Platform → String → Bool
is_missing p name = not (p.is_file (schema_dir <> name))

-- What the self-check returns.
pub record ControlPlane : Type 0 where
  pub gate_checks : RegistryResult
  pub work_order_preconditions : RegistryResult
  pub stop_conditions : RegistryResult
  pub required_checks : RegistryResult
  pub finding_ids : RegistryResult
  pub organizer_allowlist : RegistryResult
  pub manufacturing_denylist : RegistryResult
  pub stop_alignment : Alignment
  pub schemas : List String
  pub schema_ids : List String

-- `APPROVED_SCHEMAS[name]` for names that it has.
abbrev pub ids_of : List String → List String
ids_of [] = []
ids_of (name ∷ rest) = implementation name approved_schemas ∷ ids_of rest

module _ (p : Platform) where
  -- The deny list of the registry is the one of the source.
  unfoldable pub check_denylist : Result (Unit {0})
  check_denylist = do
    document ← load_registry p "manufacturing-denylist.yml"
    (_, entries) ← entries_of document
    prefixes ← declared_paths p "prefix" entries
    files ← declared_paths p "file" entries
    require (same_set prefixes control_plane_denylist && same_set files control_plane_deny_files)
        "manufacturing denylist registry/implementation drift"

  unfoldable pub check_implementations : Result (Unit {0})
  check_implementations = do
    document ← load_registry p "stop-conditions.yml"
    (_, entries) ← entries_of document
    declared ← declared_implementations p entries []
    require (same_dict declared stop_implementations) "STOP registry/implementation drift"

  -- The loop over the schemas; the order in which a Python set gives them is left open there.
  unfoldable pub load_all : List String → Result (Unit {0})
  load_all [] = ok tt
  load_all (name ∷ rest) = load_approved_schema p name >>= (λ _. load_all rest)

  unfoldable pub validate_control_plane : Result ControlPlane
  unfolding sorted_set
  validate_control_plane = do
    gates ← validate_registry p "gate-checks.yml" (some gate_ids)
    preconditions ← validate_registry p "work-order-preconditions.yml" (some precondition_ids)
    stops ← validate_registry p "stop-conditions.yml" (some stop_ids)
    checks ← validate_registry p "required-checks.yml" none
    findings ← validate_registry p "finding-ids.yml" none
    organizers ← validate_registry p "organizer-allowlist.yml" none
    denylist ← validate_registry p "manufacturing-denylist.yml" none
    check_denylist
    check_implementations
    alignment ←
        check_registry_execution p "stop-conditions.yml" (names stop_implementations)
          (executed_implementations stop_implementations)
    let schemas = sorted_set (names approved_schemas)
    let missing = select (is_missing p) schemas
    require (is_empty missing) ("missing schemas: " <> listed p missing)
    load_all schemas
    ok (record {
      gate_checks = gates;
      work_order_preconditions = preconditions;
      stop_conditions = stops;
      required_checks = checks;
      finding_ids = findings;
      organizer_allowlist = organizers;
      manufacturing_denylist = denylist;
      stop_alignment = alignment;
      schemas = schemas;
      schema_ids = ids_of schemas;
    })
