-- ===== src/Tests/Services.antt =====
-- Concrete services, a small schema, and the registries that the tests read.
use Prim.Native.String.{String}
use toi_no_mori_mvs.Common.{
  List, Option, [], if◌then◌else◌, leb, map, none, some, str_eq, true, ℕ, ◌&&◌,
}
use toi_no_mori_mvs.Common.{◌++◌, ◌-◌, ◌∷◌}
use toi_no_mori_mvs.Controller.Constants.{
  control_plane_deny_files, control_plane_denylist, gate_ids, precondition_ids,
}
use toi_no_mori_mvs.Controller.Constants.{stop_implementations}
use toi_no_mori_mvs.Controller.Decision.{implementation}
use toi_no_mori_mvs.Python.Json.{
  Fields, Items, Json, arr, bool, cons, end, field, int, nil, obj, str, to_items,
}
use toi_no_mori_mvs.Python.Numbers.{pos}
use toi_no_mori_mvs.Python.Platform.{Platform, readable}

abbrev pub sha_a : String
sha_a = "aaaaaaaaaaaaaaaaaaaaaaaaaaaaaaaaaaaaaaaa"

abbrev pub hash_0 : String
hash_0 = "0000000000000000000000000000000000000000000000000000000000000000"

abbrev pub text_list : List String → Json
text_list ss = arr (to_items (map str ss))

-- A registry entry with every field, and further ones.
abbrev full_entry : (id implementation : String) → Fields → Json
full_entry i implementation more = obj (
    field "id" (str i) (
      field "name" (str "Build") (
        field "owner" (str "Organizer") (
          field "required" (bool true) (
            field "implemented_by" (str implementation)
              (field "evidence_field" (str "build") more))))))

abbrev entries_with : (String → Fields) → List String → Items
entries_with more [] = nil
entries_with more (s ∷ ss) = cons (full_entry s "ci.yml" (more s)) (entries_with more ss)

abbrev document_of : Items → Json
document_of vs = obj (field "schema_version" (int (pos 1)) (field "entries" (arr vs) end))

-- A registry with the ids, and one text more for each.
abbrev registry : (key : String) → List String → Json
registry key ss = document_of (entries_with (λ s. field key (str s) end) ss)

abbrev plain_registry : List String → Json
plain_registry ss = document_of (entries_with (λ s. end) ss)

abbrev stop_entries : List (String × String) → Items
stop_entries [] = nil
stop_entries ((i, implementation) ∷ rest) =
    cons (full_entry i implementation end) (stop_entries rest)

abbrev path_entry : (kind : String) → String → Fields
path_entry kind path = field "kind" (str kind) (field "path" (str path) end)

abbrev deny_registry : Json
deny_registry = document_of (
    to_items (
      map (λ s. full_entry s "ci.yml" (path_entry "prefix" s)) control_plane_denylist
      ++ map (λ s. full_entry s "ci.yml" (path_entry "file" s)) control_plane_deny_files))

-- A schema for the work order: a dict whose "spec" is a dict with a list of texts.
abbrev pub order_schema : Json
order_schema = obj (
    field "$schema" (str "https://json-schema.org/draft/2020-12/schema") (
      field "$id" (str "work-order.schema.json@1") (
        field "type" (str "object") (
          field "required" (text_list ("spec" ∷ [])) (
            field "properties" (obj (field "spec" (obj (field "type" (str "object") end)) end))
              end)))))

-- A schema that any dict follows.
abbrev any_dict : (id : String) → Json
any_dict id = obj (
    field "$schema" (str "https://json-schema.org/draft/2020-12/schema")
      (field "$id" (str id) (field "type" (str "object") end)))

abbrev table : List (String × Json)
table =
    (".github/ai/registries/organizer-allowlist.yml", registry "github_login" ("owner" ∷ []))
    ∷ (".github/ai/registries/required-checks.yml", registry "check_name" ("build" ∷ "test" ∷ []))
    ∷ (".github/ai/registries/work-order-preconditions.yml", plain_registry precondition_ids)
    ∷ (".github/ai/registries/gate-checks.yml", plain_registry gate_ids)
    ∷ (".github/ai/registries/gates.yml", plain_registry ("G-1" ∷ "G-2" ∷ []))
    ∷ (".github/ai/registries/stop-conditions.yml", document_of (stop_entries stop_implementations))
    ∷ (".github/ai/registries/finding-ids.yml", plain_registry ("F-1" ∷ []))
    ∷ (".github/ai/registries/manufacturing-denylist.yml", deny_registry)
    ∷ (".github/ai/schemas/work-order.schema.json", order_schema)
    ∷ (
      ".github/ai/schemas/manufacturing-result.schema.json",
      any_dict "manufacturing-result.schema.json@3",
    )
    ∷ (".github/ai/schemas/review-request.schema.json", any_dict "review-request.schema.json@1")
    ∷ (".github/ai/schemas/technical-review.schema.json", any_dict "technical-review.schema.json@3")
    ∷ (
      ".github/ai/schemas/finding-disposition-record.schema.json",
      any_dict "finding-disposition-record.schema.json@2",
    )
    ∷ []

abbrev look_up : String → List (String × Json) → Option Json
look_up path [] = none
look_up path ((name, document) ∷ rest) =
    if str_eq path name then some document else look_up path rest

abbrev documents : String → Option Json
documents path = look_up path table

abbrev pub ascii_digit : ℕ → Option ℕ
ascii_digit n = if leb b'0' n && leb n b'9' then some (n - b'0') else none

-- Each file holds its own path, which is read as the document of that name; all hashes agree, every
-- pattern matches and every time is the same one.
abbrev pub services : Platform
services = record {
  sha256 = λ _. hash_0;
  float_repr = λ _. "0.5";
  repr = λ _. "value";
  re_compile = λ _. some (λ _. true);
  json_loads = documents;
  read_text = λ path. readable path;
  is_file = λ _. true;
  date_from_iso = λ _. some 1;
  digit_value = ascii_digit;
  lower = λ s. s;
  datetime_from_iso = λ _. some (record { local = 1000; offset = none });
}
