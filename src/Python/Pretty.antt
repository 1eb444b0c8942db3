-- ===== src/Python/Pretty.antt =====
-- `json.dumps(value, ensure_ascii=False, indent=2)`, with and without `sort_keys=True`.
use Prim.Native.String.{String}
use toi_no_mori_mvs.Common.{Bool, List, [], if◌then◌else◌, suc, zero, ℕ, ◌<>◌, ◌∷◌}
use toi_no_mori_mvs.Controller.WorkOrder.{part}
use toi_no_mori_mvs.Python.Canonical.{canonical_json, quote, sort_entries}
use toi_no_mori_mvs.Python.Json.{Fields, Items, Json, arr, cons, end, field, nil, obj}
use toi_no_mori_mvs.Python.Platform.{Platform}

-- A line break and the spaces of a level.
abbrev line_break : ℕ → String
line_break zero = "\n"
line_break (suc level) = line_break level <> "  "

-- `separator.join(parts)`
unfoldable pub join : (separator : String) → List String → String
join separator [] = ""
join separator (x ∷ []) = x
join separator (x ∷ y ∷ ys) = x <> (separator <> join separator (y ∷ ys))

-- The parts of a list or dict between its brackets, each on a line of its own.
abbrev bracketed : (first last : String) → ℕ → List String → String
bracketed first last level [] = first <> last
bracketed first last level (part ∷ parts) =
    first
    <> (line_break (suc level)
        <> (join ("," <> line_break (suc level)) (part ∷ parts) <> (line_break level <> last)))

abbrev key_texts : List (String × String) → List String
key_texts [] = []
key_texts ((k, text) ∷ rest) = (quote k <> (": " <> text)) ∷ key_texts rest

module _ (p : Platform) (sort_keys : Bool) where
  unfoldable mutual
    pub dumps : (level : ℕ) → Json → String
    dumps level (arr vs) = bracketed "[" "]" level (dumps_items (suc level) vs)
    dumps level (obj fs) =
        let texts = dumps_fields (suc level) fs in
        bracketed "{" "}" level (key_texts (if sort_keys then sort_entries texts else texts))
    dumps level v = canonical_json p v

    pub dumps_items : (level : ℕ) → Items → List String
    dumps_items level nil = []
    dumps_items level (cons v vs) = dumps level v ∷ dumps_items level vs

    pub dumps_fields : (level : ℕ) → Fields → List (String × String)
    dumps_fields level end = []
    dumps_fields level (field k v fs) = (k, dumps level v) ∷ dumps_fields level fs
