-- ===== src/Controller/Schema/Nodes.antt =====
-- A schema node whose checks have passed, and whose children return, returns on every document.
use Prim.Native.String.{String}
use toi_no_mori_mvs.Common.{
  Bool, Bool-cases, List, Option, any, ap, inl, inr, is_empty, length, not,
}
use toi_no_mori_mvs.Common.{size, subst, sym, true, ◌&&◌, ◌<>◌, ◌∙◌, ◌≡◌}
use toi_no_mori_mvs.Controller.Schema.{
  is_bool, is_json_integer, iterate, json_type_matches, key_values, schema_types,
}
use toi_no_mori_mvs.Controller.Schema.Definition.{
  check_bound, check_declared, check_enum, check_keywords, check_metadata,
}
use toi_no_mori_mvs.Controller.Schema.Definition.{
  check_middle, check_node, check_pattern, check_required, check_size, check_tail,
}
use toi_no_mori_mvs.Controller.Schema.Definition.{exceeds, if_present}
use toi_no_mori_mvs.Controller.Schema.Instance.{
  additional_errors, bound_errors, check_enum_value, dict_errors, integer_errors,
}
use toi_no_mori_mvs.Controller.Schema.Instance.{
  length_errors, less, list_errors, matched_errors, node_errors, pattern_errors,
}
use toi_no_mori_mvs.Controller.Schema.Instance.{require_hashable, required_errors, text_errors}
use toi_no_mori_mvs.Controller.Schema.Keywords.{
  bound_Returns, default_to, enum_Returns, get_or-find, pattern_Returns, required_Returns,
}
use toi_no_mori_mvs.Controller.Schema.Keywords.{size_Returns, types_of-Returns}
use toi_no_mori_mvs.Python.Json.{
  Fields, Items, Json, arr, end, field, find, get, get_or, int, is_false, is_null,
}
use toi_no_mori_mvs.Python.Json.{items, nil, null, number, obj, str}
use toi_no_mori_mvs.Python.Numbers.{pos}
use toi_no_mori_mvs.Python.Platform.{Platform}
use toi_no_mori_mvs.Python.Result.{
  >>-eq-ok, >>=-Returns, >>=-Returns_inv, Result, Returns, Returns-of_eq, ok,
}
use toi_no_mori_mvs.Python.Result.{ok_injective, require->>}

-- The value of a key is not `None`.
abbrev pub is_not_null_at : String → Fields → Bool
is_not_null_at key fs = if_present (λ v. not (is_null v)) (find key fs)

module _ (p : Platform) (expected_id : Option String) where
  -- The results of the checks of one node that its use on a document relies on.
  pub record IsChecked (node : Fields) (path : List String) : Type 0 where
    pub declared : check_declared p expected_id (get "type" node) path ≡ ok tt
    pub required :
        check_required p expected_id (get "properties" node) (get "required" node) path ≡ ok tt
    pub choices : check_enum p expected_id (get "enum" node) path ≡ ok tt
    pub min_length : check_size p expected_id "minLength" node path ≡ ok tt
    pub min_items : check_size p expected_id "minItems" node path ≡ ok tt
    pub minimum : check_bound p expected_id "minimum" (find "minimum" node) path ≡ ok tt
    pub maximum : check_bound p expected_id "maximum" (find "maximum" node) path ≡ ok tt
    pub pattern_ok : check_pattern p expected_id (find "pattern" node) path ≡ ok tt

  middle_and_tail :
      (node : Fields) (path : List String)
      → check_declared p expected_id (get "type" node) path ≡ ok tt
      → check_middle p expected_id node path ≡ ok tt
      → check_tail p expected_id node path ≡ ok tt
      → IsChecked node path
  unfolding check_middle check_tail
  middle_and_tail node path declared middle last =
      let (required, m₁) =
        >>-eq-ok (check_required p expected_id (get "properties" node) (get "required" node) path) _
          middle in
      let (_, choices) =
        require->> (if_present is_bool (find "additionalProperties" node)) _ _ m₁ in
      let (min_length, t₁) = >>-eq-ok (check_size p expected_id "minLength" node path) _ last in
      let (min_items, t₂) = >>-eq-ok (check_size p expected_id "minItems" node path) _ t₁ in
      let (minimum, t₃) =
        >>-eq-ok (check_bound p expected_id "minimum" (find "minimum" node) path) _ t₂ in
      let (maximum, t₄) =
        >>-eq-ok (check_bound p expected_id "maximum" (find "maximum" node) path) _ t₃ in
      let (_, t₅) =
        require->> (not (exceeds (number (get "minimum" node)) (number (get "maximum" node)))) _ _
          t₄ in
      let (_, t₆) = require->> (if_present is_bool (find "uniqueItems" node)) _ _ t₅ in
      let (pattern_ok, _) =
        >>-eq-ok (check_pattern p expected_id (find "pattern" node) path) _ t₆ in
      record {
        declared = declared;
        required = required;
        choices = choices;
        min_length = min_length;
        min_items = min_items;
        minimum = minimum;
        maximum = maximum;
        pattern_ok = pattern_ok;
      }

  pub check_node_sound :
      (properties items : List String → Result (Unit {0})) (node : Fields) (path : List String)
      → check_node p expected_id properties items node path ≡ ok tt
      → IsChecked node path × (properties path ≡ ok tt) × (items path ≡ ok tt)
  unfolding check_node
  check_node_sound properties items node path h =
      let (_, h₁) = >>-eq-ok (check_keywords p expected_id node path) _ h in
      let (_, h₂) = >>-eq-ok (check_metadata p expected_id node path) _ h₁ in
      let (declared, h₃) = >>-eq-ok (check_declared p expected_id (get "type" node) path) _ h₂ in
      let (props, h₄) = >>-eq-ok (properties path) _ h₃ in
      let (middle, h₅) = >>-eq-ok (check_middle p expected_id node path) _ h₄ in
      let (elements, last) = >>-eq-ok (items path) _ h₅ in
      (middle_and_tail node path declared middle last, props, elements)

  key_values-hashable : (gs : Fields) → Returns (require_hashable (key_values gs))
  key_values-hashable end = tt
  key_values-hashable (field k v gs) = key_values-hashable gs

  additional_Returns :
      (allow : Json) (gs value : Fields) (location : String)
      → Returns (additional_errors p allow (obj gs) value location)
  unfolding additional_errors
  additional_Returns allow gs value location = elim (Bool-cases (is_false allow)) [
    | inl closed ↦
        rw closed
          (>>=-Returns (require_hashable (key_values gs)) _ (key_values-hashable gs) (λ _ _. tt))
    | inr open_ ↦ rw open_ tt
  ]

  -- A node whose children return on every document returns on every document.
  module _ (node gs : Fields) (path : List String) (c : IsChecked node path)
      (required_set : is_not_null_at "required" node ≡ true)
      (enum_set : is_not_null_at "enum" node ≡ true)
      (properties_dict : get_or (obj end) "properties" node ≡ obj gs)
      (children : Fields → String → Result (List String))
      (elements : Items → String → Result (List String))
      (children_return : (value : Fields) (location : String) → Returns (children value location))
      (elements_return : (vs : Items) (location : String) → Returns (elements vs location)) where
    dict_Returns :
        (value : Json) (location : String) → Returns (dict_errors p children node value location)
    unfolding dict_errors
    dict_Returns (obj value) location =
        let (names, e, total) =
          >>=-Returns_inv (iterate (default_to (arr nil) (find "required" node))) _ (
            required_Returns p expected_id path (get "properties" node) (find "required" node) value
              location
              (subst (λ v. check_required p expected_id (get "properties" node) v path ≡ ok tt)
                (get_or-find null "required" node) c.required)
              required_set) in
        >>=-Returns (iterate (get_or (arr nil) "required" node)) _
          (Returns-of_eq (ap iterate (get_or-find (arr nil) "required" node) ∙ e))
          λ names' e'.
            let same : names ≡ names' =
              ok_injective
                (sym e ∙ sym (ap iterate (get_or-find (arr nil) "required" node)) ∙ e') in
            >>=-Returns (required_errors p names' value location) _
              (subst (λ ns. Returns (required_errors p ns value location)) same total)
              λ missing _.
                >>=-Returns
                  (additional_errors p (get "additionalProperties" node)
                    (get_or (obj end) "properties" node) value location)
                  _
                  (rw properties_dict
                    (additional_Returns (get "additionalProperties" node) gs value location))
                  λ extra _.
                    >>=-Returns (children value location) _ (children_return value location)
                      (λ _ _. tt)
    dict_Returns _ location = tt

    list_Returns :
        (value : Json) (location : String) → Returns (list_errors p elements node value location)
    unfolding list_errors
    list_Returns (arr vs) location =
        >>=-Returns
          (length_errors p (length (items vs)) (get_or (int (pos 0)) "minItems" node)
            (location <> ":minItems"))
          _ (size_Returns p expected_id path _ "minItems" node _ c.min_items)
          λ _ _. >>=-Returns (elements vs location) _ (elements_return vs location) (λ _ _. tt)
    list_Returns _ location = tt

    text_Returns : (value : Json) (location : String) → Returns (text_errors p node value location)
    unfolding text_errors
    text_Returns (str s) location =
        >>=-Returns
          (length_errors p (size s) (get_or (int (pos 0)) "minLength" node)
            (location <> ":minLength"))
          _ (size_Returns p expected_id path _ "minLength" node _ c.min_length)
          λ _ _.
            >>=-Returns (pattern_errors p (find "pattern" node) s location) _
              (pattern_Returns p expected_id path (find "pattern" node) s location c.pattern_ok)
              (λ _ _. tt)
    text_Returns _ location = tt

    integer_Returns :
        (value : Json) (location : String) → Returns (integer_errors p node value location)
    unfolding integer_errors
    integer_Returns value location = elim (Bool-cases (is_json_integer value)) [
      | inl whole ↦ rw whole (
          >>=-Returns (bound_errors p less (find "minimum" node) value (location <> ":minimum")) _
            (bound_Returns p expected_id path less "minimum" (find "minimum" node) value _
              (λ a b. tt) whole c.minimum)
            λ _ _.
              >>=-Returns
                (bound_errors p (λ a b. less b a) (find "maximum" node) value
                  (location <> ":maximum"))
                _
                (bound_Returns p expected_id path (λ a b. less b a) "maximum" (find "maximum" node)
                  value _ (λ a b. tt) whole c.maximum)
                (λ _ _. tt))
      | inr other ↦ rw other tt
    ]

    matched_Returns :
        (value : Json) (location : String)
        → Returns (matched_errors p children elements node value location)
    unfolding matched_errors
    matched_Returns value location =
        >>=-Returns (check_enum_value p (find "enum" node) value location) _
          (enum_Returns p expected_id path (find "enum" node) value location
            (subst (λ v. check_enum p expected_id v path ≡ ok tt) (get_or-find null "enum" node)
              c.choices)
            enum_set)
          λ _ _.
            >>=-Returns (dict_errors p children node value location) _ (dict_Returns value location)
              λ _ _.
                >>=-Returns (list_errors p elements node value location) _
                  (list_Returns value location)
                  λ _ _.
                    >>=-Returns (text_errors p node value location) _ (text_Returns value location)
                      λ _ _.
                        >>=-Returns (integer_errors p node value location) _
                          (integer_Returns value location) (λ _ _. tt)

    pub node_Returns :
        (value : Json) (location : String)
        → Returns (node_errors p children elements node value location)
    unfolding node_errors
    node_Returns value location =
        >>=-Returns (schema_types node) _
          (types_of-Returns p expected_id path (get "type" node) c.declared)
          λ types _.
            elim (Bool-cases (not (is_empty types) && not (any (json_type_matches value) types))) [
              | inl other ↦ rw other tt
              | inr fits ↦ rw fits (matched_Returns value location)
            ]
