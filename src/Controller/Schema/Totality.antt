-- ===== src/Controller/Schema/Totality.antt =====
-- Validation against a schema that `validate_schema_definition` let through does not raise.
use Prim.Native.String.{String}
use toi_no_mori_mvs.Common.{
  Bool, Bool-cases, List, Option, [], arith, false, inl, inr, none, not, refl,
}
use toi_no_mori_mvs.Common.{some, str_eq, suc, true, ℕ, ◌&&◌, ◌++◌, ◌∷◌, ◌≡◌}
use toi_no_mori_mvs.Controller.Schema.Definition.{
  unless_null, validate_schema_definition, walk, walk_children, walk_each,
}
use toi_no_mori_mvs.Controller.Schema.Definition.{walk_items, walk_properties}
use toi_no_mori_mvs.Controller.Schema.Instance.{
  at_index, at_name, child_errors, each_errors, element_errors, if_has, over_items,
}
use toi_no_mori_mvs.Controller.Schema.Instance.{property_errors, then_errors, validate_instance}
use toi_no_mori_mvs.Controller.Schema.Nodes.{check_node_sound, is_not_null_at, node_Returns}
use toi_no_mori_mvs.Python.Json.{
  Fields, Items, Json, cons, end, field, find, get_or, is_dict, is_null, nil,
}
use toi_no_mori_mvs.Python.Json.{null, obj}
use toi_no_mori_mvs.Python.Platform.{Platform}
use toi_no_mori_mvs.Python.Result.{>>-eq-ok, >>=-Returns, Result, Returns, Returns-ok, ok}

-- No schema in the tree sets `properties`, `required`, `enum` or `items` to `None`.
unfoldable mutual
  pub has_no_null_keyword : Json → Bool
  has_no_null_keyword (obj node) =
      is_not_null_at "properties" node
      && is_not_null_at "required" node
      && is_not_null_at "enum" node
      && is_not_null_at "items" node
      && properties_have_none node
      && items_have_none node
  has_no_null_keyword _ = true

  pub properties_have_none : Fields → Bool
  properties_have_none end = true
  properties_have_none (field k v fs) = elim (str_eq "properties" k) [
    | true ↦ children_have_none v
    | false ↦ properties_have_none fs
  ]

  pub children_have_none : Json → Bool
  children_have_none (obj children) = each_has_none children
  children_have_none _ = true

  pub each_has_none : Fields → Bool
  each_has_none end = true
  each_has_none (field name child rest) = has_no_null_keyword child && each_has_none rest

  pub items_have_none : Fields → Bool
  items_have_none end = true
  items_have_none (field k v fs) = elim (str_eq "items" k) [
    | true ↦ has_no_null_keyword v
    | false ↦ items_have_none fs
  ]

not_null : (v : Json) → not (is_null v) ≡ true → is_null v ≡ false
not_null v h = ground arith

six :
    (a b c d e f : Bool)
    → (a && b && c && d && e && f) ≡ true
    → (a ≡ true) × (b ≡ true) × (c ≡ true) × (d ≡ true) × (e ≡ true) × (f ≡ true)
six a b c d e f h = ground arith

both : (a b : Bool) → (a && b) ≡ true → (a ≡ true) × (b ≡ true)
both a b h = ground arith

then_Returns :
    (first second : Result (List String))
    → Returns first
    → Returns second
    → Returns (then_errors first second)
then_Returns first second h k = >>=-Returns first _ h (λ _ _. >>=-Returns second _ k (λ _ _. tt))

if_has-Returns :
    (f : Json → Result (List String)) (o : Option Json)
    → ((v : Json) → Returns (f v))
    → Returns (if_has f o)
if_has-Returns f none h = tt
if_has-Returns f (some v) h = h v

over_items-Returns :
    (f : Json → String → Result (List String))
    → ((v : Json) (location : String) → Returns (f v location))
    → (index : ℕ) (vs : Items) (location : String) → Returns (over_items f index vs location)
unfolding over_items
over_items-Returns f h index nil location = tt
over_items-Returns f h index (cons v vs) location =
    then_Returns (f v (at_index location index)) (over_items f (suc index) vs location)
      (h v (at_index location index)) (over_items-Returns f h (suc index) vs location)

walked :
    (v : Json) {r : Result (Unit {0})} → is_null v ≡ false → unless_null v r ≡ ok tt → r ≡ ok tt
walked null m h = cc
walked _ m h = h

module _ (p : Platform) (expected_id : Option String) where
  children_dict :
      (v : Json) (path : List String)
      → walk_children p expected_id v path ≡ ok tt
      → is_null v ≡ false
      → (gs : Fields) × (v ≡ obj gs)
  unfolding walk
  children_dict (obj gs) path h n = (gs, refl)
  children_dict null path h n = cc
  children_dict _ path h n = cc

  -- The `properties` of a node that was walked are a dict.
  properties_dict :
      (node : Fields) (path : List String)
      → walk_properties p expected_id node path ≡ ok tt
      → is_not_null_at "properties" node ≡ true
      → (gs : Fields) × (get_or (obj end) "properties" node ≡ obj gs)
  unfolding walk
  properties_dict end path h n = (end, refl)
  properties_dict (field k v fs) path h n = elim (Bool-cases (str_eq "properties" k)) [
    | inl here ↦
        rw here (children_dict v path (rw (here, walk_properties) at h) (not_null v (rw here at n)))
    | inr later ↦
        rw later (properties_dict fs path (rw (later, walk_properties) at h) (rw later at n))
  ]

  mutual
    unfolding walk has_no_null_keyword validate_instance

    validate_Returns :
        (schema : Json) (path : List String) (value : Json) (location : String)
        → walk p expected_id schema path ≡ ok tt
        → has_no_null_keyword schema ≡ true
        → Returns (validate_instance p schema value location)
    validate_Returns (obj node) path value location h n =
        let (checked, props, elems) =
          check_node_sound p expected_id (walk_properties p expected_id node)
            (walk_items p expected_id node) node path h in
        let (props_set, required_set, enum_set, items_set, props_none, items_none) =
          six _ _ _ _ _ _ n in
        let (gs, is_dict) = properties_dict node path props props_set in
        node_Returns p expected_id node gs path checked required_set enum_set is_dict
          (property_errors p node) (element_errors p node)
          (λ v l. property_Returns node path v l props props_set props_none)
          (λ vs l. element_Returns node path vs l elems items_set items_none) value location
    validate_Returns _ path value location h n = cc

    property_Returns :
        (node : Fields) (path : List String) (value : Fields) (location : String)
        → walk_properties p expected_id node path ≡ ok tt
        → is_not_null_at "properties" node ≡ true
        → properties_have_none node ≡ true
        → Returns (property_errors p node value location)
    property_Returns end path value location h m n = tt
    property_Returns (field k v fs) path value location h m n =
        elim (Bool-cases (str_eq "properties" k)) [
          | inl here ↦
              rw (here, property_errors)
                (child_Returns v path value location (rw (here, walk_properties) at h)
                  (not_null v (rw here at m)) (rw (here, properties_have_none) at n))
          | inr later ↦
              rw (later, property_errors)
                (property_Returns fs path value location (rw (later, walk_properties) at h)
                  (rw later at m) (rw (later, properties_have_none) at n))
        ]

    child_Returns :
        (v : Json) (path : List String) (value : Fields) (location : String)
        → walk_children p expected_id v path ≡ ok tt
        → is_null v ≡ false
        → children_have_none v ≡ true
        → Returns (child_errors p v value location)
    child_Returns (obj children) path value location h m n =
        each_Returns children path value location h n
    child_Returns null path value location h m n = cc
    child_Returns _ path value location h m n = cc

    each_Returns :
        (children : Fields) (path : List String) (value : Fields) (location : String)
        → walk_each p expected_id children path ≡ ok tt
        → each_has_none children ≡ true
        → Returns (each_errors p children value location)
    each_Returns end path value location h n = tt
    each_Returns (field name child rest) path value location h n =
        let clean = both (has_no_null_keyword child) (each_has_none rest) n in
        let (first, others) =
          >>-eq-ok (walk p expected_id child (path ++ "properties" ∷ name ∷ [])) _ h in
        then_Returns _ _
          (if_has-Returns _ (find name value) (λ v.
            validate_Returns child (path ++ "properties" ∷ name ∷ []) v (at_name location name)
              first clean.0))
          (each_Returns rest path value location others clean.1)

    element_Returns :
        (node : Fields) (path : List String) (vs : Items) (location : String)
        → walk_items p expected_id node path ≡ ok tt
        → is_not_null_at "items" node ≡ true
        → items_have_none node ≡ true
        → Returns (element_errors p node vs location)
    element_Returns end path vs location h m n = tt
    element_Returns (field k v fs) path vs location h m n = elim (Bool-cases (str_eq "items" k)) [
      | inl here ↦
          rw (here, element_errors)
            (over_items-Returns (validate_instance p v)
              (λ w l.
                validate_Returns v (path ++ "items" ∷ []) w l
                  (walked v (not_null v (rw here at m)) (rw (here, walk_items) at h))
                  (rw (here, items_have_none) at n))
              0 vs location)
      | inr later ↦
          rw (later, element_errors)
            (element_Returns fs path vs location (rw (later, walk_items) at h) (rw later at m)
              (rw (later, items_have_none) at n))
    ]

  -- Whatever the document, validating it against a schema that `validate_schema_definition` has let
  -- through returns a list of errors and raises nothing, if the schema sets none of `properties`,
  -- `required`, `enum` and `items` to `None`.
  pub validate_instance_total :
      (schema value : Json) (location : String)
      → validate_schema_definition p expected_id schema ≡ ok tt
      → has_no_null_keyword schema ≡ true
      → (errors : List String) × (validate_instance p schema value location ≡ ok errors)
  unfolding validate_schema_definition
  validate_instance_total schema value location h n =
      Returns-ok _ (validate_Returns schema [] value location h n)
