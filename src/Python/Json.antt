-- ===== src/Python/Json.antt =====
-- The values that `json.loads` returns, with the operations on them that the sources use.
use toi_no_mori_mvs.Common.{Bool, true, false, String, List, [], ◌∷◌, Option, none, some}
use toi_no_mori_mvs.Common.{length, ◌&&◌, ◌==◌, str_eq, if◌then◌else◌, ◌≡◌}
use toi_no_mori_mvs.Common.{eq_iff, ap}
use toi_no_mori_mvs.Python.Numbers.{ℤ, pos, Float, of_int, float_eq}

mutual
  pub data Json : Type 0 where
    null : Json
    bool : Bool → Json
    int : ℤ → Json
    float : Float → Json
    str : String → Json
    arr : Items → Json
    obj : Fields → Json

  pub data Items : Type 0 where
    nil : Items
    cons : Json → Items → Items

  pub data Fields : Type 0 where
    end : Fields
    field : String → Json → Fields → Fields

abbrev pub items : Items → List Json
items nil = []
items (cons v vs) = v ∷ items vs

abbrev pub to_items : List Json → Items
to_items [] = nil
to_items (v ∷ vs) = cons v (to_items vs)

abbrev pub entries : Fields → List (String × Json)
entries end = []
entries (field k v fs) = (k, v) ∷ entries fs

abbrev pub to_fields : List (String × Json) → Fields
to_fields [] = end
to_fields ((k, v) ∷ fs) = field k v (to_fields fs)

abbrev pub keys : Fields → List String
keys end = []
keys (field k v fs) = k ∷ keys fs

-- `d[key]`, or none where the key is missing.
abbrev pub find : String → Fields → Option Json
find key end = none
find key (field k v fs) = if str_eq key k then some v else find key fs

-- `d.get(key, default)`.
abbrev pub get_or : Json → String → Fields → Json
get_or default key end = default
get_or default key (field k v fs) = if str_eq key k then v else get_or default key fs

-- `d.get(key)`.
abbrev pub get : String → Fields → Json
get key fs = get_or null key fs

-- `key in d`.
abbrev pub has : String → Fields → Bool
has key end = false
has key (field k v fs) = if str_eq key k then true else has key fs

-- `v if isinstance(v, dict) else {}`.
abbrev pub dict_or_empty : Json → Fields
dict_or_empty (obj fs) = fs
dict_or_empty _ = end

abbrev pub is_dict : Json → Bool
is_dict (obj fs) = true
is_dict _ = false

abbrev pub is_list : Json → Bool
is_list (arr vs) = true
is_list _ = false

abbrev pub is_str : Json → Bool
is_str (str s) = true
is_str _ = false

abbrev pub is_null : Json → Bool
is_null null = true
is_null _ = false

-- `v is True` and `v is False`.
abbrev pub is_true : Json → Bool
is_true (bool b) = b
is_true _ = false

abbrev pub is_false : Json → Bool
is_false (bool b) = if b then false else true
is_false _ = false

-- The strings of a list, or none if an item is no `str`.
abbrev pub all_texts : Items → Option (List String)
all_texts nil = some []
all_texts (cons (str s) vs) = elim (all_texts vs) [ none ↦ none | some ss ↦ some (s ∷ ss) ]
all_texts (cons _ vs) = none

abbrev some_or_empty : Option (List String) → List String
some_or_empty none = []
some_or_empty (some ss) = ss

-- `v if isinstance(v, list) and all(isinstance(item, str) for item in v) else []`.
abbrev pub texts_or_empty : Json → List String
texts_or_empty (arr vs) = some_or_empty (all_texts vs)
texts_or_empty _ = []

-- `[item for item in v if isinstance(item, dict)] if isinstance(v, list) else []`.
abbrev pub dicts : Items → List Fields
dicts nil = []
dicts (cons (obj fs) vs) = fs ∷ dicts vs
dicts (cons _ vs) = dicts vs

abbrev pub dicts_or_empty : Json → List Fields
dicts_or_empty (arr vs) = dicts vs
dicts_or_empty _ = []

-- `bool(v)`.
abbrev pub truthy : Json → Bool
truthy null = false
truthy (bool b) = b
truthy (int z) = if float_eq (of_int z) (of_int (pos 0)) then false else true
truthy (float f) = if float_eq f (of_int (pos 0)) then false else true
truthy (str s) = if str_eq s "" then false else true
truthy (arr nil) = false
truthy (arr (cons v vs)) = true
truthy (obj end) = false
truthy (obj (field k v fs)) = true

-- The value of a number; Python's `bool` is an `int`.
abbrev pub number : Json → Option Float
number (bool true) = some (of_int (pos 1))
number (bool false) = some (of_int (pos 0))
number (int z) = some (of_int z)
number (float f) = some f
number _ = none

abbrev numbers_equal : Float → Option Float → Bool
numbers_equal f none = false
numbers_equal f (some g) = float_eq f g

abbrev holds : (Json → Bool) → Option Json → Bool
holds p none = false
holds p (some v) = p v

-- `a == b`.
unfoldable mutual
  pub eq : Json → Json → Bool
  eq null null = true
  eq (str s) (str t) = str_eq s t
  eq (bool true) w = numbers_equal (of_int (pos 1)) (number w)
  eq (bool false) w = numbers_equal (of_int (pos 0)) (number w)
  eq (int z) w = numbers_equal (of_int z) (number w)
  eq (float f) w = numbers_equal f (number w)
  eq (arr vs) (arr ws) = eq_items vs ws
  eq (obj fs) (obj gs) = (length (entries fs) == length (entries gs)) && eq_fields fs gs
  eq _ _ = false

  pub eq_items : Items → Items → Bool
  eq_items nil nil = true
  eq_items (cons v vs) (cons w ws) = eq v w && eq_items vs ws
  eq_items _ _ = false

  pub eq_fields : Fields → Fields → Bool
  eq_fields end gs = true
  eq_fields (field k v fs) gs = holds (eq v) (find k gs) && eq_fields fs gs

-- A value equals a text only if it is that text.
pub eq-str : (v : Json) (s : String) → eq v (str s) ≡ true → v ≡ str s
unfolding eq
eq-str (str t) s h = ap str ((eq_iff t s).0 h)
eq-str (bool true) s h = cc
eq-str (bool false) s h = cc
eq-str _ s h = cc
