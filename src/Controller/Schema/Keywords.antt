-- ===== src/Controller/Schema/Keywords.antt =====
-- For each keyword, that its use on a document returns where its check has passed.
use Prim.Native.String.{String}
use toi_no_mori_mvs.Common.{
  Bool, List, Option, Option-cases, [], arith, inl, inr, none, not, refl, some,
}
use toi_no_mori_mvs.Common.{true, ℕ, ◌<>◌, ◌≡◌}
use toi_no_mori_mvs.Controller.Schema.{is_json_integer, iterate, types_of}
use toi_no_mori_mvs.Controller.Schema.Definition.{
  check, check_bound, check_declared, check_enum, check_pattern, check_required,
}
use toi_no_mori_mvs.Controller.Schema.Definition.{check_size, distinct_texts, if_present, is_size}
use toi_no_mori_mvs.Controller.Schema.Instance.{
  bound_errors, check_enum_value, length_errors, pattern_errors, required_errors,
}
use toi_no_mori_mvs.Python.Json.{
  Fields, Items, Json, all_texts, arr, cons, end, field, find, float, get_or,
}
use toi_no_mori_mvs.Python.Json.{int, is_null, items, nil, null, number, obj, str}
use toi_no_mori_mvs.Python.Numbers.{Float, of_int, pos}
use toi_no_mori_mvs.Python.Platform.{Platform}
use toi_no_mori_mvs.Python.Result.{>>=-Returns, Result, Returns, ok, require->>, ◌>>=◌}

-- `d.get(key, default)` in terms of the value found.
abbrev pub default_to : Json → Option Json → Json
default_to d none = d
default_to d (some v) = v

pub get_or-find :
    (d : Json) (key : String) (fs : Fields) → get_or d key fs ≡ default_to d (find key fs)
get_or-find d key end = refl
get_or-find d key (field k v fs) = ground (arith, get_or-find d key fs)

some_of_distinct :
    (o : Option (List String)) → distinct_texts o ≡ true → (ss : List String) × (o ≡ some ss)
some_of_distinct none h = cc
some_of_distinct (some ss) h = (ss, refl)

integer_number : (v : Json) → is_json_integer v ≡ true → (f : Float) × (number v ≡ some f)
integer_number (int z) h = (of_int z, refl)
integer_number (float f) h = (f, refl)
integer_number _ h = cc

module _ (p : Platform) (expected_id : Option String) (path : List String) where
  pub types_of-Returns :
      (v : Json) → check_declared p expected_id v path ≡ ok tt → Returns (types_of v)
  unfolding check_declared
  types_of-Returns null h = tt
  types_of-Returns (str s) h = tt
  types_of-Returns (arr vs) h = tt
  types_of-Returns (obj fs) h = tt
  types_of-Returns _ h = cc

  required_errors-Returns :
      (vs : Items) (ss : List String) (value : Fields) (location : String)
      → all_texts vs ≡ some ss
      → Returns (required_errors p (items vs) value location)
  unfolding required_errors
  required_errors-Returns nil ss value location h = tt
  required_errors-Returns (cons (str s) vs) ss value location h =
      elim (Option-cases (all_texts vs)) [
        | inl missing ↦ absurd (ground arith)
        | inr (ts, found) ↦
            >>=-Returns (required_errors p (items vs) value location) _
              (required_errors-Returns vs ts value location found) (λ _ _. tt)
      ]
  required_errors-Returns (cons _ vs) ss value location h = cc

  pub required_Returns :
      (properties : Json) (o : Option Json) (value : Fields) (location : String)
      → check_required p expected_id properties (default_to null o) path ≡ ok tt
      → if_present (λ v. not (is_null v)) o ≡ true
      → Returns
          (iterate (default_to (arr nil) o) >>= λ names. required_errors p names value location)
  unfolding check_required
  required_Returns properties none value location h n =
      required_errors-Returns nil [] value location refl
  required_Returns properties (some null) value location h n = cc
  required_Returns properties (some (arr vs)) value location h n =
      let (distinct, _) = require->> (distinct_texts (all_texts vs)) _ _ h in
      let (ss, found) = some_of_distinct (all_texts vs) distinct in
      required_errors-Returns vs ss value location found
  required_Returns properties (some _) value location h n = cc

  pub enum_Returns :
      (o : Option Json) (value : Json) (location : String)
      → check_enum p expected_id (default_to null o) path ≡ ok tt
      → if_present (λ v. not (is_null v)) o ≡ true
      → Returns (check_enum_value p o value location)
  unfolding check_enum check_enum_value
  enum_Returns none value location h n = tt
  enum_Returns (some null) value location h n = cc
  enum_Returns (some (arr vs)) value location h n = tt
  enum_Returns (some _) value location h n = cc

  length_Returns :
      (n : ℕ) (o : Option Json) (error : String)
      → check (if_present is_size o) path error ≡ ok tt
      → (report : String) → Returns (length_errors p n (default_to (int (pos 0)) o) report)
  unfolding length_errors
  length_Returns n none error h report = tt
  length_Returns n (some (int z)) error h report = tt
  length_Returns n (some _) error h report = cc

  pub size_Returns :
      (n : ℕ) (keyword : String) (node : Fields) (report : String)
      → check_size p expected_id keyword node path ≡ ok tt
      → Returns (length_errors p n (get_or (int (pos 0)) keyword node) report)
  unfolding check_size
  size_Returns n keyword node report h =
      rw (get_or-find (int (pos 0)) keyword node) (
        length_Returns n (find keyword node) (keyword <> " must be a non-negative integer") h
          report)

  pub pattern_Returns :
      (o : Option Json) (value location : String)
      → check_pattern p expected_id o path ≡ ok tt
      → Returns (pattern_errors p o value location)
  unfolding check_pattern pattern_errors
  pattern_Returns none value location h = tt
  pattern_Returns (some (str s)) value location h = ground arith
  pattern_Returns (some _) value location h = cc

  -- A bound that has passed is a number.
  bound_number :
      (key : String) (v : Json)
      → check_bound p expected_id key (some v) path ≡ ok tt
      → (f : Float) × (number v ≡ some f)
  unfolding check_bound
  bound_number key (int z) h = (of_int z, refl)
  bound_number key (float f) h = (f, refl)
  bound_number key _ h = cc

  pub bound_Returns :
      (below : Option Float → Option Float → Result Bool) (key : String) (o : Option Json)
      (value : Json) (error : String)
      → ((a b : Float) → Returns (below (some a) (some b)))
      → is_json_integer value ≡ true
      → check_bound p expected_id key o path ≡ ok tt
      → Returns (bound_errors p below o value error)
  unfolding bound_errors
  bound_Returns below key none value error total whole h = tt
  bound_Returns below key (some v) value error total whole h =
      let (a, ea) = integer_number value whole in
      let (b, eb) = bound_number key v h in
      >>=-Returns (below (number value) (number v)) _ (rw (ea, eb) (total a b)) (λ _ _. tt)
