-- ===== src/Failover/Sensitive.antt =====
-- `require` and `reject_sensitive_keys` of scripts/dr/seal-failover-evidence.py.
use Prim.Native.Char.{code}
use Prim.Native.String.{String, [], ◌∷◌}
use toi_no_mori_mvs.Common.{
  [], Bool, List, any, contains_text, false, if◌then◌else◌, not, suc, true,
}
use toi_no_mori_mvs.Common.{ℕ, ◌&&◌, ◌<>◌, ◌==◌, ◌∷◌}
use toi_no_mori_mvs.Python.Canonical.{decimal}
use toi_no_mori_mvs.Python.Json.{Fields, Items, Json, arr, cons, end, field, nil, obj, str}
use toi_no_mori_mvs.Python.Platform.{Platform}
use toi_no_mori_mvs.Python.Result.{Result, err, ok, validation_error, ◌>>◌}

-- `if not condition: raise EvidenceValidationError(message)`
abbrev pub require_valid : (condition : Bool) (message : String) → Result (Unit {0})
require_valid false message = err (validation_error message)
require_valid true message = ok tt

abbrev pub denied_key_parts : List String
denied_key_parts =
    "password" ∷ "secret" ∷ "token" ∷ "cookie" ∷ "credential" ∷ "connectionstring" ∷ "privatekey"
    ∷ []

-- `s.replace("_", "")`
unfoldable pub without_underscores : String → String
without_underscores [] = []
without_underscores (c ∷ s) =
    let rest = without_underscores s in if code c == b'_' then rest else c ∷ rest

module _ (p : Platform) where
  -- `any(part in folded for part in DENIED_KEY_PARTS)`
  unfoldable pub is_sensitive : String → Bool
  unfolding without_underscores contains_text
  is_sensitive key =
      let folded = p.lower (without_underscores key) in
      any (λ denied. contains_text denied folded) denied_key_parts

  -- `"Host=" not in value and "Password=" not in value`
  unfoldable pub is_plain : String → Bool
  unfolding contains_text
  is_plain value = not (contains_text "Host=" value) && not (contains_text "Password=" value)

  unfoldable mutual
    unfolding is_sensitive is_plain

    pub reject_sensitive_keys : Json → (path : String) → Result (Unit {0})
    reject_sensitive_keys (obj fs) path = reject_in_fields fs path
    reject_sensitive_keys (arr vs) path = reject_in_items vs 0 path
    reject_sensitive_keys (str s) path =
        require_valid (is_plain s) ("connection material is forbidden at " <> path)
    reject_sensitive_keys _ path = ok tt

    pub reject_in_fields : Fields → (path : String) → Result (Unit {0})
    reject_in_fields end path = ok tt
    reject_in_fields (field k v fs) path =
        require_valid (not (is_sensitive k))
          ("sensitive key is forbidden at " <> (path <> ("." <> k)))
        >> (reject_sensitive_keys v (path <> ("." <> k)) >> reject_in_fields fs path)

    pub reject_in_items : Items → (index : ℕ) (path : String) → Result (Unit {0})
    reject_in_items nil index path = ok tt
    reject_in_items (cons v vs) index path =
        reject_sensitive_keys v (path <> ("[" <> (decimal index <> "]")))
        >> reject_in_items vs (suc index) path
