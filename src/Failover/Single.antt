-- ===== src/Failover/Single.antt =====
-- The constants of scripts/dr/seal-failover-evidence.py, and the sections of `validate` that look at
-- single fields.
use Prim.Native.String.{String, [], ◌∷◌}
use toi_no_mori_mvs.Common.{
  [], Bool, List, all_codes, false, leb, none, not, same_set, size, some, str_eq,
}
use toi_no_mori_mvs.Common.{true, ℕ, ◌&&◌, ◌==◌, ◌||◌, ◌∷◌}
use toi_no_mori_mvs.Failover.Sensitive.{require_valid}
use toi_no_mori_mvs.Python.Json.{
  Fields, Json, arr, bool, eq, get, int, is_false, is_true, items, keys, obj,
}
use toi_no_mori_mvs.Python.Json.{str}
use toi_no_mori_mvs.Python.Numbers.{int_eq, pos}
use toi_no_mori_mvs.Python.Platform.{DateTime}
use toi_no_mori_mvs.Python.Result.{◌>>=◌, ◌>>◌, Result, err, ok, validation_error}
use toi_no_mori_mvs.StageEvidence.Patterns.{suffix}

abbrev pub measurement_scope : String
measurement_scope = "native-local-dual-cluster-role-drill"

abbrev pub expected_keys : List String
expected_keys =
    "schemaVersion" ∷ "incidentId" ∷ "isSimulated" ∷ "measurementScope" ∷ "physicalRegionFailover"
    ∷ "topology" ∷ "approvals" ∷ "timeline" ∷ "safety" ∷ "schemaContract" ∷ "metrics" ∷ []

abbrev pub timeline_keys : List String
timeline_keys =
    "disasterDeclaredAtUtc" ∷ "sourceWriteIsolatedAtUtc" ∷ "recoveryRestoreStartedAtUtc"
    ∷ "recoveryRestoreCompletedAtUtc" ∷ "recoveryAcceptedAtUtc" ∷ "routeSwitchedAtUtc" ∷ []

-- `[A-Za-z0-9._:@/-]`
abbrev is_identifier_code : ℕ → Bool
is_identifier_code n =
    (leb b'A' n && leb n b'Z')
    || (leb b'a' n && leb n b'z')
    || (leb b'-' n && leb n b':')
    || (n == b'_')
    || (n == b'@')

-- `isinstance(v, str) and SAFE_IDENTIFIER.fullmatch(v) is not None`
abbrev pub is_safe_identifier : Json → Bool
is_safe_identifier (str s) = leb 1 (size s) && leb (size s) 200 && all_codes is_identifier_code s
is_safe_identifier _ = false

-- `s.endswith(suffix)`
unfoldable pub ends_with : (suffix : String) → String → Bool
ends_with suffix [] = str_eq [] suffix
ends_with suffix (c ∷ s) = str_eq (c ∷ s) suffix || ends_with suffix s

-- `isinstance(v, str) and v.endswith(suffix)`
abbrev pub is_text_ending : (suffix : String) → Json → Bool
is_text_ending suffix (str s) = ends_with suffix s
is_text_ending suffix _ = false

-- `isinstance(v, int) and 0 <= v <= limit`, where a `bool` is an `int`
abbrev pub is_seconds : (limit : ℕ) → Json → Bool
is_seconds limit (int (pos n)) = leb n limit
is_seconds limit (bool b) = leb 1 limit || not b
is_seconds limit _ = false

-- `parsed.tzinfo is not None and parsed.utcoffset().total_seconds() == 0`
abbrev pub is_utc : DateTime → Bool
is_utc parsed = elim (parsed.offset) [ none ↦ false | some z ↦ int_eq z (pos 0) ]

-- `all(left <= right for left, right in zip(ordered, ordered[1:]))`
abbrev pub is_ordered : List ℕ → Bool
is_ordered [] = true
is_ordered (n ∷ []) = true
is_ordered (n ∷ m ∷ ns) = leb n m && is_ordered (m ∷ ns)

-- `isinstance(v, dict)`, with the message otherwise
abbrev pub dict_or : (message : String) → Json → Result Fields
dict_or message (obj fs) = ok fs
dict_or message _ = err (validation_error message)

abbrev pub list_or : (message : String) → Json → Result (List Json)
list_or message (arr vs) = ok (items vs)
list_or message _ = err (validation_error message)

unfoldable pub check_head : Fields → Result (Unit {0})
unfolding eq
check_head candidate = do
  require_valid (same_set (keys candidate) expected_keys)
      "candidate fields do not match the failover evidence schema"
  require_valid (eq (get "schemaVersion" candidate) (str "1.0"))
      "unsupported evidence schemaVersion"
  require_valid (is_safe_identifier (get "incidentId" candidate)) "incidentId is invalid"
  require_valid (is_false (get "isSimulated" candidate)) "native gate rejects simulated evidence"
  require_valid (eq (get "measurementScope" candidate) (str measurement_scope))
      "measurementScope is invalid"
  require_valid (is_false (get "physicalRegionFailover" candidate))
      "local gate must not claim physical region failover"

unfoldable pub check_topology : Fields → Result (Unit {0})
unfolding eq
check_topology candidate = do
  topology ← dict_or "topology must be an object" (get "topology" candidate)
  require_valid (eq (get "sourceRole" topology) (str "ishikari-primary"))
      "sourceRole must be ishikari-primary"
  require_valid (eq (get "recoveryRole" topology) (str "tokyo-recovery"))
      "recoveryRole must be tokyo-recovery"
  require_valid (eq (get "routeSwitchMode" topology) (str "local-logical-gate"))
      "routeSwitchMode is invalid"

unfoldable pub check_safety : Fields → Result (Unit {0})
check_safety candidate = do
  safety ← dict_or "safety must be an object" (get "safety" candidate)
  require_valid (is_true (get "sourceWriteIsolated" safety)) "source write path is not isolated"
  require_valid (is_true (get "recoveryWriteEnabled" safety)) "recovery write path is not enabled"
  require_valid (is_false (get "simultaneousWritePrimaries" safety))
      "simultaneous write primaries are forbidden"
  require_valid (is_false (get "physicalGslbChanged" safety))
      "local gate must not report physical GSLB mutation"

unfoldable pub check_schema : Fields → Result (Unit {0})
unfolding ends_with eq
check_schema candidate = do
  schema ← dict_or "schemaContract must be an object" (get "schemaContract" candidate)
  require_valid
      (is_text_ending ".005_stage6r7_append_only.sql" (get "latestMigrationVersion" schema))
      "latest migration 005 was not restored"
  require_valid (eq (get "migrationCount" schema) (int (pos 5)))
      "exactly five migrations must be restored"
  require_valid (is_true (get "fkPublishedRevisionSameQuestion" schema))
      "published revision composite FK was not restored"
  require_valid (is_true (get "platformSecurityEvents" schema))
      "platform security table was not restored"

unfoldable pub check_metrics : Fields → Result (Unit {0})
check_metrics candidate = do
  metrics ← dict_or "metrics must be an object" (get "metrics" candidate)
  require_valid (is_seconds 3600 (get "rpoSeconds" metrics)) "RPO exceeds the provisional target"
  require_valid (is_seconds 14400 (get "rtoSeconds" metrics)) "RTO exceeds the provisional target"
