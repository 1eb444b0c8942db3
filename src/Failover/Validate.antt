-- ===== src/Failover/Validate.antt =====
-- `validate` of scripts/dr/seal-failover-evidence.py, in the order of the source.
use toi_no_mori_mvs.Common.{[], true, ◌∷◌}
use toi_no_mori_mvs.Failover.Rules.{check_approvals, check_timeline}
use toi_no_mori_mvs.Failover.Sensitive.{reject_sensitive_keys}
use toi_no_mori_mvs.Failover.Single.{
  check_head, check_metrics, check_safety, check_schema, check_topology,
}
use toi_no_mori_mvs.Python.Json.{Fields, Json, bool, obj, to_fields}
use toi_no_mori_mvs.Python.Platform.{Platform}
use toi_no_mori_mvs.Python.Result.{◌>>=◌, ◌>>◌, Result, ok}

-- The dict that `validate` returns is the same on every run.
abbrev pub validation : Json
validation = obj (
    to_fields (
      ("twoPersonApproval", bool true)
      ∷ ("timelineOrdered", bool true)
      ∷ ("sourceIsolatedBeforeRecovery", bool true)
      ∷ ("latestSchemaRestored", bool true)
      ∷ ("artifactContainsNoSensitiveKeys", bool true)
      ∷ []))

unfoldable pub validate : Platform → Fields → Result Json
unfolding check_head check_topology check_approvals check_timeline check_safety check_schema
    check_metrics reject_sensitive_keys
validate p candidate = do
  check_head candidate
  check_topology candidate
  approvals ← check_approvals p candidate
  check_timeline p candidate approvals
  check_safety candidate
  check_schema candidate
  check_metrics candidate
  reject_sensitive_keys p (obj candidate) "$"
  ok validation
