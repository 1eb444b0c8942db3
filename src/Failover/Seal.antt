-- ===== src/Failover/Seal.antt =====
-- `canonical_json` and `main` of scripts/dr/seal-failover-evidence.py, with the handler around `main`.
use Prim.Native.String.{String}
use toi_no_mori_mvs.Common.{[], false, none, some, ℕ, ◌<>◌, ◌∷◌}
use toi_no_mori_mvs.Failover.Single.{dict_or, measurement_scope}
use toi_no_mori_mvs.Failover.Storage.{Faults, Files, Write, atomic_write}
use toi_no_mori_mvs.Failover.Validate.{validate, validation}
use toi_no_mori_mvs.Python.Canonical.{canonical_json}
use toi_no_mori_mvs.Python.Json.{Fields, Json, bool, get, obj, str, to_fields}
use toi_no_mori_mvs.Python.Platform.{Platform}
use toi_no_mori_mvs.Python.Result.{◌>>=◌, Result, err, json_error, ok, os_error, validation_error}

-- The arguments, and what a run is told: the time, the names of its temporary files, and the faults
-- of its two writes.
pub record SealRun : Type 0 where
  pub input : String
  pub artifact : String
  pub evidence : String
  pub sealed_at : String
  pub artifact_temporary : String
  pub evidence_temporary : String
  pub artifact_faults : Faults
  pub evidence_faults : Faults
  -- `args.artifact.name`
  pub artifact_name : String

module _ (p : Platform) where
  unfoldable pub canonical_line : Json → String
  unfolding canonical_json
  canonical_line value = canonical_json p value <> "\n"

  unfoldable pub sealed_evidence : SealRun → (candidate : Fields) → (validation : Json) → Json
  unfolding canonical_line
  sealed_evidence run candidate validation = obj (
      to_fields (
        ("format", str "toi-no-mori-dr-failover-evidence-v1")
        ∷ ("status", str "accepted")
        ∷ ("incidentId", get "incidentId" candidate)
        ∷ ("isSimulated", bool false)
        ∷ ("measurementScope", str measurement_scope)
        ∷ ("physicalRegionFailover", bool false)
        ∷ ("artifactFile", str run.artifact_name)
        ∷ ("artifactHash", str ("sha256:" <> p.sha256 (canonical_line (obj candidate))))
        ∷ ("sealedAtUtc", str run.sealed_at)
        ∷ ("validation", validation)
        ∷ []))

  unfoldable pub check_value : Json → Result (Fields × Json)
  unfolding validate
  check_value value = do
    candidate ← dict_or "candidate must be a JSON object" value
    validation ← validate p candidate
    ok (candidate, validation)

  -- The candidate that is read, and the dict that `validate` returns for it.
  unfoldable pub read_candidate : SealRun → Files → Result (Fields × Json)
  unfolding check_value
  read_candidate run files = elim (files run.input) [
    | none ↦ err os_error
    | some text ↦ elim (p.json_loads text) [
      | none ↦ err json_error
      | some value ↦ check_value value
    ]
  ]

  -- The second write.
  unfoldable pub write_evidence :
      SealRun → (candidate : Fields) → (validation : Json) → Files → Write
  unfolding canonical_line sealed_evidence atomic_write
  write_evidence run candidate validation files =
      atomic_write run.evidence_faults run.evidence_temporary run.evidence
        (canonical_line (sealed_evidence run candidate validation)) files

  -- Both writes; the second one only behind a first one that returned.
  unfoldable pub write_both : SealRun → (candidate : Fields) → (validation : Json) → Files → Write
  unfolding canonical_line atomic_write write_evidence
  write_both run candidate validation files =
      let (after, outcome) =
        atomic_write run.artifact_faults run.artifact_temporary run.artifact
          (canonical_line (obj candidate)) files in
      elim outcome [
        | err raised ↦ (after, err raised)
        | ok _ ↦ write_evidence run candidate validation after
      ]

  unfoldable pub seal : SealRun → Files → Write
  unfolding read_candidate write_both
  seal run files = elim (read_candidate run files) [
    | err raised ↦ (files, err raised)
    | ok (candidate, validation) ↦ write_both run candidate validation files
  ]

-- The exit code: 4 for the exceptions that the script handles, 1 for a traceback.
abbrev pub exit_status : Result (Unit {0}) → ℕ
exit_status (ok _) = 0
exit_status (err (validation_error message)) = 4
exit_status (err json_error) = 4
exit_status (err os_error) = 4
exit_status (err _) = 1
