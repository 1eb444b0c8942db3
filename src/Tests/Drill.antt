-- ===== src/Tests/Drill.antt =====
-- A failover drill whose evidence is sealed.
use Prim.Native.String.{String}
use toi_no_mori_mvs.Common.{
  [], eq_iff, false, if◌then◌else◌, map, none, refl, some, str_eq, true, ◌∷◌,
}
use toi_no_mori_mvs.Common.{◌≡◌, ◌≢◌}
use toi_no_mori_mvs.Failover.Accepted.{IsDrill, validate-IsDrill}
use toi_no_mori_mvs.Failover.Seal.{SealRun, exit_status, seal}
use toi_no_mori_mvs.Failover.Sealed.{IsSealed, seal-IsSealed}
use toi_no_mori_mvs.Failover.Single.{measurement_scope, timeline_keys}
use toi_no_mori_mvs.Failover.Storage.{
  Faults, Files, IsAtomic, atomic_write, atomic_write-IsAtomic, put,
}
use toi_no_mori_mvs.Failover.Validate.{validate, validation}
use toi_no_mori_mvs.Python.Json.{Fields, Json, arr, bool, int, obj, str, to_fields, to_items}
use toi_no_mori_mvs.Python.Numbers.{pos}
use toi_no_mori_mvs.Python.Platform.{Platform}
use toi_no_mori_mvs.Tests.Services.{services}

abbrev approval : (role decision subject : String) → Json
approval role decision subject = obj (
    to_fields (
      ("role", str role)
      ∷ ("decision", str decision)
      ∷ ("subjectId", str subject)
      ∷ ("approvedAtUtc", str "2026-07-01T00:05:00Z")
      ∷ []))

abbrev timed : String → String × Json
timed key = (key, str "2026-07-01T00:05:00Z")

abbrev candidate : Fields
candidate = to_fields (
    ("schemaVersion", str "1.0")
    ∷ ("incidentId", str "drill-2026-07")
    ∷ ("isSimulated", bool false)
    ∷ ("measurementScope", str measurement_scope)
    ∷ ("physicalRegionFailover", bool false)
    ∷ (
      "topology",
      obj (
          to_fields (
            ("sourceRole", str "ishikari-primary")
            ∷ ("recoveryRole", str "tokyo-recovery")
            ∷ ("routeSwitchMode", str "local-logical-gate")
            ∷ [])),
    )
    ∷ (
      "approvals",
      arr (
          to_items (
            approval "RecoveryLead" "approve-route-switch" "lead@example"
            ∷ approval "IncidentCommander" "approve-recovery" "commander@example"
            ∷ [])),
    )
    ∷ ("timeline", obj (to_fields (timed "snapshotStartedAtUtc" ∷ map timed timeline_keys)))
    ∷ (
      "safety",
      obj (
          to_fields (
            ("sourceWriteIsolated", bool true)
            ∷ ("recoveryWriteEnabled", bool true)
            ∷ ("simultaneousWritePrimaries", bool false)
            ∷ ("physicalGslbChanged", bool false)
            ∷ [])),
    )
    ∷ (
      "schemaContract",
      obj (
          to_fields (
            ("latestMigrationVersion", str "20260701.005_stage6r7_append_only.sql")
            ∷ ("migrationCount", int (pos 5))
            ∷ ("fkPublishedRevisionSameQuestion", bool true)
            ∷ ("platformSecurityEvents", bool true)
            ∷ [])),
    )
    ∷ ("metrics", obj (to_fields (("rpoSeconds", int (pos 4)) ∷ ("rtoSeconds", int (pos 90)) ∷ [])))
    ∷ [])

-- The candidate is the only document; every time is the same one, in UTC.
abbrev drill_services : Platform
drill_services = record services {
  json_loads = λ s. if str_eq s "candidate" then some (obj candidate) else none;
  datetime_from_iso = λ _. some (record { local = 1000; offset = some (pos 0) });
}

abbrev no_faults : Faults
no_faults = record {
  parent = false;
  temporary = false;
  mode = false;
  written = none;
  replace = false;
  unlink = false;
}

abbrev disk_full : Faults
disk_full = record no_faults { written = some "{" }

abbrev files : Files
files = put "candidate.json" "candidate" (λ _. none)

abbrev run_with : Faults → SealRun
run_with faults = record {
  input = "candidate.json";
  artifact = "artifact.json";
  evidence = "evidence.json";
  sealed_at = "2026-07-01T01:00:00Z";
  artifact_temporary = ".artifact.json.1";
  evidence_temporary = ".evidence.json.2";
  artifact_faults = no_faults;
  evidence_faults = faults;
  artifact_name = "artifact.json";
}

sealed_run :
    (exit_status ((seal drill_services (run_with no_faults) files).1) ≡ 0)
    × (exit_status ((seal drill_services (run_with disk_full) files).1) ≡ 4)
unfolding seal
sealed_run = (refl, refl)

validate-IsDrill_example : IsDrill drill_services candidate
unfolding validate
validate-IsDrill_example = validate-IsDrill drill_services candidate validation refl

text_differs : (s t : String) → str_eq s t ≡ false → s ≢ t
text_differs s t h e = let same = (eq_iff s t).1 e in cc

seal-IsSealed_example :
    IsSealed drill_services
      (run_with disk_full)
      files
      (seal drill_services (run_with disk_full) files)
seal-IsSealed_example = seal-IsSealed drill_services (run_with disk_full) files (record {
  outputs = text_differs "evidence.json" "artifact.json" refl;
  artifact_fresh = text_differs "artifact.json" ".artifact.json.1" refl;
  evidence_fresh = text_differs "evidence.json" ".evidence.json.2" refl;
  artifact_kept = text_differs "artifact.json" ".evidence.json.2" refl;
  evidence_kept = text_differs "evidence.json" ".artifact.json.1" refl;
})

atomic_write-IsAtomic_example :
    IsAtomic ".artifact.json.1" "artifact.json" "{}" files
      (atomic_write disk_full ".artifact.json.1" "artifact.json" "{}" files)
atomic_write-IsAtomic_example =
    atomic_write-IsAtomic ".artifact.json.1" "artifact.json" "{}" files
      (text_differs "artifact.json" ".artifact.json.1" refl) disk_full
