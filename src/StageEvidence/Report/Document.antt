-- ===== src/StageEvidence/Report/Document.antt =====
-- The JSON document of scripts/ci/write-stage6r*-evidence.py: the dicts of the evidence in the order
-- of the source, printed by `json.dumps(evidence, ensure_ascii=False, indent=2)`.
use Prim.Native.String.{String}
use toi_no_mori_mvs.Common.{[], List, Option, false, map, none, some, ℕ, ◌++◌, ◌<>◌, ◌∷◌}
use toi_no_mori_mvs.Python.Json.{Json, arr, bool, int, null, obj, str, to_fields, to_items}
use toi_no_mori_mvs.Python.Numbers.{pos}
use toi_no_mori_mvs.Python.Platform.{Platform}
use toi_no_mori_mvs.Python.Pretty.{dumps}
use toi_no_mori_mvs.StageEvidence.Gate.Totals.{SuiteTotals}
use toi_no_mori_mvs.StageEvidence.Report.{GateEvidence}
use toi_no_mori_mvs.StageEvidence.Suites.{SuiteResult}

abbrev number_or_null : Option ℕ → Json
number_or_null none = null
number_or_null (some n) = int (pos n)

abbrev texts_json : List String → Json
texts_json ss = arr (to_items (map str ss))

abbrev pub suite_json : SuiteResult → Json
suite_json r = obj (
    to_fields (
      ("expected", int (pos r.expected))
      ∷ ("passed", number_or_null r.passed)
      ∷ ("failed", number_or_null r.failed)
      ∷ ("total", number_or_null r.total)
      ∷ ("passedTestIds", texts_json r.passed_test_ids)
      ∷ ("failedTestIds", texts_json r.failed_test_ids)
      ∷ ("status", str r.status)
      ∷ []))

abbrev pub totals_json : SuiteTotals → Json
totals_json totals = obj (
    to_fields (
      ("registeredSuiteCount", int (pos totals.registered_suite_count))
      ∷ ("expectedTotal", int (pos totals.expected_total))
      ∷ ("passedTotal", int (pos totals.passed_total))
      ∷ ("failedTotal", int (pos totals.failed_total))
      ∷ ("executedTotal", int (pos totals.executed_total))
      ∷ ("registeredSuitesComplete", bool totals.registered_suites_complete)
      ∷ ("totalsMatch", bool totals.totals_match)
      ∷ []))

abbrev scope_entry : Option String → List (String × Json)
scope_entry none = []
scope_entry (some scope) = ("measurementScope", str scope) ∷ []

abbrev totals_entry : Option SuiteTotals → List (String × Json)
totals_entry none = []
totals_entry (some totals) = ("totals", totals_json totals) ∷ []

unfoldable pub to_json : GateEvidence → Json
to_json evidence = obj (
    to_fields (
      ("schemaVersion", str evidence.schema_version)
        ∷ ("stage", str evidence.stage)
        ∷ ("gate", str evidence.gate)
        ∷ ("status", str evidence.status)
        ∷ ("isSimulated", bool evidence.is_simulated)
        ∷ ("executionMode", str evidence.execution_mode)
        ∷ []
      ++ scope_entry evidence.measurement_scope
      ++ ("startedAtUtc", str evidence.started_at_utc)
        ∷ ("finishedAtUtc", str evidence.finished_at_utc)
        ∷ ("source", obj evidence.source)
        ∷ ("runner", obj evidence.runner)
        ∷ ("toolchain", obj evidence.toolchain)
        ∷ ("suites", obj (to_fields (map (λ entry. (entry.0, suite_json entry.1)) evidence.suites)))
        ∷ []
      ++ totals_entry evidence.totals
      ++ ("gateExitCode", int evidence.gate_exit_code)
        ∷ (
          "acceptance",
          obj (to_fields (map (λ check. (check.0, bool check.1)) evidence.acceptance)),
        )
        ∷ (
          "log",
          obj (
              to_fields
                (("file", str evidence.log_file) ∷ ("sha256", str evidence.log_sha256) ∷ [])),
        )
        ∷ []))

unfoldable pub document_text : Platform → GateEvidence → String
unfolding dumps to_json
document_text p evidence = dumps p false 0 (to_json evidence) <> "\n"
