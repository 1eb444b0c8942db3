-- ===== src/Controller/Registry/Execution.antt =====
-- `check_registry_execution` of scripts/ai_controller/core.py.
use Prim.Native.String.{String}
use toi_no_mori_mvs.Common.{
  Bool, List, Option, [], all, all_distinct, false, if◌then◌else◌, is_empty,
}
use toi_no_mori_mvs.Common.{member, not, same_set, some, sorted_set, str_eq, ◌&&◌, ◌||◌, ◌∷◌}
use toi_no_mori_mvs.Controller.Decision.{
  Entries, Evidence, dict, empty, entry, find_evidence, json, texts,
}
use toi_no_mori_mvs.Controller.Registry.{registry_ids}
use toi_no_mori_mvs.Python.Json.{bool, str}
use toi_no_mori_mvs.Python.Platform.{Platform}
use toi_no_mori_mvs.Python.Result.{Result, ok, ◌>>=◌}

-- The keys of an evidence dict, and its values by key.
abbrev pub evidence_keys : Entries → List String
evidence_keys empty = []
evidence_keys (entry k v es) = k ∷ evidence_keys es

-- `executed[item]`, a dict wherever the source builds one.
abbrev pub executed_entry : String → Entries → Entries
executed_entry key es = elim (find_evidence key es) [ some (dict ds) ↦ ds | _ ↦ empty ]

abbrev pub is_text : String → Option Evidence → Bool
is_text s (some (json (str t))) = str_eq t s
is_text s _ = false

-- `executed[item].get("result") in {"GREEN", "RED"}`
abbrev pub has_result : Entries → String → Bool
has_result executed key =
    let result = find_evidence "result" (executed_entry key executed) in
    is_text "GREEN" result || is_text "RED" result

-- `item in executed and "evidence" not in executed[item]`
abbrev pub lacks_evidence : Entries → String → Bool
lacks_evidence executed key =
    member key (evidence_keys executed)
    && not (member "evidence" (evidence_keys (executed_entry key executed)))

abbrev pub select : (String → Bool) → List String → List String
select keep [] = []
select keep (x ∷ xs) = let later = select keep xs in if keep x then x ∷ later else later

pub record Alignment : Type 0 where
  pub accepted : Bool
  pub expected : List String
  pub implemented : List String
  pub executed : List String
  pub missing_evidence : List String

abbrev pub alignment_evidence : Alignment → Evidence
alignment_evidence a = dict (
    entry "accepted" (json (bool a.accepted)) (
      entry "expected" (texts a.expected) (
        entry "implemented" (texts a.implemented) (
          entry "executed" (texts a.executed)
            (entry "missing_evidence" (texts a.missing_evidence) empty)))))

-- `check_registry_execution` once the registry's ids are known.
unfoldable pub check_execution : (expected implemented : List String) → Entries → Alignment
unfolding sorted_set
check_execution expected implemented executed =
    let missing = sorted_set (select (lacks_evidence executed) expected) in
    record {
      accepted =
          same_set expected implemented
          && same_set implemented (evidence_keys executed)
          && all_distinct (evidence_keys executed)
          && is_empty missing
          && all (has_result executed) expected;
      expected = sorted_set expected;
      implemented = sorted_set implemented;
      executed = sorted_set (evidence_keys executed);
      missing_evidence = missing;
    }

unfoldable pub check_registry_execution :
    Platform → String → List String → Entries → Result Alignment
unfolding registry_ids check_execution
check_registry_execution p name implemented executed = do
  expected ← registry_ids p name
  ok (check_execution expected implemented executed)

-- `{"result": "GREEN" if passed else "RED", "evidence": evidence}` for each identifier.
abbrev pub check_entry : Bool → Evidence → Evidence
check_entry passed evidence = dict (
    entry "result" (json (str (if passed then "GREEN" else "RED")))
      (entry "evidence" evidence empty))
