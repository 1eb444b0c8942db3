-- ===== src/StageEvidence/Lookup.antt =====
-- `suites[suite.key] for suite in SUITES` finds the results of a log in their order.
use Prim.Native.String.{String}
use toi_no_mori_mvs.Common.{
  [], Bool, Bool-cases, List, all_distinct, eq_iff, eq_refl, false, if◌then◌else◌,
}
use toi_no_mori_mvs.Common.{inl, inr, member, or_false, refl, str_eq, sym, true, ◌&&◌, ◌∷◌, ◌≡◌}
use toi_no_mori_mvs.Python.Result.{ok}
use toi_no_mori_mvs.StageEvidence.Consistent.{AreOf}
use toi_no_mori_mvs.StageEvidence.Gate.{result_at, suite_rows}
use toi_no_mori_mvs.StageEvidence.Suites.{Results, SuiteContract, SuiteResult}

abbrev pub keys_of : List SuiteContract → List String
keys_of [] = []
keys_of (suite ∷ suites) = suite.key ∷ keys_of suites

abbrev pub values : Results → List SuiteResult
values [] = []
values ((k, r) ∷ results) = r ∷ values results

pub distinct-cons :
    (old rest : Bool)
    → ((if old then false else true) && rest) ≡ true
    → (old ≡ false) × (rest ≡ true)
distinct-cons true rest h = cc
distinct-cons false rest h = (refl, h)

str_eq_flip : (a b : String) → str_eq a b ≡ false → str_eq b a ≡ false
str_eq_flip a b h = elim (Bool-cases (str_eq b a)) [
  | inl same ↦ let e : b ≡ a = (eq_iff b a).0 same in cc (eq_refl a)
  | inr other ↦ other
]

result_at-other :
    (key k : String) (r : SuiteResult) (results : Results)
    → str_eq k key ≡ false
    → result_at key ((k, r) ∷ results) ≡ result_at key results
unfolding result_at
result_at-other key k r results h = rw (str_eq_flip k key h) refl

suite_rows-other :
    (k : String) (r : SuiteResult) (suites : List SuiteContract) (results : Results)
    → member k (keys_of suites) ≡ false
    → suite_rows suites ((k, r) ∷ results) ≡ suite_rows suites results
unfolding suite_rows
suite_rows-other k r [] results h = refl
suite_rows-other k r (suite ∷ suites) results h =
    let (here, later) = or_false (str_eq k suite.key) (member k (keys_of suites)) h in
    rw
      (
        suite_rows,
        result_at-other suite.key k r results here,
        suite_rows-other k r suites results later,
      )
      refl

pub suite_rows-values :
    (suites : List SuiteContract) (results : Results)
    → all_distinct (keys_of suites) ≡ true
    → AreOf suites results
    → suite_rows suites results ≡ ok (values results)
unfolding suite_rows result_at
suite_rows-values [] [] distinct h = refl
suite_rows-values [] (item ∷ results) distinct h = elim h [ ]
suite_rows-values (suite ∷ suites) [] distinct h = elim h [ ]
suite_rows-values (suite ∷ suites) ((k, r) ∷ results) distinct (same, _, _, h) =
    let (new, later) =
      distinct-cons (member suite.key (keys_of suites)) (all_distinct (keys_of suites)) distinct in
    let fresh : member k (keys_of suites) ≡ false = rw same new in
    let found : str_eq suite.key k ≡ true = (eq_iff suite.key k).1 (sym same) in
    rw (found, suite_rows-other k r suites results fresh, suite_rows-values suites results later h)
      refl
