-- ===== src/StageEvidence/LastReport/Headings.antt =====
-- The dict of headings of `parse_suites`, where keys and headings differ.
use Prim.Native.String.{String}
use toi_no_mori_mvs.Common.{[], All, Bool-cases, List, all_distinct, arith, eq_iff, false, inl, inr}
use toi_no_mori_mvs.Common.{
  member, none, or_false, refl, some, str_eq, subst, sym, true, ◌∙◌, ◌∷◌, ◌≡◌,
}
use toi_no_mori_mvs.StageEvidence.LastReport.{is_heading}
use toi_no_mori_mvs.StageEvidence.Lookup.{distinct-cons, keys_of}
use toi_no_mori_mvs.StageEvidence.Suites.{SuiteContract, key_of_heading}

abbrev pub headings_of : List SuiteContract → List String
headings_of [] = []
headings_of (suite ∷ suites) = suite.heading ∷ headings_of suites

pub key_of_heading-none :
    (suites : List SuiteContract) (line : String)
    → key_of_heading suites line ≡ none
    → is_heading suites line ≡ false
unfolding key_of_heading is_heading
key_of_heading-none [] line h = refl
key_of_heading-none (suite ∷ suites) line h = elim (Bool-cases (str_eq line suite.heading)) [
  | inl here ↦
      let first : key_of_heading (suite ∷ suites) line ≡ some suite.key = rw here refl in cc
  | inr other ↦
      let next : key_of_heading (suite ∷ suites) line ≡ key_of_heading suites line =
        rw other refl in
      let later = key_of_heading-none suites line (sym next ∙ h) in rw other later
]

other_keys :
    (key : String) (suites : List SuiteContract)
    → member key (keys_of suites) ≡ false
    → All (λ suite. str_eq key suite.key ≡ false) suites
other_keys key [] h = tt
other_keys key (suite ∷ suites) h =
    let (here, later) = or_false (str_eq key suite.key) (member key (keys_of suites)) h in
    (here, other_keys key suites later)

pub other_keys-distinct :
    (suite : SuiteContract) (suites : List SuiteContract)
    → all_distinct (keys_of (suite ∷ suites)) ≡ true
    → All (λ other. str_eq suite.key other.key ≡ false) suites
other_keys-distinct suite suites h =
    other_keys suite.key suites
      (distinct-cons (member suite.key (keys_of suites)) (all_distinct (keys_of suites)) h).0

-- The key that belongs to a heading, compared with the keys of all suites.
abbrev pub IsKeyOf : (line key : String) → SuiteContract → Type 0
IsKeyOf line key suite = str_eq key suite.key ≡ str_eq line suite.heading

elsewhere :
    (line key : String) (suites : List SuiteContract)
    → member key (keys_of suites) ≡ false
    → member line (headings_of suites) ≡ false
    → All (IsKeyOf line key) suites
elsewhere line key [] h k = tt
elsewhere line key (suite ∷ suites) h k =
    let (a, b) = or_false (str_eq key suite.key) (member key (keys_of suites)) h in
    let (c, d) = or_false (str_eq line suite.heading) (member line (headings_of suites)) k in
    (a ∙ sym c, elsewhere line key suites b d)

pub key_of_heading-IsKeyOf :
    (suites : List SuiteContract) (line key : String)
    → all_distinct (keys_of suites) ≡ true
    → all_distinct (headings_of suites) ≡ true
    → key_of_heading suites line ≡ some key
    → (is_heading suites line ≡ true)
      × (member key (keys_of suites) ≡ true)
      × All (IsKeyOf line key) suites
unfolding key_of_heading is_heading
key_of_heading-IsKeyOf [] line key keys headings h = cc
key_of_heading-IsKeyOf (suite ∷ suites) line key keys headings h =
    let (new_key, keys') =
      distinct-cons (member suite.key (keys_of suites)) (all_distinct (keys_of suites)) keys in
    let (new_heading, headings') =
      distinct-cons (member suite.heading (headings_of suites)) (all_distinct (headings_of suites))
        headings in
    elim (Bool-cases (str_eq line suite.heading)) [
      | inl here ↦
          let at : line ≡ suite.heading = (eq_iff line suite.heading).0 here in
          let first : key_of_heading (suite ∷ suites) line ≡ some suite.key = rw here refl in
          let same : key ≡ suite.key = cc in
          let own : str_eq key suite.key ≡ true = (eq_iff key suite.key).1 same in
          let none_left = subst (λ k. member k (keys_of suites) ≡ false) (sym same) new_key in
          let no_line = subst (λ l. member l (headings_of suites) ≡ false) (sym at) new_heading in
          (rw here refl, rw own refl, (own ∙ sym here, elsewhere line key suites none_left no_line))
      | inr other ↦
          let next : key_of_heading (suite ∷ suites) line ≡ key_of_heading suites line =
            rw other refl in
          let (heading, found, rest) =
            key_of_heading-IsKeyOf suites line key keys' headings' (sym next ∙ h) in
          (
            rw other heading,
            ground arith,
            (
              elim (Bool-cases (str_eq key suite.key)) [
                | inl own ↦
                    let same : key ≡ suite.key = (eq_iff key suite.key).0 own in
                    let old = subst (λ k. member k (keys_of suites) ≡ true) same found in cc
                | inr foreign ↦ foreign ∙ sym other
              ],
              rest,
            ),
          )
    ]
