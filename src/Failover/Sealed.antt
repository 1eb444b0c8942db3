-- ===== src/Failover/Sealed.antt =====
-- What a run of scripts/dr/seal-failover-evidence.py leaves behind.
use toi_no_mori_mvs.Common.{
  Option-cases, String, ap, inl, inr, refl, some, subst, sym, ◌<>◌, ◌∙◌, ◌≡◌, ◌≢◌, ◌⊎◌,
}
use toi_no_mori_mvs.Failover.Accepted.{dict_or-ok}
use toi_no_mori_mvs.Failover.Seal.{
  SealRun, canonical_line, check_value, read_candidate, seal, sealed_evidence,
}
use toi_no_mori_mvs.Failover.Seal.{write_both, write_evidence}
use toi_no_mori_mvs.Failover.Single.{dict_or}
use toi_no_mori_mvs.Failover.Storage.{Files, Write, atomic_write, atomic_write-IsAtomic}
use toi_no_mori_mvs.Failover.Validate.{validate, validation}
use toi_no_mori_mvs.Python.Canonical.{canonical_json}
use toi_no_mori_mvs.Python.Json.{Fields, Json, dict_or_empty, get, obj, str}
use toi_no_mori_mvs.Python.Platform.{Platform}
use toi_no_mori_mvs.Python.Result.{
  >>=-eq-ok, Error, Result, Result-cases, err, json_error, ok, ok_injective, os_error,
}

-- The files of a run are its own: the two it writes differ, and neither is a temporary one.
pub record AreSeparate (run : SealRun) : Type 0 where
  pub outputs : run.evidence ≢ run.artifact
  pub artifact_fresh : run.artifact ≢ run.artifact_temporary
  pub evidence_fresh : run.evidence ≢ run.evidence_temporary
  pub artifact_kept : run.artifact ≢ run.evidence_temporary
  pub evidence_kept : run.evidence ≢ run.artifact_temporary

module _ (p : Platform) (run : SealRun) (files : Files) where
  -- The run read a candidate from the input file, and wrote it and the evidence with the hash of
  -- exactly the text that it wrote.
  pub record IsComplete (after : Files) (outcome : Result (Unit {0})) : Type 0 where
    pub text : String
    pub candidate : Fields
    pub validation : Json
    pub sealed : Fields
    pub read : files run.input ≡ some text
    pub parsed : p.json_loads text ≡ some (obj candidate)
    pub valid : validate p candidate ≡ ok validation
    pub ended : outcome ≡ ok tt
    pub artifact : after run.artifact ≡ some (canonical_json p (obj candidate) <> "\n")
    pub evidence : after run.evidence ≡ some (canonical_json p (obj sealed) <> "\n")
    pub hash :
        get "artifactHash" sealed
        ≡ str ("sha256:" <> p.sha256 (canonical_json p (obj candidate) <> "\n"))
    pub file : get "artifactFile" sealed ≡ str run.artifact_name
    pub status : get "status" sealed ≡ str "accepted"
    pub incident : get "incidentId" sealed ≡ get "incidentId" candidate

  -- The run is complete, or it raised and the evidence file is the one from before.
  abbrev pub IsSealed : Write → Type 0
  IsSealed (after, outcome) =
      IsComplete after outcome
      ⊎ ((raised : Error) × (outcome ≡ err raised) × (after run.evidence ≡ files run.evidence))

  sealed-IsComplete :
      (text : String) (candidate : Fields) (validation : Json) (after : Files)
      (outcome : Result (Unit {0}))
      → files run.input ≡ some text
      → p.json_loads text ≡ some (obj candidate)
      → validate p candidate ≡ ok validation
      → outcome ≡ ok tt
      → after run.artifact ≡ some (canonical_line p (obj candidate))
      → after run.evidence ≡ some (canonical_line p (sealed_evidence p run candidate validation))
      → IsComplete after outcome
  unfolding canonical_line sealed_evidence
  sealed-IsComplete text candidate validation after outcome read parsed valid ended artifact
        evidence =
      record {
        text = text;
        candidate = candidate;
        validation = validation;
        sealed = dict_or_empty (sealed_evidence p run candidate validation);
        read = read;
        parsed = parsed;
        valid = valid;
        ended = ended;
        artifact = artifact;
        evidence = evidence;
        hash = refl;
        file = refl;
        status = refl;
        incident = refl;
      }

  write_both-IsSealed :
      (text : String) (candidate : Fields) (validation : Json)
      → AreSeparate run
      → files run.input ≡ some text
      → p.json_loads text ≡ some (obj candidate)
      → validate p candidate ≡ ok validation
      → IsSealed (write_both p run candidate validation files)
  unfolding write_both write_evidence
  write_both-IsSealed source candidate validation separate read parsed valid =
      let text = canonical_line p (obj candidate) in
      let sealed = canonical_line p (sealed_evidence p run candidate validation) in
      let first = atomic_write run.artifact_faults run.artifact_temporary run.artifact text files in
      let second =
        atomic_write run.evidence_faults run.evidence_temporary run.evidence sealed first.0 in
      let (result, others) =
        atomic_write-IsAtomic run.artifact_temporary run.artifact text files separate.artifact_fresh
          run.artifact_faults in
      let before = others run.evidence separate.evidence_kept separate.outputs in
      elim result [
        | inr (raised, kept) ↦
            let whole : write_both p run candidate validation files ≡ (first.0, err os_error) =
              rw (write_both, raised) refl in
            subst IsSealed (sym whole) (inr (os_error, refl, before))
        | inl (returned, written) ↦
            let whole : write_both p run candidate validation files ≡ second =
              rw (write_both, returned) refl in
            let (result', others') =
              atomic_write-IsAtomic run.evidence_temporary run.evidence sealed first.0
                separate.evidence_fresh run.evidence_faults in
            let artifact_kept =
              others' run.artifact separate.artifact_kept (λ e. separate.outputs (sym e)) in
            subst IsSealed (sym whole) (elim result' [
              | inr (raised, kept) ↦ inr (os_error, raised, kept ∙ before)
              | inl (ended, done) ↦ inl (
                  sealed-IsComplete source candidate validation _ _ read parsed valid ended
                    (artifact_kept ∙ written) done)
            ])
      ]

  read_candidate-valid :
      (candidate : Fields) (validation : Json)
      → read_candidate p run files ≡ ok (candidate, validation)
      → (text : String) × (files run.input ≡ some text)
        × (p.json_loads text ≡ some (obj candidate))
        × (validate p candidate ≡ ok validation)
  unfolding read_candidate check_value
  read_candidate-valid candidate validation h = elim (Option-cases (files run.input)) [
    | inl missing ↦
        let raised : read_candidate p run files ≡ err os_error =
          rw (read_candidate, missing) refl in
        cc
    | inr (text, read) ↦ elim (Option-cases (p.json_loads text)) [
      | inl broken ↦
          let raised : read_candidate p run files ≡ err json_error =
            rw (read_candidate, read, broken) refl in
          cc
      | inr (value, parsed) ↦
          let whole : read_candidate p run files ≡ check_value p value =
            rw (read_candidate, read, parsed) refl in
          let (fields, found, rest) =
            >>=-eq-ok (dict_or "candidate must be a JSON object" value) _ (sym whole ∙ h) in
          let (result, checked, last) = >>=-eq-ok (validate p fields) _ rest in
          let same = ok_injective last in
          let is_obj = dict_or-ok _ value fields found ∙ ap (λ pair. obj pair.0) same in
          (
            text,
            read,
            parsed ∙ ap some is_obj,
            subst (λ pair. validate p pair.0 ≡ ok pair.1) same checked,
          )
    ]
  ]

  -- However the file system fails, a run either returns or raises. Where it returns, the input file
  -- holds a candidate that `validate` accepts, the artifact file holds this candidate in canonical
  -- form with a line feed, and the evidence file holds a dict in the same form that is "accepted",
  -- names the incident and the artifact file, and has as "artifactHash" the SHA-256 of exactly the
  -- artifact's text. Where it raises, the evidence file is as it was. The condition is that the two
  -- files differ and neither is a temporary file.
  pub seal-IsSealed : AreSeparate run → IsSealed (seal p run files)
  unfolding seal
  seal-IsSealed separate = elim (Result-cases (read_candidate p run files)) [
    | inr (raised, h) ↦
        let whole : seal p run files ≡ (files, err raised) = rw (seal, h) refl in
        subst IsSealed (sym whole) (inr (raised, refl, refl))
    | inl ((candidate, validation), h) ↦
        let whole : seal p run files ≡ write_both p run candidate validation files =
          rw (seal, h) refl in
        let (text, read, parsed, valid) = read_candidate-valid candidate validation h in
        subst IsSealed (sym whole)
          (write_both-IsSealed text candidate validation separate read parsed valid)
  ]
