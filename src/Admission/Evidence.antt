-- ===== src/Admission/Evidence.antt =====
-- admission_evidence_policy.py: the candidates and the evidence of a handoff against what is stored.
use axignal.Common.{
  String, Bool, not, ◌&&◌, none, some, List, [], ◌∷◌, ◌++◌, eqb, mem, dedup, subset, same_texts,
  ◌==◌, is_some, length, map, if◌then◌else◌, Result, ok, err, ◌>>=◌, ◌>>◌, reject_if,
}
use axignal.Common.Dict.{get}
use axignal.Common.Json.{object}
use axignal.Outbox.Payload.{lookup, is_text}
use axignal.Admission.Types.{
  AdmissionError, integrity_error, value_error, PackagedEvidence, CandidateFields,
  PackagedCandidate, BoundaryResult, Package, Source, FragmentRow, EvidenceRow, CandidateRow,
  AdmissionLibrary,
}
use axignal.Admission.Facts.{index_by, required}

-- `WHERE key = ANY(ids)`
unfoldable pub rows_in {ℓ} : {A : Type ℓ} → (A → String) → List String → List A → List A
unfolding mem
rows_in key ids [] = []
rows_in key ids (x ∷ xs) =
    let rest = rows_in key ids xs in if mem (key x) ids then x ∷ rest else rest

-- `_load_candidates`
unfoldable pub load_candidates :
    List CandidateRow → List String → Result AdmissionError (List (String × CandidateRow))
unfolding rows_in index_by
load_candidates table ids = do
  let rows = rows_in (λ (r : CandidateRow). r.candidate_claim_id) ids table
  reject_if (not (eqb (length rows) (length ids)))
      (integrity_error "Candidate Claim persistence set is incomplete")
  ok (index_by (λ (r : CandidateRow). r.candidate_claim_id) rows [])

unfoldable pub all_evidence_ids : List (String × CandidateRow) → List String
all_evidence_ids [] = []
all_evidence_ids ((k, c) ∷ d) = c.evidence_ids ++ all_evidence_ids d

-- `_load_evidence`
unfoldable pub load_evidence :
    List EvidenceRow
    → List (String × CandidateRow)
    → Result AdmissionError (List (String × EvidenceRow))
unfolding all_evidence_ids dedup rows_in index_by
load_evidence table candidates = do
  let ids = dedup (all_evidence_ids candidates)
  let rows = rows_in (λ (r : EvidenceRow). r.evidence_id) ids table
  reject_if (not (eqb (length rows) (length ids)))
      (integrity_error "Evidence persistence set is incomplete")
  ok (index_by (λ (r : EvidenceRow). r.evidence_id) rows [])

unfoldable pub evidence_agrees : Source → PackagedEvidence → FragmentRow → EvidenceRow → Bool
unfolding lookup is_text
evidence_agrees source e f row =
    row.evidence_key == e.evidence_key
    && row.source_id == e.source_id
    && row.content_hash == e.content_hash
    && row.rights_status == source.rights_status
    && e.rights_status == source.rights_status
    && e.license_id == source.license_id
    && e.quote_hash == f.content_hash
    && e.text == f.text_content
    && is_text f.fragment_id (lookup "fragment_id" row.payload)
    && is_text f.content_hash (lookup "quote_hash" row.payload)
    && is_text f.text_content (lookup "text" row.payload)

unfoldable pub keys_of {ℓ} : {A : Type ℓ} → List (String × A) → List String
keys_of [] = []
keys_of ((k, x) ∷ d) = k ∷ keys_of d

-- The identifiers of the packaged evidence under some keys.
unfoldable pub cited_ids : List String → List PackagedEvidence → List String
unfolding mem
cited_ids keys [] = []
cited_ids keys (e ∷ es) =
    let rest = cited_ids keys es in
    if mem e.evidence_key keys then e.persistent_evidence_id ∷ rest else rest

unfoldable pub expected_ids : List PackagedCandidate → List PackagedEvidence → List String
unfolding cited_ids
expected_ids [] es = []
expected_ids (c ∷ cs) es = cited_ids c.evidence_keys es ++ expected_ids cs es

-- `a == b` on sets.
unfoldable pub same_set : List String → List String → Bool
unfolding subset
same_set xs ys = subset xs ys && subset ys xs

module _ (lib : AdmissionLibrary) where
  -- `UUID(s)`
  unfoldable pub uuid : String → Result AdmissionError String
  uuid s = elim (lib.parse_uuid s) [ none ↦ err value_error | some u ↦ ok u ]

  unfoldable pub uuids : List String → Result AdmissionError (List String)
  unfolding uuid
  uuids [] = ok []
  uuids (s ∷ ss) = do u ← uuid s; us ← uuids ss; ok (u ∷ us)

  -- `_validate_candidate_set`
  unfoldable pub validate_candidate_set : Package → List String → Result AdmissionError (Unit {0})
  unfolding uuids same_texts
  validate_candidate_set p ids = do
    packaged_ids ←
        uuids (map (λ (c : PackagedCandidate). c.persistent_candidate_claim_id) p.candidate_claims)
    reject_if (not (same_texts packaged_ids ids))
        (integrity_error "Candidate Claim handoff order or identity differs")
    reject_if (not (eqb (length p.admission_boundary_results) (length ids)))
        (integrity_error "Admission boundary result count differs")
    reject_if
        (not (
          same_texts
            (map (λ (b : BoundaryResult). b.candidate_claim_id) p.admission_boundary_results)
            (map (λ (c : PackagedCandidate). c.candidate_claim_id) p.candidate_claims)))
        (integrity_error "Admission boundary identities differ")

  -- One round of the loop of `_validate_all_evidence`.
  unfoldable pub validate_evidence :
      Source
      → List (String × FragmentRow)
      → List (String × EvidenceRow)
      → PackagedEvidence
      → Result AdmissionError String
  unfolding uuid required get evidence_agrees
  validate_evidence source fragments evidence e = do
    id ← uuid e.persistent_evidence_id
    row ← required "Packaged Evidence Object is absent" (get id evidence)
    f ← required "Evidence fragment is absent" (get e.fragment_id fragments)
    reject_if (not (evidence_agrees source e f row))
        (integrity_error "Evidence Object differs from immutable inputs")
    ok id

  unfoldable pub validate_each :
      Source
      → List (String × FragmentRow)
      → List (String × EvidenceRow)
      → List PackagedEvidence
      → Result AdmissionError (List String)
  unfolding validate_evidence
  validate_each source fragments evidence [] = ok []
  validate_each source fragments evidence (e ∷ es) = do
    id ← validate_evidence source fragments evidence e
    ids ← validate_each source fragments evidence es
    ok (id ∷ ids)

  -- `_validate_all_evidence`
  unfoldable pub validate_all_evidence :
      Package
      → Source
      → List (String × FragmentRow)
      → List (String × EvidenceRow)
      → Result AdmissionError (Unit {0})
  unfolding validate_each uuids expected_ids same_set keys_of
  validate_all_evidence p source fragments evidence = do
    packaged_ids ← validate_each source fragments evidence p.evidence
    expected ← uuids (expected_ids p.candidate_claims p.evidence)
    reject_if (not (same_set packaged_ids expected && same_set packaged_ids (keys_of evidence)))
        (integrity_error "Evidence handoff set differs")

  unfoldable pub same_fields : CandidateFields → CandidateFields → Bool
  unfolding same_texts
  same_fields a b =
      a.fingerprint == b.fingerprint
      && a.opportunity_id == b.opportunity_id
      && a.subject_id == b.subject_id
      && a.predicate == b.predicate
      && lib.same_json (object a.object_value) (object b.object_value)
      && a.statement == b.statement
      && a.kind == b.kind
      && a.relationship == b.relationship
      && a.producer_type == b.producer_type
      && a.producer_id == b.producer_id
      && a.model_version == b.model_version
      && a.method_version == b.method_version
      && a.prompt_version == b.prompt_version
      && same_texts a.assumptions b.assumptions
      && same_texts a.unknowns b.unknowns

  -- `_validate_candidate_record`
  unfoldable pub validate_candidate_record :
      CandidateRow → PackagedCandidate → Result AdmissionError (Unit {0})
  unfolding same_fields
  validate_candidate_record c p = do
    reject_if (not (same_fields c.fields p.fields))
        (integrity_error "Candidate Claim differs from handoff package")
    reject_if (not (lib.same_float c.fields.extraction_confidence p.fields.extraction_confidence))
        (integrity_error "Candidate extraction confidence differs")
    reject_if (not (p.state == "ADMISSION_QUEUED"))
        (integrity_error "Packaged Candidate Claim state differs")
    reject_if (is_some p.canonical_claim_id)
        (integrity_error "Packaged Candidate Claim is already canonical")
    reject_if (not (c.state == "ADMISSION_QUEUED"))
        (integrity_error "Persistent Candidate Claim state differs")
    reject_if (not (c.fields.producer_type == "LOCAL_MODEL"))
        (integrity_error "Expected proposal producer type LOCAL_MODEL")
    reject_if (is_some c.canonical_claim_id)
        (integrity_error "Candidate already carries a canonical claim")
