-- ===== src/Admission/Handoff.antt =====
-- admission_handoff_policy.py: the handoff of a job, its package and its research run.
use axignal.Common.{
  String, Bool, true, false, not, ◌&&◌, ◌||◌, Option, none, some, List, [], ◌∷◌, eqb, subset, ◌==◌,
  is_some, if◌then◌else◌, Result, ok, err, ◌>>=◌, ◌>>◌, reject_if,
}
use axignal.Common.Json.{Json}
use axignal.Proposals.Parser.{canonical_hash}
use axignal.Admission.Types.{
  AdmissionError, integrity_error, ReviewJob, BoundaryResult, Contents, not_object, ill_typed,
  packaged, Package, Handoff, Run, AdmissionLibrary,
}
use axignal.Admission.Facts.{required}

unfoldable pub is_of_job : ReviewJob → Handoff → Bool
is_of_job job h =
    h.admission_handoff_id == job.admission_handoff_id
    && h.tenant_id == job.tenant_id
    && h.research_run_id == job.research_run_id

-- The first row that the test accepts; the columns of the tests are keys.
unfoldable pub first_where {ℓ} : {A : Type ℓ} → (A → Bool) → List A → Option A
first_where test [] = none
first_where test (x ∷ xs) = if test x then some x else first_where test xs

-- `_load_handoff`
unfoldable pub load_handoff : ReviewJob → List Handoff → Result AdmissionError Handoff
unfolding first_where is_of_job required
load_handoff job hs =
    required "Admission handoff is absent or tenant-mismatched" (first_where (is_of_job job) hs)

abbrev pub required_keys : List String
required_keys =
    "schema_version" ∷ "tenant_id" ∷ "research_run_id" ∷ "pipeline_version" ∷ "document" ∷ "source"
    ∷ "fragments" ∷ "evidence" ∷ "candidate_claims" ∷ "admission_boundary_results" ∷ "dossier"
    ∷ "actual_usage" ∷ "human_review_state" ∷ "canonical_claim_ids" ∷ []

unfoldable pub has_text : List String → Bool
has_text [] = false
has_text (x ∷ xs) = true

-- No boundary, or one that admits or names a canonical claim.
unfoldable pub breaks_authority : List BoundaryResult → Bool
breaks_authority [] = false
breaks_authority (b ∷ bs) = b.admitted || is_some b.canonical_claim_id || breaks_authority bs

unfoldable pub bad_boundaries : List BoundaryResult → Bool
unfolding breaks_authority
bad_boundaries [] = true
bad_boundaries (b ∷ bs) = breaks_authority (b ∷ bs)

unfoldable pub check_identity : ReviewJob → Package → Result AdmissionError (Unit {0})
unfolding subset
check_identity job p = do
  reject_if (not (subset required_keys p.keys && subset p.keys required_keys))
      (integrity_error "Admission package schema keys differ")
  reject_if (not (eqb p.schema_version 1))
      (integrity_error "Admission package schema version differs")
  reject_if (not (p.tenant_id == job.tenant_id))
      (integrity_error "Admission package tenant differs")
  reject_if (not (p.research_run_id == job.research_run_id))
      (integrity_error "Admission package ResearchRun differs")

unfoldable pub check_proposal : Package → Result AdmissionError (Unit {0})
unfolding has_text bad_boundaries
check_proposal p = do
  reject_if (not (p.pipeline_version == "local-document-proposal-pipeline@0.1.0"))
      (integrity_error "Proposal pipeline version differs")
  reject_if (not (p.human_review_state == "NOT_REQUESTED"))
      (integrity_error "Unexpected pre-admission human review state")
  reject_if (has_text p.canonical_claim_ids)
      (integrity_error "Proposal handoff already contains canonical claims")
  reject_if (bad_boundaries p.admission_boundary_results)
      (integrity_error "Proposal authority boundary is not preserved")

module _ (lib : AdmissionLibrary) where
  unfoldable pub wrong_hash : ReviewJob → Handoff → Json → Bool
  unfolding canonical_hash
  wrong_hash job h content =
      let actual_hash = canonical_hash lib.proposals content in
      not (actual_hash == h.package_hash) || not (actual_hash == job.expected_package_hash)

  unfoldable pub check_hash : ReviewJob → Handoff → Json → Result AdmissionError (Unit {0})
  unfolding wrong_hash
  check_hash job h content =
      reject_if (wrong_hash job h content) (integrity_error "Admission package hash does not match")

  unfoldable pub validate_contents : Contents → Handoff → ReviewJob → Result AdmissionError Package
  unfolding check_hash check_identity check_proposal
  validate_contents not_object h job = err (integrity_error "Admission package is not an object")
  validate_contents (ill_typed content e) h job = do check_hash job h content; err e
  validate_contents (packaged p) h job = do
    check_hash job h (lib.package_json p)
    check_identity job p
    check_proposal p
    ok p

  -- `_validate_package`; what the later checks raise on an ill-typed package is raised here.
  unfoldable pub validate_package : Handoff → ReviewJob → Result AdmissionError Package
  unfolding validate_contents
  validate_package h job = validate_contents h.contents h job

unfoldable pub is_run_of : ReviewJob → Run → Bool
is_run_of job r = r.research_run_id == job.research_run_id && r.tenant_id == job.tenant_id

unfoldable pub is_text_of : String → Option String → Bool
is_text_of s none = false
is_text_of s (some t) = t == s

-- `_load_run`
unfoldable pub load_run : ReviewJob → List Run → Result AdmissionError Run
unfolding first_where is_run_of is_text_of required
load_run job rs = do
  r ← required "Tenant-scoped ResearchRun is absent" (first_where (is_run_of job) rs)
  reject_if (not (r.job_kind == "DOCUMENT_PROPOSAL"))
      (integrity_error "ResearchRun is not a document proposal")
  reject_if (not (is_text_of job.admission_handoff_id r.admission_handoff_id))
      (integrity_error "ResearchRun handoff reference differs")
  ok r
