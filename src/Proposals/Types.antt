-- ===== src/Proposals/Types.antt =====
-- The records of apps/api/src/axignal_api/document_proposals.py. Times and the confidence of a claim
-- are only passed on, as the texts that Python prints.
use axignal.Common.{ℕ, String, Bool, List, Option}
use axignal.Common.Json.{Json, Fields}

pub data ProposalError : Type 0 where
  document_integrity_error : String → ProposalError
  document_security_error : String → ProposalError
  model_proposal_error : String → ProposalError
  validation_error : ProposalError

-- `rights_status`, `license_id` and `tenant_scope` have one value each, which the schema fixes.
pub record InstitutionalDocument : Type 0 where
  pub document_id : String
  pub source_id : String
  pub title : String
  pub source_url : String
  pub published_at : String
  pub retrieved_at : String
  pub language : String
  pub mime_type : String
  pub attribution_text : String
  pub rights_status : String
  pub license_id : String
  pub content : String
  pub content_hash : String

pub record DocumentFragment : Type 0 where
  pub fragment_id : String
  pub document_id : String
  pub ordinal : ℕ
  pub text : String
  pub start_char : ℕ
  pub end_char : ℕ
  pub content_hash : String

pub record ParsedDocument : Type 0 where
  pub document : InstitutionalDocument
  pub fragments : List DocumentFragment
  pub parser_version : String

pub record SourceFragmentReference : Type 0 where
  pub fragment_id : String
  pub quote_hash : String

pub data ClaimKind : Type 0 where
  fact : ClaimKind
  forecast : ClaimKind
  limitation : ClaimKind
  contradiction : ClaimKind

pub data Relationship : Type 0 where
  supporting : Relationship
  adverse : Relationship
  context : Relationship

pub record ProposedClaim : Type 0 where
  pub subject_id : String
  pub predicate : String
  pub object_value : Fields
  pub statement : String
  pub kind : ClaimKind
  pub relationship : Relationship
  pub source_fragments : List SourceFragmentReference
  pub assumptions : List String
  pub unknowns : List String
  pub extraction_confidence : String

pub record ProposalBatch : Type 0 where
  pub producer_id : String
  pub model_version : String
  pub method_version : String
  pub prompt_version : String
  pub claims : List ProposedClaim
  pub explicit_unknowns : List String

pub record EvidenceDraft : Type 0 where
  pub evidence_key : String
  pub document_id : String
  pub fragment_id : String
  pub source_id : String
  pub title : String
  pub text : String
  pub content_hash : String
  pub quote_hash : String
  pub rights_status : String
  pub license_id : String
  pub parser_version : String

pub record CandidateClaimDraft : Type 0 where
  pub candidate_claim_id : String
  pub fingerprint : String
  pub opportunity_id : String
  pub subject_id : String
  pub predicate : String
  pub object_value : Fields
  pub statement : String
  pub kind : ClaimKind
  pub relationship : Relationship
  pub evidence_keys : List String
  pub producer_type : String
  pub producer_id : String
  pub model_version : String
  pub method_version : String
  pub prompt_version : String
  pub assumptions : List String
  pub unknowns : List String
  pub extraction_confidence : String

pub record AdmissionBoundaryResult : Type 0 where
  pub candidate_claim_id : String
  pub admitted : Bool
  pub reasons : List String
  pub handoff_ready : Bool
  pub canonical_claim_id : Option String

pub data SectionStatus : Type 0 where
  provisional : SectionStatus
  methodology : SectionStatus
  unknown : SectionStatus

pub record DossierSection : Type 0 where
  pub section_id : String
  pub title : String
  pub text : String
  pub evidence_keys : List String
  pub candidate_claim_ids : List String
  pub status : SectionStatus

pub record DossierDraft : Type 0 where
  pub dossier_id : String
  pub title : String
  pub summary : String
  pub sections : List DossierSection
  pub attribution : List (String × String)

pub record PipelineGates : Type 0 where
  pub document_processed : Bool
  pub evidence_bound : Bool
  pub candidates_proposed : Bool
  pub admission_independent : Bool
  pub ci_reproducible : Bool
  pub model_authority_blocked : Bool

pub record LocalDocumentPipelineResult : Type 0 where
  pub document : InstitutionalDocument
  pub fragments : List DocumentFragment
  pub evidence : List EvidenceDraft
  pub candidate_claims : List CandidateClaimDraft
  pub admission_results : List AdmissionBoundaryResult
  pub dossier : DossierDraft
  pub canonical_claims : List Json
  pub gates : PipelineGates
  pub actual_usage : List (String × Json)

-- `canonical_hash`, the library's `json.dumps` and `sha256` behind one name, and the time of the run.
pub record ProposalLibrary : Type 0 where
  pub dumps : Json → String
  pub sha256_hex : String → String
  pub print_number : ℕ → String
  pub completed_at : String
  -- Unicode's word characters outside ASCII, which `\b` asks for.
  pub is_word_beyond_ascii : ℕ → Bool
