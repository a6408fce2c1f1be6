-- ===== src/Admission/Types.antt =====
-- The rows and packages that the admission runtime reads and writes. A package is the record of the
-- values that the code reads from its JSON object; UUIDs stand as their texts. Of the snapshots that
-- the code reads by `.get`, the JSON object itself is kept.
use axignal.Common.{ℕ, String, Bool, List, Option}
use axignal.Common.Json.{Json, Fields}
use axignal.Proposals.Types.{ProposalLibrary, InstitutionalDocument, DocumentFragment}

-- The exceptions that `process` handles, a `ValueError` and a `KeyError` among them, and one of another
-- class, which it does not catch.
pub data AdmissionError : Type 0 where
  integrity_error : String → AdmissionError
  policy_error : String → AdmissionError
  value_error : AdmissionError
  lookup_error : AdmissionError
  uncaught_error : String → AdmissionError

pub record ReviewJob : Type 0 where
  pub admission_handoff_id : String
  pub research_run_id : String
  pub tenant_id : String
  pub expected_package_hash : String
  pub policy_version : String

pub record PackagedEvidence : Type 0 where
  pub persistent_evidence_id : String
  pub evidence_key : String
  pub fragment_id : String
  pub source_id : String
  pub text : String
  pub content_hash : String
  pub quote_hash : String
  pub rights_status : String
  pub license_id : String

-- What a candidate of a package and a row of `candidate_claims` are compared on.
pub record CandidateFields : Type 0 where
  pub fingerprint : String
  pub opportunity_id : String
  pub subject_id : String
  pub predicate : String
  pub object_value : Fields
  pub statement : String
  pub kind : String
  pub relationship : String
  pub producer_type : String
  pub producer_id : String
  pub model_version : String
  pub method_version : String
  pub prompt_version : String
  pub assumptions : List String
  pub unknowns : List String
  pub extraction_confidence : String

pub record PackagedCandidate : Type 0 where
  pub persistent_candidate_claim_id : String
  pub candidate_claim_id : String
  pub fields : CandidateFields
  pub evidence_keys : List String
  pub state : String
  pub canonical_claim_id : Option String

pub record BoundaryResult : Type 0 where
  pub candidate_claim_id : String
  pub admitted : Bool
  pub canonical_claim_id : Option String

pub record Package : Type 0 where
  pub keys : List String
  pub schema_version : ℕ
  pub tenant_id : String
  pub research_run_id : String
  pub pipeline_version : String
  pub document : InstitutionalDocument
  pub source : Fields
  pub fragments : List DocumentFragment
  pub evidence : List PackagedEvidence
  pub candidate_claims : List PackagedCandidate
  pub admission_boundary_results : List BoundaryResult
  pub human_review_state : String
  pub canonical_claim_ids : List String

-- The JSON of a handoff's package: no object; an object in which a value that the checks read is
-- absent or of another type than they take it to be, with what they raise on it (a `KeyError`, an
-- `AttributeError`, or what an earlier check raises); or an object of the values of `Package`.
pub data Contents : Type 0 where
  not_object : Contents
  ill_typed : Json → AdmissionError → Contents
  packaged : Package → Contents

pub data HandoffState : Type 0 where
  pending : HandoffState
  consumed : HandoffState
  quarantined : HandoffState
  rejected : HandoffState

-- A package is `none` where the column holds no object.
pub record Handoff : Type 0 where
  pub admission_handoff_id : String
  pub tenant_id : String
  pub research_run_id : String
  pub contents : Contents
  pub package_hash : String
  pub candidate_claim_ids : List String
  pub state : HandoffState

pub record Run : Type 0 where
  pub research_run_id : String
  pub tenant_id : String
  pub job_kind : String
  pub admission_handoff_id : Option String
  pub state : String
  pub canonical_claim_ids : List String
  pub admission_batch_id : Option String
  pub dossier_id : Option String
  pub actual_usage : List (String × ℕ)
  pub error_code : Option String
  pub error_detail : Option String

pub record Source : Type 0 where
  pub source_id : String
  pub admission_state : String
  pub rights_status : String
  pub license_id : String
  pub kill_switch : Bool
  pub commercial_use : Bool
  pub redistribution : Bool

pub record SourceObject : Type 0 where
  pub source_object_id : String
  pub source_id : String
  pub content_hash : String
  pub raw_payload : Json
  pub rights_snapshot : Fields

pub record FragmentRow : Type 0 where
  pub source_object_id : String
  pub fragment_id : String
  pub document_id : String
  pub ordinal : ℕ
  pub start_char : ℕ
  pub end_char : ℕ
  pub text_content : String
  pub content_hash : String
  pub parser_version : String
  pub security_scan_state : String

pub record EvidenceRow : Type 0 where
  pub evidence_id : String
  pub evidence_key : String
  pub source_id : String
  pub content_hash : String
  pub rights_status : String
  pub payload : Fields

pub record CandidateRow : Type 0 where
  pub candidate_claim_id : String
  pub fields : CandidateFields
  pub evidence_ids : List String
  pub state : String
  pub canonical_claim_id : Option String
  pub rejection_reasons : List String

pub data Outcome : Type 0 where
  admitted_rederived : Outcome
  rejected_candidate : Outcome
  contested : Outcome
  human_review_required : Outcome
  duplicate : Outcome

pub record ObjectValue : Type 0 where
  pub value : String
  pub unit : String
  pub period : String

pub record Rederived : Type 0 where
  pub subject_id : String
  pub predicate : String
  pub object_value : ObjectValue
  pub observed_at : String
  pub evidence_ids : List String

-- `rederived` and its fingerprint are set together.
pub record Decision : Type 0 where
  pub outcome : Outcome
  pub reasons : List String
  pub gate_results : List (String × Bool)
  pub rederived : Option (Rederived × String)

pub record AdmissionRunResult : Type 0 where
  pub admission_batch_id : Option String
  pub canonical_claim_ids : List String
  pub outcomes : List Outcome
  pub idempotent_replay : Bool

pub record Batch : Type 0 where
  pub admission_batch_id : String
  pub policy_version : String
  pub decided : Bool
  pub candidate_claim_ids : List String
  pub decision_counts : List (String × ℕ)
  pub canonical_claim_ids : List String

-- The columns of the interval of validity are the year of the period of `object_value`.
pub record CanonicalClaim : Type 0 where
  pub canonical_claim_id : String
  pub fingerprint : String
  pub subject_id : String
  pub predicate : String
  pub object_value : ObjectValue
  pub statement : String
  pub evidence_ids : List String
  pub admission_batch_id : String

pub record StateEvent : Type 0 where
  pub canonical_claim_id : String
  pub reason : String
  pub admission_batch_id : String

pub record DecisionRow : Type 0 where
  pub admission_batch_id : String
  pub admission_handoff_id : String
  pub candidate_claim_id : String
  pub outcome : Outcome
  pub gate_results : List (String × Bool)
  pub rejection_reasons : List String
  pub canonical_claim_id : Option String
  pub rederived_fingerprint : Option String
  pub human_review_required : Bool

pub record Failure : Type 0 where
  pub job : ReviewJob
  pub error_code : String
  pub error_detail : String
  pub quarantined : Bool

pub record Dossier : Type 0 where
  pub dossier_id : String
  pub status : String

-- The tables that the admission runtime reads and writes.
pub record Tables : Type 0 where
  pub handoffs : List Handoff
  pub runs : List Run
  pub sources : List Source
  pub source_objects : List SourceObject
  pub fragments : List FragmentRow
  pub evidence : List EvidenceRow
  pub candidates : List CandidateRow
  pub batches : List Batch
  pub canonical_claims : List CanonicalClaim
  pub state_events : List StateEvent
  pub decisions : List DecisionRow
  pub failures : List Failure
  pub dossiers : List Dossier

-- The library's functions: those of the document pipeline, the JSON of a package and of a document,
-- the comparison of JSON values, `float(s) == float(t)`, `str(Decimal(s))` and `UUID(s)` with `none` where they raise,
-- `int(period)`, the year of today, the digits of `\d`, the schema of a document, and the order that
-- `ORDER BY created_at` gives the decisions of a handoff.
pub record AdmissionLibrary : Type 0 where
  pub proposals : ProposalLibrary
  pub package_json : Package → Json
  pub document_json : InstitutionalDocument → Json
  pub same_json : Json → Json → Bool
  pub same_float : String → String → Bool
  pub print_decimal : String → Option String
  pub year_of : String → ℕ
  pub current_year : ℕ
  pub is_decimal : ℕ → Bool
  pub model_validate : InstitutionalDocument → Bool
  pub parse_uuid : String → Option String
  pub by_created_at : List DecisionRow → List DecisionRow
