-- ===== src/Proposals/Pipeline.antt =====
-- `LocalDocumentProposalPipeline.execute`.
pub mod Binding
pub mod Candidates
pub mod Executed
pub mod Traced
pub mod Gates
pub mod Passed
use axignal.Common.{
  ℕ, String, Bool, true, false, not, ◌&&◌, List, [], ◌∷◌, map, leb, ◌==◌, ◌⧺◌, if◌then◌else◌,
  is_none, length, Result, ok, err, ◌>>=◌, ◌>>◌, reject_if,
}
use axignal.Common.Dict.{put}
use axignal.Common.Json.{Json, text, texts, number, obj}
use axignal.Proposals.Types.{
  ProposalError, model_proposal_error, InstitutionalDocument, DocumentFragment, ParsedDocument,
  ProposedClaim, ProposalBatch, EvidenceDraft, CandidateClaimDraft, AdmissionBoundaryResult,
  DossierDraft, PipelineGates, LocalDocumentPipelineResult, ProposalLibrary,
}
use axignal.Proposals.Parser.{canonical_hash, parse}
use axignal.Proposals.Scanner.{inspect}
use axignal.Proposals.Gateway.{ProposalModelGateway, by_id}
use axignal.Proposals.Drafts.{
  Fragments, Bound, bind_evidence, build_candidate, has_no_key, evaluate, build_dossier,
}

abbrev pub pipeline_version : String
pipeline_version = "local-document-proposal-pipeline@0.1.0"

-- `_verify_model_identity`
unfoldable pub verify_model_identity :
    ProposalModelGateway → ProposalBatch → Result ProposalError (Unit {0})
verify_model_identity gateway b = do
  reject_if (not (b.producer_id == gateway.producer_id))
      (model_proposal_error "Proposal producer identity does not match the configured adapter")
  reject_if (not (b.model_version == gateway.model_version))
      (model_proposal_error "Proposal model version does not match the configured adapter")

-- `list(evidence_by_fragment.values())`
unfoldable pub values_of : Bound → List EvidenceDraft
values_of [] = []
values_of ((k, e) ∷ bound) = e ∷ values_of bound

-- `{item.evidence_key: item for item in evidence}`
unfoldable pub by_key : List EvidenceDraft → Bound → Bound
unfolding put
by_key [] d = d
by_key (e ∷ es) d = by_key es (put e.evidence_key e d)

unfoldable pub all_bound : List EvidenceDraft → List CandidateClaimDraft → Bool
unfolding has_no_key
all_bound [] candidates = false
all_bound (e ∷ es) [] = true
all_bound (e ∷ es) (c ∷ cs) = not (has_no_key c.evidence_keys) && all_bound (e ∷ es) cs

unfoldable pub authority_blocked : List AdmissionBoundaryResult → Bool
authority_blocked [] = true
authority_blocked (r ∷ rs) = not r.admitted && is_none r.canonical_claim_id && authority_blocked rs

unfoldable pub all_ready : List AdmissionBoundaryResult → Bool
all_ready [] = true
all_ready (r ∷ rs) = r.handoff_ready && all_ready rs

unfoldable pub gates_of :
    List EvidenceDraft → List CandidateClaimDraft → List AdmissionBoundaryResult → PipelineGates
unfolding all_bound authority_blocked all_ready
gates_of evidence candidates results = record {
  document_processed = true;
  evidence_bound = all_bound evidence candidates;
  candidates_proposed = leb 1 (length candidates) && leb (length candidates) 3;
  admission_independent = all_ready results;
  ci_reproducible = true;
  model_authority_blocked = authority_blocked results;
}

unfoldable pub admission_results_of :
    InstitutionalDocument
    → List EvidenceDraft
    → List CandidateClaimDraft
    → List AdmissionBoundaryResult
unfolding evaluate by_key
admission_results_of d evidence candidates = map (evaluate d (by_key evidence [])) candidates

module _ (lib : ProposalLibrary) where
  -- The loop over the claims of the batch.
  unfoldable pub build_candidates :
      ParsedDocument
      → Fragments
      → String
      → ProposalBatch
      → List ProposedClaim
      → Bound
      → Result ProposalError (List CandidateClaimDraft × Bound)
  unfolding bind_evidence build_candidate
  build_candidates parsed fragments opportunity_id b [] bound = ok ([], bound)
  build_candidates parsed fragments opportunity_id b (c ∷ cs) bound = do
    (keys, bound) ← bind_evidence lib parsed fragments c.source_fragments bound
    candidate ← build_candidate lib opportunity_id c b keys
    (candidates, bound) ← build_candidates parsed fragments opportunity_id b cs bound
    ok (candidate ∷ candidates, bound)

  -- `_reproducibility_hash`
  unfoldable pub reproducibility_hash :
      InstitutionalDocument → ParsedDocument → List CandidateClaimDraft → String
  unfolding canonical_hash
  reproducibility_hash d parsed candidates = canonical_hash lib (
      obj (
        ("document_hash", text d.content_hash)
        ∷ ("fragment_hashes", texts (map (λ f. f.content_hash) parsed.fragments))
        ∷ ("candidate_fingerprints", texts (map (λ c. c.fingerprint) candidates))
        ∷ ("pipeline_version", text pipeline_version)
        ∷ []))

  unfoldable pub usage_of :
      InstitutionalDocument
      → ParsedDocument
      → ProposalBatch
      → List EvidenceDraft
      → List CandidateClaimDraft
      → List (String × Json)
  unfolding reproducibility_hash
  usage_of d parsed b evidence candidates =
      ("documents", number 1)
      ∷ ("fragments", number (length parsed.fragments))
      ∷ ("model_calls", number 1)
      ∷ ("candidate_claims", number (length candidates))
      ∷ ("evidence_objects", number (length evidence))
      ∷ ("local_model", text b.model_version)
      ∷ ("producer_id", text b.producer_id)
      ∷ ("pipeline_version", text pipeline_version)
      ∷ ("reproducibility_hash", text (reproducibility_hash d parsed candidates))
      ∷ ("completed_at", text lib.completed_at)
      ∷ []

  -- The second half of `execute`, once the candidates are built.
  unfoldable pub conclude :
      InstitutionalDocument
      → ParsedDocument
      → ProposalBatch
      → List CandidateClaimDraft
      → List EvidenceDraft
      → Result ProposalError LocalDocumentPipelineResult
  unfolding admission_results_of build_dossier gates_of usage_of
  conclude d parsed b candidates evidence = do
    let results = admission_results_of d evidence candidates
    dossier ← build_dossier lib d candidates b.explicit_unknowns
    ok (record {
      document = d;
      fragments = parsed.fragments;
      evidence = evidence;
      candidate_claims = candidates;
      admission_results = results;
      dossier = dossier;
      canonical_claims = [];
      gates = gates_of evidence candidates results;
      actual_usage = usage_of d parsed b evidence candidates;
    })

  -- What `execute` does with the proposals of the model.
  unfoldable pub bind_proposals :
      ProposalModelGateway
      → InstitutionalDocument
      → String
      → ParsedDocument
      → ProposalBatch
      → Result ProposalError LocalDocumentPipelineResult
  unfolding verify_model_identity by_id build_candidates values_of conclude
  bind_proposals gateway d opportunity_id parsed b = do
    verify_model_identity gateway b
    (candidates, bound) ←
        build_candidates parsed (by_id parsed.fragments []) opportunity_id b b.claims []
    conclude d parsed b candidates (values_of bound)

  unfoldable pub execute :
      ProposalModelGateway
      → InstitutionalDocument
      → String
      → String
      → Result ProposalError LocalDocumentPipelineResult
  unfolding parse inspect bind_proposals
  execute gateway d opportunity_id research_question = do
    parsed ← parse lib d
    inspect lib parsed
    b ← gateway.propose parsed research_question
    bind_proposals gateway d opportunity_id parsed b
