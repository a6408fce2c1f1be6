-- ===== src/Proposals/Pipeline/Traced.antt =====
-- The candidates that `execute` returns, traced to the claims of the model and to the document.
use axignal.Common.{String, ◌≡◌, sym, subst, All, All-weaken, Any, Matched, ◌∙◌, ok}
use axignal.Common.Occurrence.{Any-weaken}
use axignal.Proposals.Types.{
  InstitutionalDocument, ParsedDocument, ProposalBatch, CandidateClaimDraft,
  LocalDocumentPipelineResult, ProposalLibrary,
}
use axignal.Proposals.Parser.{parse}
use axignal.Proposals.Parser.Parsed.{parse-Covers}
use axignal.Proposals.Gateway.{ProposalModelGateway}
use axignal.Proposals.Pipeline.{values_of, execute}
use axignal.Proposals.Pipeline.Binding.{Drawn, Has}
use axignal.Proposals.Pipeline.Candidates.{IsBound, Proposes}
use axignal.Proposals.Pipeline.Executed.{Executed, execute-Executed, values_of-Any}

-- Evidence of the result under the key, drawn from a fragment of the result.
abbrev pub Cited : LocalDocumentPipelineResult → String → Type 0
Cited r key =
    Any (λ e. (e.evidence_key ≡ key) × Any (Drawn r.document.document_id e) r.fragments) r.evidence

-- The evidence keys of a candidate of the result all lead to the text of the document.
abbrev pub Traced : LocalDocumentPipelineResult → CandidateClaimDraft → Type 0
Traced r c = All (Cited r) c.evidence_keys

module _ (lib : ProposalLibrary) (gateway : ProposalModelGateway) (d : InstitutionalDocument)
    (opportunity_id research_question : String) (r : LocalDocumentPipelineResult)
    (ran : execute lib gateway d opportunity_id research_question ≡ ok r) where
  Cited-by_key :
      (x : Executed lib gateway d opportunity_id research_question r) (key : String)
      → Has key x.bound
      → Cited r key
  Cited-by_key x key has =
      let (_, same) = parse-Covers lib d x.parsed x.parses in
      let (_, grounded, _, _) = x.builds in
      rw (x.concluded.evidence_of, x.concluded.fragments_of, x.concluded.same_document ∙ sym same)
        (Any-weaken (λ e (k, (a, _)). (k, a)) (values_of x.bound)
          (values_of-Any x.parsed key x.bound (grounded tt) has))

  Traced-candidates :
      (x : Executed lib gateway d opportunity_id research_question r)
      → All (Traced r) r.candidate_claims
  Traced-candidates x =
      let (_, _, bound, _) = x.builds in
      rw x.concluded.candidates_of (
        All-weaken (IsBound x.bound) (Traced r)
          (λ c (has, _, _).
            All-weaken (λ key. Has key x.bound) (Cited r) (Cited-by_key x) c.evidence_keys has)
          x.candidates bound)

  -- When `execute` succeeds, the document was parsed and the model proposed a batch; the candidates are
  -- those of the batch's claims, in their order, and every evidence key of every candidate names
  -- evidence of the result that is the text of a fragment of the document and quotes its hash.
  pub execute-Traced :
      (parsed : ParsedDocument) × (b : ProposalBatch) × (parse lib d ≡ ok parsed)
      × (gateway.propose parsed research_question ≡ ok b)
      × (r.fragments ≡ parsed.fragments)
      × Matched (Proposes lib opportunity_id b) b.claims r.candidate_claims
      × All (Traced r) r.candidate_claims
  execute-Traced =
      let x = execute-Executed lib gateway d opportunity_id research_question r ran in
      let (_, _, _, matched) = x.builds in
      (
        x.parsed,
        x.batch,
        x.parses,
        x.proposes,
        x.concluded.fragments_of,
        subst (Matched (Proposes lib opportunity_id x.batch) x.batch.claims)
            (sym x.concluded.candidates_of) matched,
        Traced-candidates x,
      )
