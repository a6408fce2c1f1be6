-- ===== src/Proposals/Pipeline/Passed.antt =====
-- The gates of a result of `execute`.
use axignal.Common.{
  ◌≤◌, String, true, false, List, [], ◌∷◌, ◌≡◌, refl, All, All-weaken, ◌∙◌, arith, length, leb, ok,
}
use axignal.Common.Occurrence.{Any-weaken, Any-item}
use axignal.Proposals.Types.{
  InstitutionalDocument, ParsedDocument, ProposalBatch, EvidenceDraft, CandidateClaimDraft,
  PipelineGates, LocalDocumentPipelineResult, ProposalLibrary,
}
use axignal.Proposals.Parser.Parsed.{parse-Covers}
use axignal.Proposals.Gateway.{ProposalModelGateway}
use axignal.Proposals.Drafts.{Bound, wrong_rights}
use axignal.Proposals.Pipeline.{values_of, gates_of, admission_results_of, execute}
use axignal.Proposals.Pipeline.Binding.{Has, AllGrounded}
use axignal.Proposals.Pipeline.Candidates.{IsBound}
use axignal.Proposals.Pipeline.Executed.{execute-Executed, values_of-Any}
use axignal.Proposals.Pipeline.Gates.{
  Supported, HasEvidence, all_ready-Supported, authority_blocked-results, all_bound-Supported,
  first_key, Any-length, length-Matched,
}

abbrev pub all_gates : PipelineGates
all_gates = record {
  document_processed = true;
  evidence_bound = true;
  candidates_proposed = true;
  admission_independent = true;
  ci_reproducible = true;
  model_authority_blocked = true;
}

gates_of-Supported :
    (d : InstitutionalDocument) (es : List EvidenceDraft) (cs : List CandidateClaimDraft)
    → wrong_rights d ≡ false
    → 1 ≤ length es
    → 1 ≤ length cs
    → length cs ≤ 3
    → All (Supported es) cs
    → gates_of es cs (admission_results_of d es cs) ≡ all_gates
unfolding gates_of
gates_of-Supported d es cs rights some_evidence some_candidate few h =
    let least : leb 1 (length cs) ≡ true = ground arith in
    let most : leb (length cs) 3 ≡ true = ground arith in
    rw
      (
        all_bound-Supported es cs some_evidence h,
        all_ready-Supported d es rights cs h,
        authority_blocked-results d es cs,
        least,
        most,
      )
      refl

module _ (parsed : ParsedDocument) (bound : Bound) (grounded : AllGrounded parsed bound) where
  IsBound-Supported : (c : CandidateClaimDraft) → IsBound bound c → Supported (values_of bound) c
  IsBound-Supported c (has, present, local) = (
    All-weaken (λ key. Has key bound) (HasEvidence (values_of bound))
        (λ key h.
          Any-weaken (λ e (k, _). k) (values_of bound) (values_of-Any parsed key bound grounded h))
        c.evidence_keys has,
    present,
    local,
  )

  -- A first candidate: there is evidence, and the rights of the document were checked.
  first_candidate :
      (cs : List CandidateClaimDraft)
      → 1 ≤ length cs
      → All (IsBound bound) cs
      → (1 ≤ length (values_of bound)) × (wrong_rights parsed.document ≡ false)
  first_candidate [] few h = absurd (omega arith)
  first_candidate (c ∷ cs) few ((has, present, local), h) =
      let (key, k) = first_key {P = λ key. Has key bound} c.evidence_keys present has in
      let found = values_of-Any parsed key bound grounded k in
      let (e, (_, (_, rights))) = Any-item (values_of bound) found in
      (Any-length (values_of bound) found, rights)

module _ (lib : ProposalLibrary) (gateway : ProposalModelGateway) (d : InstitutionalDocument)
    (opportunity_id research_question : String) (r : LocalDocumentPipelineResult) where
  -- If the batches of the gateway have at most three claims, as their schema says, then a result of
  -- `execute` has all its gates set: the evidence is bound, every candidate is ready for the hand-off
  -- to an independent admission, and none is admitted.
  pub execute-passes :
      ((p : ParsedDocument) (q : String) (b : ProposalBatch)
        → gateway.propose p q ≡ ok b
        → length b.claims ≤ 3)
      → execute lib gateway d opportunity_id research_question ≡ ok r
      → r.gates ≡ all_gates
  execute-passes schema ran =
      let x = execute-Executed lib gateway d opportunity_id research_question r ran in
      let (_, grounded, bound, matched) = x.builds in
      let (_, same) = parse-Covers lib d x.parsed x.parses in
      let (evidence, rights) =
        first_candidate x.parsed x.bound (grounded tt) x.candidates x.concluded.some_candidate
          bound in
      x.concluded.gates_set
      ∙ gates_of-Supported d (values_of x.bound) x.candidates (rw same at rights) evidence
          x.concluded.some_candidate
          (omega (
            arith,
            schema x.parsed research_question x.batch x.proposes,
            length-Matched x.batch.claims x.candidates matched,
          ))
          (All-weaken (IsBound x.bound) (Supported (values_of x.bound))
            (IsBound-Supported x.parsed x.bound (grounded tt)) x.candidates bound)
