-- ===== src/Proposals/Pipeline/Executed.antt =====
-- What `execute` returns, traced to the document.
use axignal.Common.{
  ℕ, suc, ◌≤◌, String, false, List, [], ◌∷◌, ◌++◌, ◌≡◌, refl, ap, subst, Any, here, there, arith,
  length, length-append, ltb, ok, >>=-eq-ok, reject_if, reject_if-eq-ok, ok_injective,
}
use axignal.Common.Occurrence.{All-self}
use axignal.Proposals.Types.{
  validation_error, InstitutionalDocument, ParsedDocument, ProposalBatch, EvidenceDraft,
  CandidateClaimDraft, DossierDraft, LocalDocumentPipelineResult, ProposalLibrary,
}
use axignal.Proposals.Parser.{parse}
use axignal.Proposals.Scanner.{inspect}
use axignal.Proposals.Gateway.{ProposalModelGateway, by_id}
use axignal.Proposals.Drafts.{Bound, claim_sections, closing_sections, build_dossier}
use axignal.Proposals.Pipeline.{
  verify_model_identity, values_of, build_candidates, bind_proposals, admission_results_of,
  gates_of, conclude, execute,
}
use axignal.Proposals.Pipeline.Binding.{Grounded, Has, AllGrounded, by_id-FromDocument}
use axignal.Proposals.Pipeline.Candidates.{Builds, build_candidates-Builds}

length-claim_sections :
    (lib : ProposalLibrary) (i : ℕ) (cs : List CandidateClaimDraft)
    → length (claim_sections lib i cs) ≡ length cs
unfolding claim_sections
length-claim_sections lib i [] = refl
length-claim_sections lib i (c ∷ cs) = ap suc (length-claim_sections lib (suc i) cs)

length-closing : (unknowns : List String) → length (closing_sections unknowns) ≡ 2
unfolding closing_sections
length-closing unknowns = refl

ltb-false : (a b : ℕ) → ltb a b ≡ false → b ≤ a
ltb-false a b h = ground arith

-- The schema of the dossier wants three sections, two of which close it.
build_dossier-pos :
    (lib : ProposalLibrary) (d : InstitutionalDocument) (cs : List CandidateClaimDraft)
    (unknowns : List String) (dossier : DossierDraft)
    → build_dossier lib d cs unknowns ≡ ok dossier
    → 1 ≤ length cs
unfolding build_dossier
build_dossier-pos lib d cs unknowns dossier ran =
    let sections = claim_sections lib 0 cs ++ closing_sections unknowns in
    let (u, enough, last) =
      >>=-eq-ok (reject_if (ltb (length sections) 3) validation_error) _ ran in
    let few = reject_if-eq-ok (ltb (length sections) 3) validation_error enough in
    omega (
      arith,
      ltb-false (length sections) 3 few,
      length-append (claim_sections lib 0 cs) (closing_sections unknowns),
      length-claim_sections lib 0 cs,
      length-closing unknowns,
    )

-- The values of the dictionary of evidence.
pub values_of-Any :
    (parsed : ParsedDocument) (key : String) (bound : Bound)
    → AllGrounded parsed bound
    → Has key bound
    → Any (λ e. (e.evidence_key ≡ key) × Grounded parsed e) (values_of bound)
unfolding values_of
values_of-Any parsed key [] a h = elim h [ ]
values_of-Any parsed key ((j, e) ∷ bound) (g, a) (here same) = here (same, g)
values_of-Any parsed key ((j, e) ∷ bound) (g, a) (there h) =
    there (values_of-Any parsed key bound a h)

-- What `conclude` puts in the result.
pub record Concluded (lib : ProposalLibrary) (d : InstitutionalDocument) (parsed : ParsedDocument)
    (candidates : List CandidateClaimDraft) (evidence : List EvidenceDraft)
    (r : LocalDocumentPipelineResult) : Type 0 where
  pub same_document : r.document ≡ d
  pub fragments_of : r.fragments ≡ parsed.fragments
  pub evidence_of : r.evidence ≡ evidence
  pub candidates_of : r.candidate_claims ≡ candidates
  pub results_of : r.admission_results ≡ admission_results_of d evidence candidates
  pub gates_set :
      r.gates ≡ gates_of evidence candidates (admission_results_of d evidence candidates)
  pub some_candidate : 1 ≤ length candidates

conclude-Concluded :
    (lib : ProposalLibrary) (d : InstitutionalDocument) (parsed : ParsedDocument)
    (b : ProposalBatch) (candidates : List CandidateClaimDraft) (evidence : List EvidenceDraft)
    (r : LocalDocumentPipelineResult)
    → conclude lib d parsed b candidates evidence ≡ ok r
    → Concluded lib d parsed candidates evidence r
unfolding conclude
conclude-Concluded lib d parsed b candidates evidence r ran =
    let (dossier, drafts, last) =
      >>=-eq-ok (build_dossier lib d candidates b.explicit_unknowns) _ ran in
    subst (Concluded lib d parsed candidates evidence) (ok_injective last) (record {
      same_document = refl;
      fragments_of = refl;
      evidence_of = refl;
      candidates_of = refl;
      results_of = refl;
      gates_set = refl;
      some_candidate = build_dossier-pos lib d candidates b.explicit_unknowns dossier drafts;
    })

-- A run of `execute` that returned a result.
pub record Executed (lib : ProposalLibrary) (gateway : ProposalModelGateway)
    (d : InstitutionalDocument) (opportunity_id research_question : String)
    (r : LocalDocumentPipelineResult) : Type 0 where
  pub parsed : ParsedDocument
  pub batch : ProposalBatch
  pub candidates : List CandidateClaimDraft
  pub bound : Bound
  pub parses : parse lib d ≡ ok parsed
  pub proposes : gateway.propose parsed research_question ≡ ok batch
  pub builds : Builds lib parsed opportunity_id batch batch.claims [] candidates bound
  pub concluded : Concluded lib d parsed candidates (values_of bound) r

bind_proposals-Concluded :
    (lib : ProposalLibrary) (gateway : ProposalModelGateway) (d : InstitutionalDocument)
    (opportunity_id : String) (parsed : ParsedDocument) (b : ProposalBatch)
    (r : LocalDocumentPipelineResult)
    → bind_proposals lib gateway d opportunity_id parsed b ≡ ok r
    → (candidates : List CandidateClaimDraft) × (bound : Bound) × Builds lib parsed opportunity_id b
        b.claims [] candidates bound
      × Concluded lib d parsed candidates (values_of bound) r
unfolding bind_proposals
bind_proposals-Concluded lib gateway d opportunity_id parsed b r ran =
    let (u, known, rest) = >>=-eq-ok (verify_model_identity gateway b) _ ran in
    let fragments = by_id parsed.fragments [] in
    let (out, builds, last) =
      >>=-eq-ok (build_candidates lib parsed fragments opportunity_id b b.claims []) _ rest in
    (
      out.0,
      out.1,
      build_candidates-Builds lib parsed fragments opportunity_id b
          (by_id-FromDocument parsed parsed.fragments [] (All-self parsed.fragments) tt) b.claims []
          out builds,
      conclude-Concluded lib d parsed b out.0 (values_of out.1) r last,
    )

pub execute-Executed :
    (lib : ProposalLibrary) (gateway : ProposalModelGateway) (d : InstitutionalDocument)
    (opportunity_id research_question : String) (r : LocalDocumentPipelineResult)
    → execute lib gateway d opportunity_id research_question ≡ ok r
    → Executed lib gateway d opportunity_id research_question r
unfolding execute
execute-Executed lib gateway d opportunity_id research_question r ran =
    let (parsed, parses, rest) = >>=-eq-ok (parse lib d) _ ran in
    let (u, clean, rest) = >>=-eq-ok (inspect lib parsed) _ rest in
    let (b, proposes, rest) = >>=-eq-ok (gateway.propose parsed research_question) _ rest in
    let (candidates, bound, builds, concluded) =
      bind_proposals-Concluded lib gateway d opportunity_id parsed b r rest in
    record {
      parsed = parsed;
      batch = b;
      candidates = candidates;
      bound = bound;
      parses = parses;
      proposes = proposes;
      builds = builds;
      concluded = concluded;
    }
