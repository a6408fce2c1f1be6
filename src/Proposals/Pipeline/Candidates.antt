-- ===== src/Proposals/Pipeline/Candidates.antt =====
-- The candidates that the loop of `execute` builds from the claims of a batch.
use axignal.Common.{
  String, false, List, [], ◌∷◌, ◌≡◌, refl, subst, All, All-weaken, Matched, none_left, pair, ok,
  >>=-eq-ok, reject_if, reject_if-eq-ok, ok_injective,
}
use axignal.Proposals.Types.{
  validation_error, ParsedDocument, ProposedClaim, ProposalBatch, CandidateClaimDraft,
  ProposalLibrary,
}
use axignal.Proposals.Drafts.{
  Fragments, Bound, bind_evidence, candidate_of, has_no_key, build_candidate,
}
use axignal.Proposals.Pipeline.{build_candidates}
use axignal.Proposals.Pipeline.Binding.{Has, AllGrounded, FromDocument, bind_evidence-Extends}

-- The candidate has a key, and all its keys are bound.
abbrev pub IsBound : Bound → CandidateClaimDraft → Type 0
IsBound bound c =
    All (λ key. Has key bound) c.evidence_keys
    × (has_no_key c.evidence_keys ≡ false)
    × (c.producer_type ≡ "LOCAL_MODEL")

-- The candidate that the claim proposes, under some evidence keys.
abbrev pub Proposes :
    ProposalLibrary → String → ProposalBatch → ProposedClaim → CandidateClaimDraft → Type 0
Proposes lib opportunity_id b claim c = c ≡ candidate_of lib opportunity_id claim b c.evidence_keys

abbrev pub Builds :
    ProposalLibrary
    → ParsedDocument
    → String
    → ProposalBatch
    → List ProposedClaim
    → Bound
    → List CandidateClaimDraft
    → Bound
    → Type 0
Builds lib parsed opportunity_id b claims bound candidates bound' =
    ((key : String) → Has key bound → Has key bound')
    × (AllGrounded parsed bound → AllGrounded parsed bound')
    × All (IsBound bound') candidates
    × Matched (Proposes lib opportunity_id b) claims candidates

module _ (lib : ProposalLibrary) (parsed : ParsedDocument) (fragments : Fragments)
    (opportunity_id : String) (b : ProposalBatch) (from : FromDocument parsed fragments) where
  build_candidate-fields :
      (claim : ProposedClaim) (keys : List String) (bound : Bound) (c : CandidateClaimDraft)
      → All (λ key. Has key bound) keys
      → build_candidate lib opportunity_id claim b keys ≡ ok c
      → IsBound bound c × Proposes lib opportunity_id b claim c
  unfolding build_candidate
  build_candidate-fields claim keys bound c has ran =
      let (u, present, last) = >>=-eq-ok (reject_if (has_no_key keys) validation_error) _ ran in
      subst (λ x. IsBound bound x × Proposes lib opportunity_id b claim x) (ok_injective last)
        (unfold candidate_of in ((has, reject_if-eq-ok _ _ present, refl), refl))

  pub build_candidates-Builds :
      (claims : List ProposedClaim) (bound : Bound) (out : List CandidateClaimDraft × Bound)
      → build_candidates lib parsed fragments opportunity_id b claims bound ≡ ok out
      → Builds lib parsed opportunity_id b claims bound out.0 out.1
  unfolding build_candidates
  build_candidates-Builds [] bound out ran =
      subst
        (λ (x : List CandidateClaimDraft × Bound).
          Builds lib parsed opportunity_id b [] bound x.0 x.1)
        (ok_injective ran) (λ key h. h, λ h. h, tt, none_left)
  build_candidates-Builds (claim ∷ claims) bound out ran =
      let ((keys, next), binds, rest) =
        >>=-eq-ok (bind_evidence lib parsed fragments claim.source_fragments bound) _ ran in
      let (c, builds, rest) = >>=-eq-ok (build_candidate lib opportunity_id claim b keys) _ rest in
      let ((cs, last), others, done) =
        >>=-eq-ok (build_candidates lib parsed fragments opportunity_id b claims next) _ rest in
      let (kept, grounded, has) =
        bind_evidence-Extends lib parsed fragments claim.source_fragments bound (keys, next) from
          binds in
      let (kept', grounded', rest_bound, matched) =
        build_candidates-Builds claims next (cs, last) others in
      let ((mine, present, local), proposes) =
        build_candidate-fields claim keys next c has builds in
      subst
        (λ (x : List CandidateClaimDraft × Bound).
          Builds lib parsed opportunity_id b (claim ∷ claims) bound x.0 x.1)
        (ok_injective done)
        (
          λ key h. kept' key (kept key h),
          λ h. grounded' (grounded h),
          (
            (
              All-weaken (λ key. Has key next) (λ key. Has key last) kept' c.evidence_keys mine,
              present,
              local,
            ),
            rest_bound,
          ),
          pair proposes matched,
        )
