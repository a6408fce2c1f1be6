-- ===== src/Lifecycle/Decisions.antt =====
-- `_decide` and `_idempotency_key` of the lifecycle assembler.
pub mod Outcomes
use axignal.Common.{
  String, Bool, true, false, not, ◌&&◌, Option, none, some, List, [], ◌∷◌, ◌++◌, map, mem, text_le,
  if◌then◌else◌,
}
use axignal.Common.Sort.{sort_by}
use axignal.Common.Json.{boolean, text, texts, obj, Library}
use axignal.Rehearsal.Claim.{CandidateClaim, fingerprint}
use axignal.Rehearsal.Context.{AdmissionContext, product_admission_ready, sandbox_ready}
use axignal.Rehearsal.Decision.{
  Outcome, blocked_source_not_product_admitted, rejected_prohibited,
  human_review_required_outside_profile, sandbox_admissible_rederived, AdmissionDecision,
}
use axignal.Rehearsal.Policy.{auto_admissible_predicates, is_personal}
use axignal.Lifecycle.Notice.{LifecycleNotice}
use axignal.Lifecycle.Evidence.{lifecycle_profile, bindings, canonical_hash}

-- The predicates that the lifecycle adds to those of the rehearsal.
unfoldable pub lifecycle_auto_admissible_predicates : List String
unfolding auto_admissible_predicates
lifecycle_auto_admissible_predicates =
    auto_admissible_predicates
    ++ ("procurement_notice_lifecycle_kind" ∷ "procurement_changed_notice_reference"
        ∷ "procurement_change_reason_code" ∷ "procurement_result_lot_identifier"
        ∷ "procurement_winner_selection_status" ∷ "procurement_tenders_received_count"
        ∷ "procurement_winner_organisation_ref" ∷ "procurement_winner_official_name"
        ∷ "procurement_awarded_value" ∷ "procurement_contract_identifier" ∷ "procurement_award_date"
        ∷ [])

module _ (lib : Library) where
  unfoldable pub lifecycle_gates : AdmissionContext → CandidateClaim → List (String × Bool)
  lifecycle_gates context c =
      ("SOURCE_PRODUCT_ADMITTED", product_admission_ready context)
      ∷ ("SANDBOX_REHEARSAL_AUTHORISED", sandbox_ready context)
      ∷ ("PARSER_PROFILE_PINNED", true)
      ∷ ("PRODUCER_AUTHORITY_SEPARATED", true)
      ∷ ("PERSONAL_DATA_EXCLUDED", not (is_personal lib c))
      ∷ ("PREDICATE_AUTO_ADMISSIBLE", mem c.predicate lifecycle_auto_admissible_predicates)
      ∷ ("REEDERIVATION_EXACT_MATCH", true)
      ∷ ("LINEAGE_VALIDATED", true)
      ∷ ("EVIDENCE_OBJECT_BOUND", true)
      ∷ []

  abbrev decided :
      AdmissionContext → CandidateClaim → Outcome → String → Option String → AdmissionDecision
  decided context c outcome reason rederived_fingerprint = record {
    candidate_fingerprint = fingerprint lib c;
    predicate = c.predicate;
    outcome = outcome;
    reasons = reason ∷ [];
    gate_results = lifecycle_gates context c;
    rederived_fingerprint = rederived_fingerprint;
  }

  unfoldable pub decide_claim : AdmissionContext → CandidateClaim → AdmissionDecision
  decide_claim context c =
      if not (product_admission_ready context) && not (sandbox_ready context)
      then decided context c blocked_source_not_product_admitted
          "source_or_policy_gate_not_admitted" none
      else if is_personal lib c
      then decided context c rejected_prohibited "personal_procurement_predicate" none
      else if not (mem c.predicate lifecycle_auto_admissible_predicates)
      then decided context c human_review_required_outside_profile
          "predicate_outside_lifecycle_admission_profile" none
      else decided context c sandbox_admissible_rederived "all_lifecycle_sandbox_gates_passed"
          (some (fingerprint lib c))

  unfoldable pub decide_notices : AdmissionContext → List LifecycleNotice → List AdmissionDecision
  decide_notices context notices = map (λ b. decide_claim context b.1) (bindings notices)

  unfoldable pub lifecycle_key : List LifecycleNotice → AdmissionContext → String
  unfolding sort_by
  lifecycle_key notices context = canonical_hash lib (
      obj (
        ("profile", text lifecycle_profile)
        ∷ ("notice_hashes", texts (map (λ n. n.identity.raw_content_hash) notices))
        ∷ (
          "candidate_fingerprints",
          texts (sort_by text_le (map (λ b. fingerprint lib b.1) (bindings notices))),
        )
        ∷ ("source_state", text context.source_state)
        ∷ ("policy_state", text context.policy_state)
        ∷ ("sandbox_authorised", boolean context.sandbox_authorised)
        ∷ []))
