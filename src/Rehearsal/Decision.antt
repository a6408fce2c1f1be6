-- ===== src/Rehearsal/Decision.antt =====
-- `ProcurementAdmissionDecision` and `ProcurementAdmissionRehearsalResult`. The source keeps an
-- outcome as one of seven texts, here a constructor with its text.
use axignal.Common.{ℕ, suc, String, Bool, true, false, Option, List, [], ◌∷◌, map, if◌then◌else◌}
use axignal.Common.Json.{Json, boolean, number, text, obj, list, texts, optional}

pub data Outcome : Type 0 where
  blocked_source_not_product_admitted rejected_prohibited : Outcome
  quarantined_unsupported_profile human_review_required_proposal_only : Outcome
  human_review_required_outside_profile rejected_rederivation_mismatch : Outcome
  admitted_rederived sandbox_admissible_rederived : Outcome

unfoldable pub outcome_text : Outcome → String
outcome_text blocked_source_not_product_admitted = "BLOCKED_SOURCE_NOT_PRODUCT_ADMITTED"
outcome_text rejected_prohibited = "REJECTED_PROHIBITED"
outcome_text quarantined_unsupported_profile = "QUARANTINED_UNSUPPORTED_PROFILE"
outcome_text human_review_required_proposal_only = "HUMAN_REVIEW_REQUIRED_PROPOSAL_ONLY"
outcome_text human_review_required_outside_profile = "HUMAN_REVIEW_REQUIRED_OUTSIDE_PROFILE"
outcome_text rejected_rederivation_mismatch = "REJECTED_REDERIVATION_MISMATCH"
outcome_text admitted_rederived = "ADMITTED_REDERIVED"
outcome_text sandbox_admissible_rederived = "SANDBOX_ADMISSIBLE_REDERIVED"

abbrev pub is_sandbox_admissible : Outcome → Bool
is_sandbox_admissible sandbox_admissible_rederived = true
is_sandbox_admissible _ = false

pub record AdmissionDecision : Type 0 where
  pub candidate_fingerprint : String
  pub predicate : String
  pub outcome : Outcome
  pub reasons : List String
  pub gate_results : List (String × Bool)
  pub rederived_fingerprint : Option String

pub record RehearsalResult : Type 0 where
  pub batch_id : Option String
  pub decisions : List AdmissionDecision
  pub idempotent_replay : Bool
  pub sandbox_admissible_count : ℕ
  pub canonical_claim_writes : ℕ
  pub model_calls : ℕ
  pub reviewer_canonical_writes : ℕ

-- `sum(item.outcome == "SANDBOX_ADMISSIBLE_REDERIVED" for item in decisions)`
unfoldable pub count_admissible : List AdmissionDecision → ℕ
count_admissible [] = 0
count_admissible (d ∷ ds) =
    let rest = count_admissible ds in if is_sandbox_admissible d.outcome then suc rest else rest

unfoldable pub decision_payload : AdmissionDecision → Json
unfolding obj texts outcome_text optional list
decision_payload d = obj (
    ("candidate_fingerprint", text d.candidate_fingerprint)
    ∷ ("predicate", text d.predicate)
    ∷ ("outcome", text (outcome_text d.outcome))
    ∷ ("reasons", texts d.reasons)
    ∷ ("gate_results", gates d.gate_results)
    ∷ ("rederived_fingerprint", optional text d.rederived_fingerprint)
    ∷ [])
  where
    gates : List (String × Bool) → Json
    gates gs = obj (map (λ g. (g.0, boolean g.1)) gs)

unfoldable pub as_payload : RehearsalResult → Json
unfolding obj list optional
as_payload r = obj (
    ("batch_id", optional text r.batch_id)
    ∷ ("decisions", list decision_payload r.decisions)
    ∷ ("idempotent_replay", boolean r.idempotent_replay)
    ∷ ("sandbox_admissible_count", number r.sandbox_admissible_count)
    ∷ ("canonical_claim_writes", number r.canonical_claim_writes)
    ∷ ("model_calls", number r.model_calls)
    ∷ ("reviewer_canonical_writes", number r.reviewer_canonical_writes)
    ∷ [])
