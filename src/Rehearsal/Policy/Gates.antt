-- ===== src/Rehearsal/Policy/Gates.antt =====
-- The policy on one candidate: what its gates say, and what it decides.
use axignal.Common.{
  ◌≡◌, String, Bool, true, false, ◌&&◌, none, some, List, [], ◌∷◌, if◌then◌else◌, arith,
}
use axignal.Common.Json.{Library}
use axignal.Rehearsal.Context.{AdmissionContext, product_admission_ready}
use axignal.Rehearsal.Claim.{fingerprint}
use axignal.Rehearsal.Decision.{
  Outcome, admitted_rederived, sandbox_admissible_rederived, AdmissionDecision,
}
use axignal.Rehearsal.Policy.{CandidateEnvelope, gate_results, evaluate_candidate}

abbrev pub is_admitted : Outcome → Bool
is_admitted admitted_rederived = true
is_admitted sandbox_admissible_rederived = true
is_admitted _ = false

abbrev pub is_product_admitted : Outcome → Bool
is_product_admitted admitted_rederived = true
is_product_admitted _ = false

-- All gates of a decision but the first two, which tell which authority is open.
abbrev all_open : List (String × Bool) → Bool
all_open [] = true
all_open ((_, b) ∷ gs) = b && all_open gs

abbrev pub policy_gates_open : AdmissionDecision → Bool
policy_gates_open d = elim d.gate_results [ a ∷ b ∷ gs ↦ all_open gs | _ ↦ false ]

module _ (lib : Library) (e : CandidateEnvelope) (rederived : List String)
    (context : AdmissionContext) where
  -- A candidate is admitted exactly when every policy gate of its own record is open; the canonical
  -- outcome is given exactly when the product authority is open too; and the decision names a
  -- rederived fingerprint, that of the candidate, exactly when it admits.
  pub evaluate_candidate-gates :
      (is_admitted (evaluate_candidate lib e rederived context).outcome
        ≡ policy_gates_open (evaluate_candidate lib e rederived context))
      × (is_product_admitted (evaluate_candidate lib e rederived context).outcome
          ≡ policy_gates_open (evaluate_candidate lib e rederived context)
            && product_admission_ready context)
      × ((evaluate_candidate lib e rederived context).rederived_fingerprint ≡ (
          if is_admitted (evaluate_candidate lib e rederived context).outcome
          then some (fingerprint lib e.candidate)
          else none))
  unfolding evaluate_candidate gate_results
  evaluate_candidate-gates = ground arith
