-- ===== src/Lifecycle/Decisions/Outcomes.antt =====
-- What the lifecycle admits.
use axignal.Common.{◌≡◌, false, ◌&&◌, ◌||◌, none, some, if◌then◌else◌, arith}
use axignal.Common.Json.{Library}
use axignal.Rehearsal.Claim.{CandidateClaim, fingerprint}
use axignal.Rehearsal.Context.{AdmissionContext, product_admission_ready, sandbox_ready}
use axignal.Rehearsal.Decision.{is_sandbox_admissible}
use axignal.Rehearsal.Policy.Gates.{is_product_admitted, policy_gates_open}
use axignal.Lifecycle.Decisions.{lifecycle_gates, decide_claim}

module _ (lib : Library) (context : AdmissionContext) (c : CandidateClaim) where
  -- A claim is admissible in the sandbox exactly when an authority is open and every policy gate of
  -- the decision's own record is; no claim is ever given the canonical outcome; and the decision
  -- names a rederived fingerprint, that of the claim, exactly when it admits.
  pub decide_claim-gates :
      (is_sandbox_admissible (decide_claim lib context c).outcome
        ≡ (product_admission_ready context || sandbox_ready context)
          && policy_gates_open (decide_claim lib context c))
      × (is_product_admitted (decide_claim lib context c).outcome ≡ false)
      × ((decide_claim lib context c).rederived_fingerprint ≡ (
          if is_sandbox_admissible (decide_claim lib context c).outcome
          then some (fingerprint lib c)
          else none))
  unfolding decide_claim lifecycle_gates
  decide_claim-gates = ground arith
