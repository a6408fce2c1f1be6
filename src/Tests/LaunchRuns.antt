-- ===== src/Tests/LaunchRuns.antt =====
-- Runs of the launch decisions, the opportunity operations and the contact policy.
use axignal.Common.{
  ◌≡◌, refl, String, true, false, not, ◌&&◌, none, some, List, [], ◌∷◌, map, mem, if◌then◌else◌, ok,
}
use axignal.Launch.{
  Decision, pass, deny, LaunchMode, no_go, general_availability, bounded_public_launch, Approval,
  is_pass, has_items, ga_gates, pilot_gates, launch_mode_decision, approval_set_decision,
  approval_holds,
}
use axignal.Launch.Modes.{rank, limit, widest, lesser, launch_mode_decision-rank}
use axignal.Opportunity.{
  approval_valid, may_execute_external_action, external_actors, normalize_outcome, outcome_states,
}
use axignal.Opportunity.Graph.{Run, detected, move, acting, Run-approved}
use axignal.Contact.{
  ContactChannel, PolicyOutcome, institutional, procurement_platform, allow, open_link, active,
  policy, evaluate_o01_contact_policy, validate_channel_policy, validate_o01_contact_channel,
  is_crm, is_missing, is_named,
}

abbrev gates : List (String × String)
gates = map (λ g. (g, "PASS")) ga_gates

launch_mode_decision-rank_example :
    rank (launch_mode_decision bounded_public_launch gates [] pass) ≡ (
      if not (has_items {A = String} []) && is_pass pass
      then lesser (limit bounded_public_launch) (widest gates)
      else 0)
launch_mode_decision-rank_example = launch_mode_decision-rank bounded_public_launch gates [] pass

-- With every gate passed, a request of "NO_GO" is answered with general availability.
no_go_launches : launch_mode_decision no_go gates [] pass ≡ general_availability
unfolding launch_mode_decision axignal.Launch.all_gates_pass pilot_gates ga_gates
    axignal.Launch.public_gates
no_go_launches = refl

abbrev approval : Approval
approval = record { authority = "SRE"; manifest_digest = "m"; approved = true; expired = false }

abbrev refusal : Approval
refusal = record approval { approved = false }

required_sre : mem "SRE" ("SRE" ∷ []) ≡ true
unfolding mem
required_sre = refl

refused : approval_holds "m" (some refusal) ≡ false
unfolding approval_holds
refused = refl

executing :
    Run
      ("APPROVED" ∷ "DECISION_PENDING" ∷ "PURSUIT_OPEN" ∷ "QUALIFIED" ∷ "QUALIFYING" ∷ "DETECTED"
        ∷ [])
      "IN_EXECUTION"
unfolding axignal.Opportunity.transition_allowed
executing =
    move "IN_EXECUTION"
      (move "APPROVED"
        (move "DECISION_PENDING"
          (move "PURSUIT_OPEN" (move "QUALIFIED" (move "QUALIFYING" detected refl) refl) refl) refl)
        refl)
      refl

is_acting : mem "IN_EXECUTION" acting ≡ true
unfolding mem
is_acting = refl

Run-approved_example :
    mem "APPROVED" (
      "APPROVED" ∷ "DECISION_PENDING" ∷ "PURSUIT_OPEN" ∷ "QUALIFIED" ∷ "QUALIFYING" ∷ "DETECTED"
      ∷ [])
    ≡ true
Run-approved_example = Run-approved executing is_acting

valid : approval_valid "APPROVED" "ana" "bea" true true true ≡ true
unfolding approval_valid
valid = refl

executable :
    may_execute_external_action "HUMAN_SUBMISSION_AUTHORITY"
      ("legal" ∷ [])
      ("legal" ∷ [])
      true
      true
      true
    ≡ true
unfolding may_execute_external_action
executable = refl

abbrev channel : ContactChannel
channel = record {
  channel_id = "c";
  opportunity_id = "o";
  source_notice_id = "n";
  source_url = "https://ted";
  organisation_name = "buyer";
  department = none;
  contact_role = none;
  last_verified_at = "2026-01-05";
  channel_type = procurement_platform;
  contact_name = none;
  endpoint = some "https://buyer";
  data_class = institutional;
  policy_decision = allow;
  purpose = "PROCUREMENT_PROCEDURE_COMMUNICATION";
  searchable_globally = false;
  exportable = false;
  marketing_use = false;
  allowed_actions = open_link ∷ [];
  status = active;
  superseded_by = none;
}

abbrev scheme : String → String
scheme s = "https"

domain_accepts : validate_channel_policy scheme channel ≡ ok tt
unfolding validate_channel_policy axignal.Contact.expected_scheme
domain_accepts = refl

policy_accepts : validate_o01_contact_channel channel ≡ ok (policy institutional)
unfolding validate_o01_contact_channel
policy_accepts = refl
