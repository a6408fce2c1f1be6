-- ===== src/Opportunity.antt =====
-- scripts/p07_opportunity_operations_reference.py: the states of an opportunity, its approvals and the
-- actions outside the product.
pub mod Graph
pub mod Authority
use axignal.Common.{
  String, Bool, true, false, not, ◌&&◌, ◌||◌, Option, none, some, List, [], ◌∷◌, mem, subset,
  is_empty, ◌==◌, if◌then◌else◌, Result, ok, err,
}
use axignal.Common.Json.{Json, text, obj, Library}

unfoldable pub allowed_transitions : List (String × List String)
allowed_transitions =
    ("DETECTED", "QUALIFYING" ∷ "REJECTED" ∷ [])
    ∷ ("QUALIFYING", "QUALIFIED" ∷ "REJECTED" ∷ [])
    ∷ ("QUALIFIED", "PURSUIT_OPEN" ∷ "REJECTED" ∷ [])
    ∷ ("PURSUIT_OPEN", "DECISION_PENDING" ∷ [])
    ∷ ("DECISION_PENDING", "APPROVED" ∷ "DECLINED" ∷ [])
    ∷ ("APPROVED", "IN_EXECUTION" ∷ "DECLINED" ∷ [])
    ∷ ("IN_EXECUTION", "DECISION_PENDING" ∷ "SUBMITTED_OR_ACTIVATED" ∷ "LOST_OR_CLOSED" ∷ [])
    ∷ ("SUBMITTED_OR_ACTIVATED", "WON_OR_REALIZED" ∷ "LOST_OR_CLOSED" ∷ [])
    ∷ ("WON_OR_REALIZED", "LEARNING_CAPTURED" ∷ [])
    ∷ ("LOST_OR_CLOSED", "LEARNING_CAPTURED" ∷ [])
    ∷ ("REJECTED", "LEARNING_CAPTURED" ∷ [])
    ∷ ("DECLINED", "LEARNING_CAPTURED" ∷ [])
    ∷ []

-- `table.get(current, set())`
unfoldable pub targets_in : List (String × List String) → String → List String
targets_in [] current = []
targets_in ((s, targets) ∷ rows) current = if s == current then targets else targets_in rows current

unfoldable pub transition_allowed : String → String → Bool
unfolding allowed_transitions targets_in mem
transition_allowed current target = mem target (targets_in allowed_transitions current)

unfoldable pub qualification_decision : Bool → Bool → Bool → String
qualification_decision required_context_complete disqualifier_present evidence_current =
    if disqualifier_present
    then "REJECTED"
    else if not required_context_complete || not evidence_current
    then "REVIEW_REQUIRED"
    else "QUALIFIED"

-- `all(state in allowed for state in states)`
unfoldable pub all_settled : List String → Bool
unfolding mem
all_settled [] = true
all_settled (s ∷ states) = mem s ("SATISFIED" ∷ "WAIVED_BY_HUMAN" ∷ []) && all_settled states

unfoldable pub work_readiness : List String → String
unfolding all_settled
work_readiness [] = "BLOCKED"
work_readiness (s ∷ states) = if all_settled (s ∷ states) then "READY" else "BLOCKED"

unfoldable pub approval_valid : String → String → String → Bool → Bool → Bool → Bool
approval_valid state requester_ref approver_ref subject_version_matches rights_active
      document_current =
    state == "APPROVED"
    && not (is_empty requester_ref)
    && not (is_empty approver_ref)
    && not (requester_ref == approver_ref)
    && subject_version_matches
    && rights_active
    && document_current

unfoldable pub external_actors : List String
external_actors = "HUMAN_SUBMISSION_AUTHORITY" ∷ "HUMAN_ACTIVATION_AUTHORITY" ∷ []

unfoldable pub may_execute_external_action :
    String → List String → List String → Bool → Bool → Bool → Bool
unfolding external_actors mem subset
may_execute_external_action actor_type granted_approvals required_approvals rights_active
      document_current audit_chain_valid =
    mem actor_type external_actors
    && subset required_approvals granted_approvals
    && rights_active
    && document_current
    && audit_chain_valid

pub data OutcomeError : Type 0 where
  unsupported_outcome_state : OutcomeError

unfoldable pub outcome_states : List String
outcome_states =
    "WON" ∷ "LOST" ∷ "NO_BID" ∷ "WITHDRAWN" ∷ "EXPIRED" ∷ "REALIZED" ∷ "NOT_REALIZED" ∷ "UNKNOWN"
    ∷ []

unfoldable pub normalize_outcome : Bool → Option String → Result OutcomeError String
unfolding outcome_states mem
normalize_outcome observed none = ok "UNKNOWN"
normalize_outcome observed (some state) =
    if not observed
    then ok "UNKNOWN"
    else if not (mem state outcome_states)
    then err unsupported_outcome_state
    else ok state

unfoldable pub learning_state : String → Bool → String
learning_state actor_type human_reviewed =
    if actor_type == "MODEL"
    then "PROPOSED"
    else if human_reviewed && actor_type == "HUMAN_LEARNING_AUTHORITY"
    then "REVIEWED"
    else "PROPOSED"

unfoldable pub canonical_digest : Library → Json → String
canonical_digest lib payload = lib.sha256_hex (lib.dumps payload)

unfoldable pub audit_event_hash : Library → String → Json → String
unfolding canonical_digest obj
audit_event_hash lib previous_hash event =
    canonical_digest lib (obj (("previous_event_hash", text previous_hash) ∷ ("event", event) ∷ []))

unfoldable pub import_authority : Bool → Bool → String
import_authority hash_valid schema_known =
    if not hash_valid || not schema_known then "QUARANTINE" else "CANDIDATE_ONLY"
