-- ===== src/Launch.antt =====
-- scripts/p24_acceptance_reference.py: the acceptance decisions before a launch, the launch mode, the
-- expansion of a cohort and the rollback.
pub mod Modes
pub mod Approvals
use axignal.Common.{
  ℕ, ◌+◌, String, Bool, true, false, not, ◌&&◌, ◌||◌, Option, none, some, List, [], ◌∷◌, ◌++◌, leb,
  ltb, ◌==◌, if◌then◌else◌,
}

pub data Decision : Type 0 where
  pass deny quarantine no_go_decision : Decision

pub data LaunchMode : Type 0 where
  no_go controlled_live_pilot bounded_public_launch general_availability : LaunchMode

pub record Approval : Type 0 where
  pub authority : String
  pub manifest_digest : String
  pub approved : Bool
  pub expired : Bool

abbrev pub is_pass : Decision → Bool
is_pass pass = true
is_pass _ = false

abbrev pub has_items {ℓ} : {A : Type ℓ} → List A → Bool
has_items [] = false
has_items (x ∷ xs) = true

-- `all(checks)`
abbrev pub all : List Bool → Bool
all [] = true
all (b ∷ bs) = b && all bs

unfoldable pub exact_head_decision : String → String → Bool → Bool → Decision
exact_head_decision expected_head observed_head artifact_digest_match ci_pass =
    if not (expected_head == observed_head)
    then deny
    else if not artifact_digest_match
    then quarantine
    else if ci_pass
    then pass
    else deny

unfoldable pub journey_evidence_decision : String → String → Bool → Bool → Bool → Decision
journey_evidence_decision required observed completed evidence_preserved contains_secret =
    if not (required == observed)
    then deny
    else if contains_secret
    then quarantine
    else if not completed || not evidence_preserved
    then deny
    else pass

unfoldable pub renewal_evidence_decision : Bool → Bool → Bool → Bool → Bool → Decision
renewal_evidence_decision later_billing_period provider_delivered_event settled used_test_clock
      require_real_period =
    if require_real_period && used_test_clock
    then deny
    else if not later_billing_period || not provider_delivered_event || not settled
    then deny
    else pass

unfoldable pub controlled_live_payment_decision :
    Bool → Bool → Bool → Bool → Bool → Bool → Bool → Bool → Decision
controlled_live_payment_decision restricted_live_key live_product_and_price real_charge
      settled_invoice signed_live_webhook ledger_reconciled entitlement_matches
      cancellation_or_refund_verified =
    if all (
      restricted_live_key ∷ live_product_and_price ∷ real_charge ∷ settled_invoice
      ∷ signed_live_webhook ∷ ledger_reconciled ∷ entitlement_matches
      ∷ cancellation_or_refund_verified ∷ [])
    then pass
    else deny

pub record PaidCustomer : Type 0 where
  pub unrelated_external_tenant : Bool
  pub terms_accepted : Bool
  pub privacy_accepted : Bool
  pub settled_invoice : Bool
  pub signed_provider_events : Bool
  pub ledger_reconciled : Bool
  pub entitlement_matches : Bool
  pub completed_value_workflows : ℕ
  pub minimum_value_workflows : ℕ
  pub observed_days : ℕ
  pub minimum_observation_days : ℕ
  pub active_dispute : Bool
  pub refunded_during_observation : Bool

unfoldable pub independent_paid_customer_decision : PaidCustomer → Decision
independent_paid_customer_decision p =
    if p.active_dispute || p.refunded_during_observation
    then deny
    else if all (
        p.unrelated_external_tenant
        ∷ p.terms_accepted
        ∷ p.privacy_accepted
        ∷ p.settled_invoice
        ∷ p.signed_provider_events
        ∷ p.ledger_reconciled
        ∷ p.entitlement_matches
        ∷ leb p.minimum_value_workflows p.completed_value_workflows
        ∷ leb p.minimum_observation_days p.observed_days
        ∷ [])
    then pass
    else deny

-- `by_authority.get(authority)`: of two approvals of one authority the later one stands.
unfoldable pub approval_of : String → List Approval → Option Approval
approval_of authority [] = none
approval_of authority (a ∷ later) = elim (approval_of authority later) [
  | some b ↦ some b
  | none ↦ if a.authority == authority then some a else none
]

-- The tests of the loop's body on one required authority.
unfoldable pub approval_holds : String → Option Approval → Bool
approval_holds digest none = false
approval_holds digest (some a) =
    if not a.approved || a.expired
    then false
    else if not (a.manifest_digest == digest)
    then false
    else true

unfoldable pub approval_set_decision : List String → List Approval → String → Decision
unfolding approval_of approval_holds
approval_set_decision [] approvals digest = pass
approval_set_decision (authority ∷ required) approvals digest =
    let rest = approval_set_decision required approvals digest in
    if approval_holds digest (approval_of authority approvals) then rest else deny

-- `gates.get(gate)` on a mapping, kept as its pairs with distinct names.
unfoldable pub get : List (String × String) → String → Option String
get [] gate = none
get ((name, value) ∷ gates) gate = if name == gate then some value else get gates gate

unfoldable pub gate_passes : List (String × String) → String → Bool
unfolding get
gate_passes gates gate = elim (get gates gate) [ some value ↦ value == "PASS" | none ↦ false ]

unfoldable pub all_gates_pass : List (String × String) → List String → Bool
unfolding gate_passes
all_gates_pass gates [] = true
all_gates_pass gates (g ∷ gs) = gate_passes gates g && all_gates_pass gates gs

unfoldable pub pilot_gates : List String
pilot_gates =
    "P17_EXACT_HEAD_PASS" ∷ "P18_EXACT_HEAD_PASS" ∷ "P19_EXACT_HEAD_PASS" ∷ "P20_EXACT_HEAD_PASS"
    ∷ "P21_SANDBOX_E2E_PASS" ∷ "P22_PRODUCTION_READINESS_PASS" ∷ "P23_REAL_UX_PASS"
    ∷ "GLOBAL_JOURNEYS_PASS" ∷ "SECURITY_ACCEPTANCE_PASS" ∷ "DR_RESTORE_PASS" ∷ "SLO_HEALTH_PASS"
    ∷ "ACCESSIBILITY_PASS" ∷ "PRIVACY_LEGAL_PASS" ∷ "LIVE_BILLING_READINESS_PASS"
    ∷ "CONTROLLED_LIVE_PAYMENT_PASS" ∷ "FINANCE_RECONCILIATION_PASS" ∷ "PRODUCT_APPROVAL_PASS"
    ∷ "SECURITY_APPROVAL_PASS" ∷ "SRE_APPROVAL_PASS" ∷ "FINANCE_APPROVAL_PASS"
    ∷ "LEGAL_APPROVAL_PASS" ∷ []

unfoldable pub public_gates : List String
public_gates = pilot_gates ++ "INDEPENDENT_PAID_CUSTOMER_PASS" ∷ []

unfoldable pub ga_gates : List String
ga_gates =
    public_gates
    ++ "RENEWAL_EVIDENCE_PASS" ∷ "COHORT_STABILITY_PASS" ∷ "SUPPORT_READINESS_PASS" ∷ []

abbrev pub is_pilot : LaunchMode → Bool
is_pilot controlled_live_pilot = true
is_pilot _ = false

abbrev pub is_public : LaunchMode → Bool
is_public bounded_public_launch = true
is_public _ = false

unfoldable pub launch_mode_decision :
    LaunchMode → List (String × String) → List String → Decision → LaunchMode
launch_mode_decision requested_mode gates active_stop_conditions manifest_approval =
    if has_items active_stop_conditions || not (is_pass manifest_approval)
    then no_go
    else if not (all_gates_pass gates pilot_gates)
    then no_go
    else if is_pilot requested_mode
    then controlled_live_pilot
    else if not (all_gates_pass gates public_gates)
    then controlled_live_pilot
    else if is_public requested_mode
    then bounded_public_launch
    else if not (all_gates_pass gates ga_gates)
    then bounded_public_launch
    else general_availability

-- `mode_cap is not None and requested_tenants > mode_cap`
abbrev pub over_cap : Option ℕ → ℕ → Bool
over_cap none requested = false
over_cap (some cap) requested = ltb cap requested

unfoldable pub cohort_expansion_decision :
    ℕ → ℕ → Option ℕ → Bool → Bool → Bool → List String → Bool → Decision
cohort_expansion_decision current_tenants requested_tenants mode_cap slo_healthy error_budget_frozen
      fast_burn_alert active_stop_conditions human_approved =
    if leb requested_tenants current_tenants
    then deny
    else if over_cap mode_cap requested_tenants
    then deny
    else if not slo_healthy || error_budget_frozen || fast_burn_alert
    then deny
    else if has_items active_stop_conditions || not human_approved
    then deny
    else pass

unfoldable pub rollback_decision : Bool → Bool → Bool → Bool → Bool → Decision
rollback_decision stop_condition_active rollback_artifact_verified billing_evidence_preserved
      audit_history_preserved entitlements_reconciled_to_provider =
    if not stop_condition_active
    then deny
    else if all (
        rollback_artifact_verified ∷ billing_evidence_preserved ∷ audit_history_preserved
        ∷ entitlements_reconciled_to_provider ∷ [])
    then pass
    else quarantine
