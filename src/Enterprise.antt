-- ===== src/Enterprise.antt =====
-- scripts/p20_enterprise_reference.py: the access decisions of the enterprise phase and the quotas.
pub mod Quota
use axignal.Common.{
  ℕ, String, Bool, true, false, not, ◌&&◌, ◌||◌, List, [], ◌∷◌, ltb, mem, ◌-◌, ◌==◌, if◌then◌else◌,
}
use axignal.Common.Integers.{ℤ, pos, negsuc}

-- `{"decision": ..., "reason": ...}`
pub record Verdict : Type 0 where
  pub decision : String
  pub reason : String

abbrev pub deny : String → Verdict
deny reason = record { decision = "DENY"; reason = reason }

abbrev pub verdict : String → String → Verdict
verdict decision reason = record { decision = decision; reason = reason }

-- The first of the checks that did not pass, or the verdict where all passed.
unfoldable pub first_failure : List (String × Bool) → Verdict → Verdict
first_failure [] v = v
first_failure ((reason, passed) ∷ checks) v =
    let rest = first_failure checks v in if passed then rest else deny reason

unfoldable pub federated_login_decision :
    Bool → Bool → Bool → Bool → Bool → Bool → Bool → Bool → Verdict
unfolding first_failure
federated_login_decision domain issuer signature audience nonce fresh active tenant =
    first_failure
      (("DOMAIN_NOT_VERIFIED", domain)
        ∷ ("ISSUER_MISMATCH", issuer)
        ∷ ("SIGNATURE_INVALID", signature)
        ∷ ("AUDIENCE_INVALID", audience)
        ∷ ("NONCE_INVALID", nonce)
        ∷ ("ASSERTION_STALE", fresh)
        ∷ ("PRINCIPAL_INACTIVE", active)
        ∷ ("SERVER_TENANT_UNRESOLVED", tenant)
        ∷ [])
      (verdict "ALLOW_AUTHENTICATED" "FEDERATION_VERIFIED")

unfoldable pub scim_mutation_decision : String → Bool → Bool → Bool → Bool → Bool → Verdict
unfolding mem
scim_mutation_decision operation client tenant approved privileged revokes =
    if not client
    then deny "SCIM_CLIENT_INACTIVE"
    else if not tenant
    then deny "CROSS_TENANT_TARGET"
    else if privileged && not approved
    then deny "PRIVILEGED_MAPPING_UNAPPROVED"
    else if operation == "DEPROVISION" && not revokes
    then deny "SESSION_REVOCATION_REQUIRED"
    else if not (mem operation ("CREATE" ∷ "UPDATE" ∷ "SUSPEND" ∷ "DEPROVISION" ∷ []))
    then deny "UNSUPPORTED_OPERATION"
    else verdict "ALLOW_BOUNDED_MUTATION" "SCIM_POLICY_PASS"

unfoldable pub private_library_access_decision :
    String → String → Bool → Bool → Bool → Bool → Bool → Bool → Verdict
unfolding first_failure
private_library_access_decision request resource workspace known rights purpose residency deletion =
    if not (request == resource)
    then deny "CROSS_TENANT_ACCESS"
    else first_failure
        (("WORKSPACE_SCOPE_MISMATCH", workspace)
          ∷ ("CLASSIFICATION_UNKNOWN", known)
          ∷ ("RIGHTS_INACTIVE", rights)
          ∷ ("PURPOSE_NOT_ALLOWED", purpose)
          ∷ ("RESIDENCY_ROUTE_DENIED", residency)
          ∷ ("DELETION_PENDING", not deletion)
          ∷ [])
        (verdict "ALLOW_PRIVATE_ONLY" "PRIVATE_SCOPE_PASS")

unfoldable pub api_authorisation_decision :
    Bool → Bool → String → List String → List String → String → Bool → Bool → Bool → Verdict
unfolding mem
api_authorisation_decision credential principal scope scopes capabilities capability filter tenant
      rights =
    if not credential || not principal
    then deny "INACTIVE_CREDENTIAL_OR_PRINCIPAL"
    else if not (mem scope scopes)
    then deny "SCOPE_NOT_GRANTED"
    else if not (mem capability capabilities)
    then deny "CAPABILITY_NOT_EFFECTIVE"
    else if not filter
    then deny "RESOURCE_FILTER_MISMATCH"
    else if not tenant
    then deny "SERVER_TENANT_UNRESOLVED"
    else if not rights
    then deny "RIGHTS_DENY"
    else verdict "ALLOW" "SCOPE_CAPABILITY_RIGHTS_INTERSECTION"

unfoldable pub integration_activation_decision :
    Bool → Bool → Bool → Bool → Bool → Bool → Bool → Verdict
unfolding first_failure
integration_activation_decision tenant secret endpoint egress rights approval admission =
    if admission
    then deny "P20_HAS_NO_SOURCE_ADMISSION_AUTHORITY"
    else first_failure
        (("INSTALLATION_TENANT_MISMATCH", tenant)
          ∷ ("SECRET_REFERENCE_REQUIRED", secret)
          ∷ ("ENDPOINT_NOT_ALLOWLISTED", endpoint)
          ∷ ("EGRESS_POLICY_DENY", egress)
          ∷ ("RIGHTS_DENY", rights)
          ∷ ("HUMAN_APPROVAL_REQUIRED", approval)
          ∷ [])
        (verdict "ALLOW_PRIVATE_INTEGRATION" "INTEGRATION_GATE_PASS")

unfoldable pub support_access_decision : Bool → Bool → Bool → Bool → Bool → Bool → Bool → Verdict
unfolding first_failure
support_access_decision human ticket approval minimal short strong audit =
    first_failure
      (("HUMAN_PRINCIPAL_REQUIRED", human)
        ∷ ("TICKET_REFERENCE_REQUIRED", ticket)
        ∷ ("INDEPENDENT_APPROVAL_REQUIRED", approval)
        ∷ ("MINIMAL_SCOPE_REQUIRED", minimal)
        ∷ ("SHORT_EXPIRY_REQUIRED", short)
        ∷ ("STRONG_AUTHENTICATION_REQUIRED", strong)
        ∷ ("CONTINUOUS_AUDIT_REQUIRED", audit)
        ∷ [])
      (verdict "ALLOW_TIME_BOUNDED" "SUPPORT_ACCESS_PASS")

unfoldable pub may_promote_private_data_to_global_canonical : String → Bool → Verdict
may_promote_private_data_to_global_canonical authority passed =
    if not (authority == "INDEPENDENT_CANONICAL_ADMISSION_RUNTIME")
    then deny "INDEPENDENT_ADMISSION_REQUIRED"
    else if not passed
    then deny "ADMISSION_GATE_NOT_PASSED"
    else verdict "ALLOW_ELIGIBLE_HANDOFF" "OUTSIDE_P20_AUTHORITY"

-- The answers on a quota, with what is available.
pub data QuotaDecision : Type 0 where
  invalid_quota_value : QuotaDecision
  reuse_existing_reservation quota_exhausted reserve : ℕ → QuotaDecision

-- The answer where no value is negative. Subtraction stops at 0, as `max(..., 0)` does.
unfoldable pub quota_of : ℕ → ℕ → ℕ → ℕ → Bool → QuotaDecision
quota_of limit used reserved requested reused =
    let available : ℕ = limit - used - reserved in
    if reused
    then reuse_existing_reservation available
    else if ltb available requested
    then quota_exhausted available
    else reserve (available - requested)

unfoldable pub quota_reservation_decision : ℤ → ℤ → ℤ → ℤ → Bool → QuotaDecision
unfolding quota_of
quota_reservation_decision (pos limit) (pos used) (pos reserved) (pos requested) reused =
    quota_of limit used reserved requested reused
quota_reservation_decision _ _ _ _ reused = invalid_quota_value
