-- ===== src/Tests/EnterpriseRuns.antt =====
-- Runs of the enterprise decisions, and the theorem on quotas applied to one.
use axignal.Common.{◌≡◌, refl, ◌↔◌, ◌+◌, ◌<◌, true, false, arith}
use axignal.Common.Integers.{pos, negsuc}
use axignal.Enterprise.{
  deny, verdict, reserve, invalid_quota_value, scim_mutation_decision, support_access_decision,
  private_library_access_decision, quota_reservation_decision,
}
use axignal.Enterprise.Quota.{quota_reservation_decision_iff}

two_is_positive : 0 < 2
two_is_positive = omega arith

quota_reservation_decision_iff_example :
    (quota_reservation_decision (pos 10) (pos 4) (pos 3) (pos 2) false ≡ reserve 1)
    ↔ (4 + 3 + 2 + 1 ≡ 10)
quota_reservation_decision_iff_example = quota_reservation_decision_iff 10 4 3 2 1 two_is_positive

quota_is_granted : quota_reservation_decision (pos 10) (pos 4) (pos 3) (pos 2) false ≡ reserve 1
unfolding quota_reservation_decision
quota_is_granted = refl

negative_is_refused :
    quota_reservation_decision (pos 10) (negsuc 0) (pos 3) (pos 2) false ≡ invalid_quota_value
unfolding quota_reservation_decision
negative_is_refused = refl

deletion_is_refused :
    private_library_access_decision "t1" "t1" true true true true true true
    ≡ deny "DELETION_PENDING"
unfolding private_library_access_decision
deletion_is_refused = refl

no_audit_is_refused :
    support_access_decision true true true true true true false ≡ deny "CONTINUOUS_AUDIT_REQUIRED"
unfolding support_access_decision
no_audit_is_refused = refl

update_is_allowed :
    scim_mutation_decision "UPDATE" true true false false false
    ≡ verdict "ALLOW_BOUNDED_MUTATION" "SCIM_POLICY_PASS"
unfolding scim_mutation_decision
update_is_allowed = refl
