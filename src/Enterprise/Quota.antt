-- ===== src/Enterprise/Quota.antt =====
-- What a reservation of a quota leaves.
use axignal.Common.{◌≡◌, ◌↔◌, ℕ, ◌<◌, ◌+◌, ◌-◌, false, ltb, arith, Bool-cases, inl, inr, ap}
use axignal.Common.Integers.{pos}
use axignal.Enterprise.{reserve, quota_of, quota_reservation_decision}

reserve_injective : {a b : ℕ} → reserve a ≡ reserve b → a ≡ b
reserve_injective h = cc h

-- A new request for a positive amount is granted, with so much left, exactly when what is used, what is
-- reserved, the request and what is left make up the limit: nothing is granted beyond the limit, and
-- nothing that fits is refused.
pub quota_reservation_decision_iff :
    (limit used reserved requested left : ℕ)
    → 0 < requested
    → (quota_reservation_decision (pos limit) (pos used) (pos reserved) (pos requested) false
        ≡ reserve left)
      ↔ (used + reserved + requested + left ≡ limit)
unfolding quota_reservation_decision quota_of
quota_reservation_decision_iff limit used reserved requested left some_ =
    elim (Bool-cases (ltb (limit - used - reserved) requested)) [
      | inl e ↦ ((λ h. cc (rw (quota_of, e) at h)), (λ h. ground (arith, e, h)))
      | inr e ↦
          let fits : (limit - used - reserved - requested ≡ left)
              → used + reserved + requested + left ≡ limit =
            λ h. ground arith in
          (
            (λ h. fits (reserve_injective (rw (quota_of, e) at h))),
            (λ h. rw (quota_of, e) (ap reserve (ground arith))),
          )
    ]
