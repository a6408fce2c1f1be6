-- ===== src/Launch/Approvals.antt =====
-- When a set of approvals is enough.
use axignal.Common.{
  ◌≡◌, ◌≢◌, refl, ◌↔◌, inl, inr, String, true, false, none, some, List, [], ◌∷◌, ◌++◌, eq_iff,
  eq_refl, arith, All, mem, Bool-cases, Option-cases,
}
use axignal.Launch.{pass, deny, Approval, approval_of, approval_holds, approval_set_decision}

-- `a` is in force for the manifest with this digest.
pub record InForce (digest : String) (a : Approval) : Type 0 where
  pub approved : a.approved ≡ true
  pub current : a.expired ≡ false
  pub manifest : a.manifest_digest ≡ digest

-- The approval that counts for an authority is in force.
abbrev pub IsApproved : List Approval → String → String → Type 0
IsApproved approvals digest authority =
    (a : Approval) × (approval_of authority approvals ≡ some a) × InForce digest a

approval_holds_iff :
    (digest : String) (a : Approval) → (approval_holds digest (some a) ≡ true) ↔ InForce digest a
unfolding approval_holds
approval_holds_iff digest a = (
  (λ h. record {
    approved = ground arith;
    current = ground arith;
    manifest = ground (arith, eq_iff a.manifest_digest digest);
  }),
  (λ f. ground (arith, f.approved, f.current, f.manifest, eq_iff a.manifest_digest digest)),
)

holds-IsApproved :
    (approvals : List Approval) (digest authority : String)
    → approval_holds digest (approval_of authority approvals) ≡ true
    → IsApproved approvals digest authority
unfolding approval_holds
holds-IsApproved approvals digest authority h =
    elim (Option-cases (approval_of authority approvals)) [
      | inl e ↦ absurd (cc (rw e at h))
      | inr (a, e) ↦ (a, e, (approval_holds_iff digest a).0 (rw e at h))
    ]

-- The set passes exactly when, for every required authority, the approval that counts is there, is
-- approved, has not expired and names this manifest.
pub approval_set_decision_iff :
    (required : List String) (approvals : List Approval) (digest : String)
    → (approval_set_decision required approvals digest ≡ pass)
      ↔ All (IsApproved approvals digest) required
unfolding approval_set_decision
approval_set_decision_iff [] approvals digest = ((λ _. tt), (λ _. refl))
approval_set_decision_iff (r ∷ rs) approvals digest =
    let rest = approval_set_decision_iff rs approvals digest in
    elim (Bool-cases (approval_holds digest (approval_of r approvals))) [
      | inl e ↦ (
        (λ h. (holds-IsApproved approvals digest r e, rest.0 (rw e at h))),
        (λ a. rw e (rest.1 a.1)),
      )
      | inr e ↦ (
        (λ h. absurd (cc (rw e at h))),
        (λ ((a, found, f), _). absurd (cc ((approval_holds_iff digest a).1 f, rw found at e))),
      )
    ]

approval_of-absent :
    (authority : String) (later : List Approval)
    → All (λ b. b.authority ≢ authority) later
    → approval_of authority later ≡ none
unfolding approval_of
approval_of-absent authority [] h = refl
approval_of-absent authority (b ∷ bs) (n, h) =
    ground (arith, approval_of-absent authority bs h, eq_iff b.authority authority, n)

approval_of-last :
    (before : List Approval) (a : Approval) (later : List Approval)
    → All (λ b. b.authority ≢ a.authority) later
    → approval_of a.authority (before ++ a ∷ later) ≡ some a
unfolding approval_of
approval_of-last [] a later h =
    rw (approval_of-absent a.authority later h, eq_refl a.authority) refl
approval_of-last (b ∷ before) a later h = rw (approval_of-last before a later h) refl

denied_if_withdrawn :
    (required : List String) (approvals : List Approval) (digest authority : String)
    → mem authority required ≡ true
    → approval_holds digest (approval_of authority approvals) ≡ false
    → approval_set_decision required approvals digest ≡ deny
unfolding approval_set_decision mem
denied_if_withdrawn [] approvals digest authority m h = absurd (cc m)
denied_if_withdrawn (r ∷ rs) approvals digest authority m h =
    ground (arith, eq_iff authority r, denied_if_withdrawn rs approvals digest authority)

-- The last approval of a required authority stands: where it is refused, has expired or names another
-- manifest, the set is denied, whatever that authority approved before.
pub approval_set_decision-withdrawn :
    (required : List String) (before : List Approval) (a : Approval) (later : List Approval)
    (digest : String)
    → mem a.authority required ≡ true
    → All (λ b. b.authority ≢ a.authority) later
    → approval_holds digest (some a) ≡ false
    → approval_set_decision required (before ++ a ∷ later) digest ≡ deny
approval_set_decision-withdrawn required before a later digest m l h =
    denied_if_withdrawn required (before ++ a ∷ later) digest a.authority m
      (rw (approval_of-last before a later l) h)
