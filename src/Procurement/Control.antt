-- ===== src/Procurement/Control.antt =====
-- What the states of a clarification that is accepted record.
use axignal.Common.{
  ◌≡◌, refl, ◌↔◌, ℕ, zero, suc, String, Bool, true, false, ◌&&◌, ◌||◌, ok, reject_if, is_none, ◌>>◌,
}
use axignal.Procurement.{
  Clarification, ClarificationState, draft, internal_review, ready_for_user_approval, user_approved,
  external_handoff, sent_confirmed, answer_received, answer_applied, closed_clarification,
  cancelled, is_blank, needs_approval, needs_handoff, needs_sent, validate_human_control,
}

-- How far the clarification went outside: approved, handed over, sent.
pub reach : ClarificationState → ℕ
reach draft = 0
reach internal_review = 0
reach ready_for_user_approval = 0
reach cancelled = 0
reach user_approved = 1
reach external_handoff = 2
reach sent_confirmed = 3
reach answer_received = 3
reach answer_applied = 3
reach closed_clarification = 3

-- What is missing of each step: the approval, the hand-over, the confirmation that it was sent.
pub no_approval : Clarification → Bool
no_approval c = is_blank c.approved_by || is_none c.approved_at

pub no_handoff : Clarification → Bool
no_handoff c = is_none c.external_handoff_at

pub no_confirmation : Clarification → Bool
no_confirmation c = is_blank c.sent_confirmed_by || is_none c.sent_at

-- Nothing is missing of the first `n` steps.
Complete : ℕ → Bool → Bool → Bool → Type 0
Complete zero a h t = Unit
Complete (suc zero) a h t = a ≡ false
Complete (suc (suc zero)) a h t = (a ≡ false) × (h ≡ false)
Complete (suc (suc (suc n))) a h t = (a ≡ false) × (h ≡ false) × (t ≡ false)

pub Recorded : ℕ → Clarification → Type 0
Recorded n c = Complete n (no_approval c) (no_handoff c) (no_confirmation c)

checks_iff :
    (a h t : Bool) (e f g : String)
    → ((do reject_if a e; reject_if h f; reject_if t g) ≡ ok tt)
      ↔ ((a ≡ false) × (h ≡ false) × (t ≡ false))
checks_iff true h t e f g = ((λ r. cc r), (λ r. cc r.0))
checks_iff false true t e f g = ((λ r. cc r), (λ r. cc r.1))
checks_iff false false true e f g = ((λ r. cc r), (λ r. cc r.2))
checks_iff false false false e f g = ((λ r. (refl, refl, refl)), (λ r. refl))

states_iff :
    (s : ClarificationState) (a h t : Bool)
    → (((needs_approval s && a) ≡ false)
        × ((needs_handoff s && h) ≡ false)
        × ((needs_sent s && t) ≡ false))
      ↔ Complete (reach s) a h t
unfolding reach Complete
states_iff draft a h t = ((λ r. tt), (λ r. (refl, refl, refl)))
states_iff internal_review a h t = ((λ r. tt), (λ r. (refl, refl, refl)))
states_iff ready_for_user_approval a h t = ((λ r. tt), (λ r. (refl, refl, refl)))
states_iff cancelled a h t = ((λ r. tt), (λ r. (refl, refl, refl)))
states_iff user_approved a h t = ((λ r. r.0), (λ r. (r, refl, refl)))
states_iff external_handoff a h t = ((λ r. (r.0, r.1)), (λ r. (r.0, r.1, refl)))
states_iff sent_confirmed a h t = ((λ r. r), (λ r. r))
states_iff answer_received a h t = ((λ r. r), (λ r. r))
states_iff answer_applied a h t = ((λ r. r), (λ r. r))
states_iff closed_clarification a h t = ((λ r. r), (λ r. r))

-- A clarification is accepted exactly when it records every step that its state presumes, in their
-- order: from an approved state on who approved it and when, from the hand-over on when it was handed
-- over, and from the confirmation that it was sent on who confirmed that and when.
pub validate_human_control_iff :
    (c : Clarification) → (validate_human_control c ≡ ok tt) ↔ Recorded (reach c.state) c
unfolding validate_human_control Recorded no_approval no_handoff no_confirmation
validate_human_control_iff c =
    let (to, from) =
      checks_iff (needs_approval c.state && no_approval c) (needs_handoff c.state && no_handoff c)
        (needs_sent c.state && no_confirmation c)
        "External communication requires explicit subscriber approval"
        "External states require a recorded handoff"
        "Sent state must be confirmed by the subscriber" in
    let (to2, from2) = states_iff c.state (no_approval c) (no_handoff c) (no_confirmation c) in
    ((λ r. to2 (to r)), (λ r. from (from2 r)))
