-- ===== src/Opportunity/Authority.antt =====
-- Who may act, and what an outcome may be.
use axignal.Common.{
  ◌≡◌, ◌≢◌, refl, String, Bool, true, false, Option, none, some, List, [], ◌∷◌, mem, subset,
  mem-subset, eq_iff, arith, ok, err, sym, ◌∙◌, ok_injective, Bool-cases, inl, inr,
}
use axignal.Opportunity.{
  approval_valid, may_execute_external_action, external_actors, normalize_outcome, outcome_states,
  unsupported_outcome_state,
}

-- The approver of a valid approval is named and is not the requester.
pub approval_valid-four_eyes :
    (state requester approver : String) (version rights document : Bool)
    → approval_valid state requester approver version rights document ≡ true
    → (requester ≢ approver) × (requester ≢ "") × (approver ≢ "")
unfolding approval_valid
approval_valid-four_eyes state requester approver version rights document h = (
  (λ e. ground (arith, eq_iff requester approver, e)),
  (λ e. ground (arith, eq_iff requester "", e)),
  (λ e. ground (arith, eq_iff approver "", e)),
)

-- An action outside the product that is allowed is taken by a human authority, over documents, rights
-- and an audit chain in force, with every required approval granted; and it stays allowed when
-- more approvals are granted.
pub may_execute_external_action-granted :
    (actor : String) (granted more required : List String) (rights document chain : Bool)
    → may_execute_external_action actor granted required rights document chain ≡ true
    → (mem actor external_actors ≡ true)
      × ((r : String) → mem r required ≡ true → mem r granted ≡ true)
      × (subset granted more ≡ true
          → may_execute_external_action actor more required rights document chain ≡ true)
unfolding may_execute_external_action
may_execute_external_action-granted actor granted more required rights document chain h = (
  ground arith,
  (λ r m. mem-subset r required granted (ground arith) m),
  (λ w. ground (arith, subset_trans required granted more)),
)
  where
    subset_trans :
        (xs ys zs : List String) → subset xs ys ≡ true → subset ys zs ≡ true → subset xs zs ≡ true
    subset_trans [] ys zs a b = refl
    subset_trans (x ∷ xs) ys zs a b = ground (arith, mem-subset x ys zs, subset_trans xs ys zs)

unknown_state : mem "UNKNOWN" outcome_states ≡ true
unfolding mem outcome_states
unknown_state = refl

supported : (s : String) → mem s outcome_states ≡ true → normalize_outcome true (some s) ≡ ok s
unfolding normalize_outcome
supported s m = rw (m, normalize_outcome) refl

unsupported :
    (s : String)
    → mem s outcome_states ≡ false
    → normalize_outcome true (some s) ≡ err unsupported_outcome_state
unfolding normalize_outcome
unsupported s m = rw (m, normalize_outcome) refl

-- Whatever is returned for an outcome is one of the eight states, and normalising it again changes
-- nothing.
pub normalize_outcome-stable :
    (observed : Bool) (state : Option String) (out : String)
    → normalize_outcome observed state ≡ ok out
    → (mem out outcome_states ≡ true) × (normalize_outcome true (some out) ≡ ok out)
unfolding normalize_outcome
normalize_outcome-stable observed none out h =
    rw (sym (ok_injective h)) (unknown_state, supported "UNKNOWN" unknown_state)
normalize_outcome-stable false (some state) out h =
    rw (sym (ok_injective h)) (unknown_state, supported "UNKNOWN" unknown_state)
normalize_outcome-stable true (some state) out h = elim (Bool-cases (mem state outcome_states)) [
  | inl e ↦
      let same : state ≡ out = ok_injective (sym (supported state e) ∙ h) in
      rw (sym same) (e, supported state e)
  | inr e ↦ absurd (cc (unsupported state e, h))
]
