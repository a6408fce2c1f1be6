-- ===== src/Opportunity/Graph.antt =====
-- Runs through the states of an opportunity.
use axignal.Common.{
  sym, ◌≡◌, refl, ◌⊎◌, inl, inr, String, true, false, List, [], ◌∷◌, ◌++◌, All, mem, subset, subst,
  and-left, and-right, ◌==◌, eq_iff, arith, Bool-cases,
}
use axignal.Opportunity.{allowed_transitions, transition_allowed}

-- A run of allowed transitions from "DETECTED" to the index, and the states left on the way, the last
-- one first.
pub data Run : List String → String → Type 0 where
  detected : Run [] "DETECTED"
  move :
      {left : List String} {s : String} (t : String)
      → Run left s
      → transition_allowed s t ≡ true
      → Run (s ∷ left) t

-- The states in which the opportunity is acted upon.
abbrev pub acting : List String
acting = "IN_EXECUTION" ∷ "SUBMITTED_OR_ACTIVATED" ∷ "WON_OR_REALIZED" ∷ []

-- The only states before each acting state.
execution_from : (s : String) → transition_allowed s "IN_EXECUTION" ≡ true → s ≡ "APPROVED"
unfolding transition_allowed
execution_from s h = ground (arith, eq_iff "APPROVED" s)

submission_from :
    (s : String) → transition_allowed s "SUBMITTED_OR_ACTIVATED" ≡ true → s ≡ "IN_EXECUTION"
unfolding transition_allowed
submission_from s h = ground (arith, eq_iff "IN_EXECUTION" s)

success_from :
    (s : String) → transition_allowed s "WON_OR_REALIZED" ≡ true → s ≡ "SUBMITTED_OR_ACTIVATED"
unfolding transition_allowed
success_from s h = ground (arith, eq_iff "SUBMITTED_OR_ACTIVATED" s)

before_acting :
    (s t : String)
    → transition_allowed s t ≡ true
    → mem t acting ≡ true
    → (s ≡ "APPROVED") ⊎ (mem s acting ≡ true)
unfolding mem
before_acting s t h a = elim (Bool-cases (t == "IN_EXECUTION")) [
  | inl e ↦ inl (execution_from s (rw ((eq_iff t "IN_EXECUTION").0 e) at h))
  | inr e ↦ elim (Bool-cases (t == "SUBMITTED_OR_ACTIVATED")) [
    | inl f ↦ inr (rw (submission_from s (rw ((eq_iff t "SUBMITTED_OR_ACTIVATED").0 f) at h)) refl)
    | inr f ↦
        let g : t ≡ "WON_OR_REALIZED" = ground (arith, eq_iff t "WON_OR_REALIZED", e, f) in
        inr (rw (success_from s (rw g at h)) refl)
  ]
]

-- Whoever acts on an opportunity has an approval behind him: each run to "IN_EXECUTION",
-- "SUBMITTED_OR_ACTIVATED" or "WON_OR_REALIZED" has left "APPROVED" on its way.
pub Run-approved :
    {left : List String} {t : String}
    → Run left t
    → mem t acting ≡ true
    → mem "APPROVED" left ≡ true
unfolding mem
Run-approved detected a = absurd (cc a)
Run-approved (move {left} {s} t r h) a = elim (before_acting s t h a) [
  | inl e ↦ ground (arith, eq_iff "APPROVED" s, e)
  | inr b ↦ ground (arith, Run-approved r b)
]

-- A way of allowed transitions from the state to "LEARNING_CAPTURED".
pub data Concludes : String → Type 0 where
  learned : Concludes "LEARNING_CAPTURED"
  via : {s : String} (t : String) → transition_allowed s t ≡ true → Concludes t → Concludes s

-- Every state that the table names, as a row or as a target.
abbrev pub named : List (String × List String) → List String
named [] = []
named ((s, targets) ∷ rows) = s ∷ targets ++ named rows

-- The states in the order in which they are left on the way to "LEARNING_CAPTURED", the last first.
abbrev states : List String
states =
    "LEARNING_CAPTURED" ∷ "LOST_OR_CLOSED" ∷ "REJECTED" ∷ "DECLINED" ∷ "WON_OR_REALIZED"
    ∷ "SUBMITTED_OR_ACTIVATED" ∷ "IN_EXECUTION" ∷ "APPROVED" ∷ "DECISION_PENDING" ∷ "PURSUIT_OPEN"
    ∷ "QUALIFIED" ∷ "QUALIFYING" ∷ "DETECTED" ∷ []

Concludes-states : All Concludes states
unfolding transition_allowed
Concludes-states =
    let closed : Concludes "LOST_OR_CLOSED" = via "LEARNING_CAPTURED" refl learned in
    let refused : Concludes "REJECTED" = via "LEARNING_CAPTURED" refl learned in
    let declined : Concludes "DECLINED" = via "LEARNING_CAPTURED" refl learned in
    let won : Concludes "WON_OR_REALIZED" = via "LEARNING_CAPTURED" refl learned in
    let submitted : Concludes "SUBMITTED_OR_ACTIVATED" = via "LOST_OR_CLOSED" refl closed in
    let running : Concludes "IN_EXECUTION" = via "LOST_OR_CLOSED" refl closed in
    let approved : Concludes "APPROVED" = via "DECLINED" refl declined in
    let waiting : Concludes "DECISION_PENDING" = via "DECLINED" refl declined in
    let pursued : Concludes "PURSUIT_OPEN" = via "DECISION_PENDING" refl waiting in
    let qualified : Concludes "QUALIFIED" = via "REJECTED" refl refused in
    let qualifying : Concludes "QUALIFYING" = via "REJECTED" refl refused in
    let detected : Concludes "DETECTED" = via "REJECTED" refl refused in
    (
      learned,
      (
        closed,
        (
          refused,
          (
            declined,
            (
              won,
              (
                submitted,
                (
                  running,
                  (approved, (waiting, (pursued, (qualified, (qualifying, (detected, tt)))))),
                ),
              ),
            ),
          ),
        ),
      ),
    )

All-mem {ℓ} :
    (P : String → Type ℓ) (xs : List String) (y : String) → All P xs → mem y xs ≡ true → P y
unfolding mem
All-mem P [] y a h = absurd (cc h)
All-mem P (x ∷ xs) y (p, a) h = elim (Bool-cases (y == x)) [
  | inl e ↦ subst P (sym ((eq_iff y x).0 e)) p
  | inr e ↦ All-mem P xs y a (rw e at h)
]

All-subset {ℓ} :
    (P : String → Type ℓ) (xs ys : List String) → subset xs ys ≡ true → All P ys → All P xs
unfolding subset
All-subset P [] ys h a = tt
All-subset P (x ∷ xs) ys h a =
    (All-mem P ys x a (and-left _ _ h), All-subset P xs ys (and-right _ _ h) a)

-- From every state that the table names the opportunity can be brought to "LEARNING_CAPTURED", and
-- from there to no state.
pub states_conclude :
    All Concludes (named allowed_transitions)
    × ((t : String) → transition_allowed "LEARNING_CAPTURED" t ≡ false)
unfolding transition_allowed allowed_transitions subset
states_conclude =
    (All-subset Concludes (named allowed_transitions) states refl Concludes-states, λ t. refl)
