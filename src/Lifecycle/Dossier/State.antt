-- ===== src/Lifecycle/Dossier/State.antt =====
-- What the lifecycle state of a dossier says of the notices.
use axignal.Common.{
  ◌≡◌, ◌≢◌, refl, ◌↔◌, String, Bool, true, false, inl, inr, List, [], ◌∷◌, ◌++◌, arith, eq_iff, All,
  Any, here, there, mem, subset, Bool-cases, if◌then◌else◌,
}
use axignal.Lifecycle.Notice.{LifecycleNotice, notice_cancellation, procedure_result, kind}
use axignal.Lifecycle.Lineage.Chain.{IsLineage}
use axignal.Lifecycle.Lineage.Guarantees.{IsLineage-closed}
use axignal.Lifecycle.Dossier.{
  is_result, result_notices, last_cancels, same_set, result_state, lifecycle_state_of,
}

abbrev pub IsCancellation : LifecycleNotice → Type 0
IsCancellation n = kind n ≡ notice_cancellation

last_cancels-Any : (ns : List LifecycleNotice) → last_cancels ns ≡ true → Any IsCancellation ns
unfolding last_cancels
last_cancels-Any [] h = cc h
last_cancels-Any (n ∷ []) h = here (ground arith)
last_cancels-Any (n ∷ m ∷ ns) h = there (last_cancels-Any (m ∷ ns) h)

last_cancels-end :
    (before : List LifecycleNotice) (c : LifecycleNotice)
    → IsCancellation c
    → last_cancels (before ++ c ∷ []) ≡ true
unfolding last_cancels
last_cancels-end [] c e = rw (e, last_cancels) refl
last_cancels-end (b ∷ []) c e = rw (e, last_cancels) refl
last_cancels-end (b ∷ d ∷ bs) c e = last_cancels-end (d ∷ bs) c e

no_results :
    (n : LifecycleNotice) (ns : List LifecycleNotice)
    → result_notices (n ∷ ns) ≡ []
    → (kind n ≢ procedure_result) × (result_notices ns ≡ [])
unfolding result_notices
no_results n ns h = elim (Bool-cases (is_result n)) [
  | inl e ↦ cc (rw e at h)
  | inr e ↦ ((λ k. cc (rw (k, is_result) at e)), rw e at h)
]

no_results_after :
    (before : List LifecycleNotice) (c : LifecycleNotice) (after : List LifecycleNotice)
    → result_notices (before ++ c ∷ after) ≡ []
    → All (λ n. kind n ≡ procedure_result) after
    → after ≡ []
no_results_after [] c [] h a = refl
no_results_after [] c (n ∷ ns) h a = absurd ((no_results n ns (no_results c (n ∷ ns) h).1).0 a.0)
no_results_after (b ∷ bs) c after h a =
    no_results_after bs c after (no_results b (bs ++ c ∷ after) h).1 a

split_at :
    (ns : List LifecycleNotice)
    → Any IsCancellation ns
    → (before : List LifecycleNotice) × (c : LifecycleNotice) × (after : List LifecycleNotice)
      × IsCancellation c
      × (ns ≡ before ++ c ∷ after)
split_at [] a = elim a [ ]
split_at (n ∷ ns) (here e) = ([], n, ns, e, refl)
split_at (n ∷ ns) (there a) =
    let (before, c, after, e, same) = split_at ns a in (n ∷ before, c, after, e, cc same)

lone_cancellation :
    (ns : List LifecycleNotice)
    → IsLineage ns
    → result_notices ns ≡ []
    → Any IsCancellation ns
    → last_cancels ns ≡ true
lone_cancellation ns l h a =
    let (before, c, after, e, same) = split_at ns a in
    let closed : All (λ n. kind n ≡ procedure_result) after =
      IsLineage-closed before after c e (rw same at l) in
    let short : ns ≡ before ++ c ∷ [] =
      cc (same, no_results_after before c after (rw same at h) closed) in
    rw short (last_cancels-end before c e)

state_if_cancelled :
    (ns : List LifecycleNotice)
    → result_notices ns ≡ []
    → last_cancels ns ≡ true
    → lifecycle_state_of ns ≡ "NOTICE_CANCELLED_PROCEDURE_UNRESOLVED"
unfolding lifecycle_state_of
state_if_cancelled ns h e = rw (lifecycle_state_of, h, e) refl

state_if_open :
    (ns : List LifecycleNotice)
    → result_notices ns ≡ []
    → last_cancels ns ≡ false
    → lifecycle_state_of ns ≡ "OPEN_OR_PENDING"
unfolding lifecycle_state_of
state_if_open ns h e = rw (lifecycle_state_of, h, e) refl

-- For a lineage without a result the state is "NOTICE_CANCELLED_PROCEDURE_UNRESOLVED" exactly when
-- some notice of it is a cancellation, though the code looks at the last notice alone.
pub lifecycle_state_of-cancelled :
    (ns : List LifecycleNotice)
    → IsLineage ns
    → result_notices ns ≡ []
    → (lifecycle_state_of ns ≡ "NOTICE_CANCELLED_PROCEDURE_UNRESOLVED") ↔ Any IsCancellation ns
lifecycle_state_of-cancelled ns l h = elim (Bool-cases (last_cancels ns)) [
  | inl e ↦ ((λ _. last_cancels-Any ns e), (λ _. state_if_cancelled ns h e))
  | inr e ↦ (
    (λ s. absurd (cc (state_if_open ns h e, s))),
    (λ a. absurd (cc (e, lone_cancellation ns l h a))),
  )
]

subset-single : (s : String) (xs : List String) → (subset xs (s ∷ []) ≡ true) ↔ All (λ x. x ≡ s) xs
unfolding subset mem
subset-single s [] = ((λ h. tt), (λ a. refl))
subset-single s (x ∷ xs) = (
  (λ h. (ground (arith, eq_iff x s), (subset-single s xs).0 (ground arith))),
  (λ (e, a). ground (arith, eq_iff x s, (subset-single s xs).1 a)),
)

-- `xs` holds `s` and nothing else.
pub record IsOnly (s : String) (xs : List String) : Type 0 where
  pub present : mem s xs ≡ true
  pub alone : All (λ x. x ≡ s) xs

same_set-single : (s : String) (xs : List String) → (same_set xs (s ∷ []) ≡ true) ↔ IsOnly s xs
unfolding same_set subset
same_set-single s xs = (
  (λ h. record { present = ground arith; alone = (subset-single s xs).0 (ground arith) }),
  (λ o. ground (arith, o.present, (subset-single s xs).1 o.alone)),
)

mem-All : (s t : String) (xs : List String) → All (λ x. x ≡ s) xs → mem t xs ≡ true → t ≡ s
unfolding mem
mem-All s t [] a m = ground arith
mem-All s t (x ∷ xs) (e, a) m = ground (arith, eq_iff t x, mem-All s t xs a)

distinct : ◌≢◌ {A = String} "selec-w" "clos-nw"
distinct e = cc ((eq_iff "selec-w" "clos-nw").1 e)

no_winner : (xs : List String) → IsOnly "clos-nw" xs → mem "selec-w" xs ≡ false
no_winner xs o = elim (Bool-cases (mem "selec-w" xs)) [
  | inr e ↦ e
  | inl e ↦ absurd (distinct (mem-All "clos-nw" "selec-w" xs o.alone e))
]

abbrev pick : Bool → Bool → Bool → String
pick won partly lost =
    if won
    then "AWARDED"
    else if partly
    then "PARTIALLY_AWARDED"
    else if lost
    then "NO_AWARD"
    else "RESULT_PENDING_OR_MIXED"

pick_iff :
    (won partly lost : Bool)
    → (won ≡ true → partly ≡ true)
    → (lost ≡ true → partly ≡ false)
    → ((pick won partly lost ≡ "AWARDED") ↔ (won ≡ true))
      × ((pick won partly lost ≡ "PARTIALLY_AWARDED") ↔ ((partly ≡ true) × (won ≡ false)))
      × ((pick won partly lost ≡ "NO_AWARD") ↔ (lost ≡ true))
      × ((pick won partly lost ≡ "RESULT_PENDING_OR_MIXED") ↔ ((partly ≡ false) × (lost ≡ false)))
pick_iff won partly lost f g = ground (
  arith,
  eq_iff "AWARDED" "PARTIALLY_AWARDED",
  eq_iff "AWARDED" "NO_AWARD",
  eq_iff "AWARDED" "RESULT_PENDING_OR_MIXED",
  eq_iff "PARTIALLY_AWARDED" "AWARDED",
  eq_iff "PARTIALLY_AWARDED" "NO_AWARD",
  eq_iff "PARTIALLY_AWARDED" "RESULT_PENDING_OR_MIXED",
  eq_iff "NO_AWARD" "AWARDED",
  eq_iff "NO_AWARD" "PARTIALLY_AWARDED",
  eq_iff "NO_AWARD" "RESULT_PENDING_OR_MIXED",
  eq_iff "RESULT_PENDING_OR_MIXED" "AWARDED",
  eq_iff "RESULT_PENDING_OR_MIXED" "PARTIALLY_AWARDED",
  eq_iff "RESULT_PENDING_OR_MIXED" "NO_AWARD",
)

-- A test and the proposition that it decides.
negated : {P : Type 0} (b : Bool) → ((b ≡ true) ↔ P) → (b ≡ false) ↔ ¬ P
negated true (f, g) = ((λ e. cc), (λ n. absurd (n (f refl))))
negated false (f, g) = ((λ _ p. cc (g p)), (λ _. refl))

-- With the winner selection statuses of the results, the state is "AWARDED" exactly when there is one
-- and every one is "selec-w", "PARTIALLY_AWARDED" exactly when "selec-w" stands among others,
-- "NO_AWARD" exactly when there is one and every one is "clos-nw", and
-- "RESULT_PENDING_OR_MIXED" exactly when "selec-w" is absent and they are not all "clos-nw".
pub result_state_iff :
    (statuses : List String)
    → ((result_state statuses ≡ "AWARDED") ↔ IsOnly "selec-w" statuses)
      × ((result_state statuses ≡ "PARTIALLY_AWARDED")
          ↔ ((mem "selec-w" statuses ≡ true) × ¬ IsOnly "selec-w" statuses))
      × ((result_state statuses ≡ "NO_AWARD") ↔ IsOnly "clos-nw" statuses)
      × ((result_state statuses ≡ "RESULT_PENDING_OR_MIXED")
          ↔ ((mem "selec-w" statuses ≡ false) × ¬ IsOnly "clos-nw" statuses))
unfolding result_state
result_state_iff statuses =
    let won = same_set-single "selec-w" statuses in
    let lost = same_set-single "clos-nw" statuses in
    let (w, p, l, m) =
      pick_iff (same_set statuses ("selec-w" ∷ [])) (mem "selec-w" statuses)
        (same_set statuses ("clos-nw" ∷ [])) (λ e. (won.0 e).present)
        (λ e. no_winner statuses (lost.0 e)) in
    let not_won = negated (same_set statuses ("selec-w" ∷ [])) won in
    let not_lost = negated (same_set statuses ("clos-nw" ∷ [])) lost in
    (
      ((λ e. won.0 (w.0 e)), (λ o. w.1 (won.1 o))),
      ((λ e. ((p.0 e).0, not_won.0 (p.0 e).1)), (λ (a, b). p.1 (a, not_won.1 b))),
      ((λ e. lost.0 (l.0 e)), (λ o. l.1 (lost.1 o))),
      ((λ e. ((m.0 e).0, not_lost.0 (m.0 e).1)), (λ (a, b). m.1 (a, not_lost.1 b))),
    )
