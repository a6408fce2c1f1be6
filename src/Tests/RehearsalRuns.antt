-- ===== src/Tests/RehearsalRuns.antt =====
-- Runs of the admission rehearsal.
use mathlib.Core.List.Perm
use axignal.Common.{
  ◌≡◌, refl, String, Bool, true, false, ◌&&◌, if◌then◌else◌, Option, none, some, List, [], ◌∷◌, map,
  Result, ok, err,
}
use axignal.Rehearsal.Claim.{fingerprint}
use axignal.Rehearsal.Context.{
  AdmissionContext, current_ted_state, sandbox_rehearsal, product_admission_ready, sandbox_ready,
}
use axignal.Rehearsal.Decision.{AdmissionDecision, outcome_text}
use axignal.Rehearsal.Store.{
  AdmissionStore, Failpoint, empty_store, existing, as_replay, new_result, commit,
  after_first_decision,
}
use axignal.Rehearsal.Store.Commit.{transaction, commit-eq-transaction}
use axignal.Rehearsal.Store.Ledger.{
  count_committed, IsConsistent, commit-IsConsistent, commit_again,
}
use axignal.Rehearsal.Policy.{
  evaluate_candidate, idempotency_key, blocked_decision, unstored, decide_parsed,
}
use axignal.Rehearsal.Policy.Gates.{
  is_admitted, is_product_admitted, policy_gates_open, evaluate_candidate-gates,
}
use axignal.Rehearsal.Policy.Replay.{IsBlocked, decide_parsed-replays}
use axignal.Tests.Samples.{library, lot_claim, envelope, document}

abbrev decisions : List AdmissionDecision
decisions =
    evaluate_candidate library envelope (fingerprint library lot_claim ∷ []) sandbox_rehearsal ∷ []

pub empty-IsConsistent : IsConsistent empty_store
unfolding count_committed
empty-IsConsistent = record { numbering = tt; ledger = refl; originals = tt }

commit-eq-transaction_example :
    commit library "k" decisions true "b" empty_store
    ≡ transaction library "k" decisions true "b" empty_store
commit-eq-transaction_example = commit-eq-transaction library "k" decisions true "b" empty_store

commit-IsConsistent_example : IsConsistent (commit library "k" decisions false "b" empty_store).1
commit-IsConsistent_example =
    commit-IsConsistent library "k" decisions false "b" empty_store empty-IsConsistent

abbrev stored : AdmissionStore
stored = (commit library "k" decisions false "b" empty_store).1

commit_runs :
    commit library "k" decisions false "b" empty_store ≡ (ok (new_result "b" decisions), stored)
unfolding commit existing axignal.Rehearsal.Store.lookup axignal.Rehearsal.Store.rollback
    axignal.Rehearsal.Store.commit_body axignal.Rehearsal.Store.finish
    axignal.Rehearsal.Store.record_decisions
commit_runs = refl

commit_again_example :
    commit library "k" [] true "c" stored ≡ (ok (as_replay (new_result "b" decisions)), stored)
commit_again_example =
    commit_again library "k" decisions [] false true "b" "c" empty_store commit_runs

evaluate_candidate-gates_example :
    (is_admitted
        (evaluate_candidate library envelope
          (fingerprint library lot_claim ∷ [])
          sandbox_rehearsal).outcome
      ≡ policy_gates_open (
          evaluate_candidate library envelope
            (fingerprint library lot_claim ∷ [])
            sandbox_rehearsal))
    × (is_product_admitted
          (evaluate_candidate library envelope
            (fingerprint library lot_claim ∷ [])
            sandbox_rehearsal).outcome
        ≡ policy_gates_open (
            evaluate_candidate library envelope
              (fingerprint library lot_claim ∷ [])
              sandbox_rehearsal)
          && product_admission_ready sandbox_rehearsal)
    × ((evaluate_candidate library envelope
          (fingerprint library lot_claim ∷ [])
          sandbox_rehearsal).rederived_fingerprint
        ≡ (if is_admitted
              (evaluate_candidate library envelope
                (fingerprint library lot_claim ∷ [])
                sandbox_rehearsal).outcome
            then some (fingerprint library lot_claim)
            else none))
evaluate_candidate-gates_example =
    evaluate_candidate-gates library envelope (fingerprint library lot_claim ∷ []) sandbox_rehearsal

ted-IsBlocked : IsBlocked current_ted_state
unfolding product_admission_ready sandbox_ready
ted-IsBlocked = (refl, refl)

none_stored :
    existing
      (idempotency_key library document.raw_content_hash (envelope ∷ []) current_ted_state)
      empty_store
    ≡ none
unfolding existing axignal.Rehearsal.Store.lookup
none_stored = refl

sandbox_open : ¬ IsBlocked sandbox_rehearsal
unfolding sandbox_ready
sandbox_open (_, e) = cc e

abbrev decided_store : AdmissionStore
decided_store =
    (decide_parsed library document (envelope ∷ []) sandbox_rehearsal false "b" empty_store).1

decide_runs :
    decide_parsed library document (envelope ∷ []) sandbox_rehearsal false "b" empty_store
    ≡ (ok (new_result "b" decisions), decided_store)
unfolding decide_parsed existing axignal.Rehearsal.Store.lookup product_admission_ready
    sandbox_ready commit axignal.Rehearsal.Store.rollback axignal.Rehearsal.Store.commit_body
    axignal.Rehearsal.Store.finish axignal.Rehearsal.Store.record_decisions
decide_runs = refl

-- The sandbox after its kill switch is enabled and its rights are withdrawn.
abbrev killed : AdmissionContext
killed = record sandbox_rehearsal { kill_switch_enabled = true; rights_valid = false }

-- What the sandbox admitted is replayed as admissible although the kill switch is on.
decide_parsed-replays_example :
    decide_parsed library document (envelope ∷ []) killed false "c" decided_store
    ≡ (ok (as_replay (new_result "b" decisions)), decided_store)
decide_parsed-replays_example =
    decide_parsed-replays library document (envelope ∷ []) sandbox_rehearsal false "b" empty_store
      (envelope ∷ []) killed false "c" sandbox_open decide_runs (Perm.refl _)
      record { source = refl; policy = refl; sandbox = refl }

-- The sample candidate is admitted in the sandbox.
admitted_in_sandbox :
    map (λ d. outcome_text d.outcome) decisions ≡ "SANDBOX_ADMISSIBLE_REDERIVED" ∷ []
unfolding evaluate_candidate outcome_text axignal.Rehearsal.Policy.is_personal axignal.Common.mem
    axignal.Rehearsal.Policy.prohibited_predicates
    axignal.Rehearsal.Policy.auto_admissible_predicates fingerprint product_admission_ready
admitted_in_sandbox = refl

-- A commit that fails after the first decision raises and leaves the store empty.
failing_commit :
    commit library "k" decisions true "b" empty_store ≡ (err after_first_decision, empty_store)
unfolding commit existing axignal.Rehearsal.Store.lookup axignal.Rehearsal.Store.rollback
    axignal.Rehearsal.Store.commit_body axignal.Rehearsal.Store.finish
    axignal.Rehearsal.Store.record_decisions
failing_commit = refl
