-- ===== src/Admission/Runtime/Replayed.antt =====
-- A handoff that was decided, when its job comes again.
use axignal.Common.{
  subst, ℕ, String, List, [], ◌∷◌, ◌≡◌, refl, ap, Result, ok, err, >>=-eq-ok, ok_injective,
  reject_if, not, ◌==◌,
}
use axignal.Admission.Types.{
  AdmissionError, policy_error, ReviewJob, pending, consumed, Handoff, Outcome, DecisionRow,
  AdmissionRunResult, Tables, AdmissionLibrary,
}
use mathlib.Core.List.{Perm}
use axignal.Admission.Ledger.Replay.{AreOf, IsReplayOf, replayed-IsReplayOf}
use axignal.Admission.Handoff.{load_handoff}
use axignal.Admission.Ledger.{
  policy_version, from_keys, present, of_handoff, existing_result, create_batch,
}
use axignal.Admission.Flow.{
  result_of, load_inputs, decide_candidates, decide_pending, decide_handoff, decide_body, committed,
  decide,
}
use axignal.Admission.Flow.Mirrored.{rows, decide_candidates-Mirrors, close-decisions}
use axignal.Admission.Runtime.Settled.{of_state, start, decide_body-handoffs, load_handoff-moved}

committed-ok :
    (m : Result AdmissionError (AdmissionRunResult × Tables)) (db after : Tables)
    (r : AdmissionRunResult)
    → committed m db ≡ (ok r, after)
    → m ≡ ok (r, after)
unfolding committed
committed-ok (err e) db after r ran = absurd (cc (ap (λ x. x.0) ran))
committed-ok (ok (a, t)) db after r ran = cc (ok_injective (ap (λ x. x.0) ran), ap (λ x. x.1) ran)

module _ (lib : AdmissionLibrary) (batch_id : String) (new_id : ℕ → String) (job : ReviewJob)
    (h : Handoff) where
  decide_pending-AreOf :
      (db : Tables) (r : AdmissionRunResult) (after : Tables)
      → rows batch_id job.admission_handoff_id db ≡ []
      → decide_pending lib batch_id new_id job h db ≡ ok (r, after)
      → AreOf batch_id r (rows batch_id job.admission_handoff_id after)
  unfolding decide_pending start result_of create_batch present
  decide_pending-AreOf db r after none_before ran =
      let (inputs, loaded, rest) = >>=-eq-ok (load_inputs lib job h db) _ ran in
      let begin = start batch_id h.candidate_claim_ids db in
      let (progress, decided, last) =
        >>=-eq-ok
          (decide_candidates lib batch_id job inputs new_id inputs.contents.candidate_claims 0
            begin)
          _ rest in
      let m =
        decide_candidates-Mirrors lib batch_id job inputs new_id inputs.contents.candidate_claims 0
          begin progress
          (record {
            outcomes_same = rw none_before refl;
            ids_same = rw none_before refl;
            of_batch = rw none_before tt;
          })
          decided in
      let written = ok_injective last in
      let kept = close-decisions job batch_id inputs progress in
      subst
        (λ (x : AdmissionRunResult × Tables).
          AreOf batch_id x.0 (rows batch_id job.admission_handoff_id x.1))
        written
        (record {
          batch_eq = refl;
          outcomes_eq = rw kept m.outcomes_same;
          ids_eq = rw kept (ap from_keys m.ids_same);
          of_batch = rw kept m.of_batch;
        })

-- A job whose pending handoff was decided, with at least one candidate, gets the same batch, the same
-- outcomes in some order and the same canonical identifiers when it comes again, marked as a replay,
-- and the tables stay as they are: whatever identifiers the second run would give, if no decision of
-- the handoff was there before. The database returns every row once, in an order of its own.
pub decide-replays :
    (lib : AdmissionLibrary) (batch_id second_batch_id : String) (new_id second_id : ℕ → String)
    (job : ReviewJob) (h : Handoff) (db : Tables) (r : AdmissionRunResult) (after : Tables)
    (first : Outcome) (others : List Outcome)
    → load_handoff job db.handoffs ≡ ok h
    → h.state ≡ pending
    → of_handoff job.admission_handoff_id db.decisions ≡ []
    → ((ds : List DecisionRow) → Perm (lib.by_created_at ds) ds)
    → r.outcomes ≡ first ∷ others
    → decide lib batch_id new_id job db ≡ (ok r, after)
    → (again : AdmissionRunResult) × (decide lib second_batch_id second_id job after
        ≡ (ok again, after))
      × IsReplayOf r again
unfolding decide decide_body decide_handoff existing_result committed
decide-replays lib batch_id second_batch_id new_id second_id job h db r after first others found
      waits none_before reorders some_outcome ran =
    let done = committed-ok (decide_body lib batch_id new_id job db) db after r ran in
    let (u, version, rest) =
      >>=-eq-ok
        (reject_if (not (job.policy_version == policy_version))
          (policy_error "Admission policy version mismatch"))
        _ done in
    let moved = decide_body-handoffs lib batch_id new_id job h db (r, after) found waits done in
    let loaded : load_handoff job after.handoffs ≡ ok (of_state consumed h) =
      rw moved (load_handoff-moved job consumed db.handoffs h found waits) in
    let mine = of_handoff job.admission_handoff_id after.decisions in
    let written = decide_pending-AreOf lib batch_id new_id job h db r after none_before (
      subst (λ state. decide_handoff lib batch_id new_id job h state db ≡ ok (r, after)) waits
        (rw found at rest)) in
    let (again, replays, same) =
      replayed-IsReplayOf batch_id r mine (lib.by_created_at mine) first others written
        (reorders mine) some_outcome in
    (again, rw (version, loaded, replays) refl, same)
