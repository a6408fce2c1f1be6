-- ===== src/Admission/Runtime/Grows.antt =====
-- The canonical ledger under `process`.
use axignal.Common.{
  ℕ, String, Option, none, some, List, [], ◌≡◌, refl, sym, ap, subst, Result, ok, err, >>=-eq-ok,
  reject_if, ok_injective, ◌>>=◌, ◌==◌, not, Bool-cases, inl, inr,
}
use axignal.Admission.Types.{
  AdmissionError, integrity_error, policy_error, value_error, lookup_error, uncaught_error,
  ReviewJob, HandoffState, pending, consumed, quarantined, rejected, Handoff, AdmissionRunResult,
  Tables, AdmissionLibrary,
}
use axignal.Admission.Handoff.{load_handoff}
use axignal.Admission.Ledger.{policy_version, create_batch, existing_result}
use axignal.Admission.Ledger.Append.{Grows, Grows-same}
use axignal.Admission.Flow.{
  Inputs, Progress, has_item, mark_dossier, close, load_inputs, decide_candidates, decide_pending,
  decide_handoff, decide_body, committed, decide,
}
use axignal.Admission.Flow.Grown.{ledger, decide_candidates-Grows}
use axignal.Admission.Runtime.{record_failure, handle, process}

mark_dossier-ledger : (o : Option String) (db : Tables) → ledger (mark_dossier o db) ≡ ledger db
unfolding mark_dossier
mark_dossier-ledger none db = refl
mark_dossier-ledger (some id) db = refl

close-ledger :
    (job : ReviewJob) (batch_id : String) (inputs : Inputs) (progress : Progress)
    → ledger (close job batch_id inputs progress) ≡ ledger progress.tables
unfolding close
close-ledger job batch_id inputs progress = elim (Bool-cases (has_item progress.canonical_ids)) [
  | inl some_id ↦ rw some_id (mark_dossier-ledger inputs.run.dossier_id _)
  | inr no_id ↦ rw no_id refl
]

start : String → List String → Tables → Progress
start batch_id ids db = record {
  outcomes = [];
  canonical_ids = [];
  tables = create_batch batch_id ids db;
}

module _ (lib : AdmissionLibrary) (batch_id : String) (new_id : ℕ → String) (job : ReviewJob) where
  decide_pending-Grows :
      (h : Handoff) (db : Tables) (out : AdmissionRunResult × Tables)
      → decide_pending lib batch_id new_id job h db ≡ ok out
      → Grows lib (ledger db) (ledger out.1)
  unfolding decide_pending start
  decide_pending-Grows h db out ran =
      let (inputs, loaded, rest) = >>=-eq-ok (load_inputs lib job h db) _ ran in
      let (progress, decided, last) =
        >>=-eq-ok
          (decide_candidates lib batch_id job inputs new_id inputs.contents.candidate_claims 0
            (start batch_id h.candidate_claim_ids db))
          _ rest in
      let grown =
        decide_candidates-Grows lib batch_id job inputs new_id inputs.contents.candidate_claims 0
          (start batch_id h.candidate_claim_ids db) progress decided in
      subst (λ (x : AdmissionRunResult × Tables). Grows lib (ledger db) (ledger x.1))
        (ok_injective last)
        (subst (Grows lib (ledger db)) (sym (close-ledger job batch_id inputs progress)) grown)

  replay-Grows :
      (db : Tables) (out : AdmissionRunResult × Tables)
      → (existing_result lib job.admission_handoff_id db >>= (λ r. ok (r, db))) ≡ ok out
      → Grows lib (ledger db) (ledger out.1)
  replay-Grows db out ran =
      let (r, found, last) = >>=-eq-ok (existing_result lib job.admission_handoff_id db) _ ran in
      Grows-same lib (ledger db) (ledger out.1)
        (ap (λ (x : AdmissionRunResult × Tables). ledger x.1) (sym (ok_injective last)))

  decide_handoff-Grows :
      (h : Handoff) (state : HandoffState) (db : Tables) (out : AdmissionRunResult × Tables)
      → decide_handoff lib batch_id new_id job h state db ≡ ok out
      → Grows lib (ledger db) (ledger out.1)
  unfolding decide_handoff
  decide_handoff-Grows h pending db out ran = decide_pending-Grows h db out ran
  decide_handoff-Grows h consumed db out ran = replay-Grows db out ran
  decide_handoff-Grows h quarantined db out ran = replay-Grows db out ran
  decide_handoff-Grows h rejected db out ran = replay-Grows db out ran

  decide_body-Grows :
      (db : Tables) (out : AdmissionRunResult × Tables)
      → decide_body lib batch_id new_id job db ≡ ok out
      → Grows lib (ledger db) (ledger out.1)
  unfolding decide_body
  decide_body-Grows db out ran =
      let (u, version, rest) =
        >>=-eq-ok
          (reject_if (not (job.policy_version == policy_version))
            (policy_error "Admission policy version mismatch"))
          _ ran in
      let (h, loaded, last) = >>=-eq-ok (load_handoff job db.handoffs) _ rest in
      decide_handoff-Grows h h.state db out last

  committed-Grows :
      (m : Result AdmissionError (AdmissionRunResult × Tables)) (db : Tables)
      → ((out : AdmissionRunResult × Tables) → m ≡ ok out → Grows lib (ledger db) (ledger out.1))
      → Grows lib (ledger db) (ledger (committed m db).1)
  unfolding committed
  committed-Grows (err e) db h = Grows-same lib (ledger db) (ledger db) refl
  committed-Grows (ok out) db h = h out refl

  pub decide-Grows :
      (db : Tables) → Grows lib (ledger db) (ledger (decide lib batch_id new_id job db).1)
  unfolding decide
  decide-Grows db =
      committed-Grows (decide_body lib batch_id new_id job db) db (decide_body-Grows db)

handle-ledger :
    (job : ReviewJob) (detail : String) (r : Result AdmissionError AdmissionRunResult) (db : Tables)
    → ledger (handle job detail (r, db)) ≡ ledger db
unfolding handle record_failure
handle-ledger job detail (ok r) db = refl
handle-ledger job detail (err (integrity_error m)) db = refl
handle-ledger job detail (err (policy_error m)) db = refl
handle-ledger job detail (err value_error) db = refl
handle-ledger job detail (err lookup_error) db = refl
handle-ledger job detail (err (uncaught_error m)) db = refl

-- Whatever a job brings about, the canonical ledger is only appended to; what is appended are facts of
-- the admission profile under the hash of what they state, and if no two claims had one fingerprint
-- before, none have after it.
pub process-Grows :
    (lib : AdmissionLibrary) (batch_id : String) (new_id : ℕ → String) (job : ReviewJob)
    (detail : String) (db : Tables)
    → Grows lib (ledger db) (ledger (process lib batch_id new_id job detail db))
unfolding process
process-Grows lib batch_id new_id job detail db =
    let out = decide lib batch_id new_id job db in
    subst (Grows lib (ledger db)) (sym (handle-ledger job detail out.0 out.1))
      (decide-Grows lib batch_id new_id job db)
