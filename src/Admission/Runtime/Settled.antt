-- ===== src/Admission/Runtime/Settled.antt =====
-- Every job that `process` takes settles its handoff.
use axignal.Common.{
  ◌⊎◌, ℕ, String, Bool, true, false, some, List, [], ◌∷◌, ◌≡◌, refl, sym, ap, ◌∙◌, subst, Result,
  ok, err, >>=-eq-ok, reject_if, ok_injective, ◌==◌, not, Bool-cases, inl, inr, if◌then◌else◌,
  and-left,
}
use mathlib.Core.Option.{some-injective}
use axignal.Admission.Types.{
  AdmissionError, integrity_error, policy_error, value_error, lookup_error, uncaught_error,
  ReviewJob, HandoffState, pending, consumed, quarantined, rejected, Handoff, AdmissionRunResult,
  Tables, AdmissionLibrary,
}
use axignal.Admission.Facts.{required}
use axignal.Admission.Facts.OneMatch.{required-eq-ok}
use axignal.Admission.Handoff.{is_of_job, first_where, load_handoff}
use axignal.Admission.Ledger.{policy_version, create_batch}
use axignal.Admission.Flow.{
  Progress, update_where, is_pending, move_handoff, load_inputs, decide_candidates, decide_pending,
  decide_handoff, decide_body, committed, decide,
}
use axignal.Admission.Flow.Kept.{decide_candidates-handoffs, close-handoffs}
use axignal.Admission.Runtime.{record_failure, handle, process}

-- `move_handoff` on the table of handoffs.
abbrev pub moved : String → HandoffState → List Handoff → List Handoff
moved id state =
    update_where
      (λ (h : Handoff). if h.admission_handoff_id == id then is_pending h.state else false)
      (λ h. record h { state = state })

abbrev pub of_state : HandoffState → Handoff → Handoff
of_state state h = record h { state = state }

abbrev waits_for : String → Handoff → Bool
waits_for id h = if h.admission_handoff_id == id then is_pending h.state else false

is_of_job-moved :
    (job : ReviewJob) (state : HandoffState) (test : Bool) (h : Handoff)
    → is_of_job job (if test then of_state state h else h) ≡ is_of_job job h
unfolding is_of_job
is_of_job-moved job state true h = refl
is_of_job-moved job state false h = refl

is_of_job-id :
    (job : ReviewJob) (h : Handoff)
    → is_of_job job h ≡ true
    → (h.admission_handoff_id == job.admission_handoff_id) ≡ true
unfolding is_of_job
is_of_job-id job h e = and-left _ _ (and-left _ _ e)

-- A pending handoff of the job is found in its new state.
first_where-moved :
    (job : ReviewJob) (state : HandoffState) (hs : List Handoff) (h : Handoff)
    → first_where (is_of_job job) hs ≡ some h
    → is_pending h.state ≡ true
    → first_where (is_of_job job) (moved job.admission_handoff_id state hs)
      ≡ some (of_state state h)
unfolding first_where update_where
first_where-moved job state [] h found waits = cc found
first_where-moved job state (x ∷ xs) h found waits =
    let test = waits_for job.admission_handoff_id x in
    let same = is_of_job-moved job state test x in
    elim (Bool-cases (is_of_job job x)) [
      | inl mine ↦
          let e : x ≡ h = some-injective _ _ (rw mine at found) in
          let open_ : test ≡ true =
            rw (is_of_job-id job x mine)
              (subst (λ (y : Handoff). is_pending y.state ≡ true) (sym e) waits) in
          rw (same, mine, open_) (ap (λ y. some (of_state state y)) e)
      | inr other ↦ rw (same, other) (first_where-moved job state xs h (rw other at found) waits)
    ]

unfoldable pub start : String → List String → Tables → Progress
start batch_id ids db = record {
  outcomes = [];
  canonical_ids = [];
  tables = create_batch batch_id ids db;
}

module _ (lib : AdmissionLibrary) (batch_id : String) (new_id : ℕ → String) (job : ReviewJob)
    (h : Handoff) where
  decide_pending-handoffs :
      (db : Tables) (out : AdmissionRunResult × Tables)
      → decide_pending lib batch_id new_id job h db ≡ ok out
      → out.1.handoffs ≡ moved job.admission_handoff_id consumed db.handoffs
  unfolding decide_pending start move_handoff
  decide_pending-handoffs db out ran =
      let (inputs, loaded, rest) = >>=-eq-ok (load_inputs lib job h db) _ ran in
      let ps = inputs.contents.candidate_claims in
      let first = start batch_id h.candidate_claim_ids db in
      let (progress, decided, last) =
        >>=-eq-ok (decide_candidates lib batch_id job inputs new_id ps 0 first) _ rest in
      ap (λ (x : AdmissionRunResult × Tables). x.1.handoffs) (sym (ok_injective last))
      ∙ close-handoffs job batch_id inputs progress
      ∙ ap (moved job.admission_handoff_id consumed)
          (decide_candidates-handoffs lib batch_id job inputs new_id ps 0 first progress decided)

  pub decide_body-handoffs :
      (db : Tables) (out : AdmissionRunResult × Tables)
      → load_handoff job db.handoffs ≡ ok h
      → h.state ≡ pending
      → decide_body lib batch_id new_id job db ≡ ok out
      → out.1.handoffs ≡ moved job.admission_handoff_id consumed db.handoffs
  unfolding decide_body decide_handoff
  decide_body-handoffs db out found waits ran =
      let (u, version, rest) =
        >>=-eq-ok
          (reject_if (not (job.policy_version == policy_version))
            (policy_error "Admission policy version mismatch"))
          _ ran in
      decide_pending-handoffs db out (
        subst (λ state. decide_handoff lib batch_id new_id job h state db ≡ ok out) waits
          (rw found at rest))

abbrev absent : String
absent = "Admission handoff is absent or tenant-mismatched"

pub load_handoff-moved :
    (job : ReviewJob) (state : HandoffState) (hs : List Handoff) (h : Handoff)
    → load_handoff job hs ≡ ok h
    → h.state ≡ pending
    → load_handoff job (moved job.admission_handoff_id state hs) ≡ ok (of_state state h)
unfolding load_handoff required
load_handoff-moved job state hs h found waits =
    let present = required-eq-ok absent (first_where (is_of_job job) hs) found in
    let open_ : is_pending h.state ≡ true = unfold is_pending in rw waits refl in
    ap (required absent) (first_where-moved job state hs h present open_)

-- The handoff of the job as it stands in some tables.
abbrev pub Settled : ReviewJob → Handoff → Tables → Type 0
Settled job h db =
    (state : HandoffState) × (load_handoff job db.handoffs ≡ ok (of_state state h))
    × (is_pending state ≡ false)

handle-Settled :
    (job : ReviewJob) (detail : String) (h : Handoff) (db : Tables)
    (m : Result AdmissionError (AdmissionRunResult × Tables))
    → load_handoff job db.handoffs ≡ ok h
    → h.state ≡ pending
    → ((out : AdmissionRunResult × Tables) → m ≡ ok out → Settled job h out.1)
    → Settled job h (handle job detail (committed m db))
      ⊎ ((e : String) × (committed m db ≡ (err (uncaught_error e), db))
          × (handle job detail (committed m db) ≡ db))
unfolding handle committed record_failure move_handoff is_pending
handle-Settled job detail h db (ok out) found waits settles = inl (settles out refl)
handle-Settled job detail h db (err (integrity_error m)) found waits settles =
    inl (quarantined, load_handoff-moved job quarantined db.handoffs h found waits, refl)
handle-Settled job detail h db (err (policy_error m)) found waits settles =
    inl (rejected, load_handoff-moved job rejected db.handoffs h found waits, refl)
handle-Settled job detail h db (err value_error) found waits settles =
    inl (rejected, load_handoff-moved job rejected db.handoffs h found waits, refl)
handle-Settled job detail h db (err lookup_error) found waits settles =
    inl (rejected, load_handoff-moved job rejected db.handoffs h found waits, refl)
handle-Settled job detail h db (err (uncaught_error e)) found waits settles = inr (e, refl, refl)

-- A job whose handoff is pending settles it, whether the decision is made or refused: afterwards the
-- same handoff is found in a state other than pending, with everything else as it was. Or `decide`
-- raised an exception of a class that `process` does not catch, and the tables are as before.
pub process-Settled :
    (lib : AdmissionLibrary) (batch_id : String) (new_id : ℕ → String) (job : ReviewJob)
    (detail : String) (db : Tables) (h : Handoff)
    → load_handoff job db.handoffs ≡ ok h
    → h.state ≡ pending
    → Settled job h (process lib batch_id new_id job detail db)
      ⊎ ((m : String) × (decide lib batch_id new_id job db ≡ (err (uncaught_error m), db))
          × (process lib batch_id new_id job detail db ≡ db))
unfolding process decide
process-Settled lib batch_id new_id job detail db h found waits =
    handle-Settled job detail h db (decide_body lib batch_id new_id job db) found waits (λ out ran.
      (
        consumed,
        rw (decide_body-handoffs lib batch_id new_id job h db out found waits ran)
            (load_handoff-moved job consumed db.handoffs h found waits),
        unfold is_pending in refl,
      ))
