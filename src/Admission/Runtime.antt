-- ===== src/Admission/Runtime.antt =====
-- admission_failure_store.py, and `DeterministicAdmissionRuntime.process` of admission_runtime.py.
pub mod Grows
pub mod Settled
pub mod Replayed
use axignal.Common.{
  ℕ, String, Bool, true, false, Option, none, some, List, [], ◌∷◌, ◌++◌, ◌==◌, first_chars,
  if◌then◌else◌, Result, ok, err,
}
use axignal.Admission.Types.{
  AdmissionError, integrity_error, policy_error, value_error, lookup_error, uncaught_error,
  ReviewJob, HandoffState, quarantined, rejected, Run, Failure, AdmissionRunResult, Tables,
  AdmissionLibrary,
}
use axignal.Admission.Flow.{update_where, move_handoff, decide}

-- `record_failure`
unfoldable pub record_failure : ReviewJob → String → String → Bool → Tables → Tables
unfolding move_handoff update_where
record_failure job code detail is_quarantined db =
    let db = record db {
      failures =
          db.failures
          ++ record {
            job = job;
            error_code = code;
            error_detail = first_chars 2000 detail;
            quarantined = is_quarantined;
          }
            ∷ [];
    } in
    let db =
      move_handoff job.admission_handoff_id (if is_quarantined then quarantined else rejected) db in
    record db {
      runs =
          update_where (λ (r : Run). r.research_run_id == job.research_run_id)
            (λ r. record r {
              state = if is_quarantined then "QUARANTINED" else "FAILED";
              error_code = some code;
              error_detail = some (first_chars 2000 detail);
            })
            db.runs;
    }

-- The tables after `process`, by what `decide` returned or raised; an exception that `process` does not
-- catch leaves it without a further write. The message of a `ValueError` or a `KeyError` is that of
-- the library.
unfoldable pub handle :
    ReviewJob → String → Result AdmissionError AdmissionRunResult × Tables → Tables
unfolding record_failure
handle job detail (ok r, db) = db
handle job detail (err (integrity_error m), db) =
    record_failure job "ADMISSION_INTEGRITY_QUARANTINE" m true db
handle job detail (err (policy_error m), db) = record_failure job "ADMISSIONPOLICYERROR" m false db
handle job detail (err value_error, db) = record_failure job "VALUEERROR" detail false db
handle job detail (err lookup_error, db) = record_failure job "KEYERROR" detail false db
handle job detail (err (uncaught_error m), db) = db

module _ (lib : AdmissionLibrary) where
  -- `process`
  unfoldable pub process : String → (ℕ → String) → ReviewJob → String → Tables → Tables
  unfolding decide handle
  process batch_id new_id job detail db = handle job detail (decide lib batch_id new_id job db)
