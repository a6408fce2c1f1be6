-- ===== src/Rehearsal/Store.antt =====
-- `InMemoryProcurementAdmissionStore`: results by idempotency key, and an append-only event log.
-- A method that mutates returns the store beside its result, also where it raises. `uuid4()` is the
-- argument `batch`. The proofs are in the modules below.
pub mod Journal
pub mod Commit
pub mod Ledger
use axignal.Common.{
  ℕ, suc, ◌+◌, String, Bool, true, false, Option, none, some, List, [], ◌∷◌, ◌++◌, length, eqb,
  ◌&&◌, ◌==◌, if◌then◌else◌, Result, ok, err,
}
use axignal.Common.Json.{Json, text, obj, Library, sha256_of}
use axignal.Rehearsal.Decision.{
  AdmissionDecision, RehearsalResult, count_admissible, as_payload, outcome_text,
}

pub record AdmissionEvent : Type 0 where
  pub sequence : ℕ
  pub event_type : String
  pub batch_id : String
  pub payload_hash : String

pub record AdmissionStore : Type 0 where
  pub results : List (String × RehearsalResult)
  pub events : List AdmissionEvent

-- TEST_FAILPOINT_AFTER_FIRST_PROCUREMENT_DECISION
pub data Failpoint : Type 0 where
  after_first_decision : Failpoint

abbrev pub empty_store : AdmissionStore
empty_store = record { results = []; events = [] }

-- `self._results.get(key)`
unfoldable pub lookup : String → List (String × RehearsalResult) → Option RehearsalResult
lookup k [] = none
lookup k ((j, r) ∷ rest) = if j == k then some r else lookup k rest

-- `self._results[key] = result`
unfoldable pub put :
    String → RehearsalResult → List (String × RehearsalResult) → List (String × RehearsalResult)
put k r [] = (k, r) ∷ []
put k r ((j, q) ∷ rest) = if j == k then (j, r) ∷ rest else (j, q) ∷ put k r rest

-- The record that `existing` builds: the writes of the other three counters are their defaults.
unfoldable pub as_replay : RehearsalResult → RehearsalResult
as_replay r = record {
  batch_id = r.batch_id;
  decisions = r.decisions;
  idempotent_replay = true;
  sandbox_admissible_count = r.sandbox_admissible_count;
  canonical_claim_writes = 0;
  model_calls = 0;
  reviewer_canonical_writes = 0;
}

unfoldable pub existing : String → AdmissionStore → Option RehearsalResult
existing key s = elim (lookup key s.results) [ none ↦ none | some r ↦ some (as_replay r) ]

-- The result of a new batch.
abbrev pub new_result : String → List AdmissionDecision → RehearsalResult
new_result batch decisions = record {
  batch_id = some batch;
  decisions = decisions;
  idempotent_replay = false;
  sandbox_admissible_count = count_admissible decisions;
  canonical_claim_writes = 0;
  model_calls = 0;
  reviewer_canonical_writes = 0;
}

-- The `except` block: the snapshots are put back.
unfoldable pub rollback :
    AdmissionStore
    → Result Failpoint RehearsalResult × AdmissionStore
    → Result Failpoint RehearsalResult × AdmissionStore
rollback snapshot (ok r, s) = (ok r, s)
rollback snapshot (err e, s) = (err e, snapshot)

module _ (lib : Library) where
  unfoldable pub append_event : String → String → Json → AdmissionStore → AdmissionStore
  append_event event_type batch payload s = record s {
    events =
        s.events
        ++ (record {
          sequence = length s.events + 1;
          event_type = event_type;
          batch_id = batch;
          payload_hash = sha256_of lib (lib.dumps payload);
        }
            ∷ []);
  }

  unfoldable pub started : String → String → AdmissionStore → AdmissionStore
  unfolding append_event
  started batch key =
      append_event "PROCUREMENT_REHEARSAL_BATCH_STARTED" batch
        (obj (("idempotency_key", text key) ∷ []))

  unfoldable pub recorded : String → AdmissionDecision → AdmissionStore → AdmissionStore
  unfolding append_event
  recorded batch d = append_event "PROCUREMENT_REHEARSAL_DECISION_RECORDED" batch (
      obj (
        ("candidate_fingerprint", text d.candidate_fingerprint)
        ∷ ("outcome", text (outcome_text d.outcome))
        ∷ []))

  unfoldable pub committed : String → RehearsalResult → AdmissionStore → AdmissionStore
  unfolding append_event
  committed batch r = append_event "PROCUREMENT_REHEARSAL_BATCH_COMMITTED" batch (as_payload r)

  -- The `for index, decision in enumerate(decisions)` loop.
  unfoldable pub record_decisions :
      Bool
      → String
      → ℕ
      → List AdmissionDecision
      → AdmissionStore
      → Result Failpoint (Unit {0}) × AdmissionStore
  unfolding recorded
  record_decisions fail batch index [] s = (ok tt, s)
  record_decisions fail batch index (d ∷ ds) s =
      let s' = recorded batch d s in
      if fail && eqb index 0
      then (err after_first_decision, s')
      else record_decisions fail batch (suc index) ds s'

  -- The end of the `try` block: the result is stored, then the commit event is appended.
  unfoldable pub finish :
      String
      → String
      → List AdmissionDecision
      → Result Failpoint (Unit {0}) × AdmissionStore
      → Result Failpoint RehearsalResult × AdmissionStore
  finish key batch decisions (err e, s) = (err e, s)
  finish key batch decisions (ok _, s) =
      let result = new_result batch decisions in
      (ok result, committed batch result (record s { results = put key result s.results }))

  -- The `try` block.
  unfoldable pub commit_body :
      String
      → List AdmissionDecision
      → Bool
      → String
      → AdmissionStore
      → Result Failpoint RehearsalResult × AdmissionStore
  commit_body key decisions fail batch s =
      finish key batch decisions (record_decisions fail batch 0 decisions (started batch key s))

  unfoldable pub commit :
      String
      → List AdmissionDecision
      → Bool
      → String
      → AdmissionStore
      → Result Failpoint RehearsalResult × AdmissionStore
  commit key decisions fail batch s = elim (existing key s) [
    | some r ↦ (ok r, s)
    | none ↦ rollback s (commit_body key decisions fail batch s)
  ]
