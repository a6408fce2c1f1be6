-- ===== src/Admission/Ledger.antt =====
-- admission_ledger_store.py: the rows that a decision writes, as functions of the tables.
pub mod Append
pub mod Replay
use axignal.Common.{
  ℕ, suc, ◌+◌, String, Bool, true, false, not, Option, none, some, List, [], ◌∷◌, ◌++◌, mem, ◌==◌,
  ◌⧺◌, map, if◌then◌else◌, Result, ok, err,
}
use axignal.Common.Dict.{get, put}
use axignal.Admission.Types.{
  AdmissionError, integrity_error, Outcome, admitted_rederived, rejected_candidate, contested,
  human_review_required, duplicate, Rederived, Decision, AdmissionRunResult, Batch, CanonicalClaim,
  StateEvent, DecisionRow, CandidateRow, Tables, AdmissionLibrary,
}

abbrev pub policy_version : String
policy_version = "document-observed-fact@0.1.0"

unfoldable pub outcome_text : Outcome → String
outcome_text admitted_rederived = "ADMITTED_REDERIVED"
outcome_text rejected_candidate = "REJECTED"
outcome_text contested = "CONTESTED"
outcome_text human_review_required = "HUMAN_REVIEW_REQUIRED"
outcome_text duplicate = "DUPLICATE"

-- `_create_batch`; the new row's identifier is an argument.
unfoldable pub create_batch : String → List String → Tables → Tables
create_batch batch_id candidate_ids db = record db {
  batches =
      db.batches
      ++ record {
        admission_batch_id = batch_id;
        policy_version = policy_version;
        decided = false;
        candidate_claim_ids = candidate_ids;
        decision_counts = [];
        canonical_claim_ids = [];
      }
        ∷ [];
}

unfoldable pub claim_with : String → List CanonicalClaim → Option CanonicalClaim
claim_with fingerprint [] = none
claim_with fingerprint (c ∷ cs) =
    if c.fingerprint == fingerprint then some c else claim_with fingerprint cs

unfoldable pub canonical_claim : String → String → Rederived → String → CanonicalClaim
canonical_claim batch_id canonical_id r fingerprint = record {
  canonical_claim_id = canonical_id;
  fingerprint = fingerprint;
  subject_id = r.subject_id;
  predicate = r.predicate;
  object_value = r.object_value;
  statement =
      "The World Bank report states that real GDP growth in the Russian Federation reached "
      ⧺ r.object_value.value ⧺ " percent in " ⧺ r.object_value.period ⧺ ".";
  evidence_ids = r.evidence_ids;
  admission_batch_id = batch_id;
}

unfoldable pub insert_claim : CanonicalClaim → Tables → Tables
insert_claim c db = record db {
  canonical_claims = db.canonical_claims ++ c ∷ [];
  state_events =
      db.state_events
      ++ record {
        canonical_claim_id = c.canonical_claim_id;
        reason = "deterministically_rederived_from_immutable_document_evidence";
        admission_batch_id = c.admission_batch_id;
      }
        ∷ [];
}

-- `INSERT ... ON CONFLICT (fingerprint) DO NOTHING`, then the row that was there: the claim's
-- identifier, and whether it is a duplicate.
unfoldable pub write_found :
    Option CanonicalClaim → CanonicalClaim → Tables → (String × Bool) × Tables
unfolding insert_claim
write_found (some old) c db = ((old.canonical_claim_id, true), db)
write_found none c db = ((c.canonical_claim_id, false), insert_claim c db)

-- `_write_canonical`
unfoldable pub write_canonical :
    String → String → Rederived → String → Tables → (String × Bool) × Tables
unfolding claim_with canonical_claim write_found
write_canonical batch_id canonical_id r fingerprint db =
    write_found (claim_with fingerprint db.canonical_claims)
      (canonical_claim batch_id canonical_id r fingerprint) db

unfoldable pub rederived_fingerprint : Option (Rederived × String) → Option String
rederived_fingerprint none = none
rederived_fingerprint (some (r, fingerprint)) = some fingerprint

unfoldable pub is_review : Outcome → Bool
is_review human_review_required = true
is_review _ = false

-- `_record_decision`
unfoldable pub record_decision :
    String → String → String → Option String → Decision → Tables → Tables
unfolding rederived_fingerprint is_review
record_decision batch_id handoff_id candidate_id canonical_id d db = record db {
  decisions =
      db.decisions
      ++ record {
        admission_batch_id = batch_id;
        admission_handoff_id = handoff_id;
        candidate_claim_id = candidate_id;
        outcome = d.outcome;
        gate_results = d.gate_results;
        rejection_reasons = d.reasons;
        canonical_claim_id = canonical_id;
        rederived_fingerprint = rederived_fingerprint d.rederived;
        human_review_required = is_review d.outcome;
      }
        ∷ [];
}

unfoldable pub or_none : Option ℕ → ℕ
or_none none = 0
or_none (some n) = n

-- `counts[outcome] = counts.get(outcome, 0) + 1` for every decision.
unfoldable pub decision_counts : List Outcome → List (String × ℕ) → List (String × ℕ)
unfolding get put outcome_text or_none
decision_counts [] counts = counts
decision_counts (o ∷ os) counts =
    decision_counts os (put (outcome_text o) (or_none (get (outcome_text o) counts) + 1) counts)

-- `dict.fromkeys(ids)`: the first occurrence of every identifier.
unfoldable pub first_seen : List String → List String → List String
unfolding mem
first_seen seen [] = []
first_seen seen (x ∷ xs) =
    let rest = first_seen (x ∷ seen) xs in if mem x seen then rest else x ∷ rest

unfoldable pub from_keys : List String → List String
unfolding first_seen
from_keys xs = first_seen [] xs

unfoldable pub present : List DecisionRow → List String
present [] = []
present (r ∷ rs) = elim r.canonical_claim_id [ none ↦ present rs | some id ↦ id ∷ present rs ]

unfoldable pub of_handoff : String → List DecisionRow → List DecisionRow
of_handoff id [] = []
of_handoff id (r ∷ rs) =
    let rest = of_handoff id rs in if r.admission_handoff_id == id then r ∷ rest else rest

-- The result of a handoff that was decided before, from its rows.
unfoldable pub replayed : List DecisionRow → Result AdmissionError AdmissionRunResult
unfolding from_keys present
replayed [] = err (integrity_error "Non-pending handoff has no durable decisions")
replayed (r ∷ rs) = ok (record {
  admission_batch_id = some r.admission_batch_id;
  canonical_claim_ids = from_keys (present (r ∷ rs));
  outcomes = map (λ (x : DecisionRow). x.outcome) (r ∷ rs);
  idempotent_replay = true;
})

-- `_existing_result`
unfoldable pub existing_result :
    AdmissionLibrary → String → Tables → Result AdmissionError AdmissionRunResult
unfolding of_handoff replayed
existing_result lib id db = replayed (lib.by_created_at (of_handoff id db.decisions))
