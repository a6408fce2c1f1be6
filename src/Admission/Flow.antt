-- ===== src/Admission/Flow.antt =====
-- admission_decision_flow.py: `decide`, as a transaction on the tables.
pub mod Grown
pub mod Kept
pub mod Mirrored
use axignal.Common.{
  ℕ, suc, String, Bool, true, false, not, Option, none, some, List, [], ◌∷◌, ◌++◌, map, length, eqb,
  ◌==◌, is_some, if◌then◌else◌, Result, ok, err, ◌>>=◌, ◌>>◌, reject_if,
}
use axignal.Common.Dict.{get, put}
use axignal.Admission.Types.{
  AdmissionError, integrity_error, policy_error, value_error, ReviewJob, PackagedCandidate, Package,
  HandoffState, pending, consumed, Handoff, Run, Source, SourceObject, FragmentRow, EvidenceRow,
  CandidateRow, Outcome, admitted_rederived, rejected_candidate, contested, human_review_required,
  duplicate, Rederived, Decision, AdmissionRunResult, Batch, Dossier, Tables, AdmissionLibrary,
}
use axignal.Admission.Facts.{evaluate_candidate, required}
use axignal.Admission.Handoff.{load_handoff, validate_package, load_run}
use axignal.Admission.Sources.{load_authoritative_inputs}
use axignal.Admission.Evidence.{
  load_candidates, load_evidence, uuid, validate_candidate_set, validate_all_evidence,
  validate_candidate_record,
}
use axignal.Admission.Ledger.{
  policy_version, create_batch, write_canonical, record_decision, decision_counts, from_keys,
  existing_result,
}

-- `UPDATE table SET ... WHERE test`
unfoldable pub update_where {ℓ} : {A : Type ℓ} → (A → Bool) → (A → A) → List A → List A
update_where test set [] = []
update_where test set (x ∷ xs) = (if test x then set x else x) ∷ update_where test set xs

-- What the loop over the candidates works on.
pub record Inputs : Type 0 where
  pub contents : Package
  pub run : Run
  pub source : Source
  pub raw : SourceObject
  pub fragments : List (String × FragmentRow)
  pub candidates : List (String × CandidateRow)
  pub evidence : List (String × EvidenceRow)

unfoldable pub set_candidate : String → Option String → List String → CandidateRow → CandidateRow
set_candidate state canonical_id reasons c = record c {
  state = state;
  canonical_claim_id = canonical_id;
  rejection_reasons = reasons;
}

unfoldable pub admit_candidate : String → String → Tables → Tables
unfolding update_where set_candidate
admit_candidate candidate_id canonical_id db = record db {
  candidates =
      update_where (λ (c : CandidateRow). c.candidate_claim_id == candidate_id)
        (set_candidate "ADMITTED" (some canonical_id) []) db.candidates;
}

unfoldable pub state_of : Outcome → String
state_of human_review_required = "HUMAN_REVIEW_REQUIRED"
state_of contested = "CONTESTED"
state_of _ = "REJECTED"

unfoldable pub refuse_candidate : String → Decision → Tables → Tables
unfolding update_where set_candidate state_of
refuse_candidate candidate_id d db = record db {
  candidates =
      update_where (λ (c : CandidateRow). c.candidate_claim_id == candidate_id)
        (λ c. set_candidate (state_of d.outcome) c.canonical_claim_id d.reasons c) db.candidates;
}

-- `if duplicate: decision["outcome"] = "DUPLICATE"`
unfoldable pub mark_duplicate : Bool → Decision → Decision
mark_duplicate false d = d
mark_duplicate true d = record d { outcome = duplicate }

-- The decisions and the canonical identifiers so far, and the tables.
pub record Progress : Type 0 where
  pub outcomes : List Outcome
  pub canonical_ids : List String
  pub tables : Tables

unfoldable pub recorded :
    String → String → String → Option String → Decision → Progress → Tables → Progress
unfolding record_decision
recorded batch_id handoff_id candidate_id canonical_id d progress db = record {
  outcomes = progress.outcomes ++ d.outcome ∷ [];
  canonical_ids = progress.canonical_ids ++ elim canonical_id [ none ↦ [] | some id ↦ id ∷ [] ];
  tables = record_decision batch_id handoff_id candidate_id canonical_id d db;
}

-- What is written for one decision.
unfoldable pub admit :
    String → String → String → String → Decision → Rederived → String → Progress → Progress
unfolding write_canonical mark_duplicate admit_candidate recorded
admit batch_id handoff_id candidate_id new_id d r fingerprint progress =
    let ((id, is_duplicate), db) = write_canonical batch_id new_id r fingerprint progress.tables in
    recorded batch_id handoff_id candidate_id (some id) (mark_duplicate is_duplicate d) progress
      (admit_candidate candidate_id id db)

unfoldable pub refuse : String → String → String → Decision → Progress → Progress
unfolding refuse_candidate recorded
refuse batch_id handoff_id candidate_id d progress =
    recorded batch_id handoff_id candidate_id none d progress
      (refuse_candidate candidate_id d progress.tables)

-- A decision that admits, in `_write_canonical` of which `datetime(int(period), 1, 1)` raises for the
-- year 0. Every decision that admits has a rederived fact.
unfoldable pub settle_rederived :
    AdmissionLibrary
    → String
    → String
    → String
    → String
    → Decision
    → Option (Rederived × String)
    → Progress
    → Result AdmissionError Progress
unfolding admit
settle_rederived lib batch_id handoff_id candidate_id new_id d none progress = err value_error
settle_rederived lib batch_id handoff_id candidate_id new_id d (some (r, fingerprint)) progress = do
  reject_if (eqb (lib.year_of r.object_value.period) 0) value_error
  ok (admit batch_id handoff_id candidate_id new_id d r fingerprint progress)

unfoldable pub settle :
    AdmissionLibrary
    → String
    → String
    → String
    → String
    → Outcome
    → Decision
    → Progress
    → Result AdmissionError Progress
unfolding settle_rederived refuse
settle lib batch_id handoff_id candidate_id new_id admitted_rederived d progress =
    settle_rederived lib batch_id handoff_id candidate_id new_id d d.rederived progress
settle lib batch_id handoff_id candidate_id new_id outcome d progress =
    ok (refuse batch_id handoff_id candidate_id d progress)

-- `SET state = 'DECIDED', decision_summary = ...`
unfoldable pub close_batch : String → Progress → Tables → Tables
unfolding update_where decision_counts from_keys
close_batch batch_id progress db = record db {
  batches =
      update_where (λ (b : Batch). b.admission_batch_id == batch_id)
        (λ b. record b {
          decided = true;
          decision_counts = decision_counts progress.outcomes [];
          canonical_claim_ids = from_keys progress.canonical_ids;
        })
        db.batches;
}

unfoldable pub is_pending : HandoffState → Bool
is_pending pending = true
is_pending _ = false

-- `SET state = ... WHERE admission_handoff_id = id AND state = 'PENDING'`
unfoldable pub move_handoff : String → HandoffState → Tables → Tables
unfolding update_where is_pending
move_handoff id state db = record db {
  handoffs =
      update_where
        (λ (h : Handoff). if h.admission_handoff_id == id then is_pending h.state else false)
        (λ h. record h { state = state }) db.handoffs;
}

unfoldable pub has_item : List String → Bool
has_item [] = false
has_item (x ∷ xs) = true

unfoldable pub usage_after : Progress → List (String × ℕ) → List (String × ℕ)
unfolding put from_keys
usage_after progress usage = put "canonical_claims" (length (from_keys progress.canonical_ids)) (
    put "admission_decisions" (length progress.outcomes)
      (put "admission_model_calls" 0 (put "admission_runtime_calls" 1 usage)))

unfoldable pub close_run : ReviewJob → String → Progress → Tables → Tables
unfolding update_where has_item from_keys usage_after
close_run job batch_id progress db = record db {
  runs =
      update_where (λ (r : Run). r.research_run_id == job.research_run_id)
        (λ r. record r {
          state = if has_item progress.canonical_ids then "COMPLETED" else "HUMAN_REVIEW_REQUIRED";
          canonical_claim_ids = from_keys progress.canonical_ids;
          admission_batch_id = some batch_id;
          actual_usage = usage_after progress r.actual_usage;
          error_code = none;
          error_detail = none;
        })
        db.runs;
}

unfoldable pub mark_dossier : Option String → Tables → Tables
unfolding update_where
mark_dossier none db = db
mark_dossier (some id) db = record db {
  dossiers =
      update_where (λ (d : Dossier). d.dossier_id == id)
        (λ d. record d { status = "TRACEABLE_WITH_ADMITTED_FACTS" }) db.dossiers;
}

unfoldable pub close : ReviewJob → String → Inputs → Progress → Tables
unfolding close_batch move_handoff close_run has_item mark_dossier
close job batch_id inputs progress =
    let db = close_run job batch_id progress (
      move_handoff job.admission_handoff_id consumed
        (close_batch batch_id progress progress.tables)) in
    if has_item progress.canonical_ids then mark_dossier inputs.run.dossier_id db else db

unfoldable pub result_of : String → Progress → AdmissionRunResult
unfolding from_keys
result_of batch_id progress = record {
  admission_batch_id = some batch_id;
  canonical_claim_ids = from_keys progress.canonical_ids;
  outcomes = progress.outcomes;
  idempotent_replay = false;
}

-- The tables after a transaction: as before, where it raised.
unfoldable pub committed {ℓ} :
    {A : Type ℓ} → Result AdmissionError (A × Tables) → Tables → Result AdmissionError A × Tables
committed (err e) db = (err e, db)
committed (ok (a, after)) db = (ok a, after)

module _ (lib : AdmissionLibrary) where
  unfoldable pub load_inputs : ReviewJob → Handoff → Tables → Result AdmissionError Inputs
  unfolding validate_package load_run load_authoritative_inputs load_candidates
      validate_candidate_set load_evidence validate_all_evidence
  load_inputs job h db = do
    contents ← validate_package lib h job
    run ← load_run job db.runs
    (source, raw, fragments) ← load_authoritative_inputs lib contents db
    candidates ← load_candidates db.candidates h.candidate_claim_ids
    validate_candidate_set lib contents h.candidate_claim_ids
    evidence ← load_evidence db.evidence candidates
    validate_all_evidence lib contents source fragments evidence
    ok (record {
      contents = contents;
      run = run;
      source = source;
      raw = raw;
      fragments = fragments;
      candidates = candidates;
      evidence = evidence;
    })

  -- One round of the loop over the packaged candidates; `new_id` is what `uuid4()` returns in it.
  unfoldable pub decide_candidate :
      String
      → ReviewJob
      → Inputs
      → String
      → PackagedCandidate
      → Progress
      → Result AdmissionError Progress
  unfolding uuid get required validate_candidate_record evaluate_candidate settle
  decide_candidate batch_id job inputs new_id p progress = do
    candidate_id ← uuid lib p.persistent_candidate_claim_id
    c ← required "Candidate Claim is absent from persistence" (get candidate_id inputs.candidates)
    validate_candidate_record lib c p
    d ←
        evaluate_candidate lib inputs.contents c p inputs.source inputs.raw inputs.fragments
          inputs.evidence
    settle lib batch_id job.admission_handoff_id candidate_id new_id d.outcome d progress

  unfoldable pub decide_candidates :
      String
      → ReviewJob
      → Inputs
      → (ℕ → String)
      → List PackagedCandidate
      → ℕ
      → Progress
      → Result AdmissionError Progress
  unfolding decide_candidate
  decide_candidates batch_id job inputs new_id [] n progress = ok progress
  decide_candidates batch_id job inputs new_id (p ∷ ps) n progress = do
    next ← decide_candidate batch_id job inputs (new_id n) p progress
    decide_candidates batch_id job inputs new_id ps (suc n) next

  unfoldable pub decide_pending :
      String
      → (ℕ → String)
      → ReviewJob
      → Handoff
      → Tables
      → Result AdmissionError (AdmissionRunResult × Tables)
  unfolding load_inputs create_batch decide_candidates result_of close
  decide_pending batch_id new_id job h db = do
    inputs ← load_inputs job h db
    progress ←
        decide_candidates batch_id job inputs new_id inputs.contents.candidate_claims 0 (record {
          outcomes = [];
          canonical_ids = [];
          tables = create_batch batch_id h.candidate_claim_ids db;
        })
    ok (result_of batch_id progress, close job batch_id inputs progress)

  unfoldable pub decide_handoff :
      String
      → (ℕ → String)
      → ReviewJob
      → Handoff
      → HandoffState
      → Tables
      → Result AdmissionError (AdmissionRunResult × Tables)
  unfolding decide_pending existing_result
  decide_handoff batch_id new_id job h pending db = decide_pending batch_id new_id job h db
  decide_handoff batch_id new_id job h state db = do
    r ← existing_result lib job.admission_handoff_id db
    ok (r, db)

  unfoldable pub decide_body :
      String
      → (ℕ → String)
      → ReviewJob
      → Tables
      → Result AdmissionError (AdmissionRunResult × Tables)
  unfolding load_handoff decide_handoff
  decide_body batch_id new_id job db = do
    reject_if (not (job.policy_version == policy_version))
        (policy_error "Admission policy version mismatch")
    h ← load_handoff job db.handoffs
    decide_handoff batch_id new_id job h h.state db

  unfoldable pub decide :
      String → (ℕ → String) → ReviewJob → Tables → Result AdmissionError AdmissionRunResult × Tables
  unfolding decide_body committed
  decide batch_id new_id job db = committed (decide_body batch_id new_id job db) db
