-- ===== src/Admission/Flow/Mirrored.antt =====
-- The decisions of a handoff in the tables, against those that the loop over the candidates made.
use mathlib.Core.List.{map-append}
use axignal.Common.{
  ℕ, suc, String, Option, none, some, List, [], ◌∷◌, ◌++◌, ◌≡◌, refl, sym, ap, ◌∙◌, subst, map, All,
  All-append, Option-cases, Result, ok, >>=-eq-ok, ok_injective, reject_if, eqb, ◌==◌, Bool-cases,
  inl, inr, eq_iff,
}
use axignal.Admission.Types.{
  AdmissionError, value_error, ReviewJob, PackagedCandidate, Outcome, admitted_rederived,
  rejected_candidate, contested, human_review_required, duplicate, Rederived, Decision,
  CanonicalClaim, DecisionRow, Tables, AdmissionLibrary,
}
use axignal.Admission.Ledger.{
  claim_with, canonical_claim, write_found, write_canonical, record_decision, is_review,
  rederived_fingerprint, present, of_handoff,
}
use axignal.Admission.Flow.{
  Inputs, Progress, mark_duplicate, admit_candidate, refuse_candidate, has_item, mark_dossier,
  close, recorded, admit, refuse, settle_rederived, settle, decide_candidate, decide_candidates,
}
use axignal.Admission.Flow.Grown.{decide_candidate-settles}

of_handoff-snoc :
    (id : String) (xs : List DecisionRow) (r : DecisionRow)
    → r.admission_handoff_id ≡ id
    → of_handoff id (xs ++ r ∷ []) ≡ of_handoff id xs ++ r ∷ []
unfolding of_handoff
of_handoff-snoc id [] r own = rw ((eq_iff r.admission_handoff_id id).1 own) refl
of_handoff-snoc id (x ∷ xs) r own = elim (Bool-cases (x.admission_handoff_id == id)) [
  | inl mine ↦ rw mine (ap (λ ys. x ∷ ys) (of_handoff-snoc id xs r own))
  | inr other ↦ rw other (of_handoff-snoc id xs r own)
]

abbrev id_of : Option String → List String
id_of none = []
id_of (some id) = id ∷ []

present-snoc :
    (xs : List DecisionRow) (r : DecisionRow)
    → present (xs ++ r ∷ []) ≡ present xs ++ id_of r.canonical_claim_id
unfolding present
present-snoc [] r = elim (Option-cases r.canonical_claim_id) [
  | inl e ↦ rw e refl
  | inr (id, e) ↦ rw e refl
]
present-snoc (x ∷ xs) r = elim (Option-cases x.canonical_claim_id) [
  | inl e ↦ rw e (present-snoc xs r)
  | inr (id, e) ↦ rw e (ap (λ ys. id ∷ ys) (present-snoc xs r))
]

write_found-decisions :
    (o : Option CanonicalClaim) (c : CanonicalClaim) (db : Tables)
    → (write_found o c db).1.decisions ≡ db.decisions
unfolding write_found
write_found-decisions none c db = refl
write_found-decisions (some old) c db = refl

-- The rows of the handoff in the tables so far are the decisions so far.
module _ (batch_id handoff_id : String) where
  abbrev pub rows : Tables → List DecisionRow
  rows db = of_handoff handoff_id db.decisions

  pub record Mirrors (progress : Progress) : Type 0 where
    pub outcomes_same :
        map (λ (r : DecisionRow). r.outcome) (rows progress.tables) ≡ progress.outcomes
    pub ids_same : present (rows progress.tables) ≡ progress.canonical_ids
    pub of_batch : All (λ (r : DecisionRow). r.admission_batch_id ≡ batch_id) (rows progress.tables)

  abbrev row_of : String → Option String → Decision → DecisionRow
  row_of candidate_id canonical_id d = record {
    admission_batch_id = batch_id;
    admission_handoff_id = handoff_id;
    candidate_claim_id = candidate_id;
    outcome = d.outcome;
    gate_results = d.gate_results;
    rejection_reasons = d.reasons;
    canonical_claim_id = canonical_id;
    rederived_fingerprint = rederived_fingerprint d.rederived;
    human_review_required = is_review d.outcome;
  }

  recorded-Mirrors :
      (candidate_id : String) (canonical_id : Option String) (d : Decision) (progress : Progress)
      (db : Tables)
      → db.decisions ≡ progress.tables.decisions
      → Mirrors progress
      → Mirrors (recorded batch_id handoff_id candidate_id canonical_id d progress db)
  unfolding recorded record_decision
  recorded-Mirrors candidate_id canonical_id d progress db same m =
      let row = row_of candidate_id canonical_id d in
      let before = rows progress.tables in
      let now : of_handoff handoff_id (db.decisions ++ row ∷ []) ≡ before ++ row ∷ [] =
        ap (λ ds. of_handoff handoff_id (ds ++ row ∷ [])) same
        ∙ of_handoff-snoc handoff_id progress.tables.decisions row refl in
      record {
        outcomes_same =
            ap (map (λ (r : DecisionRow). r.outcome)) now
            ∙ map-append (λ (r : DecisionRow). r.outcome) before (row ∷ [])
            ∙ ap (λ os. os ++ d.outcome ∷ []) m.outcomes_same;
        ids_same =
            ap present now
            ∙ present-snoc before row
            ∙ ap (λ ids. ids ++ id_of canonical_id) m.ids_same;
        of_batch =
            subst (All (λ (r : DecisionRow). r.admission_batch_id ≡ batch_id)) (sym now)
              (All-append _ before (row ∷ []) m.of_batch (refl, tt));
      }

  admit-Mirrors :
      (candidate_id new_id : String) (d : Decision) (r : Rederived) (fingerprint : String)
      (progress : Progress)
      → Mirrors progress
      → Mirrors (admit batch_id handoff_id candidate_id new_id d r fingerprint progress)
  unfolding admit write_canonical admit_candidate
  admit-Mirrors candidate_id new_id d r fingerprint progress m =
      let found = claim_with fingerprint progress.tables.canonical_claims in
      let claim = canonical_claim batch_id new_id r fingerprint in
      let ((id, is_duplicate), db) = write_found found claim progress.tables in
      recorded-Mirrors candidate_id (some id) (mark_duplicate is_duplicate d) progress
        (admit_candidate candidate_id id db) (write_found-decisions found claim progress.tables) m

  refuse-Mirrors :
      (candidate_id : String) (d : Decision) (progress next : Progress)
      → Mirrors progress
      → ◌≡◌ {A = Result AdmissionError Progress}
          (ok (refuse batch_id handoff_id candidate_id d progress))
          (ok next)
      → Mirrors next
  unfolding refuse refuse_candidate
  refuse-Mirrors candidate_id d progress next m ran = subst Mirrors (ok_injective ran) (
      recorded-Mirrors candidate_id none d progress
        (refuse_candidate candidate_id d progress.tables) refl m)

  settle_rederived-Mirrors :
      (lib : AdmissionLibrary) (candidate_id new_id : String) (d : Decision)
      (o : Option (Rederived × String)) (progress next : Progress)
      → Mirrors progress
      → settle_rederived lib batch_id handoff_id candidate_id new_id d o progress ≡ ok next
      → Mirrors next
  unfolding settle_rederived
  settle_rederived-Mirrors lib candidate_id new_id d none progress next m ran = absurd (cc ran)
  settle_rederived-Mirrors lib candidate_id new_id d (some (r, f)) progress next m ran =
      let (u, dated, last) =
        >>=-eq-ok (reject_if (eqb (lib.year_of r.object_value.period) 0) value_error) _ ran in
      subst Mirrors (ok_injective last) (admit-Mirrors candidate_id new_id d r f progress m)

  settle-Mirrors :
      (lib : AdmissionLibrary) (candidate_id new_id : String) (o : Outcome) (d : Decision)
      (progress next : Progress)
      → Mirrors progress
      → settle lib batch_id handoff_id candidate_id new_id o d progress ≡ ok next
      → Mirrors next
  unfolding settle
  settle-Mirrors lib candidate_id new_id admitted_rederived d progress next m ran =
      settle_rederived-Mirrors lib candidate_id new_id d d.rederived progress next m ran
  settle-Mirrors lib candidate_id new_id rejected_candidate d progress next m ran =
      refuse-Mirrors candidate_id d progress next m ran
  settle-Mirrors lib candidate_id new_id contested d progress next m ran =
      refuse-Mirrors candidate_id d progress next m ran
  settle-Mirrors lib candidate_id new_id human_review_required d progress next m ran =
      refuse-Mirrors candidate_id d progress next m ran
  settle-Mirrors lib candidate_id new_id duplicate d progress next m ran =
      refuse-Mirrors candidate_id d progress next m ran

module _ (lib : AdmissionLibrary) (batch_id : String) (job : ReviewJob) (inputs : Inputs)
    (new_id : ℕ → String) where
  pub decide_candidates-Mirrors :
      (ps : List PackagedCandidate) (n : ℕ) (progress last : Progress)
      → Mirrors batch_id job.admission_handoff_id progress
      → decide_candidates lib batch_id job inputs new_id ps n progress ≡ ok last
      → Mirrors batch_id job.admission_handoff_id last
  unfolding decide_candidates
  decide_candidates-Mirrors [] n progress last m ran =
      subst (Mirrors batch_id job.admission_handoff_id) (ok_injective ran) m
  decide_candidates-Mirrors (p ∷ ps) n progress last m ran =
      let (next, first, rest) =
        >>=-eq-ok (decide_candidate lib batch_id job inputs (new_id n) p progress) _ ran in
      let (candidate_id, c, d, evaluates, settles) =
        decide_candidate-settles lib batch_id job inputs (new_id n) p progress next first in
      decide_candidates-Mirrors ps (suc n) next last
        (settle-Mirrors batch_id job.admission_handoff_id lib candidate_id (new_id n) d.outcome d
          progress next m settles)
        rest

mark_dossier-decisions :
    (o : Option String) (db : Tables) → (mark_dossier o db).decisions ≡ db.decisions
unfolding mark_dossier
mark_dossier-decisions none db = refl
mark_dossier-decisions (some id) db = refl

pub close-decisions :
    (job : ReviewJob) (batch_id : String) (inputs : Inputs) (progress : Progress)
    → (close job batch_id inputs progress).decisions ≡ progress.tables.decisions
unfolding close
close-decisions job batch_id inputs progress = elim (Bool-cases (has_item progress.canonical_ids)) [
  | inl some_id ↦ rw some_id (mark_dossier-decisions inputs.run.dossier_id _)
  | inr no_id ↦ rw no_id refl
]
