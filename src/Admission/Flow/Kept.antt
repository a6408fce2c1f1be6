-- ===== src/Admission/Flow/Kept.antt =====
-- What the loop over the candidates leaves of the handoffs, and what `close` makes of them.
use axignal.Common.{
  ℕ, suc, String, Option, none, some, List, [], ◌∷◌, ◌≡◌, refl, sym, ap, ◌∙◌, Result, ok, >>=-eq-ok,
  ok_injective, reject_if, eqb, Bool-cases, inl, inr,
}
use axignal.Admission.Types.{
  AdmissionError, value_error, ReviewJob, PackagedCandidate, consumed, Outcome, admitted_rederived,
  rejected_candidate, contested, human_review_required, duplicate, Rederived, Decision,
  CanonicalClaim, Tables, AdmissionLibrary,
}
use axignal.Admission.Ledger.{claim_with, canonical_claim, write_found, write_canonical}
use axignal.Admission.Flow.{
  Inputs, Progress, admit, refuse, settle_rederived, settle, has_item, mark_dossier, move_handoff,
  close, decide_candidate, decide_candidates,
}
use axignal.Admission.Flow.Grown.{decide_candidate-settles}

write_found-handoffs :
    (o : Option CanonicalClaim) (c : CanonicalClaim) (db : Tables)
    → (write_found o c db).1.handoffs ≡ db.handoffs
unfolding write_found
write_found-handoffs none c db = refl
write_found-handoffs (some old) c db = refl

admit-handoffs :
    (batch_id handoff_id candidate_id new_id : String) (d : Decision) (r : Rederived)
    (fingerprint : String) (progress : Progress)
    → (admit batch_id handoff_id candidate_id new_id d r fingerprint progress).tables.handoffs
      ≡ progress.tables.handoffs
unfolding admit write_canonical
admit-handoffs batch_id handoff_id candidate_id new_id d r fingerprint progress =
    write_found-handoffs (claim_with fingerprint progress.tables.canonical_claims)
      (canonical_claim batch_id new_id r fingerprint) progress.tables

settle_rederived-handoffs :
    (lib : AdmissionLibrary) (batch_id handoff_id candidate_id new_id : String) (d : Decision)
    (o : Option (Rederived × String)) (progress next : Progress)
    → settle_rederived lib batch_id handoff_id candidate_id new_id d o progress ≡ ok next
    → next.tables.handoffs ≡ progress.tables.handoffs
unfolding settle_rederived
settle_rederived-handoffs lib batch_id handoff_id candidate_id new_id d none progress next ran =
    absurd (cc ran)
settle_rederived-handoffs lib batch_id handoff_id candidate_id new_id d (some (r, f)) progress next
      ran =
    let (u, dated, last) =
      >>=-eq-ok (reject_if (eqb (lib.year_of r.object_value.period) 0) value_error) _ ran in
    ap (λ (x : Progress). x.tables.handoffs) (sym (ok_injective last))
    ∙ admit-handoffs batch_id handoff_id candidate_id new_id d r f progress

refuse-handoffs :
    (batch_id handoff_id candidate_id : String) (d : Decision) (progress next : Progress)
    → ◌≡◌ {A = Result AdmissionError Progress}
        (ok (refuse batch_id handoff_id candidate_id d progress))
        (ok next)
    → next.tables.handoffs ≡ progress.tables.handoffs
unfolding refuse
refuse-handoffs batch_id handoff_id candidate_id d progress next ran =
    ap (λ (x : Progress). x.tables.handoffs) (sym (ok_injective ran))

settle-handoffs :
    (lib : AdmissionLibrary) (batch_id handoff_id candidate_id new_id : String) (o : Outcome)
    (d : Decision) (progress next : Progress)
    → settle lib batch_id handoff_id candidate_id new_id o d progress ≡ ok next
    → next.tables.handoffs ≡ progress.tables.handoffs
unfolding settle
settle-handoffs lib batch_id handoff_id candidate_id new_id admitted_rederived d progress next ran =
    settle_rederived-handoffs lib batch_id handoff_id candidate_id new_id d d.rederived progress
      next ran
settle-handoffs lib batch_id handoff_id candidate_id new_id rejected_candidate d progress next ran =
    refuse-handoffs batch_id handoff_id candidate_id d progress next ran
settle-handoffs lib batch_id handoff_id candidate_id new_id contested d progress next ran =
    refuse-handoffs batch_id handoff_id candidate_id d progress next ran
settle-handoffs lib batch_id handoff_id candidate_id new_id human_review_required d progress next
      ran =
    refuse-handoffs batch_id handoff_id candidate_id d progress next ran
settle-handoffs lib batch_id handoff_id candidate_id new_id duplicate d progress next ran =
    refuse-handoffs batch_id handoff_id candidate_id d progress next ran

module _ (lib : AdmissionLibrary) (batch_id : String) (job : ReviewJob) (inputs : Inputs)
    (new_id : ℕ → String) where
  pub decide_candidates-handoffs :
      (ps : List PackagedCandidate) (n : ℕ) (progress last : Progress)
      → decide_candidates lib batch_id job inputs new_id ps n progress ≡ ok last
      → last.tables.handoffs ≡ progress.tables.handoffs
  unfolding decide_candidates
  decide_candidates-handoffs [] n progress last ran =
      ap (λ (x : Progress). x.tables.handoffs) (sym (ok_injective ran))
  decide_candidates-handoffs (p ∷ ps) n progress last ran =
      let (next, first, rest) =
        >>=-eq-ok (decide_candidate lib batch_id job inputs (new_id n) p progress) _ ran in
      let (candidate_id, c, d, evaluates, settles) =
        decide_candidate-settles lib batch_id job inputs (new_id n) p progress next first in
      decide_candidates-handoffs ps (suc n) next last rest
      ∙ settle-handoffs lib batch_id job.admission_handoff_id candidate_id (new_id n) d.outcome d
          progress next settles

mark_dossier-handoffs :
    (o : Option String) (db : Tables) → (mark_dossier o db).handoffs ≡ db.handoffs
unfolding mark_dossier
mark_dossier-handoffs none db = refl
mark_dossier-handoffs (some id) db = refl

pub close-handoffs :
    (job : ReviewJob) (batch_id : String) (inputs : Inputs) (progress : Progress)
    → (close job batch_id inputs progress).handoffs
      ≡ (move_handoff job.admission_handoff_id consumed progress.tables).handoffs
unfolding close move_handoff
close-handoffs job batch_id inputs progress = elim (Bool-cases (has_item progress.canonical_ids)) [
  | inl some_id ↦ rw some_id (mark_dossier-handoffs inputs.run.dossier_id _)
  | inr no_id ↦ rw no_id refl
]
