-- ===== src/Admission/Flow/Grown.antt =====
-- The canonical ledger under `decide`.
use axignal.Common.{
  ℕ, suc, String, Option, none, some, List, [], ◌∷◌, ◌≡◌, refl, sym, ap, subst, Result, ok,
  >>=-eq-ok, reject_if, ok_injective, eqb,
}
use axignal.Common.Dict.{get}
use axignal.Admission.Types.{
  AdmissionError, value_error, ReviewJob, PackagedCandidate, CandidateRow, Outcome,
  admitted_rederived, rejected_candidate, contested, human_review_required, duplicate, Rederived,
  Decision, CanonicalClaim, Tables, AdmissionLibrary,
}
use axignal.Admission.Facts.{evaluate_candidate, required}
use axignal.Admission.Facts.Admitted.{evaluated-Facts}
use axignal.Admission.Evidence.{uuid, validate_candidate_record}
use axignal.Admission.Ledger.Append.{Facts, Grows, Grows-same, Grows-trans, write_canonical-Grows}
use axignal.Admission.Flow.{
  Inputs, Progress, admit, refuse, settle_rederived, settle, decide_candidate, decide_candidates,
}

abbrev pub ledger : Tables → List CanonicalClaim
ledger db = db.canonical_claims

module _ (lib : AdmissionLibrary) where
  admit-Grows :
      (batch_id handoff_id candidate_id new_id : String) (d : Decision) (r : Rederived)
      (fingerprint : String) (progress : Progress)
      → Facts lib r fingerprint
      → Grows lib
          (ledger progress.tables)
          (ledger (admit batch_id handoff_id candidate_id new_id d r fingerprint progress).tables)
  unfolding admit
  admit-Grows batch_id handoff_id candidate_id new_id d r fingerprint progress h =
      write_canonical-Grows lib batch_id new_id r fingerprint progress.tables h

  settle_rederived-Grows :
      (batch_id handoff_id candidate_id new_id : String) (d : Decision)
      (o : Option (Rederived × String)) (progress next : Progress)
      → ((r : Rederived) (fingerprint : String)
          → o ≡ some (r, fingerprint)
          → Facts lib r fingerprint)
      → settle_rederived lib batch_id handoff_id candidate_id new_id d o progress ≡ ok next
      → Grows lib (ledger progress.tables) (ledger next.tables)
  unfolding settle_rederived
  settle_rederived-Grows batch_id handoff_id candidate_id new_id d none progress next facts ran =
      absurd (cc ran)
  settle_rederived-Grows batch_id handoff_id candidate_id new_id d (some (r, f)) progress next facts
        ran =
      let (u, dated, last) =
        >>=-eq-ok (reject_if (eqb (lib.year_of r.object_value.period) 0) value_error) _ ran in
      subst (λ (x : Progress). Grows lib (ledger progress.tables) (ledger x.tables))
        (ok_injective last)
        (admit-Grows batch_id handoff_id candidate_id new_id d r f progress (facts r f refl))

  refuse-Grows :
      (batch_id handoff_id candidate_id : String) (d : Decision) (progress next : Progress)
      → ◌≡◌ {A = Result AdmissionError Progress}
          (ok (refuse batch_id handoff_id candidate_id d progress))
          (ok next)
      → Grows lib (ledger progress.tables) (ledger next.tables)
  unfolding refuse
  refuse-Grows batch_id handoff_id candidate_id d progress next ran =
      Grows-same lib (ledger progress.tables) (ledger next.tables)
        (ap (λ (x : Progress). ledger x.tables) (sym (ok_injective ran)))

  settle-Grows :
      (batch_id handoff_id candidate_id new_id : String) (o : Outcome) (d : Decision)
      (progress next : Progress)
      → d.outcome ≡ o
      → ((r : Rederived) (fingerprint : String)
          → d.outcome ≡ admitted_rederived
          → d.rederived ≡ some (r, fingerprint)
          → Facts lib r fingerprint)
      → settle lib batch_id handoff_id candidate_id new_id o d progress ≡ ok next
      → Grows lib (ledger progress.tables) (ledger next.tables)
  unfolding settle
  settle-Grows batch_id handoff_id candidate_id new_id admitted_rederived d progress next e facts
        ran =
      settle_rederived-Grows batch_id handoff_id candidate_id new_id d d.rederived progress next
        (λ r f has. facts r f e has) ran
  settle-Grows batch_id handoff_id candidate_id new_id rejected_candidate d progress next e facts
        ran =
      refuse-Grows batch_id handoff_id candidate_id d progress next ran
  settle-Grows batch_id handoff_id candidate_id new_id contested d progress next e facts ran =
      refuse-Grows batch_id handoff_id candidate_id d progress next ran
  settle-Grows batch_id handoff_id candidate_id new_id human_review_required d progress next e facts
        ran =
      refuse-Grows batch_id handoff_id candidate_id d progress next ran
  settle-Grows batch_id handoff_id candidate_id new_id duplicate d progress next e facts ran =
      refuse-Grows batch_id handoff_id candidate_id d progress next ran

  -- A round of the loop settles one decision, which `_evaluate_candidate` made.
  pub decide_candidate-settles :
      (batch_id : String) (job : ReviewJob) (inputs : Inputs) (new_id : String)
      (p : PackagedCandidate) (progress next : Progress)
      → decide_candidate lib batch_id job inputs new_id p progress ≡ ok next
      → (candidate_id : String) × (c : CandidateRow) × (d : Decision) × (evaluate_candidate lib
            inputs.contents c p inputs.source inputs.raw inputs.fragments inputs.evidence
          ≡ ok d)
        × (settle lib batch_id job.admission_handoff_id candidate_id new_id d.outcome d progress
            ≡ ok next)
  unfolding decide_candidate
  decide_candidate-settles batch_id job inputs new_id p progress next ran =
      let (candidate_id, parsed, rest) =
        >>=-eq-ok (uuid lib p.persistent_candidate_claim_id) _ ran in
      let (c, found, rest) =
        >>=-eq-ok
          (required "Candidate Claim is absent from persistence"
            (get candidate_id inputs.candidates))
          _ rest in
      let (u, valid, rest) = >>=-eq-ok (validate_candidate_record lib c p) _ rest in
      let (d, evaluates, settles) =
        >>=-eq-ok
          (evaluate_candidate lib inputs.contents c p inputs.source inputs.raw inputs.fragments
            inputs.evidence)
          _ rest in
      (candidate_id, c, d, evaluates, settles)

  pub decide_candidates-Grows :
      (batch_id : String) (job : ReviewJob) (inputs : Inputs) (new_id : ℕ → String)
      (ps : List PackagedCandidate) (n : ℕ) (progress last : Progress)
      → decide_candidates lib batch_id job inputs new_id ps n progress ≡ ok last
      → Grows lib (ledger progress.tables) (ledger last.tables)
  unfolding decide_candidates
  decide_candidates-Grows batch_id job inputs new_id [] n progress last ran =
      Grows-same lib (ledger progress.tables) (ledger last.tables)
        (ap (λ (x : Progress). ledger x.tables) (sym (ok_injective ran)))
  decide_candidates-Grows batch_id job inputs new_id (p ∷ ps) n progress last ran =
      let (next, first, rest) =
        >>=-eq-ok (decide_candidate lib batch_id job inputs (new_id n) p progress) _ ran in
      let (candidate_id, c, d, evaluates, settles) =
        decide_candidate-settles batch_id job inputs (new_id n) p progress next first in
      Grows-trans lib (ledger progress.tables) (ledger next.tables) (ledger last.tables)
        (settle-Grows batch_id job.admission_handoff_id candidate_id (new_id n) d.outcome d progress
          next refl
          (λ r f admitted has.
            evaluated-Facts lib inputs.contents c p inputs.source inputs.raw inputs.fragments
              inputs.evidence d r f evaluates admitted has)
          settles)
        (decide_candidates-Grows batch_id job inputs new_id ps (suc n) next last rest)
