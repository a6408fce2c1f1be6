-- ===== src/Admission/Facts/Admitted.antt =====
-- When `_evaluate_candidate` admits a candidate.
use axignal.Common.{
  ◌<◌, String, Bool, true, false, some, List, [], ◌∷◌, ◌++◌, ◌≡◌, refl, sym, ap, ◌∙◌, subst, ◌↔◌,
  Any, map, ◌==◌, Bool-cases, inl, inr, eq_iff, Result, ok, >>=-eq-ok, ok_injective,
}
use axignal.Common.Occurrence.{Any-right}
use axignal.Proposals.Parser.{canonical_hash}
use axignal.Admission.Types.{
  AdmissionError, PackagedCandidate, Package, Source, SourceObject, FragmentRow, EvidenceRow,
  CandidateRow, admitted_rederived, human_review_required, Rederived, Decision, AdmissionLibrary,
}
use axignal.Admission.Facts.{
  allowed_subject, allowed_predicate, index_by, values, first_gates, supporting_texts,
  adverse_same_semantics, rederive, exact_match, fact_json, matches, last_gates, compared,
  rederive_match, evaluate_fact, evaluate_candidate,
}
use mathlib.Core.Option.{some-injective}
use axignal.Admission.Ledger.Append.{Facts}
use axignal.Admission.Facts.OneMatch.{
  OneMatch, decide_match-one, decide_match-OneMatch, undecided-outcome, last_gates-future,
}

module _ (lib : AdmissionLibrary) (p : Package) (c : CandidateRow) (packaged : PackagedCandidate)
    (source : Source) (raw : SourceObject) (fragments : List (String × FragmentRow))
    (evidence : List (String × EvidenceRow)) where
  -- The candidate is a fact of the profile; its evidence holds, and exactly one of its texts states a
  -- number, which is what the candidate proposes; no other candidate of the package is adverse.
  pub record Admissible : Type 0 where
    pub found : List (String × String)
    pub number : String
    pub value : String
    pub period : String
    pub is_fact : c.fields.kind ≡ "FACT"
    pub subject : c.fields.subject_id ≡ allowed_subject
    pub predicate : c.fields.predicate ≡ allowed_predicate
    pub supported :
        supporting_texts p c source fragments
          (index_by (λ (e : EvidenceRow). e.evidence_key) (values evidence) [])
          packaged.evidence_keys
        ≡ ok found
    pub one_match : matches lib found ≡ (number, period) ∷ []
    pub printed : lib.print_decimal number ≡ some value
    pub exact : exact_match c.fields.object_value value period ≡ true
    pub uncontested :
        adverse_same_semantics packaged.persistent_candidate_claim_id p.candidate_claims ≡ false

  abbrev pub evaluated : Result AdmissionError Decision
  evaluated = evaluate_candidate lib p c packaged source raw fragments evidence

  abbrev gates : List (String × Bool)
  gates = first_gates p c source raw

  abbrev admitted_decision : Admissible → Decision
  admitted_decision a =
      rederive_match lib p c packaged gates (map (λ (t, id). id) a.found) a.value a.period

  evaluate_fact-Admissible :
      (a : Admissible)
      → evaluate_fact lib p c packaged source gates fragments evidence ≡ ok (admitted_decision a)
  unfolding evaluate_fact
  evaluate_fact-Admissible a =
      rw (a.supported, a.one_match)
        (decide_match-one lib p c packaged gates a.found a.number a.period a.value a.printed)

  evaluate_candidate-Admissible : (a : Admissible) → evaluated ≡ ok (admitted_decision a)
  unfolding evaluate_candidate
  evaluate_candidate-Admissible a =
      let fact = (eq_iff c.fields.kind "FACT").1 a.is_fact in
      let subject = (eq_iff c.fields.subject_id allowed_subject).1 a.subject in
      let predicate = (eq_iff c.fields.predicate allowed_predicate).1 a.predicate in
      rw (fact, subject, predicate) (evaluate_fact-Admissible a)

  -- A candidate of another class, or outside the profile, is not admitted.
  evaluated-profile :
      (d : Decision)
      → evaluated ≡ ok d
      → d.outcome ≡ admitted_rederived
      → (c.fields.kind ≡ "FACT")
        × (c.fields.subject_id ≡ allowed_subject)
        × (c.fields.predicate ≡ allowed_predicate)
        × (evaluate_fact lib p c packaged source gates fragments evidence ≡ ok d)
  unfolding evaluate_candidate
  evaluated-profile d ran admitted = elim (Bool-cases (c.fields.kind == "FACT")) [
    | inr other ↦
        absurd (cc (undecided-outcome human_review_required _ _ gates d (rw other at ran) admitted))
    | inl fact ↦ elim (Bool-cases (c.fields.subject_id == allowed_subject)) [
      | inr other ↦ absurd (
          cc (
            undecided-outcome human_review_required _ _ gates d (rw (fact, other) at ran) admitted))
      | inl subject ↦ elim (Bool-cases (c.fields.predicate == allowed_predicate)) [
        | inr other ↦ absurd (
            cc (
              undecided-outcome human_review_required _ _ gates d (rw (fact, subject, other) at ran)
                admitted))
        | inl predicate ↦ (
          (eq_iff c.fields.kind "FACT").0 fact,
          (eq_iff c.fields.subject_id allowed_subject).0 subject,
          (eq_iff c.fields.predicate allowed_predicate).0 predicate,
          rw (fact, subject, predicate) at ran,
        )
      ]
    ]
  ]

  evaluate_fact-Parts :
      (d : Decision)
      → evaluate_fact lib p c packaged source gates fragments evidence ≡ ok d
      → d.outcome ≡ admitted_rederived
      → (found : List (String × String)) × (supporting_texts p c source fragments
            (index_by (λ (e : EvidenceRow). e.evidence_key) (values evidence) [])
            packaged.evidence_keys
          ≡ ok found)
        × OneMatch lib p c packaged gates found (matches lib found) d
  unfolding evaluate_fact
  evaluate_fact-Parts d ran admitted =
      let keys = packaged.evidence_keys in
      let by_key = index_by (λ (e : EvidenceRow). e.evidence_key) (values evidence) [] in
      let (found, supported, rest) =
        >>=-eq-ok (supporting_texts p c source fragments by_key keys) _ ran in
      (
        found,
        supported,
        decide_match-OneMatch lib p c packaged gates found (matches lib found) d rest admitted,
      )

  admitted-Admissible :
      (d : Decision) → evaluated ≡ ok d → d.outcome ≡ admitted_rederived → Admissible
  admitted-Admissible d ran admitted =
      let (fact, subject, predicate, rest) = evaluated-profile d ran admitted in
      let (found, supported, m) = evaluate_fact-Parts d rest admitted in
      record {
        found = found;
        number = m.number;
        value = m.value;
        period = m.period;
        is_fact = fact;
        subject = subject;
        predicate = predicate;
        supported = supported;
        one_match = m.one;
        printed = m.printed;
        exact = m.exact;
        uncontested = m.uncontested;
      }

  admitted_decision-outcome :
      (a : Admissible)
      → ((admitted_decision a).outcome ≡ admitted_rederived)
        × ((admitted_decision a).gate_results ≡ gates ++ last_gates lib true false a.period)
        × ((admitted_decision a).reasons ≡ "all_deterministic_gates_passed" ∷ [])
  unfolding rederive_match compared
  admitted_decision-outcome a = rw (a.exact, a.uncontested) (refl, refl, refl)

  -- A candidate is admitted exactly when the tests on the way accept it.
  pub evaluate_candidate-Admissible_iff :
      ((d : Decision) × (evaluated ≡ ok d) × (d.outcome ≡ admitted_rederived)) ↔ Admissible
  evaluate_candidate-Admissible_iff = (
    λ (d, ran, admitted). admitted-Admissible d ran admitted,
    λ a. (admitted_decision a, evaluate_candidate-Admissible a, (admitted_decision-outcome a).0),
  )

  -- A candidate about a year to come is admitted all the same: the decision records the failed gate of
  -- temporal validity, and states that all gates passed.
  pub evaluate_candidate-future :
      (a : Admissible)
      → lib.current_year < lib.year_of a.period
      → (d : Decision) × (evaluated ≡ ok d)
        × (d.outcome ≡ admitted_rederived)
        × (d.reasons ≡ "all_deterministic_gates_passed" ∷ [])
        × Any (λ g. g ≡ ("TEMPORAL_VALIDITY_PASS", false)) d.gate_results
  evaluate_candidate-future a later =
      let (admitted, recorded, passed) = admitted_decision-outcome a in
      (
        admitted_decision a,
        evaluate_candidate-Admissible a,
        admitted,
        passed,
        rw recorded (
            Any-right gates (last_gates lib true false a.period)
              (last_gates-future lib a.period later)),
      )

  admitted_decision-rederived :
      (a : Admissible)
      → (admitted_decision a).rederived
        ≡ some (
          rederive a.value a.period (map (λ ((t, id) : String × String). id) a.found),
          canonical_hash lib.proposals (
              fact_json
                (rederive a.value a.period (map (λ ((t, id) : String × String). id) a.found))),
        )
  unfolding rederive_match compared
  admitted_decision-rederived a = rw (a.exact, a.uncontested) refl

  rederive-Facts :
      (value period : String) (ids : List String)
      → Facts lib
          (rederive value period ids)
          (canonical_hash lib.proposals (fact_json (rederive value period ids)))
  unfolding rederive
  rederive-Facts value period ids = (refl, refl)

  -- What is written for an admitted candidate: the rederived fact, under its own hash.
  pub evaluated-Facts :
      (d : Decision) (r : Rederived) (fingerprint : String)
      → evaluated ≡ ok d
      → d.outcome ≡ admitted_rederived
      → d.rederived ≡ some (r, fingerprint)
      → Facts lib r fingerprint
  evaluated-Facts d r fingerprint ran admitted has =
      let a = admitted-Admissible d ran admitted in
      let same : d ≡ admitted_decision a =
        ok_injective (sym ran ∙ evaluate_candidate-Admissible a) in
      let written =
        some-injective _ _
          (sym has ∙ ap (λ (x : Decision). x.rederived) same ∙ admitted_decision-rederived a) in
      subst (λ (q : Rederived × String). Facts lib q.0 q.1) (sym written)
        (rederive-Facts a.value a.period (map (λ ((t, id) : String × String). id) a.found))
