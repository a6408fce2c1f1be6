-- ===== src/Admission/Facts/Declared.antt =====
-- When `_evaluate_candidate` admits a candidate, without its own tests.
use axignal.Common.{String, some, List, [], ◌≡◌, ◌↔◌, Any, Matched, ok}
use axignal.Admission.Types.{
  PackagedCandidate, Package, Source, SourceObject, FragmentRow, EvidenceRow, CandidateRow,
  admitted_rederived, Decision, AdmissionLibrary,
}
use axignal.Admission.Facts.{index_by, values}
use axignal.Admission.Facts.Supported.{Supports, supporting_texts_sound, supporting_texts_complete}
use axignal.Admission.Facts.Admitted.{Admissible, evaluated, evaluate_candidate-Admissible_iff}
use axignal.Admission.Facts.Stated.{
  Holds, exact_match_iff, IsAdverse, uncontested_iff, StatesOnce, matches-StatesOnce,
  StatesOnce-matches,
}

module _ (lib : AdmissionLibrary) (p : Package) (c : CandidateRow) (packaged : PackagedCandidate)
    (source : Source) (raw : SourceObject) (fragments : List (String × FragmentRow))
    (evidence : List (String × EvidenceRow)) where
  -- The evidence rows under their keys.
  abbrev by_key : List (String × EvidenceRow)
  by_key = index_by (λ (e : EvidenceRow). e.evidence_key) (values evidence) []

  -- What the code admits, in the words of the profile.
  pub record IsAdmitted : Type 0 where
    pub found : List (String × String)
    pub number : String
    pub value : String
    pub period : String
    pub is_fact : c.fields.kind ≡ "FACT"
    pub subject : c.fields.subject_id ≡ "geo_country_rus"
    pub predicate : c.fields.predicate ≡ "real_gdp_growth_annual_pct"
    pub supported : Matched (Supports p c source fragments by_key) packaged.evidence_keys found
    pub one_match : StatesOnce lib (number, period) found
    pub printed : lib.print_decimal number ≡ some value
    pub value_held : Holds c.fields.object_value "value" value
    pub unit_held : Holds c.fields.object_value "unit" "percent_annual"
    pub period_held : Holds c.fields.object_value "period" period
    pub uncontested : ¬ Any (IsAdverse packaged.persistent_candidate_claim_id) p.candidate_claims

  Admissible-IsAdmitted : Admissible lib p c packaged source raw fragments evidence → IsAdmitted
  Admissible-IsAdmitted a =
      let (value_held, unit_held, period_held) =
        (exact_match_iff c.fields.object_value a.value a.period).0 a.exact in
      record {
        found = a.found;
        number = a.number;
        value = a.value;
        period = a.period;
        is_fact = a.is_fact;
        subject = a.subject;
        predicate = a.predicate;
        supported =
            supporting_texts_sound p c source fragments by_key packaged.evidence_keys a.found
              a.supported;
        one_match = matches-StatesOnce lib (a.number, a.period) a.found a.one_match;
        printed = a.printed;
        value_held = value_held;
        unit_held = unit_held;
        period_held = period_held;
        uncontested =
            (uncontested_iff packaged.persistent_candidate_claim_id p.candidate_claims).0
              a.uncontested;
      }

  IsAdmitted-Admissible : IsAdmitted → Admissible lib p c packaged source raw fragments evidence
  IsAdmitted-Admissible a = record {
    found = a.found;
    number = a.number;
    value = a.value;
    period = a.period;
    is_fact = a.is_fact;
    subject = a.subject;
    predicate = a.predicate;
    supported =
        supporting_texts_complete p c source fragments by_key packaged.evidence_keys a.found
          a.supported;
    one_match = StatesOnce-matches lib (a.number, a.period) a.found a.one_match;
    printed = a.printed;
    exact =
        (exact_match_iff c.fields.object_value a.value a.period).1
          (a.value_held, a.unit_held, a.period_held);
    uncontested =
        (uncontested_iff packaged.persistent_candidate_claim_id p.candidate_claims).1 a.uncontested;
  }

  -- A candidate is admitted exactly when it is a fact on the subject and predicate of the profile;
  -- each of its evidence keys names evidence of its own that the package has too, which quotes a
  -- stored fragment by text and hash and has the rights of the source; exactly one of these
  -- fragments states a number with its period; that number, the unit of the profile and that period
  -- are what it proposes; and no other candidate of the package is adverse on that subject and
  -- predicate.
  pub evaluate_candidate_iff :
      ((d : Decision) × (evaluated lib p c packaged source raw fragments evidence ≡ ok d)
        × (d.outcome ≡ admitted_rederived))
      ↔ IsAdmitted
  evaluate_candidate_iff =
      let through =
        evaluate_candidate-Admissible_iff lib p c packaged source raw fragments evidence in
      (λ d. Admissible-IsAdmitted (through.0 d), λ a. through.1 (IsAdmitted-Admissible a))
