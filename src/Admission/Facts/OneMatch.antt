-- ===== src/Admission/Facts/OneMatch.antt =====
-- The one number that the evidence of an admitted candidate states.
use axignal.Common.{
  ◌<◌, String, Bool, true, false, Option, none, some, List, [], ◌∷◌, ◌≡◌, refl, sym, ap, ◌∙◌, Any,
  here, there, map, leb, arith, Result, ok, >>=-eq-ok, ok_injective,
}
use axignal.Admission.Types.{
  AdmissionError, PackagedCandidate, Package, CandidateRow, Outcome, admitted_rederived,
  rejected_candidate, Rederived, Decision, AdmissionLibrary,
}
use axignal.Admission.Facts.{
  undecided, required, adverse_same_semantics, exact_match, last_gates, compared, rederive_match,
  decide_match,
}

-- The one match of a candidate that is admitted, and what is decided on it.
pub record OneMatch (lib : AdmissionLibrary) (p : Package) (c : CandidateRow)
    (packaged : PackagedCandidate) (gates : List (String × Bool)) (found : List (String × String))
    (ms : List (String × String)) (d : Decision) : Type 0 where
  pub number : String
  pub value : String
  pub period : String
  pub one : ms ≡ (number, period) ∷ []
  pub printed : lib.print_decimal number ≡ some value
  pub exact : exact_match c.fields.object_value value period ≡ true
  pub uncontested :
      adverse_same_semantics packaged.persistent_candidate_claim_id p.candidate_claims ≡ false
  pub decided : d ≡ rederive_match lib p c packaged gates (map (λ (t, id). id) found) value period

compared-admits :
    (lib : AdmissionLibrary) (exact adverse : Bool) (gates : List (String × Bool)) (r : Rederived)
    → (compared lib exact adverse gates r).outcome ≡ admitted_rederived
    → (exact ≡ true) × (adverse ≡ false)
unfolding compared
compared-admits lib false adverse gates r h = cc h
compared-admits lib true true gates r h = cc h
compared-admits lib true false gates r h = (refl, refl)

pub decide_match-one :
    (lib : AdmissionLibrary) (p : Package) (c : CandidateRow) (packaged : PackagedCandidate)
    (gates : List (String × Bool)) (found : List (String × String)) (number period value : String)
    → lib.print_decimal number ≡ some value
    → decide_match lib p c packaged gates found ((number, period) ∷ [])
      ≡ ok (rederive_match lib p c packaged gates (map (λ (t, id). id) found) value period)
unfolding decide_match required
decide_match-one lib p c packaged gates found number period value printed = rw printed refl

pub undecided-outcome :
    (o : Outcome) (reason gate : String) (gates : List (String × Bool)) (d : Decision)
    → ◌≡◌ {A = Result AdmissionError Decision} (ok (undecided o reason gates gate)) (ok d)
    → d.outcome ≡ admitted_rederived
    → o ≡ admitted_rederived
unfolding undecided
undecided-outcome o reason gate gates d ran admitted =
    ap (λ (x : Decision). x.outcome) (ok_injective ran) ∙ admitted

pub required-eq-ok {ℓ} :
    {A : Type ℓ} (message : String) (o : Option A) {x : A} → required message o ≡ ok x → o ≡ some x
unfolding required
required-eq-ok message none h = cc h
required-eq-ok message (some y) h = ap some (ok_injective h)

rederive_match-admits :
    (lib : AdmissionLibrary) (p : Package) (c : CandidateRow) (packaged : PackagedCandidate)
    (gates : List (String × Bool)) (ids : List String) (value period : String)
    → (rederive_match lib p c packaged gates ids value period).outcome ≡ admitted_rederived
    → (exact_match c.fields.object_value value period ≡ true)
      × (adverse_same_semantics packaged.persistent_candidate_claim_id p.candidate_claims ≡ false)
unfolding rederive_match
rederive_match-admits lib p c packaged gates ids value period h = compared-admits lib _ _ _ _ h

pub decide_match-OneMatch :
    (lib : AdmissionLibrary) (p : Package) (c : CandidateRow) (packaged : PackagedCandidate)
    (gates : List (String × Bool)) (found ms : List (String × String)) (d : Decision)
    → decide_match lib p c packaged gates found ms ≡ ok d
    → d.outcome ≡ admitted_rederived
    → OneMatch lib p c packaged gates found ms d
unfolding decide_match
decide_match-OneMatch lib p c packaged gates found [] d ran admitted =
    absurd (cc (undecided-outcome rejected_candidate _ _ gates d ran admitted))
decide_match-OneMatch lib p c packaged gates found (m ∷ n ∷ ms) d ran admitted =
    absurd (cc (undecided-outcome rejected_candidate _ _ gates d ran admitted))
decide_match-OneMatch lib p c packaged gates found ((number, period) ∷ []) d ran admitted =
    let message : String = "Rederived numeric value is invalid" in
    let (value, converted, last) = >>=-eq-ok (required message (lib.print_decimal number)) _ ran in
    let ids = map (λ ((t, id) : String × String). id) found in
    let same = ok_injective last in
    let (exact, uncontested) =
      rederive_match-admits lib p c packaged gates ids value period
        (ap (λ (x : Decision). x.outcome) same ∙ admitted) in
    record {
      number = number;
      value = value;
      period = period;
      one = refl;
      printed = required-eq-ok message (lib.print_decimal number) converted;
      exact = exact;
      uncontested = uncontested;
      decided = sym same;
    }

-- The gate of temporal validity fails for a year to come.
pub last_gates-future :
    (lib : AdmissionLibrary) (period : String)
    → lib.current_year < lib.year_of period
    → Any (λ g. g ≡ ("TEMPORAL_VALIDITY_PASS", false)) (last_gates lib true false period)
unfolding last_gates
last_gates-future lib period later =
    let fails : leb (lib.year_of period) lib.current_year ≡ false = ground arith in
    there (
      there (
        there (
          there (
            there
              (there (there (here (ap (λ (b : Bool). ("TEMPORAL_VALIDITY_PASS", b)) fails))))))))
