-- ===== src/Admission/Facts/Stated.antt =====
-- What the tests of `_evaluate_candidate` on a proposal, on adverse candidates and on texts state.
use mathlib.Core.List.{head-eq_of_cons-eq, tail-eq_of_cons-eq}
use axignal.Common.{
  String, true, false, Option, none, some, List, [], ◌∷◌, ◌≡◌, refl, ap, ◌∙◌, ◌↔◌, Any, here, there,
  ◌==◌, Bool-cases, Option-cases, inl, inr, eq_iff, arith, and-left, and-right,
}
use axignal.Common.Json.{Json, boolean, number, text, Fields}
use axignal.Outbox.Payload.{lookup, is_text}
use axignal.Admission.Types.{PackagedCandidate, AdmissionLibrary}
use axignal.Admission.Number.{search_number}
use axignal.Admission.Facts.{is_adverse, adverse_same_semantics, exact_match, matches}

-- The JSON object has the text under the key.
abbrev pub Holds : Fields → String → String → Type 0
Holds fields key value = lookup key fields ≡ some (text value)

pub is_text_sound : (s : String) (o : Option Json) → is_text s o ≡ true → o ≡ some (text s)
unfolding is_text
is_text_sound s none h = cc h
is_text_sound s (some Json.null) h = cc h
is_text_sound s (some (boolean b)) h = cc h
is_text_sound s (some (number n)) h = cc h
is_text_sound s (some (text t)) h = ap (λ u. some (text u)) ((eq_iff t s).0 h)
is_text_sound s (some (Json.array items)) h = cc h
is_text_sound s (some (Json.object fields)) h = cc h

pub is_text_complete : (s : String) (o : Option Json) → o ≡ some (text s) → is_text s o ≡ true
unfolding is_text
is_text_complete s o e = rw e ((eq_iff s s).1 refl)

pub exact_match_iff :
    (proposed : Fields) (value period : String)
    → (exact_match proposed value period ≡ true) ↔ (
        Holds proposed "value" value
        × Holds proposed "unit" "percent_annual"
        × Holds proposed "period" period)
unfolding exact_match
exact_match_iff proposed value period = (
  λ h. (
    is_text_sound value (lookup "value" proposed) (and-left _ _ (and-left _ _ h)),
    is_text_sound "percent_annual" (lookup "unit" proposed) (and-right _ _ (and-left _ _ h)),
    is_text_sound period (lookup "period" proposed) (and-right _ _ h),
  ),
  λ (v, u, d).
      let v_is = is_text_complete value (lookup "value" proposed) v in
      let u_is = is_text_complete "percent_annual" (lookup "unit" proposed) u in
      let d_is = is_text_complete period (lookup "period" proposed) d in rw (v_is, u_is, d_is) refl,
)

-- Another candidate that is adverse on the subject and predicate of the profile.
pub record IsAdverse (own : String) (item : PackagedCandidate) : Type 0 where
  pub other : ¬ (item.persistent_candidate_claim_id ≡ own)
  pub relationship_eq : item.fields.relationship ≡ "ADVERSE"
  pub subject_eq : item.fields.subject_id ≡ "geo_country_rus"
  pub predicate_eq : item.fields.predicate ≡ "real_gdp_growth_annual_pct"

is_adverse_sound :
    (own : String) (item : PackagedCandidate) → is_adverse own item ≡ true → IsAdverse own item
unfolding is_adverse
is_adverse_sound own item h = record {
  other = λ e. ground (arith, h, (eq_iff item.persistent_candidate_claim_id own).1 e);
  relationship_eq = (eq_iff item.fields.relationship "ADVERSE").0 (ground (arith, h));
  subject_eq = (eq_iff item.fields.subject_id "geo_country_rus").0 (ground (arith, h));
  predicate_eq = (eq_iff item.fields.predicate "real_gdp_growth_annual_pct").0 (ground (arith, h));
}

is_adverse_complete :
    (own : String) (item : PackagedCandidate) → IsAdverse own item → is_adverse own item ≡ true
unfolding is_adverse
is_adverse_complete own item a =
    let r = (eq_iff item.fields.relationship "ADVERSE").1 a.relationship_eq in
    let u = (eq_iff item.fields.subject_id "geo_country_rus").1 a.subject_eq in
    let q = (eq_iff item.fields.predicate "real_gdp_growth_annual_pct").1 a.predicate_eq in
    elim (Bool-cases (item.persistent_candidate_claim_id == own)) [
      | inl e ↦ absurd (a.other ((eq_iff item.persistent_candidate_claim_id own).0 e))
      | inr e ↦ rw (e, r, u, q) refl
    ]

adverse_same_semantics_sound :
    (own : String) (items : List PackagedCandidate)
    → adverse_same_semantics own items ≡ true
    → Any (IsAdverse own) items
unfolding adverse_same_semantics
adverse_same_semantics_sound own [] h = cc h
adverse_same_semantics_sound own (item ∷ items) h = elim (Bool-cases (is_adverse own item)) [
  | inl e ↦ here (is_adverse_sound own item e)
  | inr e ↦ there (adverse_same_semantics_sound own items (rw e at h))
]

adverse_same_semantics_complete :
    (own : String) (items : List PackagedCandidate)
    → Any (IsAdverse own) items
    → adverse_same_semantics own items ≡ true
unfolding adverse_same_semantics
adverse_same_semantics_complete own [] a = elim a [ ]
adverse_same_semantics_complete own (item ∷ items) (here a) =
    rw (is_adverse_complete own item a) refl
adverse_same_semantics_complete own (item ∷ items) (there a) =
    ground (arith, adverse_same_semantics_complete own items a)

pub uncontested_iff :
    (own : String) (items : List PackagedCandidate)
    → (adverse_same_semantics own items ≡ false) ↔ (¬ Any (IsAdverse own) items)
uncontested_iff own items = (
  λ h a. cc (h, adverse_same_semantics_complete own items a),
  λ none_adverse. elim (Bool-cases (adverse_same_semantics own items)) [
    | inl e ↦ absurd (none_adverse (adverse_same_semantics_sound own items e))
    | inr e ↦ e
  ],
)

module _ (lib : AdmissionLibrary) where
  -- No text states a number.
  abbrev pub Silent : List (String × String) → Type 0
  Silent [] = Unit {0}
  Silent ((t, id) ∷ ts) = (search_number lib t ≡ none) × Silent ts

  -- Exactly one text states a number with its period.
  pub data StatesOnce (m : String × String) : List (String × String) → Type 0 where
    stated :
        {t id : String} {ts : List (String × String)}
        → search_number lib t ≡ some m
        → Silent ts
        → StatesOnce m ((t, id) ∷ ts)
    passed :
        {t id : String} {ts : List (String × String)}
        → search_number lib t ≡ none
        → StatesOnce m ts
        → StatesOnce m ((t, id) ∷ ts)

  matches-Silent : (ts : List (String × String)) → matches lib ts ≡ [] → Silent ts
  unfolding matches
  matches-Silent [] h = tt
  matches-Silent ((t, id) ∷ ts) h = elim (Option-cases (search_number lib t)) [
    | inl e ↦ (e, matches-Silent ts (rw (e, matches) at h))
    | inr (m, e) ↦ absurd (cc (rw (e, matches) at h))
  ]

  Silent-matches : (ts : List (String × String)) → Silent ts → matches lib ts ≡ []
  unfolding matches
  Silent-matches [] s = refl
  Silent-matches ((t, id) ∷ ts) (e, s) = rw (e, matches) (Silent-matches ts s)

  pub matches-StatesOnce :
      (m : String × String) (ts : List (String × String))
      → matches lib ts ≡ m ∷ []
      → StatesOnce m ts
  unfolding matches
  matches-StatesOnce m [] h = absurd (cc h)
  matches-StatesOnce m ((t, id) ∷ ts) h = elim (Option-cases (search_number lib t)) [
    | inl e ↦ passed e (matches-StatesOnce m ts (rw (e, matches) at h))
    | inr (n, e) ↦
        let opened : n ∷ matches lib ts ≡ m ∷ [] = rw (e, matches) at h in
        stated (e ∙ ap some (head-eq_of_cons-eq opened))
          (matches-Silent ts (tail-eq_of_cons-eq opened))
  ]

  pub StatesOnce-matches :
      (m : String × String) (ts : List (String × String))
      → StatesOnce m ts
      → matches lib ts ≡ m ∷ []
  unfolding matches
  StatesOnce-matches m _ (stated {ts = ts} e s) =
      rw (e, matches) (ap (λ ms. m ∷ ms) (Silent-matches ts s))
  StatesOnce-matches m _ (passed {ts = ts} e s) = rw (e, matches) (StatesOnce-matches m ts s)
