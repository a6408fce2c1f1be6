-- ===== src/Admission/Facts.antt =====
-- `AdmissionFactPolicyMixin._evaluate_candidate` of admission_fact_policy.py.
pub mod OneMatch
pub mod Admitted
pub mod Stated
pub mod Supported
pub mod Declared
use axignal.Common.{
  ℕ, String, Bool, true, false, not, ◌&&◌, ◌||◌, Option, none, some, List, [], ◌∷◌, ◌++◌, leb, mem,
  ◌==◌, ◌⧺◌, if◌then◌else◌, Result, ok, err, ◌>>=◌, ◌>>◌, reject_if, map,
}
use axignal.Common.Dict.{get, put}
use axignal.Common.Json.{Json, text, texts, obj, Fields}
use axignal.Outbox.Payload.{lookup, is_text}
use axignal.Admission.Types.{
  AdmissionError, integrity_error, PackagedEvidence, CandidateFields, PackagedCandidate, Package,
  Source, SourceObject, FragmentRow, EvidenceRow, CandidateRow, Outcome, admitted_rederived,
  rejected_candidate, contested, human_review_required, ObjectValue, Rederived, Decision,
  AdmissionLibrary,
}
use axignal.Proposals.Parser.{canonical_hash}
use axignal.Admission.Number.{search_number}

abbrev pub allowed_source : String
allowed_source = "world-bank-rer41"

abbrev pub allowed_subject : String
allowed_subject = "geo_country_rus"

abbrev pub allowed_predicate : String
allowed_predicate = "real_gdp_growth_annual_pct"

abbrev pub allowed_unit : String
allowed_unit = "percent_annual"

-- The rows by an identifier, as the dictionary that a comprehension builds.
unfoldable pub index_by {ℓ} :
    {A : Type ℓ} → (A → String) → List A → List (String × A) → List (String × A)
unfolding put
index_by key [] d = d
index_by key (x ∷ xs) d = index_by key xs (put (key x) x d)

unfoldable pub values {ℓ} : {A : Type ℓ} → List (String × A) → List A
values [] = []
values ((k, x) ∷ d) = x ∷ values d

unfoldable pub first_gates : Package → CandidateRow → Source → SourceObject → List (String × Bool)
first_gates p c source raw =
    ("HANDOFF_SCHEMA_VALID", true)
    ∷ ("PACKAGE_HASH_VALID", true)
    ∷ ("SOURCE_STILL_ADMITTED", source.admission_state == "ADMITTED")
    ∷ ("SOURCE_KILL_SWITCH_OFF", not source.kill_switch)
    ∷ ("RIGHTS_STILL_VALID", source.commercial_use && source.redistribution)
    ∷ ("RAW_OBJECT_HASH_VALID", raw.content_hash == p.document.content_hash)
    ∷ ("PRODUCER_AUTHORITY_SEPARATED", c.fields.producer_type == "LOCAL_MODEL")
    ∷ ("POLICY_VERSION_PINNED", true)
    ∷ []

-- A decision with nothing rederived; the gates get one more key.
unfoldable pub undecided : Outcome → String → List (String × Bool) → String → Decision
undecided outcome reason gates gate = record {
  outcome = outcome;
  reasons = reason ∷ [];
  gate_results = gates ++ (gate, false) ∷ [];
  rederived = none;
}

unfoldable pub find_packaged : String → List PackagedEvidence → Option PackagedEvidence
find_packaged key [] = none
find_packaged key (e ∷ es) = if e.evidence_key == key then some e else find_packaged key es

unfoldable pub required {ℓ} : {A : Type ℓ} → String → Option A → Result AdmissionError A
required message none = err (integrity_error message)
required message (some x) = ok x

unfoldable pub payload_differs : EvidenceRow → PackagedEvidence → FragmentRow → Bool
unfolding lookup is_text
payload_differs row e f =
    not (is_text f.fragment_id (lookup "fragment_id" row.payload))
    || not (is_text f.content_hash (lookup "quote_hash" row.payload))
    || not (is_text f.text_content (lookup "text" row.payload))
    || not (row.content_hash == e.content_hash)

-- The row of an evidence key, if it is one of the candidate's.
unfoldable pub bound_evidence :
    CandidateRow → Option EvidenceRow → Result AdmissionError EvidenceRow
unfolding mem
bound_evidence c none = err (integrity_error "Candidate evidence binding differs")
bound_evidence c (some row) = do
  reject_if (not (mem row.evidence_id c.evidence_ids))
      (integrity_error "Candidate evidence binding differs")
  ok row

-- One round of the loop over the evidence keys: the text of the fragment, and the row's identifier.
unfoldable pub supporting_text :
    Package
    → CandidateRow
    → Source
    → List (String × FragmentRow)
    → List (String × EvidenceRow)
    → String
    → Result AdmissionError (String × String)
unfolding bound_evidence get required find_packaged payload_differs
supporting_text p c source fragments by_key key = do
  row ← bound_evidence c (get key by_key)
  e ← required "Packaged Evidence Object is absent" (find_packaged key p.evidence)
  f ← required "Evidence fragment is absent" (get e.fragment_id fragments)
  reject_if (not (e.quote_hash == f.content_hash))
      (integrity_error "Evidence quote hash differs from fragment")
  reject_if (payload_differs row e f) (integrity_error "Persistent Evidence Object differs")
  reject_if (not (row.rights_status == source.rights_status))
      (integrity_error "Evidence rights differ from current source")
  ok (f.text_content, row.evidence_id)

unfoldable pub supporting_texts :
    Package
    → CandidateRow
    → Source
    → List (String × FragmentRow)
    → List (String × EvidenceRow)
    → List String
    → Result AdmissionError (List (String × String))
unfolding supporting_text
supporting_texts p c source fragments by_key [] = ok []
supporting_texts p c source fragments by_key (key ∷ keys) = do
  t ← supporting_text p c source fragments by_key key
  ts ← supporting_texts p c source fragments by_key keys
  ok (t ∷ ts)

-- An adverse candidate of the package, other than this one, on the same subject and predicate.
unfoldable pub is_adverse : String → PackagedCandidate → Bool
is_adverse own item =
    not (item.persistent_candidate_claim_id == own)
    && item.fields.relationship == "ADVERSE"
    && item.fields.subject_id == allowed_subject
    && item.fields.predicate == allowed_predicate

unfoldable pub adverse_same_semantics : String → List PackagedCandidate → Bool
unfolding is_adverse
adverse_same_semantics own [] = false
adverse_same_semantics own (item ∷ items) = is_adverse own item || adverse_same_semantics own items

unfoldable pub rederive : String → String → List String → Rederived
rederive value period evidence_ids = record {
  subject_id = allowed_subject;
  predicate = allowed_predicate;
  object_value = record { value = value; unit = allowed_unit; period = period };
  observed_at = period ⧺ "-12-31T23:59:59+00:00";
  evidence_ids = evidence_ids;
}

unfoldable pub exact_match : Fields → String → String → Bool
unfolding lookup is_text
exact_match proposed value period =
    is_text value (lookup "value" proposed)
    && is_text allowed_unit (lookup "unit" proposed)
    && is_text period (lookup "period" proposed)

unfoldable pub object_json : ObjectValue → Json
object_json v =
    obj (("value", text v.value) ∷ ("unit", text v.unit) ∷ ("period", text v.period) ∷ [])

-- The rederived fact, and the same without its evidence.
unfoldable pub rederived_json : Rederived → Json
unfolding object_json
rederived_json r = obj (
    ("subject_id", text r.subject_id)
    ∷ ("predicate", text r.predicate)
    ∷ ("object_value", object_json r.object_value)
    ∷ ("observed_at", text r.observed_at)
    ∷ ("evidence_ids", texts r.evidence_ids)
    ∷ [])

unfoldable pub fact_json : Rederived → Json
unfolding object_json
fact_json r = obj (
    ("subject_id", text r.subject_id)
    ∷ ("predicate", text r.predicate)
    ∷ ("object_value", object_json r.object_value)
    ∷ ("observed_at", text r.observed_at)
    ∷ [])

module _ (lib : AdmissionLibrary) where
  -- `[match for text in texts if (match := NUMBER_PATTERN.search(text))]`
  unfoldable pub matches : List (String × String) → List (String × String)
  unfolding search_number
  matches [] = []
  matches ((t, id) ∷ ts) =
      let rest = matches ts in elim (search_number lib t) [ none ↦ rest | some m ↦ m ∷ rest ]

  unfoldable pub last_gates : Bool → Bool → String → List (String × Bool)
  last_gates exact adverse period =
      ("EVIDENCE_BINDING_VALID", true)
      ∷ ("SUBJECT_RESOLVED", true)
      ∷ ("PREDICATE_ALLOWED", true)
      ∷ ("VALUE_REDERIVED", true)
      ∷ ("UNIT_REDERIVED", true)
      ∷ ("PERIOD_REDERIVED", true)
      ∷ ("VALUE_UNIT_PERIOD_EXACT_MATCH", exact)
      ∷ ("TEMPORAL_VALIDITY_PASS", leb (lib.year_of period) lib.current_year)
      ∷ ("SCOPE_VALIDITY_PASS", true)
      ∷ ("CONTRADICTION_PRESSURE_ACCEPTABLE", not adverse)
      ∷ []

  unfoldable pub compared : Bool → Bool → List (String × Bool) → Rederived → Decision
  unfolding canonical_hash rederived_json fact_json
  compared exact adverse gates r =
      if not exact
      then record {
        outcome = rejected_candidate;
        reasons = "proposed_value_unit_or_period_mismatch" ∷ [];
        gate_results = gates;
        rederived = some (r, canonical_hash lib.proposals (rederived_json r));
      }
      else if adverse
      then record {
        outcome = contested;
        reasons = "adverse_evidence_targets_same_semantics" ∷ [];
        gate_results = gates;
        rederived = some (r, canonical_hash lib.proposals (rederived_json r));
      }
      else record {
        outcome = admitted_rederived;
        reasons = "all_deterministic_gates_passed" ∷ [];
        gate_results = gates;
        rederived = some (r, canonical_hash lib.proposals (fact_json r));
      }

  -- The comparison with the one match that the evidence has.
  unfoldable pub rederive_match :
      Package
      → CandidateRow
      → PackagedCandidate
      → List (String × Bool)
      → List String
      → String
      → String
      → Decision
  unfolding rederive exact_match adverse_same_semantics last_gates compared
  rederive_match p c packaged gates evidence_ids value period =
      let exact = exact_match c.fields.object_value value period in
      let adverse =
        adverse_same_semantics packaged.persistent_candidate_claim_id p.candidate_claims in
      compared exact adverse (gates ++ last_gates exact adverse period)
        (rederive value period evidence_ids)

  unfoldable pub decide_match :
      Package
      → CandidateRow
      → PackagedCandidate
      → List (String × Bool)
      → List (String × String)
      → List (String × String)
      → Result AdmissionError Decision
  unfolding undecided required rederive_match
  decide_match p c packaged gates ts ((number, period) ∷ []) = do
    value ← required "Rederived numeric value is invalid" (lib.print_decimal number)
    ok (rederive_match p c packaged gates (map (λ (t, id). id) ts) value period)
  decide_match p c packaged gates ts _ = ok (
      undecided rejected_candidate "deterministic_value_not_uniquely_rederived" gates
        "VALUE_REDERIVED")

  -- The candidate is a fact of the profile: its evidence, and what it rederives.
  unfoldable pub evaluate_fact :
      Package
      → CandidateRow
      → PackagedCandidate
      → Source
      → List (String × Bool)
      → List (String × FragmentRow)
      → List (String × EvidenceRow)
      → Result AdmissionError Decision
  unfolding index_by values supporting_texts matches decide_match
  evaluate_fact p c packaged source gates fragments evidence = do
    ts ←
        supporting_texts p c source fragments
          (index_by (λ (e : EvidenceRow). e.evidence_key) (values evidence) [])
          packaged.evidence_keys
    decide_match p c packaged gates ts (matches ts)

  -- `_evaluate_candidate`
  unfoldable pub evaluate_candidate :
      Package
      → CandidateRow
      → PackagedCandidate
      → Source
      → SourceObject
      → List (String × FragmentRow)
      → List (String × EvidenceRow)
      → Result AdmissionError Decision
  unfolding first_gates undecided evaluate_fact
  evaluate_candidate p c packaged source raw fragments evidence =
      let gates = first_gates p c source raw in
      if not (c.fields.kind == "FACT")
      then ok (
          undecided human_review_required "candidate_class_not_auto_admissible" gates
            "PREDICATE_ALLOWED")
      else if not (c.fields.subject_id == allowed_subject)
          || not (c.fields.predicate == allowed_predicate)
      then ok (
          undecided human_review_required "candidate_outside_first_admission_profile" gates
            "PREDICATE_ALLOWED")
      else evaluate_fact p c packaged source gates fragments evidence
