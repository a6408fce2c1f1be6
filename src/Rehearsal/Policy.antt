-- ===== src/Rehearsal/Policy.antt =====
-- `ProcurementAdmissionRehearsal`: the policy on one candidate, and `decide` on a batch. The parser
-- is the argument `parser`: it gives the hash of the document and the claims read from it.
pub mod Gates
pub mod Replay
use axignal.Common.{
  ◌≡◌, String, Bool, true, false, not, ◌&&◌, ◌||◌, Option, none, some, List, [], ◌∷◌, map, ◌==◌,
  mem, any_occurs, text_le, if◌then◌else◌, Result, ok, err,
}
use axignal.Common.Sort.{sort_by}
use axignal.Common.Json.{boolean, text, texts, obj, Library, sha256_of}
use axignal.Rehearsal.Claim.{CandidateClaim, fingerprint}
use axignal.Rehearsal.Context.{AdmissionContext, product_admission_ready, sandbox_ready}
use axignal.Rehearsal.Decision.{
  Outcome, blocked_source_not_product_admitted, rejected_prohibited,
  quarantined_unsupported_profile, human_review_required_proposal_only,
  human_review_required_outside_profile, rejected_rederivation_mismatch, admitted_rederived,
  sandbox_admissible_rederived, AdmissionDecision, RehearsalResult,
}
use axignal.Rehearsal.Store.{AdmissionStore, Failpoint, existing, commit}

abbrev pub policy_version : String
policy_version = "ted-procurement-observed@0.1.0"

abbrev pub parser_profile_pin : String
parser_profile_pin = "ted-eforms-cn16@0.1.0"

unfoldable pub auto_admissible_predicates : List String
auto_admissible_predicates =
    "procurement_notice_type" ∷ "procurement_procedure_type" ∷ "procurement_buyer_official_name"
    ∷ "procurement_buyer_identifier" ∷ "procurement_contract_nature" ∷ "procurement_cpv_code"
    ∷ "procurement_place_of_performance_nuts" ∷ "procurement_estimated_value"
    ∷ "procurement_lot_identifier" ∷ "procurement_submission_deadline"
    ∷ "procurement_eu_funding_indicator" ∷ []

unfoldable pub personal_predicate_tokens : List String
personal_predicate_tokens =
    "contact" ∷ "email" ∷ "phone" ∷ "telephone" ∷ "person" ∷ "firstname" ∷ "familyname" ∷ []

unfoldable pub prohibited_predicates : List String
prohibited_predicates =
    "supplier_probability_of_winning" ∷ "supplier_legal_eligibility"
    ∷ "supplier_personal_suitability" ∷ "expected_contract_profitability" ∷ "guaranteed_opportunity"
    ∷ "bid_submission_or_representation" ∷ "personalised_investment_recommendation"
    ∷ "natural_person_contact_as_opportunity_signal" ∷ []

pub record CandidateEnvelope : Type 0 where
  pub candidate : CandidateClaim
  pub producer_type : String
  pub parser_profile : String

-- What `decide` reads of the parsed document.
pub record ParsedDocument : Type 0 where
  pub raw_content_hash : String
  pub candidate_claims : List CandidateClaim

-- What `decide` may raise: what the parser raised, or the store's failpoint.
pub data DecideError : Type 0 where
  parse_error : String → DecideError
  failpoint : Failpoint → DecideError

unfoldable pub lift :
    Result Failpoint RehearsalResult × AdmissionStore
    → Result DecideError RehearsalResult × AdmissionStore
lift (ok r, s) = (ok r, s)
lift (err e, s) = (err (failpoint e), s)

abbrev pub is_prohibited : CandidateClaim → Bool
is_prohibited c = mem c.predicate prohibited_predicates

abbrev pub is_auto_admissible : CandidateClaim → Bool
is_auto_admissible c = mem c.predicate auto_admissible_predicates

-- A result that no store holds.
abbrev pub unstored : List AdmissionDecision → RehearsalResult
unstored decisions = record {
  batch_id = none;
  decisions = decisions;
  idempotent_replay = false;
  sandbox_admissible_count = 0;
  canonical_claim_writes = 0;
  model_calls = 0;
  reviewer_canonical_writes = 0;
}

module _ (lib : Library) where
  unfoldable pub is_personal : CandidateClaim → Bool
  unfolding any_occurs personal_predicate_tokens
  is_personal c = any_occurs personal_predicate_tokens (lib.casefold c.predicate)

  -- The eight gates of `_evaluate_candidate`.
  unfoldable pub gate_results :
      CandidateEnvelope → List String → AdmissionContext → List (String × Bool)
  gate_results e rederived context =
      ("SOURCE_PRODUCT_ADMITTED", product_admission_ready context)
      ∷ ("SANDBOX_REHEARSAL_AUTHORISED", sandbox_ready context)
      ∷ ("PARSER_PROFILE_PINNED", e.parser_profile == parser_profile_pin)
      ∷ ("PRODUCER_AUTHORITY_SEPARATED", e.producer_type == "DETERMINISTIC_XML_PARSER")
      ∷ ("PERSONAL_DATA_EXCLUDED", not (is_personal e.candidate))
      ∷ ("PREDICATE_NOT_PROHIBITED", not (is_prohibited e.candidate))
      ∷ ("PREDICATE_AUTO_ADMISSIBLE", is_auto_admissible e.candidate)
      ∷ ("REEDERIVATION_EXACT_MATCH", mem (fingerprint lib e.candidate) rederived)
      ∷ []

  abbrev decided :
      CandidateEnvelope
      → List String
      → AdmissionContext
      → Outcome
      → String
      → Option String
      → AdmissionDecision
  decided e rederived context outcome reason rederived_fingerprint = record {
    candidate_fingerprint = fingerprint lib e.candidate;
    predicate = e.candidate.predicate;
    outcome = outcome;
    reasons = reason ∷ [];
    gate_results = gate_results e rederived context;
    rederived_fingerprint = rederived_fingerprint;
  }

  unfoldable pub evaluate_candidate :
      CandidateEnvelope → List String → AdmissionContext → AdmissionDecision
  evaluate_candidate e rederived context =
      let decide_as = decided e rederived context in
      if is_personal e.candidate || is_prohibited e.candidate
      then decide_as rejected_prohibited "personal_or_prohibited_procurement_predicate" none
      else if not (e.parser_profile == parser_profile_pin)
      then decide_as quarantined_unsupported_profile "parser_profile_mismatch" none
      else if not (e.producer_type == "DETERMINISTIC_XML_PARSER")
      then decide_as human_review_required_proposal_only "producer_has_no_auto_admission_authority"
          none
      else if not (is_auto_admissible e.candidate)
      then decide_as human_review_required_outside_profile
          "predicate_outside_auto_admission_profile" none
      else if not (mem (fingerprint lib e.candidate) rederived)
      then decide_as rejected_rederivation_mismatch
          "candidate_does_not_match_independent_xml_rederivation" none
      else decide_as
          (if product_admission_ready context
            then admitted_rederived
            else sandbox_admissible_rederived)
          "all_bounded_deterministic_gates_passed" (some (fingerprint lib e.candidate))

  unfoldable pub idempotency_key : String → List CandidateEnvelope → AdmissionContext → String
  unfolding sort_by
  idempotency_key raw_content_hash candidates context = sha256_of lib (
      lib.dumps (
        obj (
          ("policy_version", text policy_version)
          ∷ ("parser_profile", text parser_profile_pin)
          ∷ ("raw_content_hash", text raw_content_hash)
          ∷ (
            "candidate_fingerprints",
            texts (sort_by text_le (map (λ e. fingerprint lib e.candidate) candidates)),
          )
          ∷ ("source_state", text context.source_state)
          ∷ ("policy_state", text context.policy_state)
          ∷ ("sandbox_authorised", boolean context.sandbox_authorised)
          ∷ [])))

  -- The decision on one candidate while neither gate of the context is open.
  unfoldable pub blocked_decision : AdmissionContext → CandidateEnvelope → AdmissionDecision
  blocked_decision context e = record {
    candidate_fingerprint = fingerprint lib e.candidate;
    predicate = e.candidate.predicate;
    outcome = blocked_source_not_product_admitted;
    reasons = "source_or_policy_gate_not_admitted" ∷ [];
    gate_results =
        ("SOURCE_PRODUCT_ADMITTED", context.source_state == "PRODUCT_ADMITTED")
        ∷ ("POLICY_ENABLED", context.policy_state == "ENABLED")
        ∷ ("RIGHTS_VALID", context.rights_valid)
        ∷ ("SOURCE_KILL_SWITCH_OFF", not context.kill_switch_enabled)
        ∷ ("SANDBOX_AUTHORISED", sandbox_ready context)
        ∷ [];
    rederived_fingerprint = none;
  }

  -- `decide` from the point where the document is parsed.
  unfoldable pub decide_parsed :
      ParsedDocument
      → List CandidateEnvelope
      → AdmissionContext
      → Bool
      → String
      → AdmissionStore
      → Result Failpoint RehearsalResult × AdmissionStore
  decide_parsed parsed candidates context fail batch s =
      let rederived = map (fingerprint lib) parsed.candidate_claims in
      let key = idempotency_key parsed.raw_content_hash candidates context in
      elim (existing key s) [
        | some r ↦ (ok r, s)
        | none ↦
            if not (product_admission_ready context) && not (sandbox_ready context)
            then (ok (unstored (map (blocked_decision context) candidates)), s)
            else commit lib key (map (λ e. evaluate_candidate e rederived context) candidates) fail
                batch s
      ]

  unfoldable pub decide :
      (String → Result String ParsedDocument)
      → String
      → List CandidateEnvelope
      → AdmissionContext
      → Bool
      → String
      → AdmissionStore
      → Result DecideError RehearsalResult × AdmissionStore
  unfolding lift
  decide parser raw_xml candidates context fail batch s = elim (parser raw_xml) [
    | err e ↦ (err (parse_error e), s)
    | ok parsed ↦ lift (decide_parsed parsed candidates context fail batch s)
  ]
