-- ===== src/Tests/AdmissionRuns.antt =====
-- A run of the admission runtime on one handoff, and the theorems applied to it.
use axignal.Common.{
  ◌⊎◌, err, ap, ◌≡◌, refl, ℕ, ◌<◌, ◌↔◌, String, true, false, Option, none, some, List, [], ◌∷◌, Any,
  ◌==◌, ◌⧺◌, if◌then◌else◌, Result, ok, err, arith,
}
use axignal.Common.Json.{Json, null, boolean, text, fields}
use axignal.Proposals.Types.{InstitutionalDocument, DocumentFragment}
use axignal.Proposals.Parser.{characters, fragment_at}
use axignal.Admission.Types.{
  ReviewJob, PackagedEvidence, CandidateFields, PackagedCandidate, Package, packaged,
  uncaught_error, pending, Handoff, Run, Source, SourceObject, FragmentRow, EvidenceRow,
  CandidateRow, admitted_rederived, Decision, AdmissionRunResult, Tables, AdmissionLibrary,
}
use axignal.Admission.Facts.{
  supporting_texts, index_by, values, matches, exact_match, adverse_same_semantics,
}
use axignal.Admission.Facts.Declared.{IsAdmitted, evaluate_candidate_iff}
use axignal.Admission.Facts.Admitted.{Admissible, evaluated, evaluate_candidate-future}
use axignal.Admission.Handoff.{required_keys, load_handoff}
use axignal.Admission.Flow.{decide}
use axignal.Admission.Flow.Grown.{ledger}
use axignal.Admission.Ledger.Append.{Grows}
use axignal.Admission.Runtime.{process}
use axignal.Admission.Runtime.Grows.{process-Grows}
use axignal.Admission.Runtime.Replayed.{decide-replays}
use axignal.Admission.Ledger.Replay.{IsReplayOf}
use mathlib.Core.List.Perm
use axignal.Admission.Ledger.{of_handoff}
use axignal.Admission.Runtime.Settled.{Settled, process-Settled}
use axignal.Tests.Samples.{print}
use axignal.Tests.ProposalRuns.{sample_library, document_with}

-- The year of today is an argument.
abbrev admission_library : ℕ → AdmissionLibrary
admission_library year = record {
  proposals = sample_library;
  package_json = λ p. null;
  document_json = λ d. text d.content;
  same_json = λ a b. print a == print b;
  same_float = λ a b. a == b;
  print_decimal = λ s. some s;
  year_of = λ s. if s == "2024" then 2024 else 0;
  current_year = year;
  is_decimal = λ c. true;
  model_validate = λ d. true;
  parse_uuid = λ s. some s;
  by_created_at = λ rows. rows;
}

abbrev now : AdmissionLibrary
now = admission_library 2026

abbrev report_text : String
report_text = "In Russia real GDP growth reached 4.3 percent in 2024."

abbrev report : InstitutionalDocument
report = record (document_with report_text) {
  source_id = "world-bank-rer41";
  content_hash = "sha256:" ⧺ report_text ⧺ ",}";
}

abbrev fragment : DocumentFragment
fragment = fragment_at sample_library report 0 (characters report_text) 0

abbrev evidence_row : EvidenceRow
evidence_row = record {
  evidence_id = "e-1";
  evidence_key = "key-1";
  source_id = "world-bank-rer41";
  content_hash = fragment.content_hash;
  rights_status = "COMMERCIAL_REUSE_WITH_ATTRIBUTION";
  payload = fields (
      ("fragment_id", text fragment.fragment_id)
      ∷ ("quote_hash", text fragment.content_hash)
      ∷ ("text", text report_text)
      ∷ []);
}

abbrev packaged_evidence : PackagedEvidence
packaged_evidence = record {
  persistent_evidence_id = "e-1";
  evidence_key = "key-1";
  fragment_id = fragment.fragment_id;
  source_id = "world-bank-rer41";
  text = report_text;
  content_hash = fragment.content_hash;
  quote_hash = fragment.content_hash;
  rights_status = "COMMERCIAL_REUSE_WITH_ATTRIBUTION";
  license_id = "CC-BY-4.0";
}

abbrev growth_fields : CandidateFields
growth_fields = record {
  fingerprint = "f-1";
  opportunity_id = "opp-1";
  subject_id = "geo_country_rus";
  predicate = "real_gdp_growth_annual_pct";
  object_value =
      fields
        (("value", text "4.3") ∷ ("unit", text "percent_annual") ∷ ("period", text "2024") ∷ []);
  statement = "Growth was 4.3 percent.";
  kind = "FACT";
  relationship = "SUPPORTING";
  producer_type = "LOCAL_MODEL";
  producer_id = "p";
  model_version = "m";
  method_version = "m";
  prompt_version = "p";
  assumptions = [];
  unknowns = [];
  extraction_confidence = "0.9";
}

abbrev packaged_growth : PackagedCandidate
packaged_growth = record {
  persistent_candidate_claim_id = "c-1";
  candidate_claim_id = "cand_1";
  fields = growth_fields;
  evidence_keys = "key-1" ∷ [];
  state = "ADMISSION_QUEUED";
  canonical_claim_id = none;
}

abbrev growth_row : CandidateRow
growth_row = record {
  candidate_claim_id = "c-1";
  fields = growth_fields;
  evidence_ids = "e-1" ∷ [];
  state = "ADMISSION_QUEUED";
  canonical_claim_id = none;
  rejection_reasons = [];
}

abbrev sample_package : Package
sample_package = record {
  keys = required_keys;
  schema_version = 1;
  tenant_id = "t-1";
  research_run_id = "r-1";
  pipeline_version = "local-document-proposal-pipeline@0.1.0";
  document = report;
  source = fields (
      ("source_id", text "world-bank-rer41")
      ∷ ("admission_state", text "ADMITTED")
      ∷ ("rights_status", text "COMMERCIAL_REUSE_WITH_ATTRIBUTION")
      ∷ ("license_id", text "CC-BY-4.0")
      ∷ ("kill_switch", boolean false)
      ∷ []);
  fragments = fragment ∷ [];
  evidence = packaged_evidence ∷ [];
  candidate_claims = packaged_growth ∷ [];
  admission_boundary_results =
      record { candidate_claim_id = "cand_1"; admitted = false; canonical_claim_id = none } ∷ [];
  human_review_state = "NOT_REQUESTED";
  canonical_claim_ids = [];
}

abbrev handoff : Handoff
handoff = record {
  admission_handoff_id = "h-1";
  tenant_id = "t-1";
  research_run_id = "r-1";
  contents = packaged sample_package;
  package_hash = "sha256:null";
  candidate_claim_ids = "c-1" ∷ [];
  state = pending;
}

abbrev source : Source
source = record {
  source_id = "world-bank-rer41";
  admission_state = "ADMITTED";
  rights_status = "COMMERCIAL_REUSE_WITH_ATTRIBUTION";
  license_id = "CC-BY-4.0";
  kill_switch = false;
  commercial_use = true;
  redistribution = true;
}

abbrev source_object : SourceObject
source_object = record {
  source_object_id = "o-1";
  source_id = "world-bank-rer41";
  content_hash = report.content_hash;
  raw_payload = text report_text;
  rights_snapshot = fields (
      ("rights_status", text "COMMERCIAL_REUSE_WITH_ATTRIBUTION")
      ∷ ("license_id", text "CC-BY-4.0")
      ∷ []);
}

abbrev fragment_row : FragmentRow
fragment_row = record {
  source_object_id = "o-1";
  fragment_id = fragment.fragment_id;
  document_id = report.document_id;
  ordinal = 0;
  start_char = 0;
  end_char = fragment.end_char;
  text_content = report_text;
  content_hash = fragment.content_hash;
  parser_version = "institutional-text-parser@0.1.0";
  security_scan_state = "CLEAR";
}

abbrev run : Run
run = record {
  research_run_id = "r-1";
  tenant_id = "t-1";
  job_kind = "DOCUMENT_PROPOSAL";
  admission_handoff_id = some "h-1";
  state = "ADMISSION_QUEUED";
  canonical_claim_ids = [];
  admission_batch_id = none;
  dossier_id = none;
  actual_usage = [];
  error_code = none;
  error_detail = none;
}

abbrev tables : Tables
tables = record {
  handoffs = handoff ∷ [];
  runs = run ∷ [];
  sources = source ∷ [];
  source_objects = source_object ∷ [];
  fragments = fragment_row ∷ [];
  evidence = evidence_row ∷ [];
  candidates = growth_row ∷ [];
  batches = [];
  canonical_claims = [];
  state_events = [];
  decisions = [];
  failures = [];
  dossiers = [];
}

abbrev job : ReviewJob
job = record {
  admission_handoff_id = "h-1";
  research_run_id = "r-1";
  tenant_id = "t-1";
  expected_package_hash = "sha256:null";
  policy_version = "document-observed-fact@0.1.0";
}

abbrev fresh : ℕ → String
fresh n = "claim-1"

abbrev first_result : AdmissionRunResult
first_result = record {
  admission_batch_id = some "b-1";
  canonical_claim_ids = "claim-1" ∷ [];
  outcomes = admitted_rederived ∷ [];
  idempotent_replay = false;
}

growth_is_admitted : (decide now "b-1" fresh job tables).0 ≡ ok first_result
unfolding decide fields axignal.Common.Json.obj axignal.Common.first_chars
growth_is_admitted = refl

unfoldable tables_after : Tables
tables_after = (decide now "b-1" fresh job tables).1

abbrev fragments : List (String × FragmentRow)
fragments = (fragment.fragment_id, fragment_row) ∷ []

abbrev evidence : List (String × EvidenceRow)
evidence = ("e-1", evidence_row) ∷ []

-- The runtime of a year before the one that the report is about.
abbrev early : AdmissionLibrary
early = admission_library 2020

admissible :
    Admissible early sample_package growth_row packaged_growth source source_object fragments
      evidence
unfolding supporting_texts index_by values matches exact_match adverse_same_semantics fragment_at
    axignal.Common.first_chars axignal.Common.Json.obj
admissible = record {
  found = (report_text, "e-1") ∷ [];
  number = "4.3";
  value = "4.3";
  period = "2024";
  is_fact = refl;
  subject = refl;
  predicate = refl;
  supported = refl;
  one_match = refl;
  printed = refl;
  exact = refl;
  uncontested = refl;
}

evaluate_candidate_iff_example :
    ((d : Decision) × (evaluated now sample_package growth_row packaged_growth source source_object
          fragments evidence
        ≡ ok d)
      × (d.outcome ≡ admitted_rederived))
    ↔ IsAdmitted now sample_package growth_row packaged_growth source source_object fragments
        evidence
evaluate_candidate_iff_example =
    evaluate_candidate_iff now sample_package growth_row packaged_growth source source_object
      fragments evidence

year_to_come : 2020 < 2024
year_to_come = omega arith

evaluate_candidate-future_example :
    (d : Decision) × (evaluated early sample_package growth_row packaged_growth source source_object
        fragments evidence
      ≡ ok d)
    × (d.outcome ≡ admitted_rederived)
    × (d.reasons ≡ "all_deterministic_gates_passed" ∷ [])
    × Any (λ g. g ≡ ("TEMPORAL_VALIDITY_PASS", false)) d.gate_results
unfolding admissible
evaluate_candidate-future_example =
    evaluate_candidate-future early sample_package growth_row packaged_growth source source_object
      fragments evidence admissible year_to_come

process-Grows_example : Grows now (ledger tables) (ledger (process now "b-1" fresh job "" tables))
process-Grows_example = process-Grows now "b-1" fresh job "" tables

handoff_found : load_handoff job tables.handoffs ≡ ok handoff
unfolding load_handoff
handoff_found = refl

process-Settled_example :
    Settled job handoff (process now "b-1" fresh job "" tables)
    ⊎ ((m : String) × (decide now "b-1" fresh job tables ≡ (err (uncaught_error m), tables))
        × (process now "b-1" fresh job "" tables ≡ tables))
process-Settled_example = process-Settled now "b-1" fresh job "" tables handoff handoff_found refl

growth_is_decided : decide now "b-1" fresh job tables ≡ (ok first_result, tables_after)
unfolding tables_after
growth_is_decided = ap (λ r. (r, tables_after)) growth_is_admitted

decide-replays_example :
    (again : AdmissionRunResult) × (decide now "b-2" fresh job tables_after
      ≡ (ok again, tables_after))
    × IsReplayOf first_result again
unfolding of_handoff
decide-replays_example =
    decide-replays now "b-1" "b-2" fresh fresh job handoff tables first_result tables_after
      admitted_rederived [] handoff_found refl refl (λ ds. Perm.refl ds) refl growth_is_decided
