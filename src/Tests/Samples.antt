-- ===== src/Tests/Samples.antt =====
-- A library of the functions that the program calls, a batch of candidates and three notices.
use axignal.Common.{
  String, true, Option, none, some, List, [], ◌∷◌, ◌⧺◌, ◌==◌, if◌then◌else◌, Result, ok, err,
}
use axignal.Common.Json.{
  Json, Items, Fields, null, boolean, number, text, array, object, nil, cons, end, field, Library,
}
use axignal.Rehearsal.Claim.{CandidateClaim}
use axignal.Rehearsal.Policy.{CandidateEnvelope, ParsedDocument, parser_profile_pin}
use axignal.Lifecycle.Notice.{LifecycleNotice}
use axignal.Lifecycle.Assembler.{LifecycleParser}

abbrev mutual
  pub print : Json → String
  print null = "null"
  print (boolean b) = if b then "true" else "false"
  print (number n) = "0"
  print (text s) = s
  print (array js) = print_items js
  print (object fs) = print_fields fs

  pub print_items : Items → String
  print_items nil = "]"
  print_items (cons j js) = print j ⧺ "," ⧺ print_items js

  pub print_fields : Fields → String
  print_fields end = "}"
  print_fields (field k j fs) = print j ⧺ "," ⧺ print_fields fs

abbrev pub library : Library
library = record {
  dumps = print;
  repr = print;
  sha256_hex = λ s. s;
  casefold = λ s. s;
  iso_day = λ s.
      if s == "2026-01-05"
      then some 5
      else if s == "2026-01-06"
      then some 6
      else if s == "2026-01-07"
      then some 7
      else none;
}

abbrev pub lot_claim : CandidateClaim
lot_claim = record {
  predicate = "procurement_lot_identifier";
  subject_key = "LOT-1";
  value = text "LOT-1";
  source_path = "/lot";
  authority = "OBSERVED";
}

abbrev pub envelope : CandidateEnvelope
envelope = record {
  candidate = lot_claim;
  producer_type = "DETERMINISTIC_XML_PARSER";
  parser_profile = parser_profile_pin;
}

abbrev pub document : ParsedDocument
document = record { raw_content_hash = "h"; candidate_claims = lot_claim ∷ [] }

abbrev notice : String → String → String → Option String → List String → LifecycleNotice
notice id date kind_text changed statuses = record {
  identity = record {
    notice_id = id;
    version_id = "01";
    issue_date = date;
    procedure_identifier = "P";
    document_type = "ContractNotice";
    notice_type = "cn-standard";
    notice_subtype = "16";
    lifecycle_kind = kind_text;
    changed_notice_reference = changed;
    change_reason_code = none;
    lot_ids = "LOT-1" ∷ [];
    raw_content_hash = "h" ⧺ id;
  };
  claims = lot_claim ∷ [];
  winner_selection_statuses = statuses;
  winner_organisation_refs = [];
  awarded_values = [];
  tenders_received_counts = [];
  contract_identifiers = [];
  award_dates = [];
  personal_field_element_count = 0;
}

abbrev pub initial : LifecycleNotice
initial = notice "A" "2026-01-05" "COMPETITION_INITIAL" none []

abbrev pub cancellation : LifecycleNotice
cancellation = notice "B" "2026-01-06" "NOTICE_CANCELLATION" (some "A-01") []

abbrev pub award : LifecycleNotice
award = notice "C" "2026-01-07" "PROCEDURE_RESULT" none ("selec-w" ∷ [])

abbrev pub parse_sample : String → Result String LifecycleNotice
parse_sample raw =
    if raw == "a"
    then ok initial
    else if raw == "b"
    then ok cancellation
    else if raw == "c"
    then ok award
    else err raw

-- A parser of the texts "a", "b" and "c" whose passes agree.
abbrev pub parser : LifecycleParser
parser = record { first_pass = parse_sample; second_pass = parse_sample; same = λ ns ms. true }
