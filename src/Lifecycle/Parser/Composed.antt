-- ===== src/Lifecycle/Parser/Composed.antt =====
-- `_parse_result_notice`: the notice made of the lots and contracts that were read.
use axignal.Common.{
  ℕ, String, not, none, List, [], ◌∷◌, ◌++◌, map, unique, text_le, ◌⧺◌, Result, reject_if, ◌>>◌,
}
use mathlib.Core.List.{flatten}
use axignal.Common.Sort.{sort_by}
use axignal.Common.Json.{Library, text, sha256_of}
use axignal.Ted.{claim}
use axignal.Ted.Parser.{has_none}
use axignal.Lifecycle.Notice.{NoticeIdentity, LifecycleNotice}
use axignal.Lifecycle.Parser.Awards.{Award, LotOutcome, Contract, from_keys}

-- The header of a result notice.
pub record Header : Type 0 where
  pub notice_id : String
  pub version_id : String
  pub notice_type : String
  pub notice_subtype : String
  pub procedure_identifier : String
  pub issue_date : String

-- `f"{{{NS['can']}}}{RESULT_DOCUMENT_TYPE}"`
abbrev pub result_tag : String
result_tag =
    "{urn:oasis:names:specification:ubl:schema:xsd:ContractAwardNotice-2}ContractAwardNotice"

-- The identity of a result notice with these lots.
unfoldable pub result_identity : Library → String → Header → List String → NoticeIdentity
unfolding sort_by
result_identity lib raw h lot_ids = record {
  notice_id = h.notice_id;
  version_id = h.version_id;
  issue_date = h.issue_date;
  procedure_identifier = h.procedure_identifier;
  document_type = "ContractAwardNotice";
  notice_type = h.notice_type;
  notice_subtype = h.notice_subtype;
  lifecycle_kind = "PROCEDURE_RESULT";
  changed_notice_reference = none;
  change_reason_code = none;
  lot_ids = sort_by text_le lot_ids;
  raw_content_hash = sha256_of lib raw;
}

-- The lots of a result: at least one, each once.
unfoldable pub check_lots : List LotOutcome → Result String (Unit {0})
unfolding unique
check_lots lots = do
  reject_if (has_none lots) "Result notice has no lot result"
  reject_if (not (unique (map (λ l. l.lot_id) lots))) "Result notice repeats a lot result"

-- The notice made of what was read.
unfoldable pub result_notice :
    Library → String → Header → List LotOutcome → List Contract → ℕ → LifecycleNotice
unfolding result_identity from_keys
result_notice lib raw h lots contracts personal =
    let awards : List Award = flatten (map (λ l. l.awards) lots) in
    record {
      identity = result_identity lib raw h (map (λ l. l.lot_id) lots);
      claims =
          claim "procurement_notice_lifecycle_kind" (h.notice_id ⧺ "-" ⧺ h.version_id)
              (text "PROCEDURE_RESULT")
              "/ContractAwardNotice/ext:UBLExtensions/.../efac:NoticeResult"
            ∷ flatten (map (λ l. l.claims) lots)
          ++ flatten (map (λ c. c.claims) contracts);
      winner_selection_statuses = map (λ l. l.status) lots;
      winner_organisation_refs = from_keys [] (flatten (map (λ a. a.winners) awards));
      awarded_values = flatten (map (λ a. a.values) awards);
      tenders_received_counts = flatten (map (λ l. l.counts) lots);
      contract_identifiers = map (λ c. c.contract_id) contracts;
      award_dates = flatten (map (λ c. c.award_dates) contracts);
      personal_field_element_count = personal;
    }
