-- ===== src/Ted.antt =====
-- apps/api/src/axignal_api/connectors/ted_eforms.py: a contract notice of TED and the claims read off
-- it. The parser is below.
pub mod Parser
use axignal.Common.{
  String, Bool, true, false, ℕ, Option, none, some, List, [], ◌∷◌, ◌++◌, map, ◌⧺◌, ◌==◌, is_empty,
  if◌then◌else◌,
}
use axignal.Common.Json.{Json, text, obj, optional}
use axignal.Rehearsal.Claim.{CandidateClaim}

pub record LocalisedText : Type 0 where
  pub value : String
  pub language : Option String

pub record Organisation : Type 0 where
  pub organisation_id : String
  pub names : List LocalisedText
  pub national_identifier : Option String
  pub nuts_codes : List String
  pub country_codes : List String

pub record Project : Type 0 where
  pub names : List LocalisedText
  pub descriptions : List LocalisedText
  pub contract_nature : Option String
  pub cpv_codes : List String
  pub nuts_codes : List String
  pub country_codes : List String
  pub estimated_value : Option String
  pub estimated_value_currency : Option String

pub record Lot : Type 0 where
  pub lot_id : String
  pub project : Option Project
  pub submission_deadline_date : Option String
  pub submission_deadline_time : Option String
  pub eu_funding_indicator : Option String

pub record ContractNotice : Type 0 where
  pub document_type : String
  pub customization_id : String
  pub ubl_version : String
  pub notice_id : String
  pub version_id : String
  pub issue_date : String
  pub issue_time : Option String
  pub notice_type : String
  pub notice_subtype : String
  pub notice_languages : List String
  pub procedure_identifier : Option String
  pub procedure_type : Option String
  pub buyer_organisation_refs : List String
  pub organisations : List Organisation
  pub procedure_project : Option Project
  pub lots : List Lot
  pub personal_field_element_count : ℕ
  pub raw_content_hash : String

-- `ProcurementCandidateClaim(...)`, with its default authority.
abbrev pub claim : String → String → Json → String → CandidateClaim
claim predicate subject_key value source_path = record {
  predicate = predicate;
  subject_key = subject_key;
  value = value;
  source_path = source_path;
  authority = "OBSERVED";
}

-- `if value:` for a text that may be `None`.
abbrev pub if_text : Option String → (String → List CandidateClaim) → List CandidateClaim
if_text none f = []
if_text (some s) f = if is_empty s then [] else f s

unfoldable pub project_claims : String → String → Option Project → List CandidateClaim
project_claims subject_key path_prefix none = []
project_claims subject_key path_prefix (some p) =
    map
      (λ c.
        claim "procurement_cpv_code" subject_key (text c)
          (path_prefix ⧺ "/cac:MainCommodityClassification/cbc:ItemClassificationCode"))
      p.cpv_codes
    ++ map
        (λ c.
          claim "procurement_place_of_performance_nuts" subject_key (text c)
            (path_prefix ⧺ "/cac:RealizedLocation/cac:Address/cbc:CountrySubentityCode"))
        p.nuts_codes
    ++ if_text p.contract_nature (λ c.
      claim "procurement_contract_nature" subject_key (text c)
        (path_prefix ⧺ "/cbc:ProcurementTypeCode")
      ∷ [])
    ++ value_claim p.estimated_value p.estimated_value_currency
  where
    value_claim : Option String → Option String → List CandidateClaim
    value_claim none currency = []
    value_claim (some amount) currency =
        claim "procurement_estimated_value" subject_key
          (obj (("amount", text amount) ∷ ("currency", optional text currency) ∷ []))
          (path_prefix ⧺ "/cbc:EstimatedOverallContractAmount")
        ∷ []

-- `organisation_map.get(reference)`: of two organisations with one identifier the later one stands.
unfoldable pub organisation_of : String → List Organisation → Option Organisation
organisation_of r [] = none
organisation_of r (o ∷ os) = elim (organisation_of r os) [
  | some later ↦ some later
  | none ↦ if o.organisation_id == r then some o else none
]

unfoldable pub buyer_details : String → Option Organisation → List CandidateClaim
buyer_details buyer_ref none = []
buyer_details buyer_ref (some buyer) =
    map
      (λ n.
        claim "procurement_buyer_official_name" buyer_ref
          (obj (("text", text n.value) ∷ ("language", optional text n.language) ∷ []))
          ("/ContractNotice/ext:UBLExtensions/.../efac:Organizations/"
            ⧺ "efac:Organization/efac:Company/cac:PartyName/cbc:Name"))
      buyer.names
    ++ if_text buyer.national_identifier (λ i.
      claim "procurement_buyer_identifier" buyer_ref (text i) (
        "/ContractNotice/ext:UBLExtensions/.../efac:Company/"
        ⧺ "cac:PartyLegalEntity/cbc:CompanyID")
      ∷ [])

unfoldable pub buyer_claims : String → List Organisation → List String → List CandidateClaim
unfolding organisation_of buyer_details
buyer_claims notice_id organisations [] = []
buyer_claims notice_id organisations (r ∷ rs) =
    claim "procurement_buyer_organisation_ref" notice_id (text r)
        ("/ContractNotice/cac:ContractingParty/cac:Party/" ⧺ "cac:PartyIdentification/cbc:ID")
      ∷ buyer_details r (organisation_of r organisations)
    ++ buyer_claims notice_id organisations rs

unfoldable pub lot_claims : String → List Lot → List CandidateClaim
unfolding project_claims
lot_claims notice_id [] = []
lot_claims notice_id (l ∷ ls) =
    let subject : String = notice_id ⧺ ":" ⧺ l.lot_id in
    claim "procurement_lot_identifier" subject (text l.lot_id)
        "/ContractNotice/cac:ProcurementProjectLot/cbc:ID"
      ∷ project_claims subject "/ContractNotice/cac:ProcurementProjectLot/cac:ProcurementProject"
          l.project
    ++ if_text l.submission_deadline_date (λ d.
      claim "procurement_submission_deadline" subject
        (obj (("date", text d) ∷ ("time", optional text l.submission_deadline_time) ∷ []))
        ("/ContractNotice/cac:ProcurementProjectLot/cac:TenderingProcess/"
          ⧺ "cac:TenderSubmissionDeadlinePeriod")
      ∷ [])
    ++ if_text l.eu_funding_indicator (λ i.
      claim "procurement_eu_funding_indicator" subject (text i)
        ("/ContractNotice/cac:ProcurementProjectLot/cac:TenderingTerms/" ⧺ "cbc:FundingProgramCode")
      ∷ [])
    ++ lot_claims notice_id ls

unfoldable pub candidate_claims : ContractNotice → List CandidateClaim
unfolding buyer_claims project_claims lot_claims
candidate_claims n =
    claim "procurement_notice_type" n.notice_id (text n.notice_type)
        "/ContractNotice/cbc:NoticeTypeCode"
      ∷ claim "procurement_notice_subtype" n.notice_id (text n.notice_subtype) (
          "/ContractNotice/ext:UBLExtensions/ext:UBLExtension/ext:ExtensionContent/"
          ⧺ "efext:EformsExtension/efac:NoticeSubType/cbc:SubTypeCode")
      ∷ claim "procurement_notice_issue_date" n.notice_id (text n.issue_date)
          "/ContractNotice/cbc:IssueDate"
      ∷ if_text n.procedure_identifier (λ p.
        claim "procurement_procedure_identifier" n.notice_id (text p)
          "/ContractNotice/cbc:ContractFolderID"
        ∷ [])
    ++ if_text n.procedure_type (λ p.
      claim "procurement_procedure_type" n.notice_id (text p)
        "/ContractNotice/cac:TenderingProcess/cbc:ProcedureCode"
      ∷ [])
    ++ buyer_claims n.notice_id n.organisations n.buyer_organisation_refs
    ++ project_claims n.notice_id "/ContractNotice/cac:ProcurementProject" n.procedure_project
    ++ lot_claims n.notice_id n.lots
