-- ===== src/Ted/Parser.antt =====
-- `TEDEFormsCN16Parser`: from an element tree to a contract notice. An exception is its message.
use axignal.Common.{
  ℕ, String, Bool, true, false, not, ◌||◌, Option, none, some, List, [], ◌∷◌, map, ltb, mem, ◌⧺◌,
  ◌==◌, is_empty, if◌then◌else◌, Result, ok, err, reject_if, traverse, ◌>>=◌, ◌>>◌,
}
use axignal.Common.Json.{Library, text, sha256_of}
use axignal.Common.Xml.{
  XmlLibrary, text_of, optional_text, found_texts, count_personal, has_declaration,
}
use axignal.Ted.{LocalisedText, Organisation, Project, Lot, ContractNotice}

abbrev pub extension : String
extension = "ext:UBLExtensions/ext:UBLExtension/ext:ExtensionContent/efext:EformsExtension/"

abbrev pub max_xml_bytes : ℕ
max_xml_bytes = 2_097_152

-- `any(reference not in known for reference in references)`
unfoldable pub any_unknown : List String → List String → Bool
unfolding mem
any_unknown [] known = false
any_unknown (r ∷ rs) known = not (mem r known) || any_unknown rs known

abbrev pub has_none {ℓ} : {A : Type ℓ} → List A → Bool
has_none [] = true
has_none (a ∷ rest) = false

module _ (x : XmlLibrary) where
  open x use {
    Element, find, findall, attribute, tag, from_string, byte_length, lower, is_uuid4,
    is_two_digits, iter,
  }

  unfoldable pub required_element_text : Option Element → String → Result String String
  unfolding text_of
  required_element_text e label =
      let value : String = text_of x e in
      if is_empty value then err ("Required " ⧺ label ⧺ " is missing") else ok value

  unfoldable pub required_text : Element → String → Result String String
  unfolding required_element_text
  required_text root path = required_element_text (find root path) path

  -- The texts that are not empty, with their languages.
  unfoldable pub localised : List Element → List LocalisedText
  unfolding text_of
  localised [] = []
  localised (e ∷ es) =
      let rest = localised es in
      if is_empty (text_of x (some e))
      then rest
      else record { value = text_of x (some e); language = attribute e "languageID" } ∷ rest

  unfoldable pub amount_text : Option Element → Option String
  unfolding text_of
  amount_text none = none
  amount_text (some e) = some (text_of x (some e))

  unfoldable pub amount_currency : Option Element → Option String
  amount_currency none = none
  amount_currency (some e) = attribute e "currencyID"

  unfoldable pub parse_project : Option Element → Option Project
  unfolding localised optional_text found_texts amount_text amount_currency
  parse_project none = none
  parse_project (some e) =
      let amount = find e "cbc:EstimatedOverallContractAmount" in
      some (record {
        names = localised (findall e "cbc:Name");
        descriptions = localised (findall e "cbc:Description");
        contract_nature = optional_text x e "cbc:ProcurementTypeCode";
        cpv_codes =
            found_texts x e
              "cac:MainCommodityClassification/cbc:ItemClassificationCode[@listName='cpv']";
        nuts_codes =
            found_texts x e
              "cac:RealizedLocation/cac:Address/cbc:CountrySubentityCode[@listName='nuts']";
        country_codes = found_texts x e (
            "cac:RealizedLocation/cac:Address/cac:Country/"
            ⧺ "cbc:IdentificationCode[@listName='country']");
        estimated_value = amount_text amount;
        estimated_value_currency = amount_currency amount;
      })

  unfoldable pub parse_lot : Element → Result String Lot
  unfolding required_element_text parse_project optional_text
  parse_lot e = do
    lot_id ← required_element_text (find e "cbc:ID[@schemeName='Lot']") "lot ID"
    ok (record {
      lot_id = lot_id;
      project = parse_project (find e "cac:ProcurementProject");
      submission_deadline_date =
          optional_text x e "cac:TenderingProcess/cac:TenderSubmissionDeadlinePeriod/cbc:EndDate";
      submission_deadline_time =
          optional_text x e "cac:TenderingProcess/cac:TenderSubmissionDeadlinePeriod/cbc:EndTime";
      eu_funding_indicator =
          optional_text x e "cac:TenderingTerms/cbc:FundingProgramCode[@listName='eu-funded']";
    })

  unfoldable pub parse_organisation : List String → Element → Result String Organisation
  unfolding required_element_text localised optional_text found_texts mem
  parse_organisation seen company = do
    organisation_id ←
        required_element_text
          (find company "cac:PartyIdentification/cbc:ID[@schemeName='organization']")
          "organisation ID"
    reject_if (mem organisation_id seen) "Duplicate organisation ID"
    let names = localised (findall company "cac:PartyName/cbc:Name")
    reject_if (has_none names) "Organisation has no official name"
    ok (record {
      organisation_id = organisation_id;
      names = names;
      national_identifier = optional_text x company "cac:PartyLegalEntity/cbc:CompanyID";
      nuts_codes =
          found_texts x company "cac:PostalAddress/cbc:CountrySubentityCode[@listName='nuts']";
      country_codes =
          found_texts x company
            "cac:PostalAddress/cac:Country/cbc:IdentificationCode[@listName='country']";
    })

  -- The loop over the companies, with the set `seen`.
  unfoldable pub collect_organisations :
      List String → List Element → Result String (List Organisation)
  unfolding parse_organisation
  collect_organisations seen [] = ok []
  collect_organisations seen (c ∷ cs) = do
    o ← parse_organisation seen c
    rest ← collect_organisations (o.organisation_id ∷ seen) cs
    ok (o ∷ rest)

  unfoldable pub parse_organisations : Element → Result String (List Organisation)
  unfolding collect_organisations
  parse_organisations root = do
    organisations ←
        collect_organisations []
          (findall root (extension ⧺ "efac:Organizations/efac:Organization/efac:Company"))
    reject_if (has_none organisations) "Contract notice has no organisations"
    ok organisations

  -- The checks before the tree is read, and the tree.
  unfoldable pub load_root : String → Result String Element
  unfolding has_declaration
  load_root raw = do
    reject_if (is_empty raw) "TED eForms XML is empty"
    reject_if (ltb max_xml_bytes (byte_length raw)) "TED eForms XML exceeded the parser size budget"
    reject_if (has_declaration (lower raw)) "DTD and entity declarations are prohibited"
    elim (from_string raw) [
      | none ↦ err "TED eForms XML is malformed or unsafe"
      | some root ↦ ok root
    ]

  -- The header of the notice: its customization, version, identity and type.
  unfoldable pub check_profile :
      Library → Element → Result String (String × String × String × String × String × String)
  unfolding required_text required_element_text
  check_profile lib root = do
    reject_if
        (not (
          tag root
          == "{urn:oasis:names:specification:ubl:schema:xsd:ContractNotice-2}ContractNotice"))
        "Unsupported TED eForms document type"
    customization ← required_text root "cbc:CustomizationID"
    reject_if (not (customization == "eforms-sdk-1.14")) (
        "Unsupported eForms customization "
        ⧺ lib.repr (text customization)
        ⧺ "; expected "
        ⧺ lib.repr (text "eforms-sdk-1.14"))
    ubl_version ← required_text root "cbc:UBLVersionID"
    reject_if (not (ubl_version == "2.3")) "Unsupported UBL version"
    notice_id ← required_element_text (find root "cbc:ID[@schemeName='notice-id']") "notice ID"
    reject_if (not (is_uuid4 notice_id)) "Notice ID is not a version-4 UUID"
    version_id ← required_text root "cbc:VersionID"
    reject_if (not (is_two_digits version_id) || version_id == "00") "Notice version ID is invalid"
    notice_type ← required_text root "cbc:NoticeTypeCode"
    reject_if (not (notice_type == "cn-standard")) "Unsupported TED notice type"
    notice_subtype ← required_text root (extension ⧺ "efac:NoticeSubType/cbc:SubTypeCode")
    reject_if (not (notice_subtype == "16")) "Unsupported TED notice subtype"
    ok (customization, ubl_version, notice_id, version_id, notice_type, notice_subtype)

  -- The references to the buyers, each to an organisation of the notice.
  unfoldable pub buyers_of : Element → List Organisation → Result String (List String)
  unfolding found_texts any_unknown
  buyers_of root organisations = do
    let refs = found_texts x root (
        "cac:ContractingParty/cac:Party/cac:PartyIdentification/"
        ⧺ "cbc:ID[@schemeName='organization']")
    reject_if (has_none refs) "Contract notice has no buyer organisation reference"
    reject_if (any_unknown refs (map (λ o. o.organisation_id) organisations))
        "Buyer organisation reference is unresolved"
    ok refs

  unfoldable pub parse : Library → String → Result String ContractNotice
  unfolding load_root check_profile parse_organisations buyers_of required_text parse_lot traverse
  parse lib raw = do
    root ← load_root raw
    (customization, ubl_version, notice_id, version_id, notice_type, notice_subtype) ←
        check_profile lib root
    organisations ← parse_organisations root
    buyers ← buyers_of root organisations
    issue_date ← required_text root "cbc:IssueDate"
    lots ← traverse parse_lot (findall root "cac:ProcurementProjectLot")
    ok (record {
      document_type = "ContractNotice";
      customization_id = customization;
      ubl_version = ubl_version;
      notice_id = notice_id;
      version_id = version_id;
      issue_date = issue_date;
      issue_time = optional_text x root "cbc:IssueTime";
      notice_type = notice_type;
      notice_subtype = notice_subtype;
      notice_languages = found_texts x root "cbc:NoticeLanguageCode";
      procedure_identifier = optional_text x root "cbc:ContractFolderID";
      procedure_type = optional_text x root "cac:TenderingProcess/cbc:ProcedureCode";
      buyer_organisation_refs = buyers;
      organisations = organisations;
      procedure_project = parse_project (find root "cac:ProcurementProject");
      lots = lots;
      personal_field_element_count = count_personal x (iter root);
      raw_content_hash = sha256_of lib raw;
    })
