-- ===== src/Lifecycle/Parser/ResultNotice.antt =====
-- `_parse_result_notice`: the lots of a procedure with their winners, values and contracts.
use axignal.Common.{
  ℕ, String, not, ◌&&◌, ◌||◌, Option, none, some, List, [], ◌∷◌, ◌++◌, map, mem, ◌⧺◌, ◌==◌,
  is_empty, is_none, if◌then◌else◌, Result, ok, err, reject_if, traverse, ◌>>=◌, ◌>>◌,
}
use mathlib.Core.List.{flatten}
use axignal.Common.Integers.{pos, negsuc}
use axignal.Common.Json.{Library, number, text}
use axignal.Common.Dict.{get, put}
use axignal.Common.Xml.{XmlLibrary, text_of, optional_text, found_texts, count_personal, non_empty}
use axignal.Ted.{claim}
use axignal.Ted.Parser.{extension, has_none}
use axignal.Lifecycle.Notice.{LifecycleNotice}
use axignal.Lifecycle.Parser.Awards.{
  Tender, LotOutcome, Contract, winner_selection_codes, award, or_empty,
}
use axignal.Lifecycle.Parser.Composed.{Header, result_tag, check_lots, result_notice}

module _ (x : XmlLibrary) where
  open x use {Element, find, findall, attribute, tag, iter, is_notice_reference, to_int}

  unfoldable pub required_text : Element → String → String → Result String String
  unfolding text_of
  required_text root path label =
      let value : String = text_of x (find root path) in
      if is_empty value then err ("Required " ⧺ label ⧺ " is missing") else ok value

  -- `_validate_notice_reference`
  unfoldable pub check_reference : String → Result String (Unit {0})
  check_reference value =
      reject_if (not (is_notice_reference value)) "Notice reference is not UUID-version"

  -- `_organisation_names`, the loop with the dictionary so far.
  unfoldable pub collect_names :
      List (String × List String) → List Element → Result String (List (String × List String))
  unfolding required_text found_texts get put
  collect_names names [] = ok names
  collect_names names (c ∷ cs) = do
    identifier ←
        required_text c "cac:PartyIdentification/cbc:ID[@schemeName='organization']"
          "organisation ID"
    reject_if (not (is_none (get identifier names))) "Duplicate organisation ID"
    let own = found_texts x c "cac:PartyName/cbc:Name"
    reject_if (has_none own) "Organisation has no official name"
    collect_names (put identifier own names) cs

  unfoldable pub collect_parties :
      List (String × List String) → List Element → Result String (List (String × List String))
  unfolding required_text found_texts put
  collect_parties parties [] = ok parties
  collect_parties parties (p ∷ ps) = do
    party_id ← required_text p "cbc:ID[@schemeName='tendering-party']" "tendering party ID"
    collect_parties
        (put party_id (found_texts x p "efac:Tenderer/cbc:ID[@schemeName='organization']") parties)
        ps

  abbrev amount_currency : Option Element → Option String
  amount_currency none = none
  amount_currency (some e) = attribute e "currencyID"

  unfoldable pub read_tender : Element → Result String Tender
  unfolding required_text optional_text text_of non_empty
  read_tender t = do
    lot_id ← required_text t "efac:TenderLot/cbc:ID[@schemeName='Lot']" "tender lot ID"
    let amount = find t "cac:LegalMonetaryTotal/cbc:PayableAmount"
    ok (record {
      party_id = optional_text x t "efac:TenderingParty/cbc:ID[@schemeName='tendering-party']";
      lot_id = lot_id;
      amount = non_empty (text_of x amount);
      currency = amount_currency amount;
    })

  unfoldable pub collect_tenders :
      List (String × Tender) → List Element → Result String (List (String × Tender))
  unfolding required_text read_tender put
  collect_tenders tenders [] = ok tenders
  collect_tenders tenders (t ∷ ts) = do
    tender_id ← required_text t "cbc:ID[@schemeName='tender']" "tender ID"
    tender ← read_tender t
    collect_tenders (put tender_id tender tenders) ts

  -- `int(statistic_value)`, not negative.
  unfoldable pub tender_count : String → Result String ℕ
  tender_count value = elim (to_int value) [
    | none ↦ err "Tender count is not an integer"
    | some (pos n) ↦ ok n
    | some (negsuc n) ↦ err "Tender count is negative"
  ]

  unfoldable pub statistic_counts : Element → Result String (List ℕ)
  unfolding optional_text tender_count
  statistic_counts s = elim (optional_text x s "efbc:StatisticsNumeric") [
    | none ↦ ok []
    | some value ↦
        if or_empty (optional_text x s "efbc:StatisticsCode") == "tenders"
        then (do n ← tender_count value; ok (n ∷ []))
        else ok []
  ]

  -- The body of the loop over the lot results.
  unfoldable pub lot_outcome :
      List (String × List String)
      → List (String × List String)
      → List (String × Tender)
      → Element
      → Result String LotOutcome
  unfolding required_text winner_selection_codes statistic_counts traverse found_texts award mem
  lot_outcome organisations parties tenders lot = do
    result_id ← required_text lot "cbc:ID[@schemeName='result']" "lot result ID"
    status ← required_text lot "cbc:TenderResultCode" "winner selection status"
    reject_if (not (mem status winner_selection_codes)) "Unsupported winner selection status"
    lot_id ← required_text lot "efac:TenderLot/cbc:ID[@schemeName='Lot']" "result lot ID"
    counts ← traverse statistic_counts (findall lot "efac:ReceivedSubmissionsStatistics")
    let refs = found_texts x lot "efac:LotTender/cbc:ID[@schemeName='tender']"
    reject_if (status == "selec-w" && has_none refs) "Winning lot result has no tender reference"
    awards ← traverse (award organisations parties tenders status lot_id) refs
    ok (record {
      lot_id = lot_id;
      status = status;
      counts = flatten counts;
      awards = awards;
      claims =
          claim "procurement_result_lot_identifier" result_id (text lot_id)
              ("/ContractAwardNotice/.../efac:LotResult/" ⧺ "efac:TenderLot/cbc:ID")
            ∷ claim "procurement_winner_selection_status" lot_id (text status)
                ("/ContractAwardNotice/.../efac:LotResult/" ⧺ "cbc:TenderResultCode")
            ∷ map
                (λ n. claim "procurement_tenders_received_count" lot_id (number n) (
                  "/ContractAwardNotice/.../efac:LotResult/"
                  ⧺ "efac:ReceivedSubmissionsStatistics"))
                (flatten counts)
          ++ flatten (map (λ a. a.claims) awards);
    })

  -- `if award_date:`
  abbrev dates : Option String → List String
  dates none = []
  dates (some d) = if is_empty d then [] else d ∷ []

  -- The body of the loop over the contracts.
  unfoldable pub read_contract : String → Element → Result String Contract
  unfolding required_text optional_text
  read_contract procedure c = do
    contract_id ← required_text c "cbc:ID[@schemeName='contract']" "contract ID"
    let award_dates = dates (optional_text x c "cbc:AwardDate")
    ok (record {
      contract_id = contract_id;
      award_dates = award_dates;
      claims =
          claim "procurement_contract_identifier" procedure (text contract_id)
            "/ContractAwardNotice/.../efac:SettledContract/cbc:ID"
          ∷ map
              (λ d.
                claim "procurement_award_date" contract_id (text d)
                  "/ContractAwardNotice/.../efac:SettledContract/cbc:AwardDate")
              award_dates;
    })

  -- The document type, the customization and the UBL version.
  unfoldable pub check_format : Element → Result String (Unit {0})
  unfolding required_text
  check_format root = do
    reject_if (not (tag root == result_tag)) "Unsupported result notice namespace"
    customization_id ← required_text root "cbc:CustomizationID" "customization ID"
    reject_if (not (customization_id == "eforms-sdk-1.14")) "Unsupported eForms customization"
    ubl_version ← required_text root "cbc:UBLVersionID" "UBL version"
    reject_if (not (ubl_version == "2.3")) "Unsupported UBL version"

  -- The notice ID and the version.
  unfoldable pub read_identity : Element → Result String (String × String)
  unfolding required_text check_reference
  read_identity root = do
    notice_id ← required_text root "cbc:ID[@schemeName='notice-id']" "notice ID"
    version_id ← required_text root "cbc:VersionID" "notice version"
    check_reference (notice_id ⧺ "-" ⧺ version_id)
    ok (notice_id, version_id)

  -- The notice type and the subtype.
  unfoldable pub read_profile : Element → Result String (String × String)
  unfolding required_text
  read_profile root = do
    notice_type ← required_text root "cbc:NoticeTypeCode" "notice type"
    notice_subtype ←
        required_text root (extension ⧺ "efac:NoticeSubType/cbc:SubTypeCode") "notice subtype"
    reject_if (not (notice_type == "can-standard") || not (notice_subtype == "29"))
        "Unsupported result notice profile"
    ok (notice_type, notice_subtype)

  unfoldable pub read_header : Element → Result String Header
  unfolding check_format read_identity read_profile required_text
  read_header root = do
    check_format root
    (notice_id, version_id) ← read_identity root
    (notice_type, notice_subtype) ← read_profile root
    procedure_identifier ← required_text root "cbc:ContractFolderID" "procedure identifier"
    issue_date ← required_text root "cbc:IssueDate" "issue date"
    ok (record {
      notice_id = notice_id;
      version_id = version_id;
      notice_type = notice_type;
      notice_subtype = notice_subtype;
      procedure_identifier = procedure_identifier;
      issue_date = issue_date;
    })

  -- The lots and the contracts of the element `NoticeResult`.
  unfoldable pub read_result :
      Element → Header → Element → Result String (List LotOutcome × List Contract)
  unfolding collect_names collect_parties collect_tenders traverse lot_outcome check_lots
      read_contract
  read_result root h notice_result = do
    organisations ←
        collect_names []
          (findall root (extension ⧺ "efac:Organizations/efac:Organization/efac:Company"))
    parties ← collect_parties [] (findall notice_result "efac:TenderingParty")
    tenders ← collect_tenders [] (findall notice_result "efac:LotTender")
    lots ←
        traverse (lot_outcome organisations parties tenders)
          (findall notice_result "efac:LotResult")
    check_lots lots
    contracts ←
        traverse (read_contract h.procedure_identifier)
          (findall notice_result "efac:SettledContract")
    ok (lots, contracts)

  unfoldable pub result_element : Element → Result String Element
  result_element root = elim (find root (extension ⧺ "efac:NoticeResult")) [
    | none ↦ err "Result notice has no NoticeResult"
    | some e ↦ ok e
  ]

  unfoldable pub parse_result_notice : Library → String → Element → Result String LifecycleNotice
  unfolding read_header result_element read_result result_notice count_personal
  parse_result_notice lib raw root = do
    h ← read_header root
    notice_result ← result_element root
    (lots, contracts) ← read_result root h notice_result
    ok (result_notice lib raw h lots contracts (count_personal x (iter root)))
