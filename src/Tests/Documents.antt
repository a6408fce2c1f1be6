-- ===== src/Tests/Documents.antt =====
-- A library of element trees, and a result notice in which one organisation wins two lots.
use axignal.Common.{
  ◌≡◌, refl, String, true, Option, none, some, List, [], ◌∷◌, ◌++◌, ◌==◌, ◌⧺◌, if◌then◌else◌,
  Result, ok, err, here, mem,
}
use axignal.Common.Integers.{pos}
use axignal.Common.Xml.{XmlLibrary}
use axignal.Common.Occurrence.{Twice, now}
use axignal.Lifecycle.Notice.{LifecycleNotice, duplicate_evidence_key}
use axignal.Lifecycle.Evidence.{build_evidence}
use axignal.Lifecycle.Parser.{parse}
use axignal.Lifecycle.Parser.Awards.{LotOutcome, Contract}
use axignal.Lifecycle.Parser.Composed.{Header, result_notice, result_tag}
use axignal.Lifecycle.Parser.ResultNotice.{read_header, read_result}
use axignal.Lifecycle.Parser.Winners.{Wins, winner_of_two_lots_err}
use axignal.Lifecycle.Parser.Kinds.{Described, parse-Described}
use axignal.Tests.Samples.{library}

-- An element, with its descendants by the path from it.
mutual
  data Node : Type 0 where
    node : String → Option String → Nodes → Node

  data Nodes : Type 0 where
    leaf : Nodes
    under : String → Node → Nodes → Nodes

abbrev find_in : String → Nodes → Option Node
find_in p leaf = none
find_in p (under q n ns) = if q == p then some n else find_in p ns

abbrev findall_in : String → Nodes → List Node
findall_in p leaf = []
findall_in p (under q n ns) = let rest = findall_in p ns in if q == p then n ∷ rest else rest

abbrev below : Node → Nodes
below (node t c ns) = ns

abbrev tag_of : Node → String
tag_of (node t c ns) = t

abbrev content_of : Node → Option String
content_of (node t c ns) = c

abbrev value : String → Node
value s = node "" (some s) leaf

-- The tree of the one document that is read.
abbrev lot : String → Node
lot id = node "" none (
    under "cbc:ID[@schemeName='result']" (value ("RES-" ⧺ id)) (
      under "cbc:TenderResultCode" (value "selec-w") (
        under "efac:TenderLot/cbc:ID[@schemeName='Lot']" (value id)
          (under "efac:LotTender/cbc:ID[@schemeName='tender']" (value ("TEN-" ⧺ id)) leaf))))

abbrev tender : String → Node
tender id = node "" none (
    under "cbc:ID[@schemeName='tender']" (value ("TEN-" ⧺ id)) (
      under "efac:TenderLot/cbc:ID[@schemeName='Lot']" (value id)
        (under "efac:TenderingParty/cbc:ID[@schemeName='tendering-party']" (value "TPA-1") leaf)))

abbrev party : Node
party = node "" none (
    under "cbc:ID[@schemeName='tendering-party']" (value "TPA-1")
      (under "efac:Tenderer/cbc:ID[@schemeName='organization']" (value "ORG-1") leaf))

abbrev company : Node
company = node "" none (
    under "cac:PartyIdentification/cbc:ID[@schemeName='organization']" (value "ORG-1")
      (under "cac:PartyName/cbc:Name" (value "Builders") leaf))

abbrev notice_result : Node
notice_result = node "" none (
    under "efac:TenderingParty" party (
      under "efac:LotTender" (tender "LOT-1") (
        under "efac:LotTender" (tender "LOT-2")
          (under "efac:LotResult" (lot "LOT-1") (under "efac:LotResult" (lot "LOT-2") leaf)))))

abbrev prefix : String
prefix = "ext:UBLExtensions/ext:UBLExtension/ext:ExtensionContent/efext:EformsExtension/"

abbrev root : Node
root = node result_tag none (
    under "cbc:CustomizationID" (value "eforms-sdk-1.14") (
      under "cbc:UBLVersionID" (value "2.3") (
        under "cbc:ID[@schemeName='notice-id']" (value "n3") (
          under "cbc:VersionID" (value "01") (
            under "cbc:NoticeTypeCode" (value "can-standard") (
              under (prefix ⧺ "efac:NoticeSubType/cbc:SubTypeCode") (value "29") (
                under "cbc:ContractFolderID" (value "proc") (
                  under "cbc:IssueDate" (value "2026-01-07") (
                    under (prefix ⧺ "efac:NoticeResult") notice_result (
                      under (prefix ⧺ "efac:Organizations/efac:Organization/efac:Company") company
                        leaf))))))))))

abbrev xml : XmlLibrary
xml = record {
  Element = Node;
  from_string = λ s. some root;
  tag = tag_of;
  content = content_of;
  attribute = λ e k. none;
  find = λ e p. find_in p (below e);
  findall = λ e p. findall_in p (below e);
  iter = λ e. e ∷ [];
  byte_length = λ s. 5;
  lower = λ s. s;
  squeeze = λ s. s;
  local_name = λ s. if s == result_tag then "ContractAwardNotice" else s;
  is_uuid4 = λ s. true;
  is_two_digits = λ s. true;
  is_notice_reference = λ s. s == "n3-01";
  to_int = λ s. some (pos 1);
}

abbrev header : Header
header = record {
  notice_id = "n3";
  version_id = "01";
  notice_type = "can-standard";
  notice_subtype = "29";
  procedure_identifier = "proc";
  issue_date = "2026-01-07";
}

header_is_read : read_header xml root ≡ ok header
unfolding read_header
header_is_read = refl

abbrev outcomes : Result String (List LotOutcome × List Contract) → List LotOutcome
outcomes (ok r) = r.0
outcomes (err e) = []

lots : List LotOutcome
lots = outcomes (read_result xml root header notice_result)

lots_are_read : read_result xml root header notice_result ≡ ok (lots, [])
unfolding read_result lots
lots_are_read = refl

won-Twice : Twice (Wins "ORG-1") lots
unfolding Wins mem lots read_result
won-Twice = now (here refl) (here (here refl))

winner_of_two_lots_err_example :
    build_evidence library ([] ++ result_notice library "raw" header lots [] 0 ∷ [])
    ≡ err duplicate_evidence_key
winner_of_two_lots_err_example =
    winner_of_two_lots_err xml library "raw" root header notice_result lots [] 0 "ORG-1" [] []
      lots_are_read won-Twice

parsed : LifecycleNotice
parsed = result_notice library "<raw>" header lots [] 0

document_is_parsed : parse xml library "<raw>" ≡ ok parsed
unfolding parse parsed lots
document_is_parsed = refl

parse-Described_example : Described xml parsed.identity
parse-Described_example = parse-Described xml library "<raw>" parsed document_is_parsed
