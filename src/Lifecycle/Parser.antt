-- ===== src/Lifecycle/Parser.antt =====
-- `TEDEFormsLifecycleParser`: contract notices with their changes, and result notices (below).
pub mod Awards
pub mod Composed
pub mod ResultNotice
pub mod Claimed
pub mod Winners
pub mod Changes
pub mod Kinds
use axignal.Common.{
  ℕ, String, Bool, true, false, not, ◌&&◌, ◌||◌, Option, none, some, List, [], ◌∷◌, ◌++◌, map, ltb,
  mem, text_le, ◌⧺◌, ◌==◌, is_empty, if◌then◌else◌, Result, ok, err, reject_if, ◌>>=◌, ◌>>◌,
}
use axignal.Common.Sort.{sort_by}
use axignal.Common.Json.{Library, text}
use axignal.Common.Xml.{XmlLibrary, text_of, has_declaration}
use axignal.Rehearsal.Claim.{CandidateClaim}
use axignal.Ted.{ContractNotice, claim, if_text, candidate_claims}
use axignal.Ted.Parser as Ted
use axignal.Ted.Parser.{extension, max_xml_bytes, has_none}
use axignal.Lifecycle.Notice.{NoticeIdentity, LifecycleNotice, notice_reference}
use axignal.Lifecycle.Parser.ResultNotice.{required_text, check_reference, parse_result_notice}

unfoldable pub change_reason_codes : List String
change_reason_codes =
    "cancel" ∷ "cancel-intent" ∷ "cor-buy" ∷ "cor-esen" ∷ "cor-pub" ∷ "info-release" ∷ "susp-review"
    ∷ "update-add" ∷ []

-- What a notice says of a change: the kind, the changed reference and the reason.
pub record Change : Type 0 where
  pub lifecycle_kind : String
  pub changed_reference : Option String
  pub change_reason : Option String

abbrev pub no_change : Change
no_change = record {
  lifecycle_kind = "COMPETITION_INITIAL";
  changed_reference = none;
  change_reason = none;
}

-- The claims that the lifecycle adds to those of a contract notice.
unfoldable pub change_claims : String → Change → List CandidateClaim
change_claims reference c =
    claim "procurement_notice_lifecycle_kind" reference (text c.lifecycle_kind)
        "/ContractNotice/ext:UBLExtensions/.../efac:Changes"
      ∷ if_text c.changed_reference (λ r.
        claim "procurement_changed_notice_reference" reference (text r)
          ("/ContractNotice/ext:UBLExtensions/.../" ⧺ "efac:Changes/efbc:ChangedNoticeIdentifier")
        ∷ [])
    ++ if_text c.change_reason (λ r.
      claim "procurement_change_reason_code" reference (text r)
        ("/ContractNotice/ext:UBLExtensions/.../" ⧺ "efac:Changes/efac:ChangeReason/cbc:ReasonCode")
      ∷ [])

-- `parsed.procedure_identifier or ""`
abbrev pub or_empty : Option String → String
or_empty none = ""
or_empty (some s) = s

unfoldable pub contract_identity : ContractNotice → Change → NoticeIdentity
unfolding sort_by
contract_identity n c = record {
  notice_id = n.notice_id;
  version_id = n.version_id;
  issue_date = n.issue_date;
  procedure_identifier = or_empty n.procedure_identifier;
  document_type = n.document_type;
  notice_type = n.notice_type;
  notice_subtype = n.notice_subtype;
  lifecycle_kind = c.lifecycle_kind;
  changed_notice_reference = c.changed_reference;
  change_reason_code = c.change_reason;
  lot_ids = sort_by text_le (map (λ l. l.lot_id) n.lots);
  raw_content_hash = n.raw_content_hash;
}

-- The notice made of a parsed contract notice and its change.
unfoldable pub contract_notice_of : ContractNotice → Change → Result String LifecycleNotice
unfolding contract_identity change_claims
contract_notice_of n c = do
  let identity = contract_identity n c
  reject_if (is_empty identity.procedure_identifier) "Lifecycle notice has no procedure identifier"
  ok (record {
    identity = identity;
    claims = candidate_claims n ++ change_claims (notice_reference identity) c;
    winner_selection_statuses = [];
    winner_organisation_refs = [];
    awarded_values = [];
    tenders_received_counts = [];
    contract_identifiers = [];
    award_dates = [];
    personal_field_element_count = n.personal_field_element_count;
  })

module _ (x : XmlLibrary) where
  open x use {Element, find, findall, tag, local_name, from_string, byte_length, lower}

  -- The kind of a change with this reason and these nodes.
  unfoldable pub change_kind : String → List Element → Result String String
  change_kind reason nodes =
      if reason == "cancel"
      then (if has_none nodes
          then ok "NOTICE_CANCELLATION"
          else err "Notice cancellation must not carry efac:Change nodes")
      else (if has_none nodes
          then err "Non-cancellation change notice requires at least one change"
          else ok "COMPETITION_CORRECTION")

  unfoldable pub read_change : Option Element → Result String Change
  unfolding required_text check_reference change_reason_codes change_kind mem
  read_change none = ok no_change
  read_change (some changes) = do
    changed ← required_text x changes "efbc:ChangedNoticeIdentifier" "changed notice identifier"
    check_reference x changed
    reason ← required_text x changes "efac:ChangeReason/cbc:ReasonCode" "change reason code"
    reject_if (not (mem reason change_reason_codes)) "Unsupported change reason code"
    lifecycle_kind ← change_kind reason (findall changes "efac:Change")
    ok (record {
      lifecycle_kind = lifecycle_kind;
      changed_reference = some changed;
      change_reason = some reason;
    })

  unfoldable pub parse_contract_notice : Library → String → Element → Result String LifecycleNotice
  unfolding read_change contract_notice_of
  parse_contract_notice lib raw root = do
    parsed ← Ted.parse x lib raw
    change ← read_change (find root (extension ⧺ "efac:Changes"))
    contract_notice_of parsed change

  -- The checks before the tree is read, and the tree.
  unfoldable pub load_root : String → Result String Element
  unfolding has_declaration
  load_root raw = do
    reject_if (is_empty raw) "Procurement lifecycle XML is empty"
    reject_if (ltb max_xml_bytes (byte_length raw)) "Procurement lifecycle XML exceeded size budget"
    reject_if (has_declaration (lower raw)) "DTD and entity declarations are prohibited"
    elim (from_string raw) [
      | none ↦ err "Lifecycle XML is malformed or unsafe"
      | some root ↦ ok root
    ]

  -- The parser of the root's document type.
  unfoldable pub parse_root : Library → String → Element → Result String LifecycleNotice
  unfolding parse_contract_notice parse_result_notice
  parse_root lib raw root =
      let name : String = local_name (tag root) in
      if name == "ContractNotice"
      then parse_contract_notice lib raw root
      else if name == "ContractAwardNotice"
      then parse_result_notice x lib raw root
      else err "Unsupported procurement lifecycle document type"

  unfoldable pub parse : Library → String → Result String LifecycleNotice
  unfolding load_root parse_root
  parse lib raw = do root ← load_root raw; parse_root lib raw root
