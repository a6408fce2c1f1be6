-- ===== src/Admission/Sources.antt =====
-- admission_source_policy.py: the registered source, the independent parse of the document, and the
-- fragments that are stored for it.
use axignal.Common.{
  String, Bool, true, false, not, ◌&&◌, ◌||◌, Option, none, some, List, [], ◌∷◌, eqb, ◌==◌, ◌⧺◌,
  length, if◌then◌else◌, Result, ok, err, ◌>>=◌, ◌>>◌, reject_if,
}
use axignal.Common.Dict.{get}
use axignal.Common.Json.{Json, boolean, text, number, obj, Fields}
use axignal.Outbox.Payload.{lookup, is_text}
use axignal.Proposals.Types.{ProposalError, InstitutionalDocument, DocumentFragment, ParsedDocument}
use axignal.Proposals.Parser.{canonical_hash, parse}
use axignal.Proposals.Scanner.{inspect}
use axignal.Admission.Types.{
  AdmissionError, integrity_error, policy_error, Package, Source, SourceObject, FragmentRow, Tables,
  AdmissionLibrary,
}
use axignal.Admission.Facts.{allowed_source, index_by, required}
use axignal.Admission.Handoff.{first_where}

unfoldable pub is_false : Option Json → Bool
is_false (some (boolean false)) = true
is_false _ = false

unfoldable pub source_gate : String → String → String → Fields → Result AdmissionError (Unit {0})
unfolding lookup is_text
source_gate key expected current packaged = do
  reject_if (not (current == expected)) (policy_error ("Source gate failed: " ⧺ key))
  reject_if (not (is_text expected (lookup key packaged)))
      (integrity_error ("Source snapshot mismatch: " ⧺ key))

unfoldable pub check_source : Source → Fields → Result AdmissionError (Unit {0})
unfolding source_gate lookup is_false
check_source source packaged = do
  source_gate "admission_state" "ADMITTED" source.admission_state packaged
  source_gate "rights_status" "COMMERCIAL_REUSE_WITH_ATTRIBUTION" source.rights_status packaged
  source_gate "license_id" "CC-BY-4.0" source.license_id packaged
  reject_if (source.kill_switch || not (is_false (lookup "kill_switch" packaged)))
      (policy_error "Source kill switch is enabled")
  reject_if (not source.commercial_use || not source.redistribution)
      (policy_error "Source reuse permissions are incomplete")

unfoldable pub load_source : Fields → List Source → Result AdmissionError Source
unfolding lookup is_text first_where required check_source
load_source packaged sources = do
  reject_if (not (is_text allowed_source (lookup "source_id" packaged)))
      (policy_error "Source is outside the first admission profile")
  source ←
      required "Source registry record is absent"
        (first_where (λ s. s.source_id == allowed_source) sources)
  check_source source packaged
  ok source

unfoldable pub same_fragment : DocumentFragment → DocumentFragment → Bool
same_fragment f g =
    f.fragment_id == g.fragment_id
    && f.document_id == g.document_id
    && eqb f.ordinal g.ordinal
    && f.text == g.text
    && eqb f.start_char g.start_char
    && eqb f.end_char g.end_char
    && f.content_hash == g.content_hash

unfoldable pub same_fragments : List DocumentFragment → List DocumentFragment → Bool
unfolding same_fragment
same_fragments [] [] = true
same_fragments (f ∷ fs) (g ∷ gs) = same_fragment f g && same_fragments fs gs
same_fragments _ _ = false

unfoldable pub row_differs : DocumentFragment → String → FragmentRow → Bool
row_differs f parser_version row =
    not (row.document_id == f.document_id)
    || not (eqb row.ordinal f.ordinal)
    || not (eqb row.start_char f.start_char)
    || not (eqb row.end_char f.end_char)
    || not (row.text_content == f.text)
    || not (row.content_hash == f.content_hash)
    || not (row.parser_version == parser_version)
    || not (row.security_scan_state == "CLEAR")

unfoldable pub is_object_of : InstitutionalDocument → SourceObject → Bool
is_object_of d o = o.source_id == allowed_source && o.content_hash == d.content_hash

unfoldable pub check_document : InstitutionalDocument → Source → Result AdmissionError (Unit {0})
check_document d source = do
  reject_if (not (d.source_id == allowed_source))
      (integrity_error "Document source identity differs")
  reject_if (not (d.rights_status == source.rights_status))
      (integrity_error "Document rights differ from source registry")
  reject_if (not (d.license_id == source.license_id))
      (integrity_error "Document license differs from source registry")

unfoldable pub check_rights : Fields → Source → Result AdmissionError (Unit {0})
unfolding lookup is_text
check_rights rights source = do
  reject_if (not (is_text source.rights_status (lookup "rights_status" rights)))
      (integrity_error "Persisted rights snapshot mismatch: rights_status")
  reject_if (not (is_text source.license_id (lookup "license_id" rights)))
      (integrity_error "Persisted rights snapshot mismatch: license_id")

-- The stored fragments of the document.
unfoldable pub rows_of : SourceObject → InstitutionalDocument → List FragmentRow → List FragmentRow
rows_of raw d [] = []
rows_of raw d (row ∷ rows) =
    let rest = rows_of raw d rows in
    if row.source_object_id == raw.source_object_id && row.document_id == d.document_id
    then row ∷ rest
    else rest

module _ (lib : AdmissionLibrary) where
  -- `InstitutionalDocument.model_validate`
  unfoldable pub valid_document : InstitutionalDocument → Bool
  unfolding canonical_hash
  valid_document d =
      lib.model_validate d
      && canonical_hash lib.proposals (obj (("content", text d.content) ∷ [])) == d.content_hash

  unfoldable pub scanned :
      Result ProposalError ParsedDocument → Result AdmissionError ParsedDocument
  unfolding inspect
  scanned (err e) = err (integrity_error "Document failed independent parse or security validation")
  scanned (ok parsed) = elim (inspect lib.proposals parsed) [
    | err e ↦ err (integrity_error "Document failed independent parse or security validation")
    | ok u ↦ ok parsed
  ]

  unfoldable pub reparse : InstitutionalDocument → Result AdmissionError ParsedDocument
  unfolding valid_document parse scanned
  reparse d = do
    reject_if (not (valid_document d))
        (integrity_error "Document failed independent parse or security validation")
    scanned (parse lib.proposals d)

  unfoldable pub fragment_hash : DocumentFragment → String
  unfolding canonical_hash
  fragment_hash f = canonical_hash lib.proposals (
      obj (
        ("document_id", text f.document_id)
        ∷ ("ordinal", number f.ordinal)
        ∷ ("text", text f.text)
        ∷ []))

  unfoldable pub check_fragment :
      DocumentFragment → Option FragmentRow → Result AdmissionError (Unit {0})
  unfolding fragment_hash row_differs
  check_fragment f none = err (integrity_error "Packaged fragment hash differs")
  check_fragment f (some row) = do
    reject_if (not (fragment_hash f == f.content_hash))
        (integrity_error "Packaged fragment hash differs")
    reject_if (row_differs f "institutional-text-parser@0.1.0" row)
        (integrity_error "Persistent fragment differs from handoff")

  unfoldable pub check_fragments :
      List DocumentFragment → List (String × FragmentRow) → Result AdmissionError (Unit {0})
  unfolding check_fragment get
  check_fragments [] rows = ok tt
  check_fragments (f ∷ fs) rows = do
    check_fragment f (get f.fragment_id rows)
    check_fragments fs rows

  unfoldable pub load_object :
      InstitutionalDocument → Source → List SourceObject → Result AdmissionError SourceObject
  unfolding first_where is_object_of required check_rights
  load_object d source objects = do
    raw ← required "Immutable source object is absent" (first_where (is_object_of d) objects)
    reject_if (not (lib.same_json raw.raw_payload (lib.document_json d)))
        (integrity_error "Raw source object differs from handoff document")
    check_rights raw.rights_snapshot source
    ok raw

  unfoldable pub load_fragments :
      Package
      → SourceObject
      → List FragmentRow
      → Result AdmissionError (List (String × FragmentRow))
  unfolding rows_of index_by check_fragments
  load_fragments p raw table = do
    let rows = rows_of raw p.document table
    let fragments = index_by (λ (r : FragmentRow). r.fragment_id) rows []
    reject_if (not (eqb (length rows) (length p.fragments)))
        (integrity_error "Fragment count differs")
    check_fragments p.fragments fragments
    ok fragments

  unfoldable pub check_reparse : Package → Result AdmissionError (Unit {0})
  unfolding reparse same_fragments
  check_reparse p = do
    parsed ← reparse p.document
    reject_if (not (same_fragments parsed.fragments p.fragments))
        (integrity_error "Fragments do not match independent reparse")

  -- `_load_authoritative_inputs`
  unfoldable pub load_authoritative_inputs :
      Package → Tables → Result AdmissionError (Source × SourceObject × List (String × FragmentRow))
  unfolding load_source check_reparse check_document load_object load_fragments
  load_authoritative_inputs p db = do
    source ← load_source p.source db.sources
    check_reparse p
    check_document p.document source
    raw ← load_object p.document source db.source_objects
    fragments ← load_fragments p raw db.fragments
    ok (source, raw, fragments)
