-- ===== src/Lifecycle/Parser/Kinds.antt =====
-- What the identity of a parsed notice says: the kind of the notice and what goes with it.
use axignal.Common.{
  ◌≡◌, refl, true, false, String, none, List, [], map, unique, text_le, ok, reject_if, >>=-eq-ok,
  reject_if-eq-ok, ok_injective, arith, ◌==◌, ◌⊎◌, inl, inr, Bool-cases, not, is_empty, subst, ◌⧺◌,
  traverse,
}
use axignal.Common.Sort.{sort_by, IsSortedBy, sort_by-IsSortedBy}
use axignal.Common.Order.{text_le_total, text_le_trans}
use axignal.Common.Json.{Library}
use axignal.Common.Xml.{XmlLibrary}
use axignal.Ted.Parser as Ted
use axignal.Ted.Parser.{extension, has_none}
use axignal.Lifecycle.Notice.{NoticeIdentity, LifecycleNotice, notice_reference}
use axignal.Lifecycle.Parser.{
  read_change, contract_identity, contract_notice_of, parse_contract_notice, load_root, parse_root,
  parse,
}
use axignal.Lifecycle.Parser.Awards.{LotOutcome, Contract}
use axignal.Lifecycle.Parser.Composed.{Header, check_lots, result_notice, result_identity}
use axignal.Lifecycle.Parser.ResultNotice.{
  check_format, read_identity, read_profile, result_element, collect_names, collect_parties,
  collect_tenders, lot_outcome, read_contract, required_text, check_reference, read_header,
  read_result, parse_result_notice,
}
use axignal.Lifecycle.Parser.Changes.{
  OfCompetition, Says, required_text-eq-ok, reference-eq-ok, read_change-Says,
}

module _ (x : XmlLibrary) where
  open x use {Element, find, findall, tag, is_notice_reference, iter, local_name}

  OfResult : NoticeIdentity → Type 0
  OfResult i =
      (i.document_type ≡ "ContractAwardNotice")
      × (i.lifecycle_kind ≡ "PROCEDURE_RESULT")
      × (i.changed_notice_reference ≡ none)
      × (i.change_reason_code ≡ none)
      × (is_notice_reference (notice_reference i) ≡ true)
      × ((own : List String) × (i.lot_ids ≡ sort_by text_le own) × (unique own ≡ true))

  -- A procedure, the lots in order, and one of the four kinds with what goes with it.
  pub Described : NoticeIdentity → Type 0
  Described i =
      (is_empty i.procedure_identifier ≡ false)
      × IsSortedBy text_le i.lot_ids
      × (OfCompetition x i.lifecycle_kind i.changed_notice_reference i.change_reason_code
          ⊎ OfResult i)

  sorted : (lots : List String) → IsSortedBy text_le (sort_by text_le lots)
  sorted lots = sort_by-IsSortedBy text_le text_le_total text_le_trans lots

  contract-Described :
      (lib : Library) (raw : String) (root : Element) (n : LifecycleNotice)
      → parse_contract_notice x lib raw root ≡ ok n
      → Described n.identity
  unfolding parse_contract_notice contract_notice_of contract_identity Described Says
  contract-Described lib raw root n ran =
      let (parsed, _, ran) = >>=-eq-ok (Ted.parse x lib raw) _ ran in
      let (change, says, ran) =
        >>=-eq-ok (read_change x (find root (extension ⧺ "efac:Changes"))) _ ran in
      let i = contract_identity parsed change in
      let (_, full, last) =
        >>=-eq-ok
          (reject_if (is_empty i.procedure_identifier)
            "Lifecycle notice has no procedure identifier")
          _ ran in
      subst (λ m. Described m.identity) (ok_injective last)
        (
          reject_if-eq-ok (is_empty i.procedure_identifier)
              "Lifecycle notice has no procedure identifier" full,
          sorted (map (λ l. l.lot_id) parsed.lots),
          inl (read_change-Says x (find root (extension ⧺ "efac:Changes")) change says),
        )

  read_identity-lem :
      (root : Element) (r : String × String)
      → read_identity x root ≡ ok r
      → is_notice_reference (r.0 ⧺ "-" ⧺ r.1) ≡ true
  unfolding read_identity
  read_identity-lem root r ran =
      let (notice_id, _, ran) =
        >>=-eq-ok (required_text x root "cbc:ID[@schemeName='notice-id']" "notice ID") _ ran in
      let (version, _, ran) =
        >>=-eq-ok (required_text x root "cbc:VersionID" "notice version") _ ran in
      let (_, good, last) = >>=-eq-ok (check_reference x (notice_id ⧺ "-" ⧺ version)) _ ran in
      subst (λ q. is_notice_reference (q.0 ⧺ "-" ⧺ q.1) ≡ true) (ok_injective last)
        (reference-eq-ok x (notice_id ⧺ "-" ⧺ version) good)

  read_header-lem :
      (root : Element) (h : Header)
      → read_header x root ≡ ok h
      → (is_notice_reference (h.notice_id ⧺ "-" ⧺ h.version_id) ≡ true)
        × (is_empty h.procedure_identifier ≡ false)
  unfolding read_header
  read_header-lem root h ran =
      let (_, _, ran) = >>=-eq-ok (check_format x root) _ ran in
      let (r, good, ran) = >>=-eq-ok (read_identity x root) _ ran in
      let (p, _, ran) = >>=-eq-ok (read_profile x root) _ ran in
      let (procedure, full, ran) =
        >>=-eq-ok (required_text x root "cbc:ContractFolderID" "procedure identifier") _ ran in
      let (issued, _, last) = >>=-eq-ok (required_text x root "cbc:IssueDate" "issue date") _ ran in
      subst
        (λ g.
          (is_notice_reference (g.notice_id ⧺ "-" ⧺ g.version_id) ≡ true)
          × (is_empty g.procedure_identifier ≡ false))
        (ok_injective last)
        (
          read_identity-lem root r good,
          required_text-eq-ok x root "cbc:ContractFolderID" "procedure identifier" full,
        )

  check_lots-lem :
      (lots : List LotOutcome) {u : Unit {0}}
      → check_lots lots ≡ ok u
      → unique (map (λ l. l.lot_id) lots) ≡ true
  unfolding check_lots
  check_lots-lem lots ran =
      let (_, _, ran) = >>=-eq-ok (reject_if (has_none lots) _) _ ran in
      let h =
        reject_if-eq-ok (not (unique (map (λ l. l.lot_id) lots)))
          "Result notice repeats a lot result" ran in
      ground arith

  read_result-lem :
      (root : Element) (h : Header) (e : Element) (r : List LotOutcome × List Contract)
      → read_result x root h e ≡ ok r
      → unique (map (λ l. l.lot_id) r.0) ≡ true
  unfolding read_result
  read_result-lem root h e r ran =
      let (organisations, _, ran) =
        >>=-eq-ok
          (collect_names x []
            (findall root (extension ⧺ "efac:Organizations/efac:Organization/efac:Company")))
          _ ran in
      let (parties, _, ran) =
        >>=-eq-ok (collect_parties x [] (findall e "efac:TenderingParty")) _ ran in
      let (tenders, _, ran) = >>=-eq-ok (collect_tenders x [] (findall e "efac:LotTender")) _ ran in
      let (lots, _, ran) =
        >>=-eq-ok
          (traverse (lot_outcome x organisations parties tenders) (findall e "efac:LotResult")) _
          ran in
      let (_, good, ran) = >>=-eq-ok (check_lots lots) _ ran in
      let (_, _, last) =
        >>=-eq-ok
          (traverse (read_contract x h.procedure_identifier) (findall e "efac:SettledContract")) _
          ran in
      subst (λ q. unique (map (λ l. l.lot_id) q.0) ≡ true) (ok_injective last)
        (check_lots-lem lots good)

  result-Described :
      (lib : Library) (raw : String) (root : Element) (n : LifecycleNotice)
      → parse_result_notice x lib raw root ≡ ok n
      → Described n.identity
  unfolding parse_result_notice read_result result_notice result_identity Described OfResult
      notice_reference
  result-Described lib raw root n ran =
      let (h, header, ran) = >>=-eq-ok (read_header x root) _ ran in
      let (e, _, ran) = >>=-eq-ok (result_element x root) _ ran in
      let (r, inner, last) = >>=-eq-ok (read_result x root h e) _ ran in
      let (is_ref, full) = read_header-lem root h header in
      subst (λ m. Described m.identity) (ok_injective last)
        (
          full,
          sorted (map (λ l. l.lot_id) r.0),
          inr (
            refl,
            refl,
            refl,
            refl,
            is_ref,
            (map (λ l. l.lot_id) r.0, refl, read_result-lem root h e r inner),
          ),
        )

  -- What `parse` returns has a procedure and its lots in order. A contract notice is an initial notice
  -- that changes nothing, a cancellation, whose reason is "cancel", or a correction, with one of the
  -- other reasons, and both of these name the notice that they change by a well-formed reference; a
  -- result notice changes nothing, has a well-formed reference itself, and no lot twice.
  pub parse-Described :
      (lib : Library) (raw : String) (n : LifecycleNotice)
      → parse x lib raw ≡ ok n
      → Described n.identity
  unfolding parse parse_root
  parse-Described lib raw n ran =
      let (root, _, ran) = >>=-eq-ok (load_root x raw) _ ran in
      elim (Bool-cases (local_name (tag root) == "ContractNotice")) [
        | inl e ↦ contract-Described lib raw root n (rw (parse_root, e) at ran)
        | inr e ↦ elim (Bool-cases (local_name (tag root) == "ContractAwardNotice")) [
          | inl f ↦ result-Described lib raw root n (rw (parse_root, e, f) at ran)
          | inr f ↦ cc (rw (parse_root, e, f) at ran)
        ]
      ]
