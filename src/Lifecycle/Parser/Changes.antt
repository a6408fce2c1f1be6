-- ===== src/Lifecycle/Parser/Changes.antt =====
-- What a contract notice says of a change: the kind, the reference and the reason.
use axignal.Common.{
  ◌≡◌, refl, sym, ap, true, false, String, Option, none, some, List, mem, ok, reject_if, >>=-eq-ok,
  reject_if-eq-ok, ok_injective, arith, ◌==◌, ◌⊎◌, inl, inr, Bool-cases, not, is_empty, subst,
  eq_iff,
}
use axignal.Common.Xml.{XmlLibrary, text_of}
use axignal.Ted.Parser.{has_none}
use axignal.Lifecycle.Parser.{Change, change_reason_codes, change_kind, read_change}
use axignal.Lifecycle.Parser.ResultNotice.{required_text, check_reference}

module _ (x : XmlLibrary) where
  open x use {Element, find, findall, tag, is_notice_reference, iter, local_name}

  -- A change: its kind, the notice that it changes and the reason.
  pub Initial : String → Option String → Option String → Type 0
  Initial kind changed reason = (kind ≡ "COMPETITION_INITIAL") × (changed ≡ none) × (reason ≡ none)

  pub Cancellation : String → Option String → Option String → Type 0
  Cancellation kind changed reason =
      (kind ≡ "NOTICE_CANCELLATION")
      × (reason ≡ some "cancel")
      × ((r : String) × (changed ≡ some r) × (is_notice_reference r ≡ true))

  pub Correction : String → Option String → Option String → Type 0
  Correction kind changed reason =
      (kind ≡ "COMPETITION_CORRECTION")
      × ((c : String) × (reason ≡ some c)
          × (mem c change_reason_codes ≡ true)
          × (c == "cancel" ≡ false))
      × ((r : String) × (changed ≡ some r) × (is_notice_reference r ≡ true))

  unfoldable pub OfCompetition : String → Option String → Option String → Type 0
  OfCompetition kind changed reason =
      Initial kind changed reason
      ⊎ (Cancellation kind changed reason ⊎ Correction kind changed reason)

  pub required_text-eq-ok :
      (e : Element) (path label : String) {v : String}
      → required_text x e path label ≡ ok v
      → is_empty v ≡ false
  unfolding required_text
  required_text-eq-ok e path label ran = elim (Bool-cases (is_empty (text_of x (find e path)))) [
    | inl h ↦ cc (rw (required_text, h) at ran)
    | inr h ↦ subst (λ v. is_empty v ≡ false) (ok_injective (rw (required_text, h) at ran)) h
  ]

  pub reference-eq-ok :
      (v : String) {u : Unit {0}} → check_reference x v ≡ ok u → is_notice_reference v ≡ true
  unfolding check_reference
  reference-eq-ok v ran =
      let h =
        reject_if-eq-ok (not (is_notice_reference v)) "Notice reference is not UUID-version" ran in
      ground arith

  change_kind-lem :
      (reason : String) (nodes : List Element) (kind : String)
      → change_kind x reason nodes ≡ ok kind
      → ((kind ≡ "NOTICE_CANCELLATION") × (reason ≡ "cancel"))
        ⊎ ((kind ≡ "COMPETITION_CORRECTION") × (reason == "cancel" ≡ false))
  unfolding change_kind
  change_kind-lem reason nodes kind ran = elim (Bool-cases (reason == "cancel")) [
    | inl e ↦ elim (Bool-cases (has_none nodes)) [
      | inl h ↦ inl (
        sym (ok_injective (rw (change_kind, e, h) at ran)),
        ground (arith, eq_iff reason "cancel"),
      )
      | inr h ↦ cc (rw (change_kind, e, h) at ran)
    ]
    | inr e ↦ elim (Bool-cases (has_none nodes)) [
      | inl h ↦ cc (rw (change_kind, e, h) at ran)
      | inr h ↦ inr (sym (ok_injective (rw (change_kind, e, h) at ran)), e)
    ]
  ]

  unfoldable pub Says : Change → Type 0
  Says c = OfCompetition c.lifecycle_kind c.changed_reference c.change_reason

  pub read_change-Says : (o : Option Element) (c : Change) → read_change x o ≡ ok c → Says c
  unfolding read_change Says OfCompetition Initial Cancellation Correction
  read_change-Says none c ran = subst Says (ok_injective ran) (inl (refl, refl, refl))
  read_change-Says (some e) c ran =
      let (changed, _, ran) =
        >>=-eq-ok (required_text x e "efbc:ChangedNoticeIdentifier" "changed notice identifier") _
          ran in
      let (_, good, ran) = >>=-eq-ok (check_reference x changed) _ ran in
      let (reason, _, ran) =
        >>=-eq-ok (required_text x e "efac:ChangeReason/cbc:ReasonCode" "change reason code") _
          ran in
      let (_, known, ran) =
        >>=-eq-ok
          (reject_if (not (mem reason change_reason_codes)) "Unsupported change reason code") _
          ran in
      let (kind, which, last) = >>=-eq-ok (change_kind x reason (findall e "efac:Change")) _ ran in
      let is_ref = reference-eq-ok changed good in
      let listed =
        reject_if-eq-ok (not (mem reason change_reason_codes)) "Unsupported change reason code"
          known in
      subst Says (ok_injective last)
        (elim (change_kind-lem reason (findall e "efac:Change") kind which) [
          | inl (k, r) ↦ inr (inl (k, ap some r, (changed, refl, is_ref)))
          | inr (k, r) ↦ inr (inr (k, (reason, refl, ground arith, r), (changed, refl, is_ref)))
        ])
