-- ===== src/Lifecycle/Parser/Winners.antt =====
-- The winners of a result notice, and what becomes of one that wins two lots.
use axignal.Common.{
  ◌≡◌, refl, sym, ◌∙◌, ap, true, false, ℕ, String, Option, some, List, [], ◌∷◌, ◌++◌, map, mem, Any,
  here, there, err, ok, reject_if, >>=-eq-ok, reject_if-eq-ok, ok_injective, traverse, ◌==◌, inl,
  inr, Bool-cases, is_none, not, ◌&&◌, ◌⧺◌, subst,
}
use mathlib.Core.List.{flatten}
use axignal.Common.Json.{Library}
use axignal.Common.Dict.{get, put, get-put}
use axignal.Common.Occurrence.{
  Twice, later, Any-left, Any-right, Twice-left, Twice-flatten, traverse-Any, traverse-Twice,
  Twice→Any, Any-item,
}
use axignal.Common.Xml.{XmlLibrary, found_texts}
use axignal.Rehearsal.Claim.{CandidateClaim}
use axignal.Ted.Parser.{extension, has_none}
use axignal.Lifecycle.Notice.{LifecycleNotice, duplicate_evidence_key}
use axignal.Lifecycle.Evidence.{build_evidence}
use axignal.Lifecycle.Evidence.Repeated.{build_evidence-Twice}
use axignal.Lifecycle.Parser.Composed.{Header, check_lots, result_notice}
use axignal.Lifecycle.Parser.ResultNotice.{
  required_text, collect_names, collect_parties, collect_tenders, read_contract, lot_outcome,
  read_result, statistic_counts,
}
use axignal.Lifecycle.Parser.Awards.{
  Tender, Award, LotOutcome, Contract, award, name_claim, winner_selection_codes,
}
use axignal.Lifecycle.Parser.Claimed.{Claimed, award-Claimed}

-- Every organisation of the dictionary has a name.
Named : List (String × List String) → Type 0
Named organisations =
    (w : String) (names : List String) → get w organisations ≡ some names → has_none names ≡ false

Named-put :
    (k : String) (own : List String) (organisations : List (String × List String))
    → has_none own ≡ false
    → Named organisations
    → Named (put k own organisations)
unfolding Named
Named-put k own organisations h named w names found = elim (Bool-cases (k == w)) [
  | inl e ↦ cc (h, rw (get-put k w own organisations, e) at found)
  | inr e ↦ named w names (rw (get-put k w own organisations, e) at found)
]

no_names : Named []
unfolding Named get
no_names w names found = cc found

some_injective : {A : Type 0} {a b : A} → ◌≡◌ {A = Option A} (some a) (some b) → a ≡ b
some_injective h = cc h

-- `w` is one of the winners of a tender of the lot.
unfoldable pub Wins : String → LotOutcome → Type 0
Wins w l = Any (λ a. mem w a.winners ≡ true) l.awards

Claimed-flatten :
    (organisations : List (String × List String)) (w : String) (awards : List Award)
    → Any (λ a. Claimed organisations w a.claims) awards
    → Claimed organisations w (flatten (map (λ a. a.claims) awards))
unfolding Claimed flatten
Claimed-flatten organisations w [] o = elim o [ ]
Claimed-flatten organisations w (a ∷ awards) (here (names, found, all)) =
    (names, found, (λ c o. Any-left a.claims (flatten (map (λ b. b.claims) awards)) (all c o)))
Claimed-flatten organisations w (a ∷ awards) (there o) =
    let (names, found, all) = Claimed-flatten organisations w awards o in
    (names, found, (λ c p. Any-right a.claims (flatten (map (λ b. b.claims) awards)) (all c p)))

module _ (x : XmlLibrary) where
  open x use {Element, findall}

  collect_names-Named :
      (cs : List Element) (names : List (String × List String)) {out : List (String × List String)}
      → collect_names x names cs ≡ ok out
      → Named names
      → Named out
  unfolding collect_names
  collect_names-Named [] names ran named = subst Named (ok_injective ran) named
  collect_names-Named (c ∷ cs) names ran named =
      let (k, _, ran) =
        >>=-eq-ok
          (required_text x c "cac:PartyIdentification/cbc:ID[@schemeName='organization']"
            "organisation ID")
          _ ran in
      let (_, _, ran) = >>=-eq-ok (reject_if (not (is_none (get k names))) _) _ ran in
      let own = found_texts x c "cac:PartyName/cbc:Name" in
      let (_, full, ran) =
        >>=-eq-ok (reject_if (has_none own) "Organisation has no official name") _ ran in
      collect_names-Named cs (put k own names) ran (
        Named-put k own names
          (reject_if-eq-ok (has_none own) "Organisation has no official name" full) named)

  module _ (organisations parties : List (String × List String))
      (tenders : List (String × Tender)) where
    lot_outcome-Claimed :
        (lot : Element) (l : LotOutcome) (w : String)
        → lot_outcome x organisations parties tenders lot ≡ ok l
        → Wins w l
        → Claimed organisations w l.claims
    unfolding lot_outcome Wins Claimed
    lot_outcome-Claimed lot l w ran wins =
        let (result_id, _, ran) =
          >>=-eq-ok (required_text x lot "cbc:ID[@schemeName='result']" "lot result ID") _ ran in
        let (status, _, ran) =
          >>=-eq-ok (required_text x lot "cbc:TenderResultCode" "winner selection status") _ ran in
        let (_, _, ran) = >>=-eq-ok (reject_if (not (mem status winner_selection_codes)) _) _ ran in
        let (lot_id, _, ran) =
          >>=-eq-ok (required_text x lot "efac:TenderLot/cbc:ID[@schemeName='Lot']" "result lot ID")
            _ ran in
        let (counts, _, ran) =
          >>=-eq-ok
            (traverse (statistic_counts x) (findall lot "efac:ReceivedSubmissionsStatistics")) _
            ran in
        let refs = found_texts x lot "efac:LotTender/cbc:ID[@schemeName='tender']" in
        let (_, _, ran) = >>=-eq-ok (reject_if (status == "selec-w" && has_none refs) _) _ ran in
        let (awards, each, last) =
          >>=-eq-ok (traverse (award organisations parties tenders status lot_id) refs) _ ran in
        let same = ok_injective last in
        let (names, found, all) = Claimed-flatten organisations w awards (
          traverse-Any (award organisations parties tenders status lot_id)
            (λ r a run m. award-Claimed organisations parties tenders status lot_id r w run m) refs
            awards each (subst (Wins w) (sym same) wins)) in
        (
          names,
          found,
          (λ c o.
              subst (λ k. Any (λ d. d ≡ c) k.claims) same
                (there (there (Any-right _ _ (all c o))))),
        )

  -- The first name claim of the winner is made for each of the two lots.
  Claimed-Twice :
      (organisations : List (String × List String)) (w : String) (lots : List LotOutcome)
      → Named organisations
      → Twice (λ l. Claimed organisations w l.claims) lots
      → (c : CandidateClaim) × Twice (λ d. d ≡ c) (flatten (map (λ l. l.claims) lots))
  unfolding Claimed Named
  Claimed-Twice organisations w lots named t =
      let (_, one) = Any-item lots (Twice→Any lots t) in
      let (names, found, _) = one in from_names names found (named w names found)
    where
      from_names :
          (names : List String)
          → get w organisations ≡ some names
          → has_none names ≡ false
          → (c : CandidateClaim) × Twice (λ d. d ≡ c) (flatten (map (λ l. l.claims) lots))
      from_names [] found full = cc full
      from_names (n ∷ ns) found full = (
        name_claim w n,
        Twice-flatten (λ l. l.claims)
            (λ l claimed.
              let (own, at, all) = claimed in
              all (name_claim w n) (
                subst (λ o. Any (λ d. d ≡ name_claim w n) (map (name_claim w) o))
                  (some_injective (sym found ∙ at)) (here refl)))
            lots t,
      )

  -- An organisation that won two lots makes its official name a claim twice, and no evidence is built
  -- from a result notice that makes one claim twice: for the lots and contracts that `read_result`
  -- reads, if one organisation is among the winners of two of the lots, building the evidence of any
  -- notices with this one among them raises "Duplicate Evidence Object key".
  pub winner_of_two_lots_err :
      (lib : Library) (raw : String) (root : Element) (h : Header) (e : Element)
      (lots : List LotOutcome) (contracts : List Contract) (personal : ℕ) (w : String)
      (before after : List LifecycleNotice)
      → read_result x root h e ≡ ok (lots, contracts)
      → Twice (Wins w) lots
      → build_evidence lib (before ++ result_notice lib raw h lots contracts personal ∷ after)
        ≡ err duplicate_evidence_key
  unfolding read_result result_notice
  winner_of_two_lots_err lib raw root h e lots contracts personal w before after ran twice =
      let (organisations, names, ran) =
        >>=-eq-ok
          (collect_names x []
            (findall root (extension ⧺ "efac:Organizations/efac:Organization/efac:Company")))
          _ ran in
      let (parties, _, ran) =
        >>=-eq-ok (collect_parties x [] (findall e "efac:TenderingParty")) _ ran in
      let (tenders, _, ran) = >>=-eq-ok (collect_tenders x [] (findall e "efac:LotTender")) _ ran in
      let (own, each, ran) =
        >>=-eq-ok
          (traverse (lot_outcome x organisations parties tenders) (findall e "efac:LotResult")) _
          ran in
      let (_, _, ran) = >>=-eq-ok (check_lots own) _ ran in
      let (_, _, last) =
        >>=-eq-ok
          (traverse (read_contract x h.procedure_identifier) (findall e "efac:SettledContract")) _
          ran in
      let same : own ≡ lots = ap (λ p. p.0) (ok_injective last) in
      let (c, two) = Claimed-Twice organisations w lots (collect_names-Named _ [] names no_names) (
        traverse-Twice (lot_outcome x organisations parties tenders)
          (λ lot l run wins. lot_outcome-Claimed organisations parties tenders lot l w run wins)
          (findall e "efac:LotResult") lots (each ∙ ap ok same) twice) in
      build_evidence-Twice lib c _ before after (
        later (
          Twice-left (flatten (map (λ l. l.claims) lots)) (flatten (map (λ k. k.claims) contracts))
            two))
