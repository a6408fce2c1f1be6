-- ===== src/Lifecycle/Parser/Awards.antt =====
-- `_parse_result_notice`: what a tender adds to the result of its lot.
use axignal.Common.{
  ℕ, String, Bool, true, ◌&&◌, Option, none, some, List, [], ◌∷◌, ◌++◌, map, mem, ◌⧺◌, ◌==◌,
  is_empty, if◌then◌else◌, Result, ok, err, reject_if, ◌>>=◌, ◌>>◌,
}
use axignal.Common.Json.{text, obj}
use axignal.Common.Dict.{get}
use axignal.Rehearsal.Claim.{CandidateClaim}
use axignal.Ted.{claim}
use axignal.Ted.Parser.{has_none}

unfoldable pub winner_selection_codes : List String
winner_selection_codes = "clos-nw" ∷ "open-nw" ∷ "selec-w" ∷ []

-- A value of the dictionary `tenders`.
pub record Tender : Type 0 where
  pub party_id : Option String
  pub lot_id : String
  pub amount : Option String
  pub currency : Option String

-- What one tender adds to the result: the winners, the claims and the awarded value.
pub record Award : Type 0 where
  pub winners : List String
  pub claims : List CandidateClaim
  pub values : List (String × String)

-- What one lot result adds.
pub record LotOutcome : Type 0 where
  pub lot_id : String
  pub status : String
  pub counts : List ℕ
  pub awards : List Award
  pub claims : List CandidateClaim

pub record Contract : Type 0 where
  pub contract_id : String
  pub award_dates : List String
  pub claims : List CandidateClaim

-- `dict.fromkeys(xs)`: the texts in the order of first occurrence.
unfoldable pub from_keys : List String → List String → List String
unfolding mem
from_keys seen [] = []
from_keys seen (s ∷ ss) = if mem s seen then from_keys seen ss else s ∷ from_keys (s ∷ seen) ss

abbrev pub name_claim : String → String → CandidateClaim
name_claim winner name = claim "procurement_winner_official_name" winner (text name) (
    "/ContractAwardNotice/.../efac:Organizations/"
    ⧺ "efac:Organization/efac:Company/cac:PartyName/cbc:Name")

-- The claims on one winner: its reference for this lot, and its names.
unfoldable pub winner_claims : String → String → List String → List CandidateClaim
winner_claims lot_id winner names =
    claim "procurement_winner_organisation_ref" lot_id (text winner)
      ("/ContractAwardNotice/.../efac:TenderingParty/" ⧺ "efac:Tenderer/cbc:ID")
    ∷ map (name_claim winner) names

-- `organisation_names[winner_ref]`
unfoldable pub names_of : String → List (String × List String) → Result String (List String)
unfolding get
names_of w organisations = elim (get w organisations) [
  | none ↦ err "Winner organisation reference is unresolved"
  | some names ↦ ok names
]

-- The loop over the winners of one tender.
unfoldable pub resolve_winners :
    List (String × List String) → String → List String → Result String (List CandidateClaim)
unfolding names_of winner_claims
resolve_winners organisations lot_id [] = ok []
resolve_winners organisations lot_id (w ∷ ws) = do
  names ← names_of w organisations
  rest ← resolve_winners organisations lot_id ws
  ok (winner_claims lot_id w names ++ rest)

abbrev pub or_empty : Option String → String
or_empty none = ""
or_empty (some s) = s

-- `tendering_parties.get(party_id or "", ())`
unfoldable pub party_winners : List (String × List String) → Option String → List String
unfolding get
party_winners parties party_id = elim (get (or_empty party_id) parties) [
  | none ↦ []
  | some winners ↦ winners
]

-- `not tender["currency"]`
abbrev pub lacks : Option String → Bool
lacks none = true
lacks (some s) = is_empty s

unfoldable pub awarded_value : String → Tender → Result String (List (String × String))
awarded_value lot_id t = elim t.amount [
  | none ↦ ok []
  | some amount ↦
      if lacks t.currency
      then err "Awarded value has no currency"
      else ok ((amount, or_empty t.currency) ∷ [])
]

abbrev pub value_claim : String → String × String → CandidateClaim
value_claim lot_id v =
    claim "procurement_awarded_value" lot_id
      (obj (("amount", text v.0) ∷ ("currency", text v.1) ∷ []))
      ("/ContractAwardNotice/.../efac:LotTender/" ⧺ "cac:LegalMonetaryTotal/cbc:PayableAmount")

-- `tenders.get(tender_ref)`, of the lot itself.
unfoldable pub tender_of : List (String × Tender) → String → String → Result String Tender
unfolding get
tender_of tenders lot_id tender_ref = elim (get tender_ref tenders) [
  | none ↦ err "Lot result tender reference is unresolved or cross-lot"
  | some t ↦
      if t.lot_id == lot_id
      then ok t
      else err "Lot result tender reference is unresolved or cross-lot"
]

-- The body of the loop over the tenders of one lot.
unfoldable pub award :
    List (String × List String)
    → List (String × List String)
    → List (String × Tender)
    → String
    → String
    → String
    → Result String Award
unfolding tender_of party_winners resolve_winners awarded_value
award organisations parties tenders status lot_id tender_ref = do
  tender ← tender_of tenders lot_id tender_ref
  let winners = party_winners parties tender.party_id
  reject_if (status == "selec-w" && has_none winners)
      "Winning tender has no resolved tendering party"
  winner_claims ← resolve_winners organisations lot_id winners
  values ← awarded_value lot_id tender
  ok (record {
    winners = winners;
    claims = winner_claims ++ map (value_claim lot_id) values;
    values = values;
  })
