-- ===== src/Lifecycle/Parser/Claimed.antt =====
-- What the claims of one tender say of its winners.
use axignal.Common.{
  ◌≡◌, sym, true, String, some, List, [], ◌∷◌, map, mem, Any, there, ok, reject_if, >>=-eq-ok,
  ok_injective, eq_iff, arith, ◌==◌, inl, inr, Bool-cases, Option-cases, ◌&&◌, subst,
}
use axignal.Common.Dict.{get}
use axignal.Common.Occurrence.{Any-left, Any-right}
use axignal.Rehearsal.Claim.{CandidateClaim}
use axignal.Ted.Parser.{has_none}
use axignal.Lifecycle.Parser.Awards.{
  Tender, Award, award, names_of, resolve_winners, winner_claims, name_claim, tender_of,
  party_winners, awarded_value, value_claim,
}

-- Every name of `w` is claimed.
unfoldable pub Claimed : List (String × List String) → String → List CandidateClaim → Type 0
Claimed organisations w claims =
    (names : List String) × (get w organisations ≡ some names)
    × ((c : CandidateClaim) → Any (λ d. d ≡ c) (map (name_claim w) names) → Any (λ d. d ≡ c) claims)

names_of-eq-ok :
    (w : String) (organisations : List (String × List String)) {names : List String}
    → names_of w organisations ≡ ok names
    → get w organisations ≡ some names
unfolding names_of
names_of-eq-ok w organisations h = elim (Option-cases (get w organisations)) [
  | inl e ↦ cc (rw (names_of, e) at h)
  | inr (a, e) ↦ cc (e, ok_injective (rw (names_of, e) at h))
]

resolve_winners-Claimed :
    (organisations : List (String × List String)) (lot_id : String) (ws : List String)
    {cs : List CandidateClaim} (w : String)
    → resolve_winners organisations lot_id ws ≡ ok cs
    → mem w ws ≡ true
    → Claimed organisations w cs
unfolding resolve_winners Claimed mem winner_claims
resolve_winners-Claimed organisations lot_id [] w ran m = cc m
resolve_winners-Claimed organisations lot_id (v ∷ vs) w ran m =
    let (names, found, ran) = >>=-eq-ok (names_of v organisations) _ ran in
    let (rest, resolved, last) = >>=-eq-ok (resolve_winners organisations lot_id vs) _ ran in
    let same = ok_injective last in
    let names_claims = winner_claims lot_id v names in
    elim (Bool-cases (w == v)) [
      | inl e ↦
          let at_v : w ≡ v = ground (arith, eq_iff w v) in
          (
            names,
            cc (names_of-eq-ok v organisations found, at_v),
            (λ c a.
                subst (λ ds. Any (λ d. d ≡ c) ds) same
                  (Any-left names_claims rest
                    (there (subst (λ u. Any (λ d. d ≡ c) (map (name_claim u) names)) at_v a)))),
          )
      | inr e ↦
          let (own, here_, all) =
            resolve_winners-Claimed organisations lot_id vs w resolved (rw e at m) in
          (
            own,
            here_,
            (λ c a. subst (λ ds. Any (λ d. d ≡ c) ds) same (Any-right names_claims rest (all c a))),
          )
    ]

module _ (organisations parties : List (String × List String)) (tenders : List (String × Tender))
    (status lot_id tender_ref : String) where
  pub award-Claimed :
      {a : Award} (w : String)
      → award organisations parties tenders status lot_id tender_ref ≡ ok a
      → mem w a.winners ≡ true
      → Claimed organisations w a.claims
  unfolding award Claimed
  award-Claimed {a} w ran m =
      let (tender, _, ran) = >>=-eq-ok (tender_of tenders lot_id tender_ref) _ ran in
      let winners = party_winners parties tender.party_id in
      let (_, _, ran) = >>=-eq-ok (reject_if (status == "selec-w" && has_none winners) _) _ ran in
      let (claims, resolved, ran) =
        >>=-eq-ok (resolve_winners organisations lot_id winners) _ ran in
      let (values, _, last) = >>=-eq-ok (awarded_value lot_id tender) _ ran in
      let same = ok_injective last in
      let (names, found, all) =
        resolve_winners-Claimed organisations lot_id winners w resolved
          (subst (λ b. mem w b.winners ≡ true) (sym same) m) in
      (
        names,
        found,
        (λ c o.
            subst (λ b. Any (λ d. d ≡ c) b.claims) same
              (Any-left claims (map (value_claim lot_id) values) (all c o))),
      )
