-- ===== src/Admission/Ledger/Append.antt =====
-- The canonical ledger under the writes of a decision: it only grows, and fingerprints stay unique.
use axignal.Common.{
  String, false, Option, none, some, List, [], ◌∷◌, ◌++◌, append-nil, append_assoc, ◌≡◌, refl, sym,
  ap, ◌∙◌, subst, All, All-append, ◌==◌, Bool-cases, inl, inr, eq_iff, arith,
}
use axignal.Proposals.Parser.{canonical_hash}
use axignal.Admission.Types.{Rederived, CanonicalClaim, Tables, AdmissionLibrary}
use axignal.Admission.Facts.{allowed_subject, allowed_predicate, allowed_unit, rederive, fact_json}
use axignal.Admission.Ledger.{
  claim_with, canonical_claim, insert_claim, write_found, write_canonical,
}

-- No two claims have one fingerprint.
abbrev pub Unique : List CanonicalClaim → Type 0
Unique [] = Unit {0}
Unique (c ∷ cs) = (claim_with c.fingerprint cs ≡ none) × Unique cs

-- A fact of the admission profile, under the hash of what it states.
abbrev pub IsFact : AdmissionLibrary → CanonicalClaim → Type 0
IsFact lib c =
    (c.subject_id ≡ allowed_subject)
    × (c.predicate ≡ allowed_predicate)
    × (c.object_value.unit ≡ allowed_unit)
    × (c.fingerprint
        ≡ canonical_hash lib.proposals
            (fact_json (rederive c.object_value.value c.object_value.period c.evidence_ids)))

-- The ledger `after` is the ledger `before` with further facts behind it, and still has one claim for
-- a fingerprint.
abbrev pub Grows : AdmissionLibrary → List CanonicalClaim → List CanonicalClaim → Type 0
Grows lib before after =
    (added : List CanonicalClaim) × (after ≡ before ++ added)
    × All (IsFact lib) added
    × (Unique before → Unique after)

pub Grows-same :
    (lib : AdmissionLibrary) (before after : List CanonicalClaim)
    → after ≡ before
    → Grows lib before after
Grows-same lib before after e = ([], e ∙ sym (append-nil before), tt, λ u. subst Unique (sym e) u)

pub Grows-trans :
    (lib : AdmissionLibrary) (a b c : List CanonicalClaim)
    → Grows lib a b
    → Grows lib b c
    → Grows lib a c
Grows-trans lib a b c (xs, e, h, u) (ys, f, k, v) = (
  xs ++ ys,
  f ∙ ap (λ t. t ++ ys) e ∙ append_assoc a xs ys,
  All-append (IsFact lib) xs ys h k,
  λ unique. v (u unique),
)

claim_with-append :
    (f : String) (c : CanonicalClaim) (cs : List CanonicalClaim)
    → claim_with f cs ≡ none
    → (c.fingerprint == f) ≡ false
    → claim_with f (cs ++ c ∷ []) ≡ none
unfolding claim_with
claim_with-append f c [] h other = rw other refl
claim_with-append f c (x ∷ xs) h other = elim (Bool-cases (x.fingerprint == f)) [
  | inl same ↦ absurd (cc (rw same at h))
  | inr differs ↦ rw differs (claim_with-append f c xs (rw differs at h) other)
]

different :
    (x c : CanonicalClaim) (cs : List CanonicalClaim)
    → claim_with c.fingerprint (x ∷ cs) ≡ none
    → ((c.fingerprint == x.fingerprint) ≡ false) × (claim_with c.fingerprint cs ≡ none)
unfolding claim_with
different x c cs h = elim (Bool-cases (x.fingerprint == c.fingerprint)) [
  | inl same ↦ absurd (cc (rw same at h))
  | inr differs ↦ (
    ground (arith, eq_iff c.fingerprint x.fingerprint, eq_iff x.fingerprint c.fingerprint),
    rw differs at h,
  )
]

Unique-append :
    (cs : List CanonicalClaim) (c : CanonicalClaim)
    → Unique cs
    → claim_with c.fingerprint cs ≡ none
    → Unique (cs ++ c ∷ [])
Unique-append [] c u fresh = (unfold claim_with in refl, tt)
Unique-append (x ∷ xs) c (h, u) fresh =
    let (other, fresh') = different x c xs fresh in
    (claim_with-append x.fingerprint c xs h other, Unique-append xs c u fresh')

-- A fact, as `_evaluate_candidate` rederives it and `_write_canonical` writes it.
abbrev pub Facts : AdmissionLibrary → Rederived → String → Type 0
Facts lib r fingerprint =
    (r ≡ rederive r.object_value.value r.object_value.period r.evidence_ids)
    × (fingerprint ≡ canonical_hash lib.proposals (fact_json r))

canonical_claim-IsFact :
    (lib : AdmissionLibrary) (batch_id new_id : String) (r : Rederived) (fingerprint : String)
    → Facts lib r fingerprint
    → IsFact lib (canonical_claim batch_id new_id r fingerprint)
unfolding canonical_claim rederive
canonical_claim-IsFact lib batch_id new_id r fingerprint (e, f) = (
  ap (λ (x : Rederived). x.subject_id) e,
  ap (λ (x : Rederived). x.predicate) e,
  ap (λ (x : Rederived). x.object_value.unit) e,
  f ∙ ap (λ (x : Rederived). canonical_hash lib.proposals (fact_json x)) e,
)

write_found-Grows :
    (lib : AdmissionLibrary) (o : Option CanonicalClaim) (c : CanonicalClaim) (db : Tables)
    → claim_with c.fingerprint db.canonical_claims ≡ o
    → IsFact lib c
    → Grows lib db.canonical_claims (write_found o c db).1.canonical_claims
unfolding write_found insert_claim
write_found-Grows lib (some old) c db found h =
    Grows-same lib db.canonical_claims db.canonical_claims refl
write_found-Grows lib none c db fresh h =
    (c ∷ [], refl, (h, tt), λ u. Unique-append db.canonical_claims c u fresh)

pub write_canonical-Grows :
    (lib : AdmissionLibrary) (batch_id new_id : String) (r : Rederived) (fingerprint : String)
    (db : Tables)
    → Facts lib r fingerprint
    → Grows lib db.canonical_claims
        (write_canonical batch_id new_id r fingerprint db).1.canonical_claims
unfolding write_canonical
write_canonical-Grows lib batch_id new_id r fingerprint db h =
    write_found-Grows lib (claim_with fingerprint db.canonical_claims)
      (canonical_claim batch_id new_id r fingerprint) db (unfold canonical_claim in refl)
      (canonical_claim-IsFact lib batch_id new_id r fingerprint h)
