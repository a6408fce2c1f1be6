-- ===== src/Lifecycle/Dossier/Traceable.antt =====
-- The evidence that a dossier cites for its claims.
use axignal.Common.{
  ◌≡◌, refl, String, inl, inr, some, List, [], ◌∷◌, map, arith, eq_iff, eq_refl, ok, traverse,
  traverse-cons, All, All-append, All-append-split, All-weaken, Any, here, there, Matched,
  none_left, pair, Option-cases, Bool-cases,
}
use axignal.Common.Json.{Library}
use axignal.Rehearsal.Claim.{CandidateClaim, fingerprint}
use axignal.Rehearsal.Decision.{AdmissionDecision}
use axignal.Lifecycle.Notice.{LifecycleNotice, reference}
use axignal.Lifecycle.Evidence.{EvidenceObject, bindings, evidence_of, build_evidence}
use axignal.Lifecycle.Evidence.Bound.{build_evidence_iff}
use axignal.Lifecycle.Dossier.{
  Dossier, DossierSection, find_evidence, cite, result_notices, is_result, build_dossier,
  dossier_of, sections_of,
}

-- `k` is the key of an Evidence Object of the reference `r` and the fingerprint `f`.
pub record IsKeyOf (r f k : String) (e : EvidenceObject) : Type 0 where
  pub reference_eq : e.notice_reference ≡ r
  pub fingerprint_eq : e.claim_fingerprint ≡ f
  pub key_eq : e.evidence_key ≡ k

find_evidence_sound :
    (r f k : String) (es : List EvidenceObject)
    → find_evidence r f es ≡ some k
    → Any (IsKeyOf r f k) es
unfolding find_evidence
find_evidence_sound r f k [] h = cc
find_evidence_sound r f k (e ∷ es) h = elim (Option-cases (find_evidence r f es)) [
  | inr (k', found) ↦ there (find_evidence_sound r f k es (cc (found, rw found at h)))
  | inl missing ↦ here record {
    reference_eq = ground (arith, eq_iff e.notice_reference r);
    fingerprint_eq = ground (arith, eq_iff e.claim_fingerprint f);
    key_eq = ground arith;
  }
]

find_evidence_complete :
    (r f k : String) (es : List EvidenceObject)
    → Any (IsKeyOf r f k) es
    → (k' : String) × (find_evidence r f es ≡ some k')
unfolding find_evidence
find_evidence_complete r f k [] a = elim a [ ]
find_evidence_complete r f k (e ∷ es) a = elim (Option-cases (find_evidence r f es)) [
  | inr (k', found) ↦ (k', rw found)
  | inl missing ↦ elim a [
    | here p ↦
        (e.evidence_key, rw (missing, p.reference_eq, p.fingerprint_eq, eq_refl r, eq_refl f))
    | there later ↦
        let (k', found) = find_evidence_complete r f k es later in absurd (cc (missing, found))
  ]
]

module _ (lib : Library) where
  -- `k` is the key of an Evidence Object of the claim and the notice of `b`.
  abbrev pub IsCited : List EvidenceObject → LifecycleNotice × CandidateClaim → String → Type 0
  IsCited es b k = Any (IsKeyOf (reference b.0) (fingerprint lib b.1) k) es

  abbrev HasEvidence : List EvidenceObject → LifecycleNotice × CandidateClaim → Type 0
  HasEvidence es b = (k : String) × IsCited es b k

  HasEvidence-own :
      (bs : List (LifecycleNotice × CandidateClaim))
      → All (HasEvidence (map (evidence_of lib) bs)) bs
  unfolding evidence_of
  HasEvidence-own [] = tt
  HasEvidence-own (b ∷ bs) = (
    (_, here record { reference_eq = refl; fingerprint_eq = refl; key_eq = refl }),
    All-weaken _ _ (λ c (k, a). (k, there a)) bs (HasEvidence-own bs),
  )

  cite-found :
      (es : List EvidenceObject) (b : LifecycleNotice × CandidateClaim) {k : String}
      → find_evidence (reference b.0) (fingerprint lib b.1) es ≡ some k
      → cite lib es b ≡ ok k
  unfolding cite
  cite-found es b h = ground arith

  cites :
      (es : List EvidenceObject) (bs : List (LifecycleNotice × CandidateClaim))
      → All (HasEvidence es) bs
      → (ks : List String) × (traverse (cite lib es) bs ≡ ok ks) × Matched (IsCited es) bs ks
  unfolding traverse
  cites es [] a = ([], refl, none_left)
  cites es (b ∷ bs) ((k, own), rest) =
      let (k', found) = find_evidence_complete (reference b.0) (fingerprint lib b.1) k es own in
      let (ks, all_found, matched) = cites es bs rest in
      (
        k' ∷ ks,
        traverse-cons (cite lib es) b bs (cite-found es b found) all_found,
        pair (find_evidence_sound (reference b.0) (fingerprint lib b.1) k' es found) matched,
      )

  result_notices-evidence :
      (P : LifecycleNotice × CandidateClaim → Type 0) (ns : List LifecycleNotice)
      → All P (bindings ns)
      → All P (bindings (result_notices ns))
  unfolding bindings result_notices
  result_notices-evidence P [] a = tt
  result_notices-evidence P (n ∷ ns) a =
      let (own, rest) = All-append-split P (map (λ c. (n, c)) n.claims) (bindings ns) a in
      let later = result_notices-evidence P ns rest in
      elim (Bool-cases (is_result n)) [
        | inl e ↦
            rw e
              (All-append P (map (λ c. (n, c)) n.claims) (bindings (result_notices ns)) own later)
        | inr e ↦ rw e later
      ]

  -- The section lists the fingerprints of the claims of `ns`, and in the same order a key of an Evidence
  -- Object of each.
  pub record Lists (es : List EvidenceObject) (ns : List LifecycleNotice) (section : DossierSection)
      : Type 0 where
    pub fingerprints_eq : section.claim_fingerprints ≡ map (λ b. fingerprint lib b.1) (bindings ns)
    pub keys_cited : Matched (IsCited es) (bindings ns) section.evidence_keys

  -- Three sections: on all notices, on the results, and on the decisions, with the keys of the evidence
  -- of all notices.
  abbrev pub AreBacked :
      List EvidenceObject
      → List LifecycleNotice
      → List AdmissionDecision
      → List DossierSection
      → Type 0
  AreBacked es ns decisions (lifecycle ∷ result ∷ admission ∷ []) =
      Lists es ns lifecycle
      × Lists es (result_notices ns) result
      × (admission.claim_fingerprints
          ≡ map (λ (a : AdmissionDecision). a.candidate_fingerprint) decisions)
      × Matched (IsCited es) (bindings ns) admission.evidence_keys
  AreBacked es ns decisions _ = ⊥

  -- The dossier is on the notices `ns`, with the evidence `es`.
  pub record IsBacked (ns : List LifecycleNotice) (es : List EvidenceObject)
      (decisions : List AdmissionDecision) (d : Dossier) : Type 0 where
    pub references_eq : d.notice_references ≡ map reference ns
    pub traced : AreBacked es ns decisions d.sections

  -- When the evidence was built from the notices, the dossier is always built, as no lookup of a
  -- claim's evidence fails. Its first section lists the claims of all notices and its second those
  -- of the results, each with the key of an Evidence Object of the same notice and the same claim;
  -- its third lists the decisions with the keys of the evidence of all notices.
  pub build_dossier-traceable :
      (n : LifecycleNotice) (ns : List LifecycleNotice) (es : List EvidenceObject)
      (decisions : List AdmissionDecision)
      → build_evidence lib (n ∷ ns) ≡ ok es
      → (d : Dossier) × (build_dossier lib (n ∷ ns) es decisions ≡ ok d)
        × IsBacked (n ∷ ns) es decisions d
  unfolding build_dossier dossier_of sections_of
  build_dossier-traceable n ns es decisions h =
      let own : All (HasEvidence es) (bindings (n ∷ ns)) =
        rw ((build_evidence_iff lib (n ∷ ns) es).0 h).0 (HasEvidence-own (bindings (n ∷ ns))) in
      let (all_keys, found, matched) = cites es (bindings (n ∷ ns)) own in
      let (result_keys, found', matched') =
        cites es (bindings (result_notices (n ∷ ns)))
          (result_notices-evidence (HasEvidence es) (n ∷ ns) own) in
      let sections =
        sections_of lib (n ∷ ns) (result_notices (n ∷ ns)) decisions all_keys result_keys in
      (
        dossier_of lib n.identity.procedure_identifier (n ∷ ns) sections,
        rw (found, found') refl,
        record {
          references_eq = refl;
          traced = (
            record { fingerprints_eq = refl; keys_cited = matched },
            record { fingerprints_eq = refl; keys_cited = matched' },
            refl,
            matched,
          );
        },
      )
