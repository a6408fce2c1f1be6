-- ===== src/Lifecycle/Evidence/Bound.antt =====
-- Which Evidence Objects are built, and when the building fails.
use axignal.Common.{
  ◌≡◌, refl, sym, ◌↔◌, String, List, [], ◌∷◌, map, mem, ok, >>=-eq-ok, ok_injective, Bool-cases,
  inl, inr,
}
use axignal.Common.Json.{Library}
use axignal.Rehearsal.Claim.{CandidateClaim}
use axignal.Lifecycle.Notice.{LifecycleNotice}
use axignal.Lifecycle.Evidence.{EvidenceObject, bindings, evidence_of, collect, build_evidence}
use axignal.Lifecycle.Lineage.Guarantees.{Fresh}

abbrev pub keys : List EvidenceObject → List String
keys = map (λ e. e.evidence_key)

module _ (lib : Library) where
  collect_sound :
      (bs : List (LifecycleNotice × CandidateClaim)) (seen : List String) {es : List EvidenceObject}
      → collect lib bs seen ≡ ok es
      → (es ≡ map (evidence_of lib) bs) × Fresh seen (keys (map (evidence_of lib) bs))
  unfolding collect
  collect_sound [] seen h = (sym (ok_injective h), tt)
  collect_sound (b ∷ bs) seen h = elim (Bool-cases (mem (evidence_of lib b).evidence_key seen)) [
    | inl e ↦ cc (rw e at h)
    | inr e ↦
        let k = (evidence_of lib b).evidence_key in
        let (rest, f, last) =
          >>=-eq-ok (collect lib bs (k ∷ seen)) (λ r. ok (evidence_of lib b ∷ r)) (rw e at h) in
        let (same, fresh) = collect_sound bs (k ∷ seen) f in
        (cc (ok_injective last, same), (e, fresh))
  ]

  collect_complete :
      (bs : List (LifecycleNotice × CandidateClaim)) (seen : List String)
      → Fresh seen (keys (map (evidence_of lib) bs))
      → collect lib bs seen ≡ ok (map (evidence_of lib) bs)
  unfolding collect
  collect_complete [] seen f = refl
  collect_complete (b ∷ bs) seen f =
      rw (f.0, collect_complete bs ((evidence_of lib b).evidence_key ∷ seen) f.1) refl

  -- Building succeeds exactly when no two claims get one key, and then gives each claim of each
  -- notice its Evidence Object, in order.
  pub build_evidence_iff :
      (ns : List LifecycleNotice) (es : List EvidenceObject)
      → (build_evidence lib ns ≡ ok es)
        ↔ ((es ≡ map (evidence_of lib) (bindings ns)) × Fresh [] (keys es))
  unfolding build_evidence
  build_evidence_iff ns es = (
    (λ h. let (same, fresh) = collect_sound (bindings ns) [] h in (same, rw same fresh)),
    (λ (same, fresh). rw same (collect_complete (bindings ns) [] (rw same at fresh))),
  )
