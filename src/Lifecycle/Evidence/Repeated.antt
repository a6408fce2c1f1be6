-- ===== src/Lifecycle/Evidence/Repeated.antt =====
-- A claim that stands twice in one notice: its second Evidence Object has the key of the first.
use axignal.Common.{
  ◌≡◌, refl, true, String, List, [], ◌∷◌, ◌++◌, map, mem, Any, here, there, err, Bool-cases, inl,
  inr, eq_iff, arith, ap,
}
use axignal.Common.Json.{Library}
use axignal.Common.Occurrence.{Twice, now, later, Twice-map, Twice-left, Twice-right}
use axignal.Rehearsal.Claim.{CandidateClaim}
use axignal.Lifecycle.Notice.{LifecycleNotice, duplicate_evidence_key}
use axignal.Lifecycle.Evidence.{bindings, evidence_of, collect, build_evidence}

mem_later : (k s : String) (seen : List String) → mem k seen ≡ true → mem k (s ∷ seen) ≡ true
unfolding mem
mem_later k s seen h = ground arith

mem_now : (k s : String) (seen : List String) → s ≡ k → mem k (s ∷ seen) ≡ true
unfolding mem
mem_now k s seen h = ground (arith, eq_iff k s)

module _ (lib : Library) where
  HasKey : String → LifecycleNotice × CandidateClaim → Type 0
  HasKey k b = (evidence_of lib b).evidence_key ≡ k

  collect_seen :
      (k : String) (bs : List (LifecycleNotice × CandidateClaim)) (seen : List String)
      → mem k seen ≡ true
      → Any (HasKey k) bs
      → collect lib bs seen ≡ err duplicate_evidence_key
  unfolding collect HasKey
  collect_seen k [] seen h a = elim a [ ]
  collect_seen k (b ∷ bs) seen h (here e) = rw (e, h) refl
  collect_seen k (b ∷ bs) seen h (there a) =
      let key = (evidence_of lib b).evidence_key in
      elim (Bool-cases (mem key seen)) [
        | inl e ↦ rw e refl
        | inr e ↦ rw (e, collect_seen k bs (key ∷ seen) (mem_later k key seen h) a) refl
      ]

  collect-Twice :
      (k : String) (bs : List (LifecycleNotice × CandidateClaim)) (seen : List String)
      → Twice (HasKey k) bs
      → collect lib bs seen ≡ err duplicate_evidence_key
  unfolding collect HasKey
  collect-Twice k [] seen t = elim t [ ]
  collect-Twice k (b ∷ bs) seen (now e a) =
      let key = (evidence_of lib b).evidence_key in
      elim (Bool-cases (mem key seen)) [
        | inl m ↦ rw m refl
        | inr m ↦ rw (m, collect_seen k bs (key ∷ seen) (mem_now k key seen e) a) refl
      ]
  collect-Twice k (b ∷ bs) seen (later t) =
      let key = (evidence_of lib b).evidence_key in
      elim (Bool-cases (mem key seen)) [
        | inl m ↦ rw m refl
        | inr m ↦ rw (m, collect-Twice k bs (key ∷ seen) t) refl
      ]

  Twice-bindings :
      (c : CandidateClaim) (n : LifecycleNotice) (before after : List LifecycleNotice)
      → Twice (λ d. d ≡ c) n.claims
      → Twice (HasKey (evidence_of lib (n, c)).evidence_key) (bindings (before ++ n ∷ after))
  unfolding bindings HasKey
  Twice-bindings c n [] after t = Twice-left (map (λ d. (n, d)) n.claims) (bindings after) (
      Twice-map (λ d. (n, d)) (λ d e. ap (λ z. (evidence_of lib (n, z)).evidence_key) e) n.claims t)
  Twice-bindings c n (m ∷ ms) after t =
      Twice-right (map (λ d. (m, d)) m.claims) (bindings (ms ++ n ∷ after))
        (Twice-bindings c n ms after t)

  -- No evidence is built from notices of which one makes the same claim twice.
  pub build_evidence-Twice :
      (c : CandidateClaim) (n : LifecycleNotice) (before after : List LifecycleNotice)
      → Twice (λ d. d ≡ c) n.claims
      → build_evidence lib (before ++ n ∷ after) ≡ err duplicate_evidence_key
  unfolding build_evidence
  build_evidence-Twice c n before after t =
      collect-Twice (evidence_of lib (n, c)).evidence_key (bindings (before ++ n ∷ after)) []
        (Twice-bindings c n before after t)
