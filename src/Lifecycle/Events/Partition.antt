-- ===== src/Lifecycle/Events/Partition.antt =====
-- The events share the evidence out: each Evidence Object is in the event of its notice, once.
use axignal.Common.{
  ℕ, ◌+◌, ◌≡◌, refl, sym, ap, ◌∙◌, String, true, false, List, [], ◌∷◌, ◌++◌, map, mem, eq_iff, ◌==◌,
  append-nil, append_assoc, arith, if◌then◌else◌, Bool-cases, inl, inr, text_le, subst, All,
}
use mathlib.Core.List.{Perm, flatten, map-append}
use mathlib.Core.List.Perm
use mathlib.Core.Path.{fun_ext}
use axignal.Common.Sort.{sort_by-perm}
use axignal.Common.Json.{Library}
use axignal.Rehearsal.Claim.{CandidateClaim}
use axignal.Lifecycle.Notice.{LifecycleNotice, reference}
use axignal.Lifecycle.Evidence.{EvidenceObject, bindings, evidence_of}
use axignal.Lifecycle.Evidence.Bound.{keys}
use axignal.Lifecycle.Lineage.Guarantees.{Fresh}
use axignal.Lifecycle.Events.{add_key, group_keys, keys_for, event_of, events_from, build_events}

-- The keys of the evidence for one notice, in order.
unfoldable pub keys_of : String → List EvidenceObject → List String
keys_of r [] = []
keys_of r (e ∷ es) =
    let rest = keys_of r es in if e.notice_reference == r then e.evidence_key ∷ rest else rest

keys_for-add_key :
    (r q k : String) (groups : List (String × List String))
    → keys_for q (add_key r k groups)
      ≡ (if r == q then keys_for q groups ++ k ∷ [] else keys_for q groups)
unfolding keys_for add_key
keys_for-add_key r q k [] = ground arith
keys_for-add_key r q k ((p, ks) ∷ rest) =
    ground (arith, eq_iff p r, eq_iff p q, eq_iff r q, keys_for-add_key r q k rest)

keys_for-group_keys :
    (r : String) (es : List EvidenceObject) (groups : List (String × List String))
    → keys_for r (group_keys es groups) ≡ keys_for r groups ++ keys_of r es
unfolding group_keys keys_of
keys_for-group_keys r [] groups = sym (append-nil _)
keys_for-group_keys r (e ∷ es) groups = elim (Bool-cases (e.notice_reference == r)) [
  | inl h ↦
      rw
        (
          h,
          keys_for-group_keys r es,
          keys_for-add_key e.notice_reference r e.evidence_key groups,
          h,
        )
        (append_assoc (keys_for r groups) (e.evidence_key ∷ []) (keys_of r es))
  | inr h ↦
      rw
        (
          h,
          keys_for-group_keys r es,
          keys_for-add_key e.notice_reference r e.evidence_key groups,
          h,
        )
        refl
]

keys_of-append :
    (r : String) (xs ys : List EvidenceObject) → keys_of r (xs ++ ys) ≡ keys_of r xs ++ keys_of r ys
unfolding keys_of
keys_of-append r [] ys = refl
keys_of-append r (x ∷ xs) ys = ground (arith, keys_of-append r xs ys)

-- All of these texts differ from `x`.
abbrev Apart : String → List String → Type 0
Apart x = All (λ y. (x == y) ≡ false)

mem_apart :
    (x y : String) (zs : List String) → mem x zs ≡ true → mem y zs ≡ false → (x == y) ≡ false
mem_apart x y zs h k = elim (Bool-cases (x == y)) [
  | inl e ↦ cc (ap (λ s. mem s zs) ((eq_iff x y).0 e), h, k)
  | inr e ↦ e
]

mem-head : (x : String) (xs : List String) → mem x (x ∷ xs) ≡ true
unfolding mem
mem-head x xs = ground (arith, eq_iff x x)

Fresh-Apart : (x : String) (seen ys : List String) → mem x seen ≡ true → Fresh seen ys → Apart x ys
unfolding mem
Fresh-Apart x seen [] h f = tt
Fresh-Apart x seen (y ∷ ys) h f =
    (mem_apart x y seen h f.0, Fresh-Apart x (y ∷ seen) ys (ground (arith, h)) f.1)

module _ (lib : Library) where
  evidence_for : LifecycleNotice → List CandidateClaim → List EvidenceObject
  evidence_for n cs = map (evidence_of lib) (map (λ c. (n, c)) cs)

  keys_of-own :
      (n : LifecycleNotice) (cs : List CandidateClaim)
      → keys_of (reference n) (evidence_for n cs) ≡ keys (evidence_for n cs)
  unfolding keys_of evidence_for evidence_of
  keys_of-own n [] = refl
  keys_of-own n (c ∷ cs) = ground (arith, eq_iff (reference n) (reference n), keys_of-own n cs)

  keys_of-other :
      (r : String) (n : LifecycleNotice) (cs : List CandidateClaim)
      → (reference n == r) ≡ false
      → keys_of r (evidence_for n cs) ≡ []
  unfolding keys_of evidence_for evidence_of
  keys_of-other r n [] h = refl
  keys_of-other r n (c ∷ cs) h = ground (arith, keys_of-other r n cs)

  abbrev pub all_evidence : List LifecycleNotice → List EvidenceObject
  all_evidence ns = map (evidence_of lib) (bindings ns)

  all_evidence-cons :
      (n : LifecycleNotice) (ns : List LifecycleNotice)
      → all_evidence (n ∷ ns) ≡ evidence_for n n.claims ++ all_evidence ns
  unfolding bindings evidence_for
  all_evidence-cons n ns = map-append (evidence_of lib) (map (λ c. (n, c)) n.claims) (bindings ns)

  keys_of-absent :
      (r : String) (ns : List LifecycleNotice)
      → Apart r (map reference ns)
      → keys_of r (all_evidence ns) ≡ []
  unfolding bindings keys_of
  keys_of-absent r [] a = refl
  keys_of-absent r (n ∷ ns) a =
      rw (all_evidence-cons n ns, keys_of-append r (evidence_for n n.claims) (all_evidence ns))
        (rw
          (keys_of-other r n n.claims
            (ground (arith, eq_iff r (reference n), eq_iff (reference n) r, a.0)))
          (keys_of-absent r ns a.1))

  -- The keys for each notice in turn.
  abbrev shares : List LifecycleNotice → List EvidenceObject → List (List String)
  shares ns es = map (λ n. keys_of (reference n) es) ns

  shares-skip :
      (n : LifecycleNotice) (cs : List CandidateClaim) (ms : List LifecycleNotice)
      (es : List EvidenceObject)
      → Apart (reference n) (map reference ms)
      → shares ms (evidence_for n cs ++ es) ≡ shares ms es
  shares-skip n cs [] es a = refl
  shares-skip n cs (m ∷ ms) es a = rw (
    keys_of-append (reference m) (evidence_for n cs) es,
    keys_of-other (reference m) n cs a.0,
    shares-skip n cs ms es a.1,
  )

  flatten_step :
      (n : LifecycleNotice) (ns : List LifecycleNotice) (es : List EvidenceObject)
      → Apart (reference n) (map reference ns)
      → keys_of (reference n) es ≡ []
      → flatten (shares (n ∷ ns) (evidence_for n n.claims ++ es))
        ≡ keys (evidence_for n n.claims) ++ flatten (shares ns es)
  unfolding flatten
  flatten_step n ns es a none_left = rw (
    keys_of-append (reference n) (evidence_for n n.claims) es,
    keys_of-own n n.claims,
    none_left,
    append-nil (keys (evidence_for n n.claims)),
    shares-skip n n.claims ns es a,
  )

  flatten-shares :
      (seen : List String) (ns : List LifecycleNotice)
      → Fresh seen (map reference ns)
      → flatten (shares ns (all_evidence ns)) ≡ keys (all_evidence ns)
  unfolding flatten bindings
  flatten-shares seen [] f = refl
  flatten-shares seen (n ∷ ns) f =
      let a : Apart (reference n) (map reference ns) =
        Fresh-Apart (reference n) (reference n ∷ seen) (map reference ns)
          (mem-head (reference n) seen) f.1 in
      let split = all_evidence-cons n ns in
      ap (λ es. flatten (shares (n ∷ ns) es)) split
      ∙ flatten_step n ns (all_evidence ns) a (keys_of-absent (reference n) ns a)
      ∙ ap (λ ks. keys (evidence_for n n.claims) ++ ks) (flatten-shares (reference n ∷ seen) ns f.1)
      ∙ sym (map-append (λ e. e.evidence_key) (evidence_for n n.claims) (all_evidence ns))
      ∙ ap keys (sym split)

  events-perm :
      (k : ℕ) (groups : List (String × List String)) (ns : List LifecycleNotice)
      → Perm
          (flatten (map (λ v. v.evidence_keys) (events_from lib k groups ns)))
          (flatten (map (λ n. keys_for (reference n) groups) ns))
  unfolding events_from event_of flatten
  events-perm k groups [] = Perm.refl _
  events-perm k groups (n ∷ ns) =
      Perm.append (sort_by-perm text_le (keys_for (reference n) groups))
        (events-perm (k + 1) groups ns)

  -- Where the references are distinct, the keys in the events are those of the evidence of the
  -- notices, each as often.
  pub build_events-perm :
      (ns : List LifecycleNotice)
      → Fresh [] (map reference ns)
      → Perm
          (flatten (map (λ v. v.evidence_keys) (build_events lib ns (all_evidence ns))))
          (keys (all_evidence ns))
  unfolding build_events keys_for
  build_events-perm ns f =
      let groups = group_keys (all_evidence ns) [] in
      let same : map (λ n. keys_for (reference n) groups) ns ≡ shares ns (all_evidence ns) =
        ap (λ (g : LifecycleNotice → List String). map g ns)
          (fun_ext λ n. keys_for-group_keys (reference n) (all_evidence ns) []) in
      subst (Perm (flatten (map (λ v. v.evidence_keys) (events_from lib 1 groups ns))))
        (ap flatten same ∙ flatten-shares [] ns f) (events-perm 1 groups ns)
