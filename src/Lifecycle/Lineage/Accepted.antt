-- ===== src/Lifecycle/Lineage/Accepted.antt =====
-- The loop of `_validate_lineage` accepts exactly the lineages.
use axignal.Common.{
  ok_injective, ◌≡◌, refl, sym, ap, ◌∙◌, ◌↔◌, String, some, List, [], ◌∷◌, mem, eq_iff, eq_refl,
  arith, ok, >>=-eq-ok,
}
use axignal.Lifecycle.Notice.{
  LifecycleNotice, Kind, competition_initial, competition_correction, notice_cancellation,
  procedure_result, other, reference, kind,
}
use axignal.Lifecycle.Lineage.{
  LineageState, initial_state, visit_initial, visit_change, visit_result, visit_kind, visit,
  visit_all, previous_reference, first_procedure, check_lineage,
}
use axignal.Lifecycle.Lineage.Chain.{Link, change, result, Chain, done, link, IsLineage, begin}
use axignal.Lifecycle.Lineage.Chain.Steps.{Linked, Followed, visit-Followed, Link-visit}

Link-deterministic :
    {p : String} {l n a b : LifecycleNotice} {refs : List String}
    → Link p l refs n a
    → Link p l refs n b
    → a ≡ b
Link-deterministic (change _ _ _ _ _ _) (change _ _ _ _ _ _) = refl
Link-deterministic (change k _ _ _ _ _) (result k' _ _ _) = cc (rw k' at k)
Link-deterministic (result k' _ _ _) (change k _ _ _ _ _) = cc (rw k' at k)
Link-deterministic (result _ _ _ _) (result _ _ _ _) = refl

module _ (procedure : String) where
  visit_all-Chain :
      (latest : LifecycleNotice) (ns : List LifecycleNotice) (s : LineageState) {s' : LineageState}
      → Linked s latest
      → visit_all procedure ns s ≡ ok s'
      → Chain procedure latest s.references ns × (s'.initial_count ≡ s.initial_count)
  unfolding visit_all
  visit_all-Chain latest [] s l h = (done, cc h)
  visit_all-Chain latest (n ∷ ns) s {s'} l h =
      let (t, ran, later) = >>=-eq-ok (visit procedure n s) (visit_all procedure ns) h in
      let f : Followed procedure latest n s t = visit-Followed procedure latest n s l ran in
      let (rest, count) = visit_all-Chain f.next ns t f.linked later in
      (link f.by (rw f.extends at rest), count ∙ f.counts)

  Chain-visit_all :
      (latest : LifecycleNotice) (refs : List String) (ns : List LifecycleNotice) (s : LineageState)
      → Linked s latest
      → s.references ≡ refs
      → Chain procedure latest refs ns
      → (s' : LineageState) × (visit_all procedure ns s ≡ ok s')
        × (s'.initial_count ≡ s.initial_count)
  unfolding visit_all
  Chain-visit_all latest refs [] s l e c = (s, refl, refl)
  Chain-visit_all latest refs (n ∷ ns) s l e (link {next = next} k c) =
      let k' : Link procedure latest s.references n next = rw e k in
      let (t, ran) = Link-visit procedure latest n s l k' in
      let f : Followed procedure latest n s t = visit-Followed procedure latest n s l ran in
      let same : f.next ≡ next = Link-deterministic f.by k' in
      let (s', runs, count) =
        Chain-visit_all next (reference n ∷ refs) ns t (rw same at f.linked)
          (f.extends ∙ ap (λ rs. reference n ∷ rs) e) c in
      (s', rw ran runs, count ∙ f.counts)

-- The loop's variables after an initial notice.
abbrev after_initial : LifecycleNotice → LineageState
after_initial n = record {
  references = reference n ∷ [];
  latest_competition = some n;
  initial_count = 1;
  cancelled_references = [];
}

Linked-initial : (n : LifecycleNotice) → kind n ≡ competition_initial → Linked (after_initial n) n
unfolding mem
Linked-initial n k = record {
  holds = refl;
  seen = ground (arith, eq_iff (reference n) (reference n));
  cancelled = rw k;
  known = λ x h. cc h;
}

visit-initial :
    (n : LifecycleNotice)
    → kind n ≡ competition_initial
    → visit n.identity.procedure_identifier n initial_state ≡ ok (after_initial n)
unfolding visit visit_kind visit_initial mem
visit-initial n k = rw (eq_refl n.identity.procedure_identifier, k) refl

visit_kind-first :
    (k : Kind) (n : LifecycleNotice) {s : LineageState}
    → visit_kind k n initial_state ≡ ok s
    → k ≡ competition_initial
unfolding visit_kind visit_initial visit_change visit_result previous_reference mem
visit_kind-first competition_initial n h = refl
visit_kind-first competition_correction n h = ground arith
visit_kind-first notice_cancellation n h = ground arith
visit_kind-first procedure_result n h = ground arith
visit_kind-first other n h = ground arith

-- The first notice of an accepted lineage is the initial one.
visit-first :
    (n : LifecycleNotice) {s : LineageState}
    → visit n.identity.procedure_identifier n initial_state ≡ ok s
    → kind n ≡ competition_initial
unfolding visit mem
visit-first n h =
    let (t, ran, last) =
      >>=-eq-ok (visit_kind (kind n) n initial_state)
        (λ t. ok (record t { references = reference n ∷ t.references }))
        (rw (eq_refl n.identity.procedure_identifier) at h) in
    visit_kind-first (kind n) n ran

pub check_lineage_sound :
    (ns : List LifecycleNotice) {out : List LifecycleNotice}
    → check_lineage ns ≡ ok out
    → IsLineage ns × (out ≡ ns)
unfolding check_lineage visit_all first_procedure
check_lineage_sound [] h = absurd (cc h)
check_lineage_sound (n ∷ ns) h =
    let p : String = n.identity.procedure_identifier in
    let (s', runs, last) = >>=-eq-ok (visit_all p (n ∷ ns) initial_state) _ h in
    let (t, ran, later) = >>=-eq-ok (visit p n initial_state) (visit_all p ns) runs in
    let k : kind n ≡ competition_initial = visit-first n ran in
    let same : t ≡ after_initial n = ok_injective (sym ran ∙ visit-initial n k) in
    let (c, count) =
      visit_all-Chain p n ns (after_initial n) (Linked-initial n k) (rw same at later) in
    (begin k c, ground arith)

pub check_lineage_complete : (ns : List LifecycleNotice) → IsLineage ns → check_lineage ns ≡ ok ns
unfolding check_lineage visit_all first_procedure
check_lineage_complete [] l = elim l [ ]
check_lineage_complete (n ∷ ns) (begin k c) =
    let p : String = n.identity.procedure_identifier in
    let (s', runs, count) =
      Chain-visit_all p n (reference n ∷ []) ns (after_initial n) (Linked-initial n k) refl c in
    rw (visit-initial n k, runs, count) refl

-- Notices that are in order are accepted exactly when they form a lineage.
pub check_lineage_iff : (ns : List LifecycleNotice) → (check_lineage ns ≡ ok ns) ↔ IsLineage ns
check_lineage_iff ns = (λ h. (check_lineage_sound ns h).0, check_lineage_complete ns)
