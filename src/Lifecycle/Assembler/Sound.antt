-- ===== src/Lifecycle/Assembler/Sound.antt =====
-- What the result of a run is, from the documents to the dossier.
use mathlib.Core.List.{Perm, flatten}
use axignal.Common.{
  ◌≡◌, refl, sym, ap, ◌∙◌, subst, Result-cases, String, Bool, false, inl, inr, List, [], ◌∷◌, map,
  not, Result, ok, err, >>=-eq-ok, ok_injective, traverse, reject_if, Bool-cases, Matched,
  none_left, pair,
}
use axignal.Common.Sort.{IsSortedBy}
use axignal.Common.Json.{Library}
use axignal.Rehearsal.Context.{AdmissionContext, product_admission_ready}
use axignal.Rehearsal.Decision.{RehearsalResult}
use axignal.Rehearsal.Store.{AdmissionStore, Failpoint}
use axignal.Lifecycle.Notice.{LifecycleNotice}
use axignal.Lifecycle.Lineage.{validate_lineage}
use axignal.Lifecycle.Lineage.Chain.{IsLineage, begin}
use axignal.Lifecycle.Lineage.Guarantees.{Fresh}
use axignal.Lifecycle.Lineage.Ordered.{before}
use axignal.Lifecycle.Lineage.Validated.{IsLineage-Fresh, validate_lineage_iff}
use axignal.Lifecycle.Evidence.{EvidenceObject, bindings, evidence_of, build_evidence}
use axignal.Lifecycle.Evidence.Bound.{keys, build_evidence_iff}
use axignal.Lifecycle.Events.{LifecycleEvent, build_events}
use axignal.Lifecycle.Events.Partition.{build_events-perm}
use axignal.Lifecycle.Dossier.Traceable.{IsBacked, build_dossier-traceable}
use axignal.Lifecycle.Assembler.{
  LifecycleParser, LifecycleResult, passed_on, has_no_notice, prepare, admit, answer, run,
  result_of,
}
use axignal.Lifecycle.Assembler.Runs.{
  run_prepared, run_rejected, run_out_of_scope, conclude-made, run-admits,
}

passed_on-ok :
    (m : Result String LifecycleNotice) (n : LifecycleNotice) → passed_on m ≡ ok n → m ≡ ok n
unfolding passed_on
passed_on-ok (err e) n h = absurd (cc h)
passed_on-ok (ok m) n h = ap ok (ok_injective h)

module _ (lib : Library) (parser : LifecycleParser) where
  -- The first pass reads the document as the notice.
  abbrev pub Reads : String → LifecycleNotice → Type 0
  Reads raw n = parser.first_pass raw ≡ ok n

  traverse-Reads :
      (raws : List String) (ns : List LifecycleNotice)
      → traverse (λ r. passed_on (parser.first_pass r)) raws ≡ ok ns
      → Matched Reads raws ns
  unfolding traverse
  traverse-Reads [] ns h = subst (Matched Reads []) (ok_injective h) none_left
  traverse-Reads (r ∷ raws) ns h =
      let (n, e, rest) = >>=-eq-ok (passed_on (parser.first_pass r)) _ h in
      let (ms, f, last) = >>=-eq-ok (traverse (λ r. passed_on (parser.first_pass r)) raws) _ rest in
      subst (Matched Reads (r ∷ raws)) (ok_injective last)
        (pair (passed_on-ok (parser.first_pass r) n e) (traverse-Reads raws ms f))

  -- The notices of the documents, in order, with their evidence.
  pub record IsPrepared (raws : List String) (ns : List LifecycleNotice) (es : List EvidenceObject)
      : Type 0 where
    pub parsed : List LifecycleNotice
    pub all_parsed : Matched Reads raws parsed
    pub reordered : Perm ns parsed
    pub in_order : IsSortedBy (before lib) ns
    pub lineage : IsLineage ns
    pub evidence_eq : es ≡ map (evidence_of lib) (bindings ns)
    pub keys_distinct : Fresh [] (keys es)

  prepare-IsPrepared :
      (raws : List String) (ns : List LifecycleNotice) (es : List EvidenceObject)
      → prepare lib parser raws ≡ ok (ns, es)
      → IsPrepared raws ns es
  unfolding prepare
  prepare-IsPrepared raws ns es h =
      let (u, a, h1) = >>=-eq-ok (reject_if (has_no_notice raws) _) _ h in
      let (first, b, h2) = >>=-eq-ok (traverse (λ r. passed_on (parser.first_pass r)) raws) _ h1 in
      let (second, c, h3) =
        >>=-eq-ok (traverse (λ r. passed_on (parser.second_pass r)) raws) _ h2 in
      let (v, d, h4) = >>=-eq-ok (reject_if (not (parser.same first second)) _) _ h3 in
      let (notices, e, h5) = >>=-eq-ok (validate_lineage lib first) _ h4 in
      let (evidence, f, h6) = >>=-eq-ok (build_evidence lib notices) _ h5 in
      let same : ◌≡◌ {A = List LifecycleNotice × List EvidenceObject} (notices, evidence) (ns, es) =
        ok_injective h6 in
      let (dated, reordered, in_order, lineage) = (validate_lineage_iff lib first notices).0 e in
      let (built, distinct) = (build_evidence_iff lib notices evidence).0 f in
      subst (λ (q : List LifecycleNotice × List EvidenceObject). IsPrepared raws q.0 q.1) same
        (record {
          parsed = first;
          all_parsed = traverse-Reads raws first b;
          reordered = reordered;
          in_order = in_order;
          lineage = lineage;
          evidence_eq = built;
          keys_distinct = distinct;
        })

  answer-made :
      (ns : List LifecycleNotice) (es : List EvidenceObject)
      (q : Result Failpoint RehearsalResult × AdmissionStore) (out : LifecycleResult)
      (s' : AdmissionStore)
      → IsLineage ns
      → build_evidence lib ns ≡ ok es
      → answer lib ns es q ≡ (ok out, s')
      → (out.notices ≡ ns)
        × (out.evidence_objects ≡ es)
        × (out.lifecycle_events ≡ build_events lib ns es)
        × IsBacked lib ns es out.admission.decisions out.dossier
  unfolding answer
  answer-made ns es (err f, s1) out s' l built h = absurd (cc (ap (λ x. x.0) h))
  answer-made ns es (ok r, s1) out s' (begin {n} {rest} k c) built h =
      let (d, made, traceable) = build_dossier-traceable lib n rest es r.decisions built in
      let same : result_of lib ns es r d ≡ out =
        ok_injective (sym (conclude-made lib ns es r made) ∙ ap (λ x. x.0) h) in
      subst
        (λ (o : LifecycleResult).
          (o.notices ≡ ns)
          × (o.evidence_objects ≡ es)
          × (o.lifecycle_events ≡ build_events lib ns es)
          × IsBacked lib ns es o.admission.decisions o.dossier)
        same (refl, refl, refl, traceable)

  -- The events hold the keys of the evidence, each as often.
  abbrev pub Partitioned : List LifecycleEvent → List EvidenceObject → Type 0
  Partitioned events es =
      Perm (flatten (map (λ (v : LifecycleEvent). v.evidence_keys) events)) (keys es)

  module _ (raws : List String) (context : AdmissionContext) (fail : Bool) (batch : String)
      (s : AdmissionStore) where
    -- A run returns only while the product gate is shut. Its notices are those that the first pass
    -- reads from the documents, by day and then by reference, and form a lineage; its evidence is
    -- the Evidence Object of every claim of every notice, in order and under keys that differ; its
    -- events hold each of these keys once; its dossier lists the claims with keys of their own
    -- evidence; and its admission is the answer on its notices that leaves the returned store.
    pub run_sound :
        (out : LifecycleResult) (s' : AdmissionStore)
        → run lib parser raws context fail batch s ≡ (ok out, s')
        → (product_admission_ready context ≡ false)
          × IsPrepared raws out.notices out.evidence_objects
          × Partitioned out.lifecycle_events out.evidence_objects
          × IsBacked lib out.notices out.evidence_objects out.admission.decisions out.dossier
          × (admit lib out.notices context fail batch s ≡ (ok out.admission, s'))
    run_sound out s' h = elim (Result-cases (prepare lib parser raws)) [
      | inl (e', p) ↦
          absurd (cc (ap (λ q. q.0) (sym h ∙ run_rejected lib parser raws context fail batch s p)))
      | inr ((ns, es), p) ↦ elim (Bool-cases (product_admission_ready context)) [
        | inl o ↦
            absurd (
              cc
                (ap (λ q. q.0) (sym h ∙ run_out_of_scope lib parser raws context fail batch s p o)))
        | inr o ↦
            let prepared = prepare-IsPrepared raws ns es p in
            let built =
              (build_evidence_iff lib ns es).1 (prepared.evidence_eq, prepared.keys_distinct) in
            let (same_notices, same_evidence, events, traceable) =
              answer-made ns es (admit lib ns context fail batch s) out s' prepared.lineage built
                (sym (run_prepared lib parser raws context fail batch s p o) ∙ h) in
            let (_, _, _, admitted) = run-admits lib parser raws context fail batch s h in
            let partition : Partitioned (build_events lib ns es) es =
              subst (λ x. Partitioned (build_events lib ns x) x) (sym prepared.evidence_eq)
                (build_events-perm lib ns (IsLineage-Fresh ns prepared.lineage)) in
            (
              o,
              rw (same_notices, same_evidence) prepared,
              rw (events, same_evidence) partition,
              rw (same_notices, same_evidence) traceable,
              admitted,
            )
      ]
    ]
