-- ===== src/Lifecycle/Assembler/Runs.antt =====
-- What a run returns and what it does to the store.
use axignal.Common.{
  ◌≡◌, refl, sym, ap, ◌∙◌, Result-cases, String, Bool, true, false, inl, inr, List, ◌∷◌, not, arith,
  Result, ok, err, >>=-eq-ok, ok_injective, traverse, reject_if, Bool-cases,
}
use axignal.Common.Json.{Library}
use axignal.Rehearsal.Context.{AdmissionContext, product_admission_ready, sandbox_ready}
use axignal.Rehearsal.Decision.{AdmissionDecision, RehearsalResult}
use axignal.Rehearsal.Store.{AdmissionStore, Failpoint, commit}
use axignal.Rehearsal.Store.Commit.{transaction, commit-eq-transaction}
use axignal.Rehearsal.Store.Ledger.{IsConsistent, commit-IsConsistent}
use axignal.Lifecycle.Notice.{LifecycleError, LifecycleNotice, product_admission_out_of_scope}
use axignal.Lifecycle.Lineage.{validate_lineage}
use axignal.Lifecycle.Lineage.Chain.{IsLineage, begin}
use axignal.Lifecycle.Lineage.Ordered.{validate_lineage-ordered}
use axignal.Lifecycle.Evidence.{EvidenceObject, build_evidence}
use axignal.Lifecycle.Dossier.{Dossier, build_dossier}
use axignal.Lifecycle.Dossier.Traceable.{build_dossier-traceable}
use axignal.Lifecycle.Decisions.{decide_notices, lifecycle_key}
use axignal.Lifecycle.Assembler.{
  LifecycleParser, LifecycleResult, passed_on, has_no_notice, prepare, admit, conclude, answer, run,
  result_of,
}

module _ (lib : Library) where
  pub prepare_sound :
      (parser : LifecycleParser) (raws : List String) {ns : List LifecycleNotice}
      {es : List EvidenceObject}
      → prepare lib parser raws ≡ ok (ns, es)
      → IsLineage ns × (build_evidence lib ns ≡ ok es)
  unfolding prepare
  prepare_sound parser raws {ns} {es} h =
      let (u, a, h1) = >>=-eq-ok (reject_if (has_no_notice raws) _) _ h in
      let (first, b, h2) = >>=-eq-ok (traverse (λ r. passed_on (parser.first_pass r)) raws) _ h1 in
      let (second, c, h3) =
        >>=-eq-ok (traverse (λ r. passed_on (parser.second_pass r)) raws) _ h2 in
      let (v, d, h4) = >>=-eq-ok (reject_if (not (parser.same first second)) _) _ h3 in
      let (notices, e, h5) = >>=-eq-ok (validate_lineage lib first) _ h4 in
      let (evidence, f, h6) = >>=-eq-ok (build_evidence lib notices) _ h5 in
      let same : ◌≡◌ {A = List LifecycleNotice × List EvidenceObject} (notices, evidence) (ns, es) =
        ok_injective h6 in
      let same_notices : notices ≡ ns = cc same in
      let same_evidence : evidence ≡ es = cc same in
      (
        rw (sym same_notices) ((validate_lineage-ordered lib first notices).0 e).1,
        cc (f, same_notices, same_evidence),
      )

  pub conclude-made :
      (ns : List LifecycleNotice) (es : List EvidenceObject) (r : RehearsalResult) {d : Dossier}
      → build_dossier lib ns es r.decisions ≡ ok d
      → conclude lib ns es r ≡ ok (result_of lib ns es r d)
  unfolding conclude
  conclude-made ns es r h = rw h refl

  -- A dossier is always made from notices that form a lineage, with their evidence.
  conclude-ok :
      (ns : List LifecycleNotice) (es : List EvidenceObject) (r : RehearsalResult)
      → IsLineage ns
      → build_evidence lib ns ≡ ok es
      → (out : LifecycleResult) × (conclude lib ns es r ≡ ok out)
        × (out.notices ≡ ns)
        × (out.evidence_objects ≡ es)
        × (out.admission ≡ r)
  conclude-ok ns es r (begin {n} {rest} k c) h =
      let (_, made, _) = build_dossier-traceable lib n rest es r.decisions h in
      (_, conclude-made (n ∷ rest) es r made, refl, refl, refl)

  answer-err :
      (ns : List LifecycleNotice) (es : List EvidenceObject)
      (q : Result Failpoint RehearsalResult × AdmissionStore) {e : LifecycleError}
      {s' : AdmissionStore}
      → IsLineage ns
      → build_evidence lib ns ≡ ok es
      → answer lib ns es q ≡ (err e, s')
      → (f : Failpoint) × (q ≡ (err f, s'))
  unfolding answer
  answer-err ns es (err f, s1) l built h = (f, cc h)
  answer-err ns es (ok r, s1) l built h =
      let (out, made, _, _, _) = conclude-ok ns es r l built in absurd (cc (made, h))

  answer-ok :
      (ns : List LifecycleNotice) (es : List EvidenceObject)
      (q : Result Failpoint RehearsalResult × AdmissionStore) {out : LifecycleResult}
      {s' : AdmissionStore}
      → IsLineage ns
      → build_evidence lib ns ≡ ok es
      → answer lib ns es q ≡ (ok out, s')
      → (q ≡ (ok out.admission, s')) × (out.notices ≡ ns) × (out.evidence_objects ≡ es)
  unfolding answer
  answer-ok ns es (err f, s1) l built h = absurd (cc h)
  answer-ok ns es (ok r, s1) {out} {s'} l built h =
      let (out', made, a, b, c) = conclude-ok ns es r l built in
      let same : out' ≡ out = cc (made, h) in (cc (same, c, h), cc (same, a), cc (same, b))

  answer-store :
      (ns : List LifecycleNotice) (es : List EvidenceObject)
      (q : Result Failpoint RehearsalResult × AdmissionStore)
      → (answer lib ns es q).1 ≡ q.1
  unfolding answer
  answer-store ns es (err f, s1) = refl
  answer-store ns es (ok r, s1) = refl

  commit-err :
      (key : String) (ds : List AdmissionDecision) (fail : Bool) (batch : String)
      (s : AdmissionStore) {e : Failpoint} {s' : AdmissionStore}
      → commit lib key ds fail batch s ≡ (err e, s')
      → s' ≡ s
  unfolding transaction
  commit-err key ds fail batch s {e} {s'} h =
      ground (arith, commit-eq-transaction lib key ds fail batch s)

  admit-err :
      (ns : List LifecycleNotice) (context : AdmissionContext) (fail : Bool) (batch : String)
      (s : AdmissionStore) {e : Failpoint} {s' : AdmissionStore}
      → admit lib ns context fail batch s ≡ (err e, s')
      → s' ≡ s
  unfolding admit
  admit-err ns context fail batch s {e} {s'} h = ground (
    arith,
    commit-err (lifecycle_key lib ns context) (decide_notices lib context ns) fail batch s {e = e}
        {s' = s'},
  )

  admit-IsConsistent :
      (ns : List LifecycleNotice) (context : AdmissionContext) (fail : Bool) (batch : String)
      (s : AdmissionStore)
      → IsConsistent s
      → IsConsistent (admit lib ns context fail batch s).1
  unfolding admit
  admit-IsConsistent ns context fail batch s c = ground (
    arith,
    commit-IsConsistent lib (lifecycle_key lib ns context) (decide_notices lib context ns) fail
        batch s c,
  )

  module _ (parser : LifecycleParser) (raws : List String) (context : AdmissionContext)
      (fail : Bool) (batch : String) (s : AdmissionStore) where
    pub run_prepared :
        {ns : List LifecycleNotice} {es : List EvidenceObject}
        → prepare lib parser raws ≡ ok (ns, es)
        → product_admission_ready context ≡ false
        → run lib parser raws context fail batch s
          ≡ answer lib ns es (admit lib ns context fail batch s)
    unfolding run
    run_prepared p closed = rw (p, closed, run) refl

    pub run_rejected :
        {e : LifecycleError}
        → prepare lib parser raws ≡ err e
        → run lib parser raws context fail batch s ≡ (err e, s)
    unfolding run
    run_rejected p = rw (p, run) refl

    pub run_out_of_scope :
        {ns : List LifecycleNotice} {es : List EvidenceObject}
        → prepare lib parser raws ≡ ok (ns, es)
        → product_admission_ready context ≡ true
        → run lib parser raws context fail batch s ≡ (err product_admission_out_of_scope, s)
    unfolding run
    run_out_of_scope p open_ = rw (p, open_, run) refl

    -- A run that raises leaves the store as it was: a batch that was committed is never followed by
    -- an error of the dossier.
    pub run-atomic :
        {e : LifecycleError} {s' : AdmissionStore}
        → run lib parser raws context fail batch s ≡ (err e, s')
        → s' ≡ s
    run-atomic {e} {s'} h = elim (Result-cases (prepare lib parser raws)) [
      | inl (e', p) ↦ ap (λ q. q.1) (sym h ∙ run_rejected p)
      | inr ((ns, es), p) ↦ elim (Bool-cases (product_admission_ready context)) [
        | inl o ↦ ap (λ q. q.1) (sym h ∙ run_out_of_scope p o)
        | inr o ↦
            let (ns_lineage, built) = prepare_sound parser raws p in
            let (f, q) =
              answer-err ns es (admit lib ns context fail batch s) ns_lineage built
                (sym (run_prepared p o) ∙ h) in
            admit-err ns context fail batch s q
      ]
    ]

    -- What a run that returns has established by its own steps.
    pub run-admits :
        {out : LifecycleResult} {s' : AdmissionStore}
        → run lib parser raws context fail batch s ≡ (ok out, s')
        → (product_admission_ready context ≡ false)
          × IsLineage out.notices
          × (build_evidence lib out.notices ≡ ok out.evidence_objects)
          × (admit lib out.notices context fail batch s ≡ (ok out.admission, s'))
    run-admits {out} {s'} h = elim (Result-cases (prepare lib parser raws)) [
      | inl (e', p) ↦ absurd (cc (ap (λ q. q.0) (sym h ∙ run_rejected p)))
      | inr ((ns, es), p) ↦ elim (Bool-cases (product_admission_ready context)) [
        | inl o ↦ absurd (cc (ap (λ q. q.0) (sym h ∙ run_out_of_scope p o)))
        | inr o ↦
            let (l, built) = prepare_sound parser raws p in
            let (q, a, b) =
              answer-ok ns es (admit lib ns context fail batch s) l built
                (sym (run_prepared p o) ∙ h) in
            (o, rw a l, rw (a, b) built, rw a q)
      ]
    ]

    -- A run whose preparation succeeds returns, unless the context asks for product admission or the
    -- store fails.
    pub run-returns :
        {ns : List LifecycleNotice} {es : List EvidenceObject} {r : RehearsalResult}
        {s' : AdmissionStore}
        → prepare lib parser raws ≡ ok (ns, es)
        → product_admission_ready context ≡ false
        → admit lib ns context fail batch s ≡ (ok r, s')
        → (out : LifecycleResult) × (run lib parser raws context fail batch s ≡ (ok out, s'))
          × (out.notices ≡ ns)
          × (out.evidence_objects ≡ es)
          × (out.admission ≡ r)
    unfolding answer
    run-returns {ns} {es} {r} {s'} p o q =
        let (l, built) = prepare_sound parser raws p in
        let (out, made, a, b, c) = conclude-ok ns es r l built in
        (out, run_prepared p o ∙ rw (q, answer, made) refl, a, b, c)

    -- Every run keeps the store consistent.
    pub run-IsConsistent :
        IsConsistent s → IsConsistent (run lib parser raws context fail batch s).1
    run-IsConsistent c = elim (Result-cases (prepare lib parser raws)) [
      | inl (e', p) ↦ rw (run_rejected p) c
      | inr ((ns, es), p) ↦ elim (Bool-cases (product_admission_ready context)) [
        | inl o ↦ rw (run_out_of_scope p o) c
        | inr o ↦
            rw (run_prepared p o, answer-store ns es (admit lib ns context fail batch s))
              (admit-IsConsistent ns context fail batch s c)
      ]
    ]

    -- A run outside the sandbox leaves the store as it was.
    pub run-outside_sandbox :
        sandbox_ready context ≡ false → (run lib parser raws context fail batch s).1 ≡ s
    unfolding admit
    run-outside_sandbox closed = elim (Result-cases (prepare lib parser raws)) [
      | inl (e', p) ↦ rw (run_rejected p) refl
      | inr ((ns, es), p) ↦ elim (Bool-cases (product_admission_ready context)) [
        | inl o ↦ rw (run_out_of_scope p o) refl
        | inr o ↦
            rw (run_prepared p o, answer-store ns es (admit lib ns context fail batch s))
              (rw (closed, admit) refl)
      ]
    ]
