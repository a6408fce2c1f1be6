-- ===== src/Tests/LifecycleRuns.antt =====
-- Runs of the lifecycle.
use axignal.Common.{
  ℕ, ◌≡◌, ◌≢◌, refl, ◌↔◌, ◌⊎◌, inl, inr, String, Bool, true, false, ◌&&◌, ◌||◌, if◌then◌else◌,
  Option, none, some, List, [], ◌∷◌, ◌++◌, map, mem, Result, ok, err, All, Any, here, there,
  Matched,
}
use mathlib.Core.List.{Perm, flatten}
use axignal.Common.Sort.{IsSortedBy}
use axignal.Rehearsal.Claim.{fingerprint}
use axignal.Rehearsal.Context.{
  current_ted_state, sandbox_rehearsal, product_admission_ready, sandbox_ready,
}
use axignal.Rehearsal.Decision.{RehearsalResult}
use axignal.Rehearsal.Store.{AdmissionStore, empty_store, new_result, after_first_decision}
use axignal.Rehearsal.Store.Ledger.{IsConsistent}
use axignal.Lifecycle.Notice.{
  LifecycleError, LifecycleNotice, notice_cancellation, procedure_result, competition_initial,
  reference, kind, store_failpoint,
}
use axignal.Lifecycle.Lineage.{check_lineage, order_notices, validate_lineage}
use axignal.Lifecycle.Lineage.Chain.{IsLineage}
use axignal.Lifecycle.Lineage.Accepted.{check_lineage_iff}
use axignal.Lifecycle.Lineage.Ordered.{before, order_notices-sorts}
use axignal.Lifecycle.Lineage.Validated.{IsDated, validate_lineage_iff}
use axignal.Lifecycle.Lineage.Guarantees.{Fresh}
use axignal.Lifecycle.Lineage.Consequences.{check_lineage-followers}
use axignal.Lifecycle.Evidence.{EvidenceObject, evidence_of, bindings, build_evidence}
use axignal.Lifecycle.Evidence.Bound.{keys, build_evidence_iff}
use axignal.Lifecycle.Decisions.{decide_notices}
use axignal.Lifecycle.Events.{build_events}
use axignal.Lifecycle.Events.Partition.{all_evidence, build_events-perm}
use axignal.Lifecycle.Dossier.{result_notices, build_dossier}
use axignal.Lifecycle.Dossier.State.{IsCancellation}
use axignal.Lifecycle.Dossier.Traceable.{build_dossier-traceable}
use axignal.Lifecycle.Assembler.{LifecycleResult, prepare, admit, answer, run}
use axignal.Lifecycle.Assembler.Sound.{IsPrepared, Partitioned, run_sound}
use axignal.Lifecycle.Dossier.Traceable.{IsBacked}
use axignal.Lifecycle.Dossier.{Dossier, build_dossier}
use axignal.Common.Sort.{IsSortedBy}
use axignal.Lifecycle.Assembler.Runs.{run-atomic, run-returns, run-IsConsistent}
use axignal.Tests.Samples.{library, parser, initial, cancellation, award}
use axignal.Tests.RehearsalRuns.{empty-IsConsistent}

abbrev cancelled : List LifecycleNotice
cancelled = initial ∷ cancellation ∷ []

abbrev awarded : List LifecycleNotice
awarded = initial ∷ cancellation ∷ award ∷ []

accepted : check_lineage awarded ≡ ok awarded
unfolding check_lineage axignal.Lifecycle.Lineage.visit_all axignal.Lifecycle.Lineage.visit mem
    axignal.Lifecycle.Lineage.first_procedure axignal.Lifecycle.Lineage.visit_kind
    axignal.Lifecycle.Notice.kind_of_text axignal.Lifecycle.Lineage.visit_initial
    axignal.Lifecycle.Notice.notice_reference axignal.Lifecycle.Lineage.visit_change
    axignal.Lifecycle.Lineage.previous_reference axignal.Lifecycle.Lineage.latest_named
    axignal.Common.same_texts axignal.Lifecycle.Lineage.visit_result axignal.Common.subset
accepted = refl

check_lineage_iff_example : (check_lineage awarded ≡ ok awarded) ↔ IsLineage awarded
check_lineage_iff_example = check_lineage_iff awarded

awarded-IsLineage : IsLineage awarded
awarded-IsLineage = check_lineage_iff_example.0 accepted

cancelled_accepted : check_lineage cancelled ≡ ok cancelled
unfolding check_lineage axignal.Lifecycle.Lineage.visit_all axignal.Lifecycle.Lineage.visit mem
    axignal.Lifecycle.Lineage.first_procedure axignal.Lifecycle.Lineage.visit_kind
    axignal.Lifecycle.Notice.kind_of_text axignal.Lifecycle.Lineage.visit_initial
    axignal.Lifecycle.Notice.notice_reference axignal.Lifecycle.Lineage.visit_change
    axignal.Lifecycle.Lineage.previous_reference axignal.Lifecycle.Lineage.latest_named
    axignal.Common.same_texts
cancelled_accepted = refl

cancelled-IsLineage : IsLineage cancelled
cancelled-IsLineage = (check_lineage_iff cancelled).0 cancelled_accepted

ordered : order_notices library (award ∷ cancellation ∷ initial ∷ []) ≡ ok awarded
unfolding order_notices axignal.Common.traverse axignal.Lifecycle.Lineage.date_key
    axignal.Common.Sort.sort_by axignal.Lifecycle.Lineage.key_le
ordered = refl

order_notices-sorts_example :
    Perm awarded (award ∷ cancellation ∷ initial ∷ []) × IsSortedBy (before library) awarded
order_notices-sorts_example =
    order_notices-sorts library (award ∷ cancellation ∷ initial ∷ []) ordered

validate_lineage_iff_example :
    (validate_lineage library (award ∷ cancellation ∷ initial ∷ []) ≡ ok awarded) ↔ (
      All (IsDated library) (award ∷ cancellation ∷ initial ∷ [])
      × Perm awarded (award ∷ cancellation ∷ initial ∷ [])
      × IsSortedBy (before library) awarded
      × IsLineage awarded)
validate_lineage_iff_example =
    validate_lineage_iff library (award ∷ cancellation ∷ initial ∷ []) awarded

cancels : IsCancellation cancellation
unfolding axignal.Lifecycle.Notice.kind_of_text
cancels = refl

abbrev evidence : List EvidenceObject
evidence = map (evidence_of library) (bindings awarded)

evidence_built : build_evidence library awarded ≡ ok evidence
unfolding build_evidence axignal.Lifecycle.Evidence.collect bindings mem evidence_of
    axignal.Common.first_chars axignal.Lifecycle.Evidence.hash_digits
    axignal.Lifecycle.Evidence.evidence_material axignal.Common.Json.obj
    axignal.Lifecycle.Notice.notice_reference fingerprint axignal.Lifecycle.Evidence.canonical_hash
evidence_built = refl

build_evidence_iff_example :
    (build_evidence library awarded ≡ ok evidence)
    ↔ ((evidence ≡ map (evidence_of library) (bindings awarded)) × Fresh [] (keys evidence))
build_evidence_iff_example = build_evidence_iff library awarded evidence

build_events-perm_example :
    Perm
      (flatten
        (map (λ v. v.evidence_keys) (build_events library awarded (all_evidence library awarded))))
      (keys (all_evidence library awarded))
build_events-perm_example =
    build_events-perm library awarded
      (check_lineage-followers initial (cancellation ∷ award ∷ []) accepted).1

build_dossier-traceable_example :
    (d : Dossier) × (build_dossier library awarded evidence [] ≡ ok d)
    × IsBacked library awarded evidence [] d
build_dossier-traceable_example =
    build_dossier-traceable library initial (cancellation ∷ award ∷ []) evidence [] evidence_built

no_results : result_notices cancelled ≡ []
unfolding result_notices axignal.Lifecycle.Notice.kind_of_text
no_results = refl

abbrev raws : List String
raws = "a" ∷ "b" ∷ "c" ∷ []

prepared : prepare library parser raws ≡ ok (awarded, evidence)
unfolding prepare validate_lineage order_notices axignal.Lifecycle.Lineage.date_key check_lineage
    axignal.Lifecycle.Lineage.visit_all axignal.Common.Sort.sort_by axignal.Lifecycle.Lineage.key_le
    axignal.Lifecycle.Lineage.visit mem axignal.Lifecycle.Lineage.first_procedure
    axignal.Lifecycle.Lineage.visit_kind axignal.Lifecycle.Notice.kind_of_text
    axignal.Lifecycle.Lineage.visit_initial axignal.Lifecycle.Notice.notice_reference
    axignal.Lifecycle.Lineage.visit_change axignal.Lifecycle.Lineage.previous_reference
    axignal.Common.traverse axignal.Common.Json.fields axignal.Common.Json.obj
    axignal.Common.Json.sha256_of axignal.Common.Sort.insert_by axignal.Common.first_chars
    axignal.Common.same_texts axignal.Common.subset axignal.Lifecycle.Assembler.has_no_notice
    axignal.Lifecycle.Assembler.passed_on bindings build_evidence
    axignal.Lifecycle.Evidence.canonical_hash axignal.Lifecycle.Evidence.collect
    axignal.Lifecycle.Evidence.evidence_material evidence_of axignal.Lifecycle.Evidence.hash_digits
    axignal.Lifecycle.Lineage.latest_named axignal.Lifecycle.Lineage.visit_result fingerprint
    axignal.Rehearsal.Claim.join
prepared = refl

abbrev admission : RehearsalResult
admission = new_result "k" (decide_notices library sandbox_rehearsal awarded)

abbrev admitted_store : AdmissionStore
admitted_store = (admit library awarded sandbox_rehearsal false "k" empty_store).1

admitted :
    admit library awarded sandbox_rehearsal false "k" empty_store ≡ (ok admission, admitted_store)
unfolding admit sandbox_ready axignal.Rehearsal.Store.existing axignal.Rehearsal.Store.lookup
    axignal.Rehearsal.Store.rollback axignal.Rehearsal.Store.commit_body
    axignal.Rehearsal.Store.finish axignal.Rehearsal.Store.record_decisions decide_notices bindings
admitted = refl

not_product : product_admission_ready sandbox_rehearsal ≡ false
unfolding product_admission_ready
not_product = refl

run-returns_example :
    (out : LifecycleResult) × (run library parser raws sandbox_rehearsal false "k" empty_store
      ≡ (ok out, admitted_store))
    × (out.notices ≡ awarded)
    × (out.evidence_objects ≡ evidence)
    × (out.admission ≡ admission)
run-returns_example =
    run-returns library parser raws sandbox_rehearsal false "k" empty_store prepared not_product
      admitted

run_sound_example :
    (product_admission_ready sandbox_rehearsal ≡ false)
    × IsPrepared library parser raws run-returns_example.0.notices
        run-returns_example.0.evidence_objects
    × Partitioned library parser run-returns_example.0.lifecycle_events
        run-returns_example.0.evidence_objects
    × IsBacked library run-returns_example.0.notices run-returns_example.0.evidence_objects
        run-returns_example.0.admission.decisions run-returns_example.0.dossier
    × (admit library run-returns_example.0.notices sandbox_rehearsal false "k" empty_store
        ≡ (ok run-returns_example.0.admission, admitted_store))
run_sound_example =
    run_sound library parser raws sandbox_rehearsal false "k" empty_store run-returns_example.0
      admitted_store run-returns_example.1

-- The run of the sample with the failpoint on.
abbrev failed : Result LifecycleError LifecycleResult × AdmissionStore
failed = run library parser raws sandbox_rehearsal true "k" empty_store

failing_admission :
    (admit library awarded sandbox_rehearsal true "k" empty_store).0 ≡ err after_first_decision
unfolding admit sandbox_ready axignal.Rehearsal.Store.existing axignal.Rehearsal.Store.lookup
    axignal.Rehearsal.Store.rollback axignal.Rehearsal.Store.commit_body
    axignal.Rehearsal.Store.finish axignal.Rehearsal.Store.record_decisions decide_notices bindings
failing_admission = refl

failing_run :
    run library parser raws sandbox_rehearsal true "k" empty_store ≡ (err store_failpoint, failed.1)
unfolding run answer
failing_run = rw (prepared, not_product, run, failing_admission, answer) refl

run-atomic_example : failed.1 ≡ empty_store
run-atomic_example =
    run-atomic library parser raws sandbox_rehearsal true "k" empty_store failing_run

run-IsConsistent_example :
    IsConsistent (run library parser raws sandbox_rehearsal false "k" empty_store).1
run-IsConsistent_example =
    run-IsConsistent library parser raws sandbox_rehearsal false "k" empty_store empty-IsConsistent

ted_closed : sandbox_ready current_ted_state ≡ false
unfolding sandbox_ready
ted_closed = refl
