-- ===== src/Lifecycle/Lineage/Chain/Steps.antt =====
-- One round of the loop of `_validate_lineage` follows one link of the chain, and the other way round.
use axignal.Common.{
  >>=-eq-ok, ◌≡◌, refl, ◌∙◌, String, Bool, true, false, some, ◌∷◌, mem, subset, same_texts→eq,
  same_texts_refl, eq_iff, ◌==◌, if◌then◌else◌, arith, ok, Bool-cases, inl, inr, Option-cases, ap,
}
use axignal.Lifecycle.Notice.{
  LifecycleNotice, Kind, competition_initial, competition_correction, notice_cancellation,
  procedure_result, other, reference, kind,
}
use axignal.Lifecycle.Lineage.{
  LineageState, previous_reference, latest_named, visit_initial, visit_change, visit_result,
  visit_kind, visit,
}
use axignal.Lifecycle.Lineage.Chain.{is_cancellation, is_change, Link, change, result}

-- The loop's variables once `latest` is the last competition notice: only the references of earlier
-- cancellations are in the set of cancelled ones, and `latest` is in it if it is one.
pub record Linked (s : LineageState) (latest : LifecycleNotice) : Type 0 where
  pub holds : s.latest_competition ≡ some latest
  pub seen : mem (reference latest) s.references ≡ true
  pub cancelled : mem (reference latest) s.cancelled_references ≡ is_cancellation (kind latest)
  pub known : (x : String) → mem x s.cancelled_references ≡ true → mem x s.references ≡ true

-- What a round does, seen from outside.
pub record Followed (procedure : String) (latest n : LifecycleNotice) (s s' : LineageState)
    : Type 0 where
  pub next : LifecycleNotice
  pub linked : Linked s' next
  pub by : Link procedure latest s.references n next
  pub extends : s'.references ≡ reference n ∷ s.references
  pub counts : s'.initial_count ≡ s.initial_count

module _ (procedure : String) (latest n : LifecycleNotice) (s : LineageState)
    (l : Linked s latest) where
  abbrev changed : Bool → LineageState
  changed cancels = record s {
    latest_competition = some n;
    cancelled_references =
        if cancels then reference n ∷ s.cancelled_references else s.cancelled_references;
  }

  -- What a change has passed.
  visit_change_facts :
      (cancels : Bool) {t : LineageState}
      → visit_change cancels n s ≡ ok t
      → (n.identity.changed_notice_reference ≡ some (reference latest))
        × (is_cancellation (kind latest) ≡ false)
        × (n.identity.lot_ids ≡ latest.identity.lot_ids)
        × (t ≡ changed cancels)
  unfolding visit_change previous_reference latest_named
  visit_change_facts cancels h = elim (Option-cases n.identity.changed_notice_reference) [
    | inl e ↦ cc (ap (λ o. o) e, h)
    | inr (p, e) ↦ ground (
      arith,
      l.holds,
      l.cancelled,
      eq_iff p (reference latest),
      same_texts→eq n.identity.lot_ids latest.identity.lot_ids,
    )
  ]

  fresh_uncancelled :
      mem (reference n) s.references ≡ false → mem (reference n) s.cancelled_references ≡ false
  fresh_uncancelled fresh = ground (arith, l.known (reference n))

  pub Linked-changed :
      (cancels : Bool)
      → cancels ≡ is_cancellation (kind n)
      → mem (reference n) s.references ≡ false
      → Linked (record (changed cancels) { references = reference n ∷ s.references }) n
  unfolding mem
  Linked-changed cancels c fresh = record {
    holds = refl;
    seen = ground (arith, eq_iff (reference n) (reference n));
    cancelled = ground (arith, eq_iff (reference n) (reference n), fresh_uncancelled fresh);
    known = λ x. ground (arith, l.known x);
  }

  pub Linked-seen : Linked (record s { references = reference n ∷ s.references }) latest
  unfolding mem
  Linked-seen = record {
    holds = l.holds;
    seen = ground (arith, l.seen);
    cancelled = l.cancelled;
    known = λ x. ground (arith, l.known x);
  }

  -- What `visit` tests before it looks at the kind.
  visit_facts :
      {s' : LineageState}
      → visit procedure n s ≡ ok s'
      → (mem (reference n) s.references ≡ false)
        × (n.identity.procedure_identifier ≡ procedure)
        × ((t : LineageState) × (visit_kind (kind n) n s ≡ ok t)
            × (s' ≡ record t { references = reference n ∷ t.references }))
  unfolding visit
  visit_facts {s'} h = elim (Bool-cases (mem (reference n) s.references)) [
    | inl e ↦ ground arith
    | inr e ↦ elim (Bool-cases (n.identity.procedure_identifier == procedure)) [
      | inr p ↦ ground arith
      | inl p ↦
          let (t, ran, last) =
            >>=-eq-ok (visit_kind (kind n) n s)
              (λ t. ok (record t { references = reference n ∷ t.references })) (rw (e, p) at h) in
          (e, (eq_iff n.identity.procedure_identifier procedure).0 p, (t, ran, cc))
    ]
  ]

  module _ (fresh : mem (reference n) s.references ≡ false)
      (same : n.identity.procedure_identifier ≡ procedure) where
    Followed-change :
        (cancels : Bool) {s' t : LineageState}
        → is_change (kind n) ≡ true
        → cancels ≡ is_cancellation (kind n)
        → visit_change cancels n s ≡ ok t
        → s' ≡ record t { references = reference n ∷ t.references }
        → Followed procedure latest n s s'
    Followed-change cancels {s'} {t} k c ran e =
        let (named, open_, lots, step) = visit_change_facts cancels ran in
        let e' : s' ≡ record (changed cancels) { references = reference n ∷ s.references } =
          e
          ∙ ap (λ (x : LineageState). record x { references = reference n ∷ x.references }) step in
        record {
          next = n;
          linked = rw e' (Linked-changed cancels c fresh);
          by = change k open_ named lots fresh same;
          extends = cc e';
          counts = cc e';
        }

    visit_result_facts :
        {t : LineageState}
        → visit_result n s ≡ ok t
        → (subset n.identity.lot_ids latest.identity.lot_ids ≡ true) × (t ≡ s)
    unfolding visit_result
    visit_result_facts ran = ground (arith, l.holds)

    Followed-result :
        {s' : LineageState}
        → kind n ≡ procedure_result
        → subset n.identity.lot_ids latest.identity.lot_ids ≡ true
        → s' ≡ record s { references = reference n ∷ s.references }
        → Followed procedure latest n s s'
    Followed-result k lots e = record {
      next = latest;
      linked = rw e Linked-seen;
      by = result k lots fresh same;
      extends = cc e;
      counts = cc e;
    }

    Followed-kind :
        (k : Kind) {s' t : LineageState}
        → kind n ≡ k
        → visit_kind k n s ≡ ok t
        → s' ≡ record t { references = reference n ∷ t.references }
        → Followed procedure latest n s s'
    unfolding visit_kind
    Followed-kind competition_initial {s'} k ran e =
        absurd (unfold visit_initial in ground (arith, l.holds))
    Followed-kind competition_correction {s'} k ran e = Followed-change false (rw k) (rw k) ran e
    Followed-kind notice_cancellation {s'} k ran e = Followed-change true (rw k) (rw k) ran e
    Followed-kind procedure_result {s'} {t} k ran e = Followed-result k (visit_result_facts ran).0 (
        e
        ∙ ap (λ (x : LineageState). record x { references = reference n ∷ x.references })
            (visit_result_facts ran).1)
    Followed-kind other {s'} k ran e = cc ran

  -- A round that does not raise follows a link.
  pub visit-Followed :
      {s' : LineageState} → visit procedure n s ≡ ok s' → Followed procedure latest n s s'
  visit-Followed h =
      let (fresh, same, rest) = visit_facts h in
      let (t, ran, e) = rest in Followed-kind fresh same (kind n) refl ran e

  visit_of_kind :
      {t : LineageState}
      → mem (reference n) s.references ≡ false
      → n.identity.procedure_identifier ≡ procedure
      → visit_kind (kind n) n s ≡ ok t
      → visit procedure n s ≡ ok (record t { references = reference n ∷ t.references })
  unfolding visit
  visit_of_kind fresh same ran =
      rw (fresh, (eq_iff n.identity.procedure_identifier procedure).1 same, ran)

  visit_change_passes :
      (cancels : Bool)
      → is_cancellation (kind latest) ≡ false
      → n.identity.changed_notice_reference ≡ some (reference latest)
      → n.identity.lot_ids ≡ latest.identity.lot_ids
      → visit_change cancels n s ≡ ok (changed cancels)
  unfolding visit_change previous_reference latest_named
  visit_change_passes cancels free named lots = ground (
    arith,
    l.holds,
    l.seen,
    l.cancelled,
    eq_iff (reference latest) (reference latest),
    same_texts_refl latest.identity.lot_ids,
  )

  visit_kind-change :
      (k : Kind)
      → is_change k ≡ true
      → is_cancellation (kind latest) ≡ false
      → n.identity.changed_notice_reference ≡ some (reference latest)
      → n.identity.lot_ids ≡ latest.identity.lot_ids
      → visit_kind k n s ≡ ok (changed (is_cancellation k))
  unfolding visit_kind
  visit_kind-change competition_correction c free named lots =
      visit_change_passes false free named lots
  visit_kind-change notice_cancellation c free named lots = visit_change_passes true free named lots
  visit_kind-change _ c free named lots = cc c

  -- A round raises nothing where a link can be followed.
  pub Link-visit :
      {next : LifecycleNotice}
      → Link procedure latest s.references n next
      → (s' : LineageState) × (visit procedure n s ≡ ok s')
  unfolding visit_result visit_kind
  Link-visit (change k free named lots fresh same) =
      (_, visit_of_kind fresh same (visit_kind-change (kind n) k free named lots))
  Link-visit (result k lots fresh same) =
      (_, visit_of_kind {t = s} fresh same (rw k (ground (arith, l.holds))))
