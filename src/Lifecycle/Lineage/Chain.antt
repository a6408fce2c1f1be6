-- ===== src/Lifecycle/Lineage/Chain.antt =====
-- What an accepted lineage is, without the loop's sets: a chain in which each change names the
-- competition notice before it.
pub mod Steps
use axignal.Common.{
  ◌≡◌, ◌≢◌, ◌⊎◌, String, Bool, true, false, Option, none, some, List, [], ◌∷◌, mem, subset,
}
use axignal.Lifecycle.Notice.{
  LifecycleNotice, Kind, competition_initial, competition_correction, notice_cancellation,
  procedure_result, reference, kind,
}

abbrev pub is_cancellation : Kind → Bool
is_cancellation notice_cancellation = true
is_cancellation _ = false

abbrev pub is_change : Kind → Bool
is_change competition_correction = true
is_change notice_cancellation = true
is_change _ = false

-- `n` may follow `latest`, the last competition notice, after notices with the references `refs`;
-- the index is the last competition notice from then on.
pub data Link (procedure : String) (latest : LifecycleNotice) (refs : List String)
    (n : LifecycleNotice) : LifecycleNotice → Type 0 where
  change :
      is_change (kind n) ≡ true
      → is_cancellation (kind latest) ≡ false
      → n.identity.changed_notice_reference ≡ some (reference latest)
      → n.identity.lot_ids ≡ latest.identity.lot_ids
      → mem (reference n) refs ≡ false
      → n.identity.procedure_identifier ≡ procedure
      → Link procedure latest refs n n
  result :
      kind n ≡ procedure_result
      → subset n.identity.lot_ids latest.identity.lot_ids ≡ true
      → mem (reference n) refs ≡ false
      → n.identity.procedure_identifier ≡ procedure
      → Link procedure latest refs n latest

pub data Chain (procedure : String)
    : LifecycleNotice → List String → List LifecycleNotice → Type 0 where
  done : {latest : LifecycleNotice} {refs : List String} → Chain procedure latest refs []
  link :
      {latest next : LifecycleNotice} {refs : List String} {n : LifecycleNotice}
      {rest : List LifecycleNotice}
      → Link procedure latest refs n next
      → Chain procedure next (reference n ∷ refs) rest
      → Chain procedure latest refs (n ∷ rest)

-- An initial competition notice, and a chain from it.
pub data IsLineage : List LifecycleNotice → Type 0 where
  begin :
      {n : LifecycleNotice} {rest : List LifecycleNotice}
      → kind n ≡ competition_initial
      → Chain n.identity.procedure_identifier n (reference n ∷ []) rest
      → IsLineage (n ∷ rest)
