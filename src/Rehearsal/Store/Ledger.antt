-- ===== src/Rehearsal/Store/Ledger.antt =====
-- What holds of the store after any commits, and what a second commit of a key does.
use axignal.Common.{
  ℕ, suc, ◌+◌, ◌≡◌, refl, ap, ◌∙◌, subst, String, Bool, false, none, some, List, [], ◌∷◌, ◌++◌, map,
  length, All, ◌==◌, eq_iff, arith, ok, if◌then◌else◌, Bool-cases, Option-cases, inl, inr,
}
use axignal.Common.Json.{Json, Library}
use axignal.Rehearsal.Decision.{AdmissionDecision, RehearsalResult, count_admissible}
use axignal.Rehearsal.Store.{
  AdmissionEvent, AdmissionStore, lookup, put, as_replay, existing, new_result, commit,
}
use axignal.Rehearsal.Store.Journal.{
  IsNumbered, IsNumbered-append, numbered, numbered-IsNumbered, decision_entry,
}
use axignal.Rehearsal.Store.Commit.{
  lookup-put, fails, batch_entries, transaction, commit-eq-transaction,
}

-- The number of committed batches in the log.
unfoldable pub count_committed : List AdmissionEvent → ℕ
count_committed [] = 0
count_committed (e ∷ es) =
    let rest = count_committed es in
    if e.event_type == "PROCUREMENT_REHEARSAL_BATCH_COMMITTED" then suc rest else rest

-- A stored result is no replay, and its count is that of its decisions.
abbrev pub IsOriginal : String × RehearsalResult → Type 0
IsOriginal (k, r) =
    (r.idempotent_replay ≡ false) × (r.sandbox_admissible_count ≡ count_admissible r.decisions)

pub record IsConsistent (s : AdmissionStore) : Type 0 where
  pub numbering : IsNumbered 0 s.events
  pub ledger : count_committed s.events ≡ length s.results
  pub originals : All IsOriginal s.results

count_committed-append :
    (es fs : List AdmissionEvent)
    → count_committed (es ++ fs) ≡ count_committed es + count_committed fs
unfolding count_committed
count_committed-append [] fs = omega arith
count_committed-append (e ∷ es) fs = ground (arith, count_committed-append es fs)

length-put_new :
    (k : String) (r : RehearsalResult) (m : List (String × RehearsalResult))
    → lookup k m ≡ none
    → length (put k r m) ≡ length m + 1
unfolding lookup put
length-put_new k r [] h = omega arith
length-put_new k r ((j, q) ∷ m) h = ground (arith, length-put_new k r m)

originals-put :
    (k : String) (r : RehearsalResult) (m : List (String × RehearsalResult))
    → IsOriginal (k, r)
    → All IsOriginal m
    → All IsOriginal (put k r m)
unfolding put
originals-put k r [] h a = (h, tt)
originals-put k r ((j, q) ∷ m) h a = elim (Bool-cases (j == k)) [
  | inl e ↦ rw e (h, a.1)
  | inr e ↦ rw e (a.0, originals-put k r m h a.1)
]

lookup_of_existing :
    (key : String) (s : AdmissionStore) → existing key s ≡ none → lookup key s.results ≡ none
unfolding existing
lookup_of_existing key s h = ground arith

-- What `existing` returns is a replay already.
pub existing-replay :
    (key : String) (s : AdmissionStore) {r : RehearsalResult}
    → existing key s ≡ some r
    → as_replay r ≡ r
unfolding existing as_replay
existing-replay key s h = ground arith

module _ (lib : Library) where
  count_committed-decisions :
      (batch : String) (n : ℕ) (ds : List AdmissionDecision) (rest : List (String × Json))
      → count_committed (numbered lib batch n (map decision_entry ds ++ rest))
        ≡ count_committed (numbered lib batch (n + length ds) rest)
  unfolding count_committed numbered
  count_committed-decisions batch n [] rest =
      ap (λ m. count_committed (numbered lib batch m rest)) (omega arith)
  count_committed-decisions batch n (d ∷ ds) rest =
      count_committed-decisions batch (n + 1) ds rest
      ∙ ap (λ m. count_committed (numbered lib batch m rest)) {x = n + 1 + length ds}
          {y = n + suc (length ds)} (omega arith)

  count_committed-batch :
      (key batch : String) (n : ℕ) (ds : List AdmissionDecision)
      → count_committed (numbered lib batch n (batch_entries key batch ds)) ≡ 1
  unfolding count_committed numbered
  count_committed-batch key batch n ds = count_committed-decisions batch (n + 1) ds _

  transaction-IsConsistent :
      (key : String) (ds : List AdmissionDecision) (fail : Bool) (batch : String)
      (s : AdmissionStore)
      → IsConsistent s
      → IsConsistent (transaction lib key ds fail batch s).1
  unfolding transaction
  transaction-IsConsistent key ds fail batch s c = elim (Option-cases (existing key s)) [
    | inr (r, e) ↦ rw (e, transaction) c
    | inl e ↦
        rw (e, transaction)
          (elim (Bool-cases (fails fail ds)) [
            | inl f ↦ rw f c
            | inr f ↦ rw f (record {
              numbering = IsNumbered-append 0 s.events _ c.numbering (
                  subst
                    (λ m.
                      IsNumbered m
                        (numbered lib batch (length s.events) (batch_entries key batch ds)))
                    (omega arith)
                    (numbered-IsNumbered lib batch (length s.events) (batch_entries key batch ds)));
              ledger = omega (
                arith,
                count_committed-append s.events
                    (numbered lib batch (length s.events) (batch_entries key batch ds)),
                count_committed-batch key batch (length s.events) ds,
                length-put_new key (new_result batch ds) s.results (lookup_of_existing key s e),
                c.ledger,
              );
              originals = originals-put key _ s.results (refl, refl) c.originals;
            })
          ])
  ]

  -- Every commit, whatever its outcome, keeps the store consistent: the events are numbered from 1
  -- without a gap, there are as many commit events as stored results, and no stored result is a
  -- replay or counts other than its decisions.
  pub commit-IsConsistent :
      (key : String) (ds : List AdmissionDecision) (fail : Bool) (batch : String)
      (s : AdmissionStore)
      → IsConsistent s
      → IsConsistent (commit lib key ds fail batch s).1
  commit-IsConsistent key ds fail batch s c =
      rw (commit-eq-transaction lib key ds fail batch s)
        (transaction-IsConsistent key ds fail batch s c)

  transaction-stored :
      (key : String) (ds : List AdmissionDecision) (fail : Bool) (batch : String)
      (s : AdmissionStore) {r : RehearsalResult} {s' : AdmissionStore}
      → transaction lib key ds fail batch s ≡ (ok r, s')
      → existing key s' ≡ some (as_replay r)
  unfolding transaction existing as_replay
  transaction-stored key ds fail batch s h =
      ground (arith, lookup-put key key (new_result batch ds) s.results, eq_iff key key)

  pub existing-commit :
      (key : String) (ds : List AdmissionDecision) (fail : Bool) (batch : String)
      (s : AdmissionStore) {r : RehearsalResult} {s' : AdmissionStore}
      → commit lib key ds fail batch s ≡ (ok r, s')
      → existing key s' ≡ some (as_replay r)
  existing-commit key ds fail batch s h =
      transaction-stored key ds fail batch s
        (rw (commit-eq-transaction lib key ds fail batch s) at h)

  -- Once a key is committed, a commit of it returns the stored decisions, marked as a replay, and
  -- changes nothing, whatever decisions, failpoint and batch it is given.
  pub commit_again :
      (key : String) (ds ds' : List AdmissionDecision) (fail fail' : Bool) (batch batch' : String)
      (s : AdmissionStore) {r : RehearsalResult} {s' : AdmissionStore}
      → commit lib key ds fail batch s ≡ (ok r, s')
      → commit lib key ds' fail' batch' s' ≡ (ok (as_replay r), s')
  commit_again key ds ds' fail fail' batch batch' s {r} {s'} h =
      let stored : existing key s' ≡ some (as_replay r) = existing-commit key ds fail batch s h in
      rw (commit-eq-transaction lib key ds' fail' batch' s')
        (unfold transaction in rw (stored, transaction))
