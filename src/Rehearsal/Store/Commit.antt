-- ===== src/Rehearsal/Store/Commit.antt =====
-- Atomicity and idempotency of `commit`.
use axignal.Common.{
  ℕ, suc, ◌≡◌, refl, String, Bool, true, false, none, some, List, [], ◌∷◌, ◌==◌, eq_iff, arith,
  Result, ok, err, inl, inr, Option-cases, if◌then◌else◌,
}
use axignal.Common.Json.{Json, text, obj, Library}
use axignal.Common.{ap, map, ◌++◌, length, ◌∙◌, Bool-cases}
use axignal.Rehearsal.Decision.{AdmissionDecision, RehearsalResult, as_payload}
use axignal.Rehearsal.Store.Journal.{
  numbered, extended, extended_twice, decision_entry, record_decisions-extended,
}
use axignal.Rehearsal.Store.{
  AdmissionStore, Failpoint, after_first_decision, lookup, put, existing, append_event, started,
  recorded, committed, new_result, record_decisions, finish, commit_body, rollback, commit,
}

rollback-err :
    (snapshot : AdmissionStore) (p : Result Failpoint RehearsalResult × AdmissionStore)
    → p.0 ≡ err after_first_decision
    → rollback snapshot p ≡ (err after_first_decision, snapshot)
unfolding rollback
rollback-err snapshot (ok r, s) h = cc
rollback-err snapshot (err e, s) h = ground arith

-- Reading a key after a write.
pub lookup-put :
    (k j : String) (r : RehearsalResult) (m : List (String × RehearsalResult))
    → lookup j (put k r m) ≡ (if k == j then some r else lookup j m)
unfolding lookup put
lookup-put k j r [] = refl
lookup-put k j r ((i, q) ∷ m) =
    ground (arith, eq_iff k j, eq_iff i k, eq_iff i j, lookup-put k j r m)

-- Whether the loop raises: on the first round, with the failpoint set.
abbrev pub fails : Bool → List AdmissionDecision → Bool
fails fail [] = false
fails fail (d ∷ ds) = fail

abbrev start_entry : String → String × Json
start_entry key = ("PROCUREMENT_REHEARSAL_BATCH_STARTED", obj (("idempotency_key", text key) ∷ []))

abbrev commit_entry : String → List AdmissionDecision → String × Json
commit_entry batch ds = ("PROCUREMENT_REHEARSAL_BATCH_COMMITTED", as_payload (new_result batch ds))

-- What a batch writes in the log: its start, every decision in order, its commit.
abbrev pub batch_entries : String → String → List AdmissionDecision → List (String × Json)
batch_entries key batch ds =
    start_entry key ∷ (map decision_entry ds ++ (commit_entry batch ds ∷ []))

module _ (lib : Library) where
  record_decisions-later :
      (fail : Bool) (batch : String) (index : ℕ) (ds : List AdmissionDecision) (s : AdmissionStore)
      → (record_decisions lib fail batch (suc index) ds s).0 ≡ ok tt
  unfolding record_decisions
  record_decisions-later fail batch index [] s = refl
  record_decisions-later fail batch index (d ∷ ds) s =
      ground (arith, record_decisions-later fail batch (suc index) ds (recorded lib batch d s))

  record_decisions-outcome :
      (fail : Bool) (batch : String) (ds : List AdmissionDecision) (s : AdmissionStore)
      → (record_decisions lib fail batch 0 ds s).0
        ≡ (if fails fail ds then err after_first_decision else ok tt)
  unfolding record_decisions
  record_decisions-outcome fail batch [] s = refl
  record_decisions-outcome true batch (d ∷ ds) s = refl
  record_decisions-outcome false batch (d ∷ ds) s =
      record_decisions-later false batch 0 ds (recorded lib batch d s)

  -- The loop leaves the stored results alone.
  record_decisions-results :
      (fail : Bool) (batch : String) (index : ℕ) (ds : List AdmissionDecision) (s : AdmissionStore)
      → (record_decisions lib fail batch index ds s).1.results ≡ s.results
  unfolding record_decisions
  record_decisions-results fail batch index [] s = refl
  record_decisions-results fail batch index (d ∷ ds) s =
      ground (arith, record_decisions-results fail batch (suc index) ds (recorded lib batch d s))

  -- All or nothing: the abstract transaction.
  unfoldable pub transaction :
      String
      → List AdmissionDecision
      → Bool
      → String
      → AdmissionStore
      → Result Failpoint RehearsalResult × AdmissionStore
  transaction key ds fail batch s = elim (existing key s) [
    | some r ↦ (ok r, s)
    | none ↦ if fails fail ds then (err after_first_decision, s) else (
      ok (new_result batch ds),
      record {
        results = put key (new_result batch ds) s.results;
        events = s.events ++ numbered lib batch (length s.events) (batch_entries key batch ds);
      },
    )
  ]

  record_decisions-succeeds :
      (fail : Bool) (batch : String) (ds : List AdmissionDecision) (s : AdmissionStore)
      → fails fail ds ≡ false
      → record_decisions lib fail batch 0 ds s
        ≡ (ok tt, extended lib batch s (map (decision_entry) ds))
  record_decisions-succeeds fail batch ds s h =
      let e : (record_decisions lib fail batch 0 ds s).0 ≡ ok tt =
        rw h at (record_decisions-outcome fail batch ds s) in
      λ i. (e i, record_decisions-extended lib batch fail 0 ds s e i)

  finish-err :
      (key batch : String) (ds : List AdmissionDecision)
      (p : Result Failpoint (Unit {0}) × AdmissionStore)
      → p.0 ≡ err after_first_decision
      → (finish lib key batch ds p).0 ≡ err after_first_decision
  unfolding finish
  finish-err key batch ds (ok _, s) h = cc
  finish-err key batch ds (err e, s) h = ground arith

  commit_body-fails :
      (key : String) (ds : List AdmissionDecision) (fail : Bool) (batch : String)
      (s : AdmissionStore)
      → fails fail ds ≡ true
      → (commit_body lib key ds fail batch s).0 ≡ err after_first_decision
  unfolding commit_body
  commit_body-fails key ds fail batch s h =
      finish-err key batch ds _
        (rw h at (record_decisions-outcome fail batch ds (started lib batch key s)))

  commit_body-succeeds :
      (key : String) (ds : List AdmissionDecision) (fail : Bool) (batch : String)
      (s : AdmissionStore)
      → fails fail ds ≡ false
      → commit_body lib key ds fail batch s ≡ (
        ok (new_result batch ds),
        extended lib batch
            (record s { results = put key (new_result batch ds) s.results })
            (batch_entries key batch ds),
      )
  unfolding commit_body finish committed started append_event numbered
  commit_body-succeeds key ds fail batch s h =
      let s' : AdmissionStore = record s { results = put key (new_result batch ds) s.results } in
      rw (record_decisions-succeeds fail batch ds (started lib batch key s) h) (
        ap (λ t. (ok (new_result batch ds), t))
          (extended_twice lib batch (extended lib batch s' (start_entry key ∷ []))
              (map decision_entry ds) (commit_entry batch ds ∷ [])
            ∙ extended_twice lib batch s' (start_entry key ∷ [])
                (map decision_entry ds ++ (commit_entry batch ds ∷ []))))

  -- `commit`, with its events one by one, its failpoint and its rollback, is the transaction: a stored
  -- key is answered with the stored result as a replay; else, where the failpoint meets a first
  -- decision, it raises and the store is as before; else the result is stored and the log grows by
  -- the events of the whole batch.
  pub commit-eq-transaction :
      (key : String) (ds : List AdmissionDecision) (fail : Bool) (batch : String)
      (s : AdmissionStore)
      → commit lib key ds fail batch s ≡ transaction key ds fail batch s
  unfolding commit transaction rollback
  commit-eq-transaction key ds fail batch s = elim (Option-cases (existing key s)) [
    | inr (r, e) ↦ rw (e, commit, transaction)
    | inl e ↦ elim (Bool-cases (fails fail ds)) [
      | inl f ↦
          rw (e, commit, transaction)
            (rw f (rollback-err s _ (commit_body-fails key ds fail batch s f)))
      | inr f ↦
          rw (e, commit, transaction)
            (rw f (rw (commit_body-succeeds key ds fail batch s f, rollback)))
    ]
  ]
