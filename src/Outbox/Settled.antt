-- ===== src/Outbox/Settled.antt =====
-- What one run of a publisher does to every row of the table, to the queue and to the count.
use axignal.Common.{
  ◌≡◌, refl, sym, ap, ◌∙◌, ℕ, suc, zero, ◌+◌, String, false, ◌&&◌, List, [], ◌∷◌, ◌++◌, map, length,
  Result, ok, err, arith, ◌==◌, eq_iff, All, append_assoc, append-nil, Bool-cases, inl, inr,
  if◌then◌else◌, and-left,
}
use axignal.Outbox.Payload.{Exception, describe}
use axignal.Outbox.Table.{
  Row, is_pending, due, due_rows, limited, pending_outbox, published_row, failed_row, update,
  mark_published, mark_failed,
}
use axignal.Outbox.Publisher.{Message, Run, attempt, settle_with, publish_all, publish_pending}

-- No two rows have one identifier.
unfoldable pub Distinct : List Row → Type 0
Distinct [] = Unit
Distinct (r ∷ rs) = All (λ q. (r.event_id == q.event_id) ≡ false) rs × Distinct rs

All-limited {ℓ} : (P : Row → Type ℓ) (n : ℕ) (rs : List Row) → All P rs → All P (limited n rs)
unfolding limited
All-limited P zero rs a = tt
All-limited P (suc n) [] a = tt
All-limited P (suc n) (r ∷ rs) a = (a.0, All-limited P n rs a.1)

Distinct-limited : (n : ℕ) (rs : List Row) → Distinct rs → Distinct (limited n rs)
unfolding limited Distinct
Distinct-limited zero rs d = tt
Distinct-limited (suc n) [] d = tt
Distinct-limited (suc n) (r ∷ rs) d = (All-limited _ n rs d.0, Distinct-limited n rs d.1)

All-due_rows {ℓ} : (P : Row → Type ℓ) (now : ℕ) (rs : List Row) → All P rs → All P (due_rows now rs)
unfolding due_rows
All-due_rows P now [] a = tt
All-due_rows P now (r ∷ rs) a = elim (Bool-cases (due now r)) [
  | inl e ↦ rw e (a.0, All-due_rows P now rs a.1)
  | inr e ↦ rw e (All-due_rows P now rs a.1)
]

Distinct-due_rows : (now : ℕ) (rs : List Row) → Distinct rs → Distinct (due_rows now rs)
unfolding due_rows Distinct
Distinct-due_rows now [] d = tt
Distinct-due_rows now (r ∷ rs) d = elim (Bool-cases (due now r)) [
  | inl e ↦ rw e (All-due_rows _ now rs d.0, Distinct-due_rows now rs d.1)
  | inr e ↦ rw e (Distinct-due_rows now rs d.1)
]

module _ (message : Row → Result Exception Message)
    (push : Row → Message → Result Exception (Unit {0})) (now : ℕ) where
  -- What becomes of the row of an event that was tried.
  pub outcome : Result Exception Message → Row → Row
  outcome (ok m) r = published_row r
  outcome (err x) r = failed_row now (describe x) r

  -- What becomes of a row when these events are tried.
  pub settled : List Row → Row → Row
  settled [] r = r
  settled (e ∷ es) r =
      if r.event_id == e.event_id && is_pending r.status
      then outcome (attempt message push now e) r
      else settled es r

  -- The message of an attempt that succeeded, before the others.
  abbrev accepted : Result Exception Message → List Message → List Message
  accepted (ok m) ms = m ∷ ms
  accepted (err x) ms = ms

  -- The messages that the server took.
  pub delivered : List Row → List Message
  delivered [] = []
  delivered (e ∷ es) = accepted (attempt message push now e) (delivered es)

  outcome-event_id : (a : Result Exception Message) (r : Row) → (outcome a r).event_id ≡ r.event_id
  unfolding outcome published_row failed_row
  outcome-event_id (ok m) r = refl
  outcome-event_id (err x) r = refl

  settled_other :
      (es : List Row) (r : Row) (id : String)
      → r.event_id ≡ id
      → All (λ q. (id == q.event_id) ≡ false) es
      → settled es r ≡ r
  unfolding settled
  settled_other [] r id same a = refl
  settled_other (e ∷ es) r id same a =
      rw (ap (λ i. i == e.event_id) same ∙ a.0) (settled_other es r id same a.1)

  settled-update :
      (e : Row) (es : List Row) (rows : List Row)
      → All (λ q. (e.event_id == q.event_id) ≡ false) es
      → map (settled es) (update e.event_id (outcome (attempt message push now e)) rows)
        ≡ map (settled (e ∷ es)) rows
  unfolding settled update
  settled-update e es [] a = refl
  settled-update e es (r ∷ rows) a =
      let o = attempt message push now e in
      let rest = settled-update e es rows a in
      elim (Bool-cases (r.event_id == e.event_id && is_pending r.status)) [
        | inl h ↦
            let tested = and-left (r.event_id == e.event_id) (is_pending r.status) h in
            let same : r.event_id ≡ e.event_id = ground (arith, eq_iff r.event_id e.event_id) in
            rw h
              (cc (settled_other es (outcome o r) e.event_id (outcome-event_id o r ∙ same) a, rest))
        | inr h ↦ rw h (ap (λ l. settled es r ∷ l) rest)
      ]

  settled_none : (rows : List Row) → map (settled []) rows ≡ rows
  unfolding settled
  settled_none [] = refl
  settled_none (r ∷ rows) = ap (λ l. r ∷ l) (settled_none rows)

  -- One event: the rows by `update`, the message and the count.
  settle_with-lem :
      (e : Row) (a : Result Exception Message) (run : Run)
      → (settle_with message push now e a run).rows ≡ update e.event_id (outcome a) run.rows
  unfolding settle_with mark_published mark_failed outcome
  settle_with-lem e (ok m) run = refl
  settle_with-lem e (err x) run = refl

  settled_run : List Row → Run → Run
  settled_run es run = record {
    rows = map (settled es) run.rows;
    sent = run.sent ++ delivered es;
    count = run.count + length (delivered es);
  }

  settle_with-sent :
      (e : Row) (a : Result Exception Message) (run : Run) (ms : List Message)
      → (settle_with message push now e a run).sent ++ ms ≡ run.sent ++ accepted a ms
  unfolding settle_with
  settle_with-sent e (ok m) run ms = append_assoc run.sent (m ∷ []) ms
  settle_with-sent e (err x) run ms = refl

  settle_with-count :
      (e : Row) (a : Result Exception Message) (run : Run) (ms : List Message)
      → (settle_with message push now e a run).count + length ms
        ≡ run.count + length (accepted a ms)
  unfolding settle_with
  settle_with-count e (ok m) run ms = omega arith
  settle_with-count e (err x) run ms = refl

  Run_eq :
      {rows rows2 : List Row} {sent sent2 : List Message} {count count2 : ℕ}
      → rows ≡ rows2
      → sent ≡ sent2
      → count ≡ count2
      → ◌≡◌ {A = Run}
          (record { rows = rows; sent = sent; count = count })
          (record { rows = rows2; sent = sent2; count = count2 })
  Run_eq h k l = cc (h, k, l)

  publish_all-lem :
      (es : List Row) (run : Run)
      → Distinct es
      → publish_all message push now es run ≡ settled_run es run
  unfolding publish_all settled_run delivered Distinct
  publish_all-lem [] run d =
      Run_eq (sym (settled_none run.rows)) (sym (append-nil run.sent)) (omega arith)
  publish_all-lem (e ∷ es) run d =
      let a = attempt message push now e in
      let next = settle_with message push now e a run in
      publish_all-lem es next d.1
      ∙ Run_eq (ap (map (settled es)) (settle_with-lem e a run) ∙ settled-update e es run.rows d.0)
          (settle_with-sent e a run (delivered es)) (settle_with-count e a run (delivered es))

  -- In a table without two rows of one identifier, a run of `publish_pending` sends the messages of
  -- the due events within the limit, in their order, less those that are refused; it counts exactly
  -- those; each event that was sent is marked published, each that was refused is marked failed with
  -- its exception, and no other row is changed.
  pub publish_pending-lem :
      (limit : ℕ) (rows : List Row) (sent : List Message)
      → Distinct rows
      → let es = pending_outbox now limit rows in
        publish_pending message push now limit rows sent ≡ record {
          rows = map (settled es) rows;
          sent = sent ++ delivered es;
          count = length (delivered es);
        }
  unfolding publish_pending pending_outbox settled_run
  publish_pending-lem limit rows sent d =
      publish_all-lem (pending_outbox now limit rows)
        (record { rows = rows; sent = sent; count = 0 })
        (Distinct-limited limit (due_rows now rows) (Distinct-due_rows now rows d))
      ∙ Run_eq refl refl (omega arith)
