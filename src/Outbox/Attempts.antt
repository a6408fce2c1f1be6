-- ===== src/Outbox/Attempts.antt =====
-- How often an event is tried.
use axignal.Common.{
  ◌≡◌, ℕ, suc, ◌≤◌, String, true, ◌&&◌, List, [], ◌∷◌, Result, ok, err, arith, ◌==◌, leb, All,
  Bool-cases, inl, inr, and-right,
}
use axignal.Outbox.Payload.{Exception, describe}
use axignal.Outbox.Table.{
  Row, Status, pending, published, failed, is_pending, status_after, pending_outbox, published_row,
  failed_row, update, mark_published, mark_failed,
}
use axignal.Outbox.Publisher.{Message, Run, attempt, settle_with, publish_all, publish_pending}

-- A pending event was tried at most four times, one that was given up exactly five times, and one that
-- was published at least once and at most five times.
unfoldable pub Tried : Status → ℕ → Type 0
Tried pending n = n ≤ 4
Tried published n = (1 ≤ n) × (n ≤ 5)
Tried failed n = n ≡ 5

unfoldable pub WithinLimit : Row → Type 0
WithinLimit r = Tried r.status r.attempts

Tried-pending : (s : Status) (n : ℕ) → is_pending s ≡ true → Tried s n → n ≤ 4
unfolding Tried
Tried-pending pending n h t = t
Tried-pending published n h t = cc h
Tried-pending failed n h t = cc h

Tried-status_after : (n : ℕ) → n ≤ 4 → Tried (status_after n) (suc n)
unfolding Tried
Tried-status_after n h = elim (Bool-cases (leb 4 n)) [
  | inl e ↦ rw e (ground arith)
  | inr e ↦ rw e (ground arith)
]

update-WithinLimit :
    (id : String) (set : Row → Row) (rows : List Row)
    → ((r : Row) → r.attempts ≤ 4 → WithinLimit (set r))
    → All WithinLimit rows
    → All WithinLimit (update id set rows)
unfolding update WithinLimit
update-WithinLimit id set [] f a = tt
update-WithinLimit id set (r ∷ rows) f a =
    let rest = update-WithinLimit id set rows f a.1 in
    elim (Bool-cases (r.event_id == id && is_pending r.status)) [
      | inl e ↦
          let open_ = and-right (r.event_id == id) (is_pending r.status) e in
          rw e (f r (Tried-pending r.status r.attempts open_ a.0), rest)
      | inr e ↦ rw e (a.0, rest)
    ]

module _ (message : Row → Result Exception Message)
    (push : Row → Message → Result Exception (Unit {0})) (now : ℕ) where
  settle_with-WithinLimit :
      (e : Row) (a : Result Exception Message) (run : Run)
      → All WithinLimit run.rows
      → All WithinLimit (settle_with message push now e a run).rows
  unfolding settle_with mark_published mark_failed published_row failed_row WithinLimit Tried
  settle_with-WithinLimit e (ok m) run w =
      update-WithinLimit e.event_id published_row run.rows (λ r h. (omega arith, omega arith)) w
  settle_with-WithinLimit e (err x) run w =
      update-WithinLimit e.event_id (failed_row now (describe x)) run.rows
        (λ r h. Tried-status_after r.attempts h) w

  publish_all-WithinLimit :
      (es : List Row) (run : Run)
      → All WithinLimit run.rows
      → All WithinLimit (publish_all message push now es run).rows
  unfolding publish_all
  publish_all-WithinLimit [] run w = w
  publish_all-WithinLimit (e ∷ es) run w =
      publish_all-WithinLimit es (settle_with message push now e (attempt message push now e) run)
        (settle_with-WithinLimit e (attempt message push now e) run w)

  -- A run of `publish_pending` keeps the limit on attempts, whatever the server answers: a pending
  -- event was tried at most four times, one that was given up exactly five times, and one that was
  -- published at least once and at most five times.
  pub publish_pending-WithinLimit :
      (limit : ℕ) (rows : List Row) (sent : List Message)
      → All WithinLimit rows
      → All WithinLimit (publish_pending message push now limit rows sent).rows
  unfolding publish_pending
  publish_pending-WithinLimit limit rows sent w =
      publish_all-WithinLimit (pending_outbox now limit rows)
        (record { rows = rows; sent = sent; count = 0 }) w
