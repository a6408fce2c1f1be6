-- ===== src/Outbox/Table.antt =====
-- The tables of outbox events: the rows in the order of `created_at`, and the three statements on
-- them. Times are seconds.
use axignal.Common.{
  ℕ, zero, suc, String, Bool, true, false, ◌&&◌, Option, some, List, [], ◌∷◌, leb, ◌==◌, ◌+◌,
  first_chars, if◌then◌else◌,
}
use axignal.Common.Json.{Fields}

pub data Status : Type 0 where
  pending published failed : Status

pub record Row : Type 0 where
  pub event_id : String
  pub aggregate_id : String
  pub event_type : String
  pub payload : Fields
  pub attempts : ℕ
  pub status : Status
  pub available_at : ℕ
  pub last_error : Option String

abbrev pub is_pending : Status → Bool
is_pending pending = true
is_pending published = false
is_pending failed = false

-- `WHERE status = 'PENDING' AND available_at <= now()`
unfoldable pub due : ℕ → Row → Bool
due now r = is_pending r.status && leb r.available_at now

unfoldable pub due_rows : ℕ → List Row → List Row
unfolding due
due_rows now [] = []
due_rows now (r ∷ rs) = let rest = due_rows now rs in if due now r then r ∷ rest else rest

-- `LIMIT n`
unfoldable pub limited {ℓ} : {A : Type ℓ} → ℕ → List A → List A
limited zero rs = []
limited (suc n) [] = []
limited (suc n) (r ∷ rs) = r ∷ limited n rs

-- `pending_outbox`, `pending_admission_outbox`, `pending_proposal_outbox`
unfoldable pub pending_outbox : ℕ → ℕ → List Row → List Row
unfolding due_rows limited
pending_outbox now limit rows = limited limit (due_rows now rows)

-- What `UPDATE ... SET` writes for an event that was published.
unfoldable pub published_row : Row → Row
published_row r = record {
  event_id = r.event_id;
  aggregate_id = r.aggregate_id;
  event_type = r.event_type;
  payload = r.payload;
  attempts = suc r.attempts;
  status = published;
  available_at = r.available_at;
  last_error = r.last_error;
}

-- `CASE WHEN attempts >= 4 THEN 'FAILED' ELSE 'PENDING' END`, of the attempts before the update.
abbrev pub status_after : ℕ → Status
status_after attempts = if leb 4 attempts then failed else pending

-- What it writes for an event that could not be published.
unfoldable pub failed_row : ℕ → String → Row → Row
unfolding first_chars
failed_row now error r = record {
  event_id = r.event_id;
  aggregate_id = r.aggregate_id;
  event_type = r.event_type;
  payload = r.payload;
  attempts = suc r.attempts;
  status = status_after r.attempts;
  available_at = now + 30;
  last_error = some (first_chars 500 error);
}

-- `WHERE outbox_event_id = %s AND status = 'PENDING'`
unfoldable pub update : String → (Row → Row) → List Row → List Row
update id set [] = []
update id set (r ∷ rs) =
    let rest = update id set rs in
    if r.event_id == id && is_pending r.status then set r ∷ rest else r ∷ rest

unfoldable pub mark_published : String → List Row → List Row
unfolding update published_row
mark_published id rows = update id published_row rows

unfoldable pub mark_failed : ℕ → String → String → List Row → List Row
unfolding update failed_row
mark_failed now id error rows = update id (failed_row now error) rows
