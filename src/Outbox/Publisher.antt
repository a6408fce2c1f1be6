-- ===== src/Outbox/Publisher.antt =====
-- `OutboxPublisher`, `AdmissionOutboxPublisher` and `ProposalOutboxPublisher`: `publish_pending`.
use axignal.Common.{
  ℕ, suc, String, not, List, [], ◌∷◌, ◌++◌, ◌==◌, ◌⧺◌, if◌then◌else◌, Result, ok, err, reject_if,
  ◌>>=◌, ◌>>◌,
}
use axignal.Common.Json.{object}
use axignal.Outbox.Payload.{Exception, value_error, describe, PayloadLibrary}
use axignal.Outbox.Queue.{research, admission, proposal, encode}
use axignal.Outbox.Table.{Row, pending_outbox, mark_published, mark_failed}

-- What is sent to the cache server: a text on the job queue, or an entry of the event stream.
pub data Message : Type 0 where
  job : String → Message
  stream_event : String → String → String → Message

module _ (lib : PayloadLibrary) where
  -- `OutboxPublisher`: research jobs go on the queue, all other events on the stream.
  unfoldable pub research_message : Row → Result Exception Message
  unfolding encode
  research_message r =
      if r.event_type == "research.run.requested"
      then (do j ← (research lib).from_payload r.payload; ok (job (encode lib (research lib) j)))
      else ok (stream_event r.event_type r.aggregate_id (lib.dumps (object r.payload)))

  unfoldable pub admission_message : Row → Result Exception Message
  unfolding encode
  admission_message r = do
    reject_if (not (r.event_type == "admission.handoff.requested"))
        (value_error ("Unsupported admission outbox event " ⧺ r.event_type))
    j ← (admission lib).from_payload r.payload
    ok (job (encode lib (admission lib) j))

  unfoldable pub proposal_message : Row → Result Exception Message
  unfolding encode
  proposal_message r = do
    reject_if (not (r.event_type == "research.document_proposal.requested"))
        (value_error ("Unsupported proposal outbox event " ⧺ r.event_type))
    j ← (proposal lib).from_payload r.payload
    ok (job (encode lib (proposal lib) j))

-- The state of a run: the table, and what the server holds.
pub record Run : Type 0 where
  pub rows : List Row
  pub sent : List Message
  pub count : ℕ

-- A publisher: the message of an event, and the server's answer to it, an exception where it is
-- unreachable.
module _ (message : Row → Result Exception Message)
    (push : Row → Message → Result Exception (Unit {0})) (now : ℕ) where
  -- The body of `try`. What it raises is what `except` lists: a `RedisError` of `push`, or a
  -- `ValueError`, `KeyError` or `TypeError` of reading the payload.
  unfoldable pub attempt : Row → Result Exception Message
  attempt e = do m ← message e; push e m; ok m

  -- What one event does to the run.
  unfoldable pub settle_with : Row → Result Exception Message → Run → Run
  unfolding mark_published mark_failed describe
  settle_with e (err x) run = record {
    rows = mark_failed now e.event_id (describe x) run.rows;
    sent = run.sent;
    count = run.count;
  }
  settle_with e (ok m) run = record {
    rows = mark_published e.event_id run.rows;
    sent = run.sent ++ m ∷ [];
    count = suc run.count;
  }

  unfoldable pub publish_all : List Row → Run → Run
  unfolding attempt settle_with
  publish_all [] run = run
  publish_all (e ∷ es) run = publish_all es (settle_with e (attempt e) run)

  unfoldable pub publish_pending : ℕ → List Row → List Message → Run
  unfolding pending_outbox publish_all
  publish_pending limit rows sent =
      publish_all (pending_outbox now limit rows) (record { rows = rows; sent = sent; count = 0 })
