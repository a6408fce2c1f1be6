-- ===== src/Outbox.antt =====
-- apps/api/src/axignal_api/queue.py, admission_queue.py, proposal_queue.py and the outbox tables of
-- repository.py, admission_outbox_store.py and proposal_repository.py: jobs as payloads, the tables
-- of pending events, and the publishers that put the events on the queues.
pub mod Payload
pub mod Jobs
pub mod Queue
pub mod Codec
pub mod Roundtrip
pub mod Table
pub mod Publisher
pub mod Settled
pub mod Attempts
