-- ===== src/Admission.antt =====
-- The admission ledger of apps/api/src/axignal_api: the policies that a handoff has to pass, the
-- decision on every candidate, and the rows that a decision writes.
pub mod Types
pub mod Number
pub mod Facts
pub mod Handoff
pub mod Sources
pub mod Evidence
pub mod Ledger
pub mod Flow
pub mod Runtime
