-- ===== src/Rehearsal.antt =====
-- apps/api/src/axignal_api/procurement_admission_rehearsal.py, and the candidate claims of
-- connectors/ted_eforms.py that it decides on. The definitions come first, the proofs below them.
pub mod Claim
pub mod Context
pub mod Decision
pub mod Store
pub mod Policy
