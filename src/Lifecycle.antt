-- ===== src/Lifecycle.antt =====
-- apps/api/src/axignal_api/procurement_lifecycle_rehearsal.py: the lineage of a procedure's notices,
-- the evidence, decisions, events and dossier made from it, and the assembler that runs them.
pub mod Notice
pub mod Lineage
pub mod Evidence
pub mod Decisions
pub mod Events
pub mod Dossier
pub mod Parser
pub mod Assembler
