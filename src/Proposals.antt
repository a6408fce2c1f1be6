-- ===== src/Proposals.antt =====
-- apps/api/src/axignal_api/document_proposals.py: the local document pipeline, from the parsed
-- document to the provisional dossier.
pub mod Types
pub mod Parser
pub mod Regex
pub mod Scanner
pub mod Gateway
pub mod Drafts
pub mod Pipeline
