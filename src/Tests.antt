-- ===== src/Tests.antt =====
-- Runs of the code on concrete inputs, and the theorems applied to them.
pub mod Samples
pub mod RehearsalRuns
pub mod LifecycleRuns
pub mod LaunchRuns
pub mod Documents
pub mod OutboxRuns
pub mod TokenRuns
pub mod ProcurementRuns
pub mod EnterpriseRuns
pub mod ProposalRuns
pub mod AdmissionRuns
