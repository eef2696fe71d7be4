-- ===== src/Results.antt =====
-- Match results: results/results.service.ts and results/result-confirmation-policy.service.ts.
pub mod Policy
pub mod Input
pub mod Preview
pub mod Rows
pub mod Guards
pub mod Handlers
pub mod Finality
pub mod Repeated
pub mod Readiness
pub mod Recipients
pub mod Dispute
