-- ===== src/WorkIntake.antt =====
-- src/domains/work-intake: the untrusted boundary of hand-authored work.
pub mod Contracts
pub mod Idempotency
pub mod Targets
pub mod Units
pub mod Ordering
pub mod Submissions
pub mod Canonical
pub mod Intake
pub mod Samples
mod Witnesses
