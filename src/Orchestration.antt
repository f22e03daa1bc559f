-- ===== src/Orchestration.antt =====
-- src/domains/orchestration: the deterministic controller.
pub mod Lifecycle
pub mod Contracts
pub mod Frontier
pub mod Identifiers
pub mod Dispatch
pub mod Reconciliation
pub mod Consumption
pub mod Scheduling
pub mod Work
pub mod Store
pub mod Samples
mod Witnesses
