-- ===== src/Orchestration/Store.antt =====
-- src/domains/orchestration/sqlite-store.ts: the SQLite store of the controller. `Schema` is the
-- database; the other modules are the store's methods by the tables that they write.
pub mod Schema
pub mod Works
pub mod Imports
pub mod DirectTasks
pub mod Artifacts
pub mod Proofs
pub mod Nodes
pub mod Attempts
pub mod Leases
pub mod Results
pub mod Views
pub mod Queries
pub mod Leasing
pub mod Outcomes
pub mod NodeProgress
pub mod Additions
pub mod Imported
pub mod Calls
pub mod Reach
pub mod Reopening
pub mod History
pub mod Finality
pub mod AttemptHistory
pub mod Evolution
pub mod Fencing
pub mod ExactlyOnce
pub mod Conflicts
pub mod ProofHistory
pub mod Samples
mod Witnesses
pub mod LeaseInvariant
pub mod ResultInvariant
