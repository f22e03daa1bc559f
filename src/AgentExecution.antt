-- ===== src/AgentExecution.antt =====
-- src/domains/agent-execution: the contract of one attempt, the exclusion of the graph of nodes from
-- what a worker is given, the capabilities of the phases, and the ledger of fallbacks.
pub mod DagExclusion
pub mod AttemptContracts
pub mod PhaseCapabilities
pub mod WorkspaceLifecycle
pub mod BackendFallback
pub mod Samples
mod Witnesses
