-- ===== src/Lib.antt =====
-- Agent Pool: the deterministic controller of a pool of coding agents.
--
-- A caller submits direct tasks, which the intake validates, hashes and accepts once for each
-- idempotency key. The controller imports approved work (a graph of nodes), finds the nodes whose
-- dependencies have passed, creates an attempt with a resolved builder for each and puts its
-- identifiers on a queue. The router chooses builders and evaluators from a policy and from what is
-- available. A worker consumes an envelope, is given one contract with nothing of the graph in it,
-- claims the attempt by a lease, and sends a result with the lease's token and generation; the store
-- accepts one result for each attempt, authorizes its completion, and completes it once. Within an
-- attempt, a ledger counts the backends that were used, and the workspace is destroyed at its end. A
-- reconciliation at startup enqueues, reclaims and completes what was cut off.
--
--   * Prelude, Prelude/*: texts (strings as UTF-16 code units), Boolean tests, fallible steps, tables
--     as lists of rows (SELECT, UPDATE, DELETE, INSERT) with their lemmas, stable sorting with the
--     orders of JavaScript and SQLite, predicates on all elements, decimal digits.
--   * Js: JavaScript values, as validators of untrusted input read them.
--   * ModelRouting/*: src/domains/model-routing-and-evaluation. ApprovedModels is approved-models.ts;
--     Router and Pairing are model-router.ts (`selectForRole`, `selectBuilderEvaluatorPair`), Policies
--     and Loaders bootstrap-policy.ts. Their child modules hold the proofs.
--   * WorkIntake/*: src/domains/work-intake. Contracts is contracts.ts; Idempotency idempotency.ts;
--     Targets, Units, Ordering and Submissions unit-validation.ts; Canonical payload-hash.ts; Intake
--     direct-intake.ts.
--   * AgentExecution/*: src/domains/agent-execution. DagExclusion, AttemptContracts,
--     PhaseCapabilities, BackendFallback and WorkspaceLifecycle model the files of these names.
--   * Orchestration/Lifecycle: src/domains/orchestration/lifecycle.ts.
--   * Orchestration/Contracts: contracts.ts of the same domain; Orchestration/Scheduling its
--     scheduling policy; Orchestration/Work, Work/Validation, Work/Topology and Work/Canonical
--     the approved work, `validateWork` and `canonicalWorkHash`.
--   * Orchestration/Store/*: sqlite-store.ts. Schema is the database; Works, Imports, DirectTasks, Nodes,
--     Attempts, Leases, Results, Artifacts and Proofs are the methods by the tables that they write, each method
--     a function of the same name in snake_case. Leasing and Outcomes are the case rules of the
--     methods, Additions and Imported what the imports, artifacts and proofs leave as it was, Calls
--     the histories of calls, the other modules the proofs over them.
--   * Orchestration/Frontier: ready-frontier.ts. Orchestration/Identifiers and Consumption:
--     attempt-dispatch.ts, which asks AgentExecution/AttemptContracts. Orchestration/Dispatch: dispatch-service.ts.
--     Orchestration/Reconciliation: reconciliation.ts.
--   * The modules named Witnesses and Samples: the theorems at small inputs.
--
-- A method of the store is a function from the database to the database and its answer. Each is one
-- transaction: an error leaves the database as it was. A method that throws inside its transaction
-- rolls back and answers an error, so a broken key is one more branch. An interleaving of callers is a
-- sequence of calls of the methods that write (`Calls.run`); dispatch and reconciliation are functions on the database too, and
-- run without other callers in between. The objects that other domains keep (the store of idempotency
-- keys, the ledger, the lifecycle of a workspace) are records, and a method takes one to the next with
-- its answer. An exception is a value, too: `none`, or the outcome `threw`. Frozen and copied objects
-- are values that nothing writes.
--
-- Parameters: SHA-256 and `JSON.stringify` (`digest`, `json`), the order of `localeCompare`
-- (`locale_le`), the queue (`ensure_job`, `remove_job`), the resolver of builders, random tokens and
-- submission ids, the clock, and the sum of amounts of money (`read_amount`, `add`). In a history of
-- calls, `json` and `locale_le` stand in the calls that use them. The theorems need nothing of them.
--
-- Fuel: the two searches for a dependency cycle take as many steps as there are nodes, as each
-- node is taken from the queue or the stack at most once; the digits of a number n are written on
-- fuel n + 1.
--
-- Numbers are natural numbers: versions, generations, tokens and times do not reach 2 ^ 53. Error
-- messages, reasons that a code tells, the audit details beyond their identifiers, the migrations,
-- file modes and SQLITE_BUSY are not modelled, nor are `importPredictedTouch`, the queries by work,
-- `validateRoutingPolicyPublication`, the provider adapters, the HTTP adapter, the decomposition
-- harness, the sandboxes and launchers, and the domains Codebase Knowledge and Verification.
pub mod Prelude
pub mod Js
pub mod ModelRouting
pub mod WorkIntake
pub mod AgentExecution
pub mod Orchestration
