-- ===== src/Orchestration/Store/Calls.antt =====
-- Histories of the store of src/domains/orchestration/sqlite-store.ts: any sequence of calls of its
-- modelled methods that write. Each call is one transaction, so an interleaving of callers is a
-- sequence of calls. `JSON.stringify` and the order of the locale stand in the calls that use them.
use agent_pool.Prelude.{ℕ, Bool, List, [], ◌∷◌, Text}
use agent_pool.Orchestration.Lifecycle.{NodeState}
use agent_pool.Orchestration.Contracts.{ResolvedBuilderRouting}
use agent_pool.Orchestration.Store.Schema.{Db}
use agent_pool.Orchestration.Store.Nodes.{transition_node}
use agent_pool.Orchestration.Store.Attempts.{create_attempt, set_job_id}
use agent_pool.Orchestration.Store.Leases.{claim_lease, renew_lease, release_lease, reclaim_lease}
use agent_pool.Orchestration.Store.Results.{WorkerResult, accept_result, complete_authorized_result}
use agent_pool.Orchestration.Work.{ApprovedWork}
use agent_pool.Orchestration.Store.Imports.{import_approved_work}
use agent_pool.Orchestration.Store.DirectTasks.{DirectTask, import_direct_task}
use agent_pool.Orchestration.Store.Artifacts.{ArtifactInput, record_phase_artifact}
use agent_pool.Orchestration.Store.Proofs.{ProofInput, record_proof_result}

pub data Call : Type 0 where
  transitions : (work_id node_id : Text) (version : ℕ) (state : NodeState) → Call
  creates :
      (work_id node_id attempt_id : Text) (number : ℕ) (job_id : Text)
      (routing : ResolvedBuilderRouting) (now : ℕ)
      → Call
  sets_job : (attempt_id job_id : Text) → Call
  claims : (attempt_id owner token : Text) (expires issued : ℕ) → Call
  renews : (attempt_id owner token : Text) (expires now : ℕ) → Call
  releases : (attempt_id owner token : Text) → Call
  reclaims : (attempt_id owner : Text) (now : ℕ) → Call
  accepts : (result : WorkerResult) (now : ℕ) → Call
  completes : (work_id node_id attempt_id : Text) → Call
  imports : (json : ApprovedWork → Text) (work : ApprovedWork) → Call
  imports_task : (json : ApprovedWork → Text) (task : DirectTask) (now : ℕ) → Call
  records : (artifact : ArtifactInput) (now : ℕ) → Call
  proves : (locale_le : Text → Text → Bool) (proof : ProofInput) → Call

module _ (digest : Text → Text) where
  unfoldable pub step : Db → Call → Db
  step db (transitions w n v s) = (transition_node db w n v s).0
  step db (creates w n a k job routing now) = (create_attempt db w n a k job routing now).0
  step db (sets_job a job) = set_job_id db a job
  step db (claims a owner token expires issued) =
      (claim_lease digest db a owner token expires issued).0
  step db (renews a owner token expires now) = (renew_lease digest db a owner token expires now).0
  step db (releases a owner token) = (release_lease digest db a owner token).0
  step db (reclaims a owner now) = (reclaim_lease db a owner now).0
  step db (accepts r now) = (accept_result digest db r now).0
  step db (completes w n a) = (complete_authorized_result db w n a).0
  step db (imports json work) = (import_approved_work digest json work db).0
  step db (imports_task json t now) = (import_direct_task digest json t now db).0
  step db (records i now) = (record_phase_artifact db i now).0
  step db (proves locale_le i) = (record_proof_result locale_le db i).0

  unfoldable pub run : Db → List Call → Db
  unfolding step
  run db [] = db
  run db (c ∷ cs) = run (step db c) cs
