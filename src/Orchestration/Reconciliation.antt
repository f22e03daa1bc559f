-- ===== src/Orchestration/Reconciliation.antt =====
-- src/domains/orchestration/reconciliation.ts: `reconcile`. The queue is a parameter: `ensure_job`
-- and `remove_job` say whether the queue did what it was asked. A refusal rejects the whole call, with
-- the database as it then is; the Boolean of a result says whether the call went through.
pub mod Leases
pub mod Ended
pub mod Expiry
use agent_pool.Prelude.{
  ℕ, Bool, true, false, not, List, [], ◌∷◌, Option, none, some, Text, codes, text_eq, select_one,
  if◌then◌else◌,
}
use agent_pool.Orchestration.Lifecycle.{is_terminal}
use agent_pool.Orchestration.Contracts.{QueueEnvelope}
use agent_pool.Orchestration.Identifiers.{derive_job_id, make_queue_envelope}
use agent_pool.Orchestration.Store.Schema.{
  Db, AttemptRecord, NodeRecord, Authorization, Result, ok, err,
}
use agent_pool.Orchestration.Store.Nodes.{list_nodes}
use agent_pool.Orchestration.Store.Attempts.{
  is_leased, set_job_id, list_created_attempts, list_attempts_needing_reconciliation,
}
use agent_pool.Orchestration.Store.Leases.{reclaim_lease}
use agent_pool.Orchestration.Store.Results.{complete_authorized_result}

unfoldable pub list_authorized_results : Db → List Authorization
list_authorized_results db = db.authorizations

module _ (ensure_job : QueueEnvelope → Bool) (remove_job : Text → Bool) where
  unfoldable pub ensure_jobs : Db → List AttemptRecord → Db × Bool
  ensure_jobs db [] = (db, true)
  ensure_jobs db (r ∷ rs) =
      let envelope = make_queue_envelope r.work_id r.node_id r.attempt_number in
      let rest = ensure_jobs (set_job_id db r.attempt_id envelope.job_id) rs in
      if ensure_job envelope then rest else (db, false)

  -- The answer of `completeAuthorizedResult`; then the job is removed.
  unfoldable pub finish_job : Db × Result NodeRecord → Text → Db × Bool
  finish_job (db, err c) a = (db, true)
  finish_job (db, ok row) a = (db, remove_job (derive_job_id a))

  -- The body of the last loop.
  unfoldable pub complete_one : Db → Authorization → Db × Bool
  unfolding finish_job
  complete_one db auth =
      elim (select_one (λ r. text_eq r.node_id auth.node_id) (list_nodes db auth.work_id)) [
        | none ↦ (db, true)
        | some node ↦
            if is_terminal node.state
            then (db, true)
            else finish_job
                (complete_authorized_result db auth.work_id auth.node_id auth.attempt_id)
                auth.attempt_id
      ]

  unfoldable pub complete_all : Db → List Authorization → Db × Bool
  unfolding complete_one
  complete_all db [] = (db, true)
  complete_all db (auth ∷ auths) =
      let (db', went) = complete_one db auth in
      let rest = complete_all db' auths in if went then rest else (db', false)

-- The loop over the attempts that need reconciliation. What `reclaimLease` answers is not read.
unfoldable pub reclaim_all : ℕ → Db → List AttemptRecord → Db
reclaim_all now db [] = db
reclaim_all now db (r ∷ rs) =
    if is_leased r.state
    then reclaim_all now (reclaim_lease db r.attempt_id (codes "reconciliation") now).0 rs
    else reclaim_all now db rs

unfoldable pub reclaim_expired : ℕ → Db → Db
unfolding reclaim_all
reclaim_expired now db = reclaim_all now db (list_attempts_needing_reconciliation db now)

unfoldable pub reconcile : (QueueEnvelope → Bool) → (Text → Bool) → Db → ℕ → Db × Bool
unfolding ensure_jobs reclaim_expired complete_all list_authorized_results
reconcile ensure_job remove_job db now =
    let (db', went) = ensure_jobs ensure_job remove_job db (list_created_attempts db) in
    if not went
    then (db', false)
    else let db'' = reclaim_expired now db' in
      complete_all ensure_job remove_job db'' (list_authorized_results db'')
