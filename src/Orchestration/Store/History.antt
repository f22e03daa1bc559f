-- ===== src/Orchestration/Store/History.antt =====
-- The invariant of the store over any history of calls.
use agent_pool.Prelude.{
  ℕ, ◌+◌, ◌≡◌, refl, sym, subst, false, ◌&&◌, Option, none, some, List, [], ◌∷◌, Text,
  text_eq_sound, arith, select_one-update, is_some,
}
use agent_pool.Orchestration.Lifecycle.{NodeState}
use agent_pool.Orchestration.Contracts.{ResolvedBuilderRouting}
use agent_pool.Orchestration.Store.Schema.{
  Db, AuditEvent, NodeRecord, AttemptRecord, created, attempt_at, log, lease_released,
  lease_reclaimed, result_duplicate_ignored,
}
use agent_pool.Orchestration.Store.Nodes.{moved}
use agent_pool.Orchestration.Store.Attempts.{
  find_attempt, find_routing, new_attempt, new_routing, attempt_inserted, is_created, set_job_id,
}
use agent_pool.Orchestration.Store.Leases.{find_lease, returned}
use agent_pool.Orchestration.Store.Results.{find_accepted, find_authorization}
use agent_pool.Orchestration.Store.Views.{view, Inv, IsSound}
use agent_pool.Orchestration.Store.Leasing.{
  claim_lease_cases, renew_lease_cases, release_lease_cases, reclaim_lease_cases,
}
use agent_pool.Orchestration.Store.Outcomes.{
  transition_node_cases, create_attempt_cases, accept_result_cases,
  complete_authorized_result_cases,
}
use agent_pool.Orchestration.Store.LeaseInvariant.{claimed-Inv, renewed-Inv, returned-Inv}
use agent_pool.Orchestration.Store.ResultInvariant.{
  attempt_inserted-Inv, stored-Inv, completed_result-Inv,
}
use agent_pool.Orchestration.Store.Imported.{
  import_approved_work-Preserves, import_direct_task-Preserves, record_phase_artifact-Preserves,
  record_proof_result-Preserves, Preserves-view,
}
use agent_pool.Orchestration.Store.Additions.{Preserves}
use agent_pool.Orchestration.Store.Imports.{import_approved_work}
use agent_pool.Orchestration.Store.DirectTasks.{import_direct_task}
use agent_pool.Orchestration.Store.Artifacts.{record_phase_artifact}
use agent_pool.Orchestration.Store.Proofs.{record_proof_result}
use agent_pool.Orchestration.Store.Calls.{
  Call, transitions, creates, sets_job, claims, renews, releases, reclaims, accepts, completes,
  imports, imports_task, records, proves, step, run,
}

log-Inv : (e : AuditEvent) (db : Db) → Inv db → Inv (log e db)
unfolding view find_attempt find_lease find_routing find_accepted find_authorization
log-Inv e db inv = inv

moved-Inv :
    (db : Db) (w n : Text) (v : ℕ) (s : NodeState) (row : NodeRecord)
    → Inv db
    → Inv (moved db w n v s row)
unfolding moved view find_attempt find_lease find_routing find_accepted find_authorization
moved-Inv db w n v s row inv = inv

abbrev pub with_job : Text → AttemptRecord → AttemptRecord
with_job job r = record r { job_id = some job; state = created }

set_job_id-Inv : (db : Db) (a job : Text) → Inv db → Inv (set_job_id db a job)
unfolding set_job_id view find_attempt find_lease find_routing find_accepted find_authorization
set_job_id-Inv db a job inv b =
    let seen =
      select_one-update (attempt_at b) (λ r. attempt_at a r && is_created r.state) (with_job job)
        (λ r. refl) db.attempts in
    let s = inv b in ground (arith)

pub absent : {A : Type 0} (o : Option A) → is_some o ≡ false → o ≡ none
absent o h = ground arith

inserted-Inv :
    (db : Db) (w n a : Text) (k : ℕ) (job : Text) (routing : ResolvedBuilderRouting) (now : ℕ)
    → find_attempt db a ≡ none
    → find_routing db a ≡ none
    → Inv db
    → Inv (attempt_inserted db (new_attempt w n a k job now) (new_routing a routing now))
unfolding new_attempt new_routing
inserted-Inv db w n a k job routing now fresh unrouted inv =
    attempt_inserted-Inv db (new_attempt w n a k job now) (new_routing a routing now) refl fresh
      unrouted inv

Inv-Preserves : (db db' : Db) → Preserves db db' → Inv db → Inv db'
Inv-Preserves db db' h inv a = subst IsSound (sym (Preserves-view db db' a h)) (inv a)

module _ (digest : Text → Text) where
  -- Every call keeps the invariant of the store.
  pub step-Inv : (db : Db) (c : Call) → Inv db → Inv (step digest db c)
  unfolding step
  step-Inv db (transitions w n v s) inv =
      transition_node_cases db w n (λ p. Inv p.0) v s (λ _. inv)
        (λ row _ _ _. moved-Inv db w n v s row inv)
  step-Inv db (creates w n a k job routing now) inv =
      create_attempt_cases db w n (λ p. Inv p.0) a k job routing now (λ _. inv) (λ _ _. inv)
        (λ _ _ _ fresh unrouted.
          inserted-Inv db w n a k job routing now fresh (absent (find_routing db a) unrouted) inv)
  step-Inv db (sets_job a job) inv = set_job_id-Inv db a job inv
  step-Inv db (claims a owner token expires issued) inv =
      claim_lease_cases digest db a owner token (λ p. Inv p.0) expires issued (λ _. inv)
        (λ r e free.
          claimed-Inv db a digest owner token (r.lease_generation + 1) expires issued r e free refl
            inv)
  step-Inv db (renews a owner token expires now) inv =
      renew_lease_cases digest db a owner token (λ p. Inv p.0) expires now (λ _. inv)
        (λ l _ _ _ _. renewed-Inv db a expires l inv)
  step-Inv db (releases a owner token) inv =
      release_lease_cases digest db a owner token (λ p. Inv p.0) (λ _. inv)
        (λ l _ _ _. log-Inv (lease_released a) (returned db a) (returned-Inv db a inv))
  step-Inv db (reclaims a owner now) inv =
      reclaim_lease_cases db a owner (λ p. Inv p.0) now (λ _. inv)
        (λ r l _ _ _.
          log-Inv (lease_reclaimed a (r.lease_generation + 1) owner) (returned db a)
            (returned-Inv db a inv))
  step-Inv db (accepts r now) inv =
      accept_result_cases digest db r now (λ p. Inv p.0) (λ _. inv)
        (λ _ _ _ _ _ _ _ _. log-Inv (result_duplicate_ignored r.attempt_id r.result_id) db inv)
        (λ attempt node _ e node_same work_same first _ version _ free.
          stored-Inv db r now node.version attempt e first
            (absent (find_authorization db r.attempt_id) free)
            (text_eq_sound attempt.node_id r.node_id node_same)
            (text_eq_sound attempt.work_id r.work_id work_same) version inv)
  step-Inv db (completes w n a) inv =
      complete_authorized_result_cases db w n a (λ p. Inv p.0) (λ _. inv)
        (λ auth node result _ _ _ _ _. completed_result-Inv db w n a auth result inv)
  step-Inv db (imports json work) inv =
      Inv-Preserves db (import_approved_work digest json work db).0
        (import_approved_work-Preserves digest json work db) inv
  step-Inv db (imports_task json t now) inv =
      Inv-Preserves db (import_direct_task digest json t now db).0
        (import_direct_task-Preserves digest json t now db) inv
  step-Inv db (records i now) inv =
      Inv-Preserves db (record_phase_artifact db i now).0 (record_phase_artifact-Preserves db i now)
        inv
  step-Inv db (proves locale_le i) inv =
      Inv-Preserves db (record_proof_result locale_le db i).0
        (record_proof_result-Preserves locale_le db i) inv

  -- From a database that satisfies the invariant, every history of calls leads to one that does:
  -- each attempt has its routing, each lease its attempt and the attempt's latest generation, each
  -- result the node and work of its attempt, and each authorization its result.
  pub run-Inv : (cs : List Call) (db : Db) → Inv db → Inv (run digest db cs)
  unfolding run
  run-Inv [] db inv = inv
  run-Inv (c ∷ cs) db inv = run-Inv cs (step digest db c) (step-Inv db c inv)
