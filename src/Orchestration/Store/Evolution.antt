-- ===== src/Orchestration/Store/Evolution.antt =====
-- How the database's view of an attempt evolves over the calls of the store of
-- src/domains/orchestration/sqlite-store.ts.
use agent_pool.Prelude.{
  ℕ, ◌+◌, ◌≡◌, refl, sym, subst, true, Option, none, some, List, [], ◌∷◌, Text, arith, is_some,
}
use agent_pool.Orchestration.Store.Schema.{
  Db, AttemptRecord, AcceptedResult, lease_released, lease_reclaimed, result_duplicate_ignored,
}
use agent_pool.Orchestration.Store.Attempts.{
  find_attempt, find_routing, new_attempt, new_routing, attempt_inserted,
}
use agent_pool.Orchestration.Store.Leases.{returned}
use agent_pool.Orchestration.Store.Results.{find_authorization}
use agent_pool.Orchestration.Store.Views.{AttemptView, view}
use agent_pool.Orchestration.Store.Leasing.{
  claim_lease_cases, renew_lease_cases, release_lease_cases, reclaim_lease_cases,
}
use agent_pool.Orchestration.Store.Outcomes.{
  transition_node_cases, create_attempt_cases, accept_result_cases,
  complete_authorized_result_cases,
}
use agent_pool.Orchestration.Store.Imported.{
  import_approved_work-Preserves, import_direct_task-Preserves, record_phase_artifact-Preserves,
  record_proof_result-Preserves, Preserves-view,
}
use agent_pool.Orchestration.Store.Additions.{Preserves}
use agent_pool.Orchestration.Store.Imports.{import_approved_work}
use agent_pool.Orchestration.Store.DirectTasks.{import_direct_task}
use agent_pool.Orchestration.Store.Artifacts.{record_phase_artifact}
use agent_pool.Orchestration.Store.Proofs.{record_proof_result}
use agent_pool.Orchestration.Store.Calls.{
  Call, transitions, creates, sets_job, claims, renews, releases, reclaims, accepts, completes,
  imports, imports_task, records, proves, step, run,
}
use agent_pool.Orchestration.Store.History.{absent}
use agent_pool.Orchestration.Store.AttemptHistory.{
  Continues, Stays, Evolves, Next, same, Next-claimed, Next-renewed, Next-returned,
  Next-attempt_inserted, Next-stored, Next-completed_result, Next-moved, Next-log, Next-set_job_id,
}
use agent_pool.Orchestration.Contracts.{ResolvedBuilderRouting}

Continues-trans : (a b c : Option AttemptRecord) → Continues a b → Continues b c → Continues a c
Continues-trans none b c h k = tt
Continues-trans (some x) none c h k = absurd h
Continues-trans (some x) (some y) none h k = absurd k
Continues-trans (some x) (some y) (some z) h k = ground arith

Stays-trans : (a b c : Option AcceptedResult) → Stays a b → Stays b c → Stays a c
Stays-trans none b c h k = tt
Stays-trans (some x) b c h k = subst (λ o. Stays o c) h k

Stays-is_some : (a b : Option AcceptedResult) → Stays a b → is_some a ≡ true → is_some b ≡ true
Stays-is_some none b h p = ground arith
Stays-is_some (some x) b h p = rw h refl

Evolves-trans : (u v w : AttemptView) → Evolves u v → Evolves v w → Evolves u w
Evolves-trans u v w h k = record {
  continues = Continues-trans u.attempt v.attempt w.attempt h.continues k.continues;
  stays = Stays-trans u.accepted v.accepted w.accepted h.stays k.stays;
  settles = λ there gone.
      k.settles (Stays-is_some u.accepted v.accepted h.stays there) (h.settles there gone);
}

Next-inserted :
    (db : Db) (w n a : Text) (k : ℕ) (job : Text) (routing : ResolvedBuilderRouting) (now : ℕ)
    → find_attempt db a ≡ none
    → find_routing db a ≡ none
    → Next db (attempt_inserted db (new_attempt w n a k job now) (new_routing a routing now))
unfolding new_attempt new_routing
Next-inserted db w n a k job routing now fresh unrouted =
    Next-attempt_inserted db (new_attempt w n a k job now) (new_routing a routing now) refl fresh
      unrouted

Next-Preserves : (db db' : Db) → Preserves db db' → Next db db'
Next-Preserves db db' h a =
    subst (Evolves (view db a)) (sym (Preserves-view db db' a h)) (same db a)

module _ (digest : Text → Text) where
  pub step-Next : (db : Db) (c : Call) → Next db (step digest db c)
  unfolding step
  step-Next db (transitions w n v s) =
      transition_node_cases db w n (λ p. Next db p.0) v s (λ _. same db)
        (λ row _ _ _. Next-moved db w n v s row)
  step-Next db (creates w n a k job routing now) =
      create_attempt_cases db w n (λ p. Next db p.0) a k job routing now (λ _. same db)
        (λ _ _. same db)
        (λ _ _ _ fresh unrouted.
          Next-inserted db w n a k job routing now fresh (absent (find_routing db a) unrouted))
  step-Next db (sets_job a job) = Next-set_job_id db a job
  step-Next db (claims a owner token expires issued) =
      claim_lease_cases digest db a owner token (λ p. Next db p.0) expires issued (λ _. same db)
        (λ r e free. Next-claimed db digest a owner token expires issued r e free)
  step-Next db (renews a owner token expires now) =
      renew_lease_cases digest db a owner token (λ p. Next db p.0) expires now (λ _. same db)
        (λ l _ _ _ _. Next-renewed db a expires l)
  step-Next db (releases a owner token) =
      release_lease_cases digest db a owner token (λ p. Next db p.0) (λ _. same db)
        (λ l _ _ _. Next-log db (lease_released a) (returned db a) (Next-returned db a))
  step-Next db (reclaims a owner now) =
      reclaim_lease_cases db a owner (λ p. Next db p.0) now (λ _. same db)
        (λ r l _ _ _.
          Next-log db (lease_reclaimed a (r.lease_generation + 1) owner) (returned db a)
            (Next-returned db a))
  step-Next db (accepts r now) =
      accept_result_cases digest db r now (λ p. Next db p.0) (λ _. same db)
        (λ _ _ _ _ _ _ _ _.
          Next-log db (result_duplicate_ignored r.attempt_id r.result_id) db (same db))
        (λ _ node _ _ _ _ first _ _ _ free.
          Next-stored db r now node.version first
            (absent (find_authorization db r.attempt_id) free))
  step-Next db (completes w n a) =
      complete_authorized_result_cases db w n a (λ p. Next db p.0) (λ _. same db)
        (λ auth node result _ _ _ _ _. Next-completed_result db w n a auth result)
  step-Next db (imports json work) =
      Next-Preserves db (import_approved_work digest json work db).0
        (import_approved_work-Preserves digest json work db)
  step-Next db (imports_task json t now) =
      Next-Preserves db (import_direct_task digest json t now db).0
        (import_direct_task-Preserves digest json t now db)
  step-Next db (records i now) =
      Next-Preserves db (record_phase_artifact db i now).0
        (record_phase_artifact-Preserves db i now)
  step-Next db (proves locale_le i) =
      Next-Preserves db (record_proof_result locale_le db i).0
        (record_proof_result-Preserves locale_le db i)

  pub run-Next : (cs : List Call) (db : Db) → Next db (run digest db cs)
  unfolding run
  run-Next [] db b = same db b
  run-Next (c ∷ cs) db b =
      Evolves-trans (view db b) (view (step digest db c) b)
        (view (run digest (step digest db c) cs) b) (step-Next db c b)
        (run-Next cs (step digest db c) b)
