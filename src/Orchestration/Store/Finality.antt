-- ===== src/Orchestration/Store/Finality.antt =====
-- Nodes over any history of the store of src/domains/orchestration/sqlite-store.ts.
use agent_pool.Prelude.{
  ℕ, ◌+◌, ◌<◌, ◌≡◌, refl, sym, subst, ◌∙◌, true, ◌⊎◌, inl, inr, Option, none, some, List, [], ◌∷◌,
  Text, arith,
}
use agent_pool.Orchestration.Lifecycle.{NodeState, is_valid_transition, is_terminal}
use agent_pool.Orchestration.Store.Schema.{
  Db, NodeRecord, AttemptRecord, Authorization, AcceptedResult, LeaseRecord, outcome_state,
  RoutingRecord,
}
use agent_pool.Orchestration.Store.Nodes.{find_node, moved}
use agent_pool.Orchestration.Store.Attempts.{new_attempt, new_routing, attempt_inserted, set_job_id}
use agent_pool.Orchestration.Store.Leases.{claimed, renewed, returned}
use agent_pool.Orchestration.Store.Results.{WorkerResult, stored, completed_result}
use agent_pool.Orchestration.Store.NodeProgress.{Progress, Progress-refl, set_state-Progress}
use agent_pool.Orchestration.Store.Leasing.{
  claim_lease_cases, renew_lease_cases, release_lease_cases, reclaim_lease_cases,
}
use agent_pool.Orchestration.Store.Outcomes.{
  transition_node_cases, create_attempt_cases, accept_result_cases,
  complete_authorized_result_cases,
}
use agent_pool.Orchestration.Store.Imported.{
  import_approved_work-Preserves, import_direct_task-Preserves, record_phase_artifact-Preserves,
  record_proof_result-Preserves,
}
use agent_pool.Orchestration.Store.Additions.{Preserves}
use agent_pool.Orchestration.Store.Imports.{import_approved_work}
use agent_pool.Orchestration.Store.DirectTasks.{import_direct_task}
use agent_pool.Orchestration.Store.Artifacts.{record_phase_artifact}
use agent_pool.Orchestration.Store.Proofs.{record_proof_result}
use agent_pool.Orchestration.Store.Calls.{
  Call, transitions, creates, sets_job, claims, renews, releases, reclaims, accepts, completes,
  imports, imports_task, records, proves, step, run,
}

moved-Progress :
    (db : Db) (w n : Text) (v : ℕ) (s : NodeState) (row : NodeRecord) (w' n' : Text)
    → find_node db w n ≡ some row
    → is_valid_transition row.state s ≡ true
    → Progress (find_node db w' n') (find_node (moved db w n v s row) w' n')
unfolding moved find_node
moved-Progress db w n v s row w' n' found valid =
    set_state-Progress w n v s w' n' db.nodes row found valid

completed_result-Progress :
    (db : Db) (w n a : Text) (auth : Authorization) (result : AcceptedResult) (row : NodeRecord)
    (w' n' : Text)
    → find_node db w n ≡ some row
    → is_valid_transition row.state (outcome_state result.outcome) ≡ true
    → Progress (find_node db w' n') (find_node (completed_result db w n a auth result) w' n')
unfolding completed_result find_node
completed_result-Progress db w n a auth result row w' n' found valid =
    set_state-Progress w n auth.expected_node_version (outcome_state result.outcome) w' n' db.nodes
      row found valid

found_kept :
    (o o' : Option NodeRecord) → ((r : NodeRecord) → o ≡ some r → o' ≡ some r) → Progress o o'
found_kept none o' h = tt
found_kept (some r) o' h = subst (Progress (some r)) (sym (h r refl)) (inl refl)

-- The other transactions do not write the rows of nodes that are there.
module _ (db : Db) (w n : Text) where
  abbrev Kept : Db → Type 0
  Kept db' = Progress (find_node db w n) (find_node db' w n)

  same : Kept db
  same = Progress-refl (find_node db w n)

  Kept-attempt_inserted :
      (attempt : AttemptRecord) (routing : RoutingRecord)
      → Kept (attempt_inserted db attempt routing)
  unfolding attempt_inserted find_node
  Kept-attempt_inserted attempt routing = same

  Kept-set_job_id : (a job : Text) → Kept (set_job_id db a job)
  unfolding set_job_id find_node
  Kept-set_job_id a job = same

  Kept-claimed :
      (digest : Text → Text) (a owner token : Text) (g expires issued : ℕ)
      → Kept (claimed digest db a owner token g expires issued)
  unfolding claimed find_node
  Kept-claimed digest a owner token g expires issued = same

  Kept-renewed : (a : Text) (expires : ℕ) (l : LeaseRecord) → Kept (renewed db a expires l)
  unfolding renewed find_node
  Kept-renewed a expires l = same

  Kept-returned : (a : Text) → Kept (returned db a)
  unfolding returned find_node
  Kept-returned a = same

  Kept-stored : (r : WorkerResult) (now version : ℕ) → Kept (stored db r now version)
  unfolding stored find_node
  Kept-stored r now version = same

  Kept-Preserves : (db' : Db) → Preserves db db' → Kept db'
  Kept-Preserves db' h = found_kept (find_node db w n) (find_node db' w n) (h.nodes w n)

-- What one call does to a row that was there.
terminal_kept :
    (o : Option NodeRecord) (r : NodeRecord)
    → is_terminal r.state ≡ true
    → Progress (some r) o
    → o ≡ some r
unfolding is_valid_transition
terminal_kept none r final p = absurd p
terminal_kept (some r') r final p = ground arith

abbrev Later : NodeRecord → NodeRecord → Type 0
Later r r' = (r' ≡ r) ⊎ (r.version < r'.version)

Later-row :
    (o : Option NodeRecord) (r : NodeRecord)
    → Progress (some r) o
    → (r' : NodeRecord) × (o ≡ some r') × Later r r'
Later-row none r p = absurd p
Later-row (some r') r (inl e) = (r', refl, inl e)
Later-row (some r') r (inr (_, e)) = (r', refl, inr (ground arith))

Later-trans : (a b c : NodeRecord) → Later a b → Later b c → Later a c
Later-trans a b c (inl p) (inl q) = inl (q ∙ p)
Later-trans a b c (inl p) (inr q) = inr (ground arith)
Later-trans a b c (inr p) (inl q) = inr (ground arith)
Later-trans a b c (inr p) (inr q) = inr (omega arith)

module _ (digest : Text → Text) (w n : Text) where
  -- Every call leaves a node as it is, or moves it along one allowed transition and raises its
  -- version by one.
  pub step-Progress :
      (db : Db) (c : Call) → Progress (find_node db w n) (find_node (step digest db c) w n)
  unfolding step find_node
  step-Progress db (transitions w' n' v s) =
      transition_node_cases db w' n' (λ p. Kept db w n p.0) v s (λ _. same db w n)
        (λ row found _ valid. moved-Progress db w' n' v s row w n found valid)
  step-Progress db (creates w' n' a k job routing now) =
      create_attempt_cases db w' n' (λ p. Kept db w n p.0) a k job routing now (λ _. same db w n)
        (λ _ _. same db w n)
        (λ _ _ _ _ _.
          Kept-attempt_inserted db w n (new_attempt w' n' a k job now) (new_routing a routing now))
  step-Progress db (sets_job a job) = Kept-set_job_id db w n a job
  step-Progress db (claims a owner token expires issued) =
      claim_lease_cases digest db a owner token (λ p. Kept db w n p.0) expires issued
        (λ _. same db w n)
        (λ r _ _. Kept-claimed db w n digest a owner token (r.lease_generation + 1) expires issued)
  step-Progress db (renews a owner token expires now) =
      renew_lease_cases digest db a owner token (λ p. Kept db w n p.0) expires now
        (λ _. same db w n) (λ l _ _ _ _. Kept-renewed db w n a expires l)
  step-Progress db (releases a owner token) =
      release_lease_cases digest db a owner token (λ p. Kept db w n p.0) (λ _. same db w n)
        (λ l _ _ _. Kept-returned db w n a)
  step-Progress db (reclaims a owner now) =
      reclaim_lease_cases db a owner (λ p. Kept db w n p.0) now (λ _. same db w n)
        (λ r l _ _ _. Kept-returned db w n a)
  step-Progress db (accepts r now) =
      accept_result_cases digest db r now (λ p. Kept db w n p.0) (λ _. same db w n)
        (λ _ _ _ _ _ _ _ _. same db w n)
        (λ _ node _ _ _ _ _ _ _ _ _. Kept-stored db w n r now node.version)
  step-Progress db (completes w' n' a) =
      complete_authorized_result_cases db w' n' a (λ p. Kept db w n p.0) (λ _. same db w n)
        (λ auth node result _ found _ _ valid.
          completed_result-Progress db w' n' a auth result node w n found valid)
  step-Progress db (imports json work) =
      Kept-Preserves db w n (import_approved_work digest json work db).0
        (import_approved_work-Preserves digest json work db)
  step-Progress db (imports_task json t now) =
      Kept-Preserves db w n (import_direct_task digest json t now db).0
        (import_direct_task-Preserves digest json t now db)
  step-Progress db (records i now) =
      Kept-Preserves db w n (record_phase_artifact db i now).0
        (record_phase_artifact-Preserves db i now)
  step-Progress db (proves locale_le i) =
      Kept-Preserves db w n (record_proof_result locale_le db i).0
        (record_proof_result-Preserves locale_le db i)

  -- Once a node has passed or failed, no history of calls, imports included, changes its row.
  pub run_terminal :
      (cs : List Call) (db : Db) (r : NodeRecord)
      → find_node db w n ≡ some r
      → is_terminal r.state ≡ true
      → find_node (run digest db cs) w n ≡ some r
  unfolding run
  run_terminal [] db r found final = found
  run_terminal (c ∷ cs) db r found final =
      run_terminal cs (step digest db c) r
        (terminal_kept (find_node (step digest db c) w n) r final
          (subst (λ o. Progress o (find_node (step digest db c) w n)) found (step-Progress db c)))
        final

  -- After any history of calls, imports included, a node that was there is the same row, or it has
  -- a later version.
  pub run_versions :
      (cs : List Call) (db : Db) (r : NodeRecord)
      → find_node db w n ≡ some r
      → (r' : NodeRecord) × (find_node (run digest db cs) w n ≡ some r')
        × ((r' ≡ r) ⊎ (r.version < r'.version))
  unfolding run
  run_versions [] db r found = (r, found, inl refl)
  run_versions (c ∷ cs) db r found =
      let (m, at_m, first) =
        Later-row (find_node (step digest db c) w n) r
          (subst (λ o. Progress o (find_node (step digest db c) w n)) found (step-Progress db c)) in
      let (r', at_r, rest) = run_versions cs (step digest db c) m at_m in
      (r', at_r, Later-trans r m r' first rest)
