-- ===== src/Orchestration/Store/ProofHistory.antt =====
-- src/domains/orchestration/sqlite-store.ts: the terminal results of `recordProofResult` over any
-- history of calls.
use agent_pool.Prelude.{
  ◌≡◌, refl, subst, Bool, true, some, List, [], ◌∷◌, Text, text_eq_sound, option_text_eq_sound,
  arith,
}
use agent_pool.Orchestration.Contracts.{ErrorCode}
use agent_pool.Orchestration.Store.Schema.{Db, err, ProofResult}
use agent_pool.Orchestration.Store.Nodes.{moved}
use agent_pool.Orchestration.Store.Attempts.{attempt_inserted, set_job_id}
use agent_pool.Orchestration.Store.Leases.{claimed, renewed, returned}
use agent_pool.Orchestration.Store.Results.{stored, completed_result}
use agent_pool.Orchestration.Store.Proofs.{
  ProofInput, find_proof, same_proof, is_replay, record_proof_result,
}
use agent_pool.Orchestration.Store.Proofs.Kept.{record_proof_result_cases}
use agent_pool.Orchestration.Store.Outcomes.{
  transition_node_cases, create_attempt_cases, accept_result_cases,
  complete_authorized_result_cases,
}
use agent_pool.Orchestration.Store.Leasing.{
  claim_lease_cases, renew_lease_cases, release_lease_cases, reclaim_lease_cases,
}
use agent_pool.Orchestration.Store.Imported.{
  import_approved_work-Preserves, import_direct_task-Preserves, record_phase_artifact-Preserves,
  record_proof_result-Preserves,
}
use agent_pool.Orchestration.Store.Calls.{
  Call, transitions, creates, sets_job, claims, renews, releases, reclaims, accepts, completes,
  imports, imports_task, records, proves, step, run,
}
use agent_pool.Orchestration.Store.Conflicts.{outcome_eq_sound}

module _ (digest : Text → Text) (a : Text) (r : ProofResult) where
  step-find_proof :
      (db : Db) (c : Call) → find_proof db a ≡ some r → find_proof (step digest db c) a ≡ some r
  unfolding step find_proof moved attempt_inserted set_job_id claimed renewed returned stored
      completed_result
  step-find_proof db (transitions w n v s) found =
      transition_node_cases db w n (λ p. find_proof p.0 a ≡ some r) v s (λ _. found)
        (λ row _ _ _. found)
  step-find_proof db (creates w n b k job routing now) found =
      create_attempt_cases db w n (λ p. find_proof p.0 a ≡ some r) b k job routing now (λ _. found)
        (λ _ _. found) (λ _ _ _ _ _. found)
  step-find_proof db (sets_job b job) found = found
  step-find_proof db (claims b owner token expires issued) found =
      claim_lease_cases digest db b owner token (λ p. find_proof p.0 a ≡ some r) expires issued
        (λ _. found) (λ _ _ _. found)
  step-find_proof db (renews b owner token expires now) found =
      renew_lease_cases digest db b owner token (λ p. find_proof p.0 a ≡ some r) expires now
        (λ _. found) (λ l _ _ _ _. found)
  step-find_proof db (releases b owner token) found =
      release_lease_cases digest db b owner token (λ p. find_proof p.0 a ≡ some r) (λ _. found)
        (λ l _ _ _. found)
  step-find_proof db (reclaims b owner now) found =
      reclaim_lease_cases db b owner (λ p. find_proof p.0 a ≡ some r) now (λ _. found)
        (λ _ l _ _ _. found)
  step-find_proof db (accepts w now) found =
      accept_result_cases digest db w now (λ p. find_proof p.0 a ≡ some r) (λ _. found)
        (λ _ _ _ _ _ _ _ _. found) (λ _ _ _ _ _ _ _ _ _ _ _. found)
  step-find_proof db (completes w n b) found =
      complete_authorized_result_cases db w n b (λ p. find_proof p.0 a ≡ some r) (λ _. found)
        (λ _ _ _ _ _ _ _ _. found)
  step-find_proof db (imports json work) found =
      (import_approved_work-Preserves digest json work db).proofs a r found
  step-find_proof db (imports_task json t now) found =
      (import_direct_task-Preserves digest json t now db).proofs a r found
  step-find_proof db (records i now) found =
      (record_phase_artifact-Preserves db i now).proofs a r found
  step-find_proof db (proves locale_le i) found =
      (record_proof_result-Preserves locale_le db i).proofs a r found

  run-find_proof :
      (cs : List Call) (db : Db)
      → find_proof db a ≡ some r
      → find_proof (run digest db cs) a ≡ some r
  unfolding run
  run-find_proof [] db found = found
  run-find_proof (c ∷ cs) db found =
      run-find_proof cs (step digest db c) (step-find_proof db c found)

-- The terminal result on record, field by field, its checks aside.
pub record IsSameProof (x : ProofResult) (i : ProofInput) : Type 0 where
  pub result_id : x.result_id ≡ i.result_id
  pub node_id : x.node_id ≡ i.node_id
  pub builder_model : x.builder_model ≡ i.builder_model
  pub status : x.status ≡ i.status
  pub commit_sha : x.commit_sha ≡ i.commit_sha
  pub failure_code : x.failure_code ≡ i.failure_code
  pub started_at : x.started_at ≡ i.started_at
  pub finished_at : x.finished_at ≡ i.finished_at

is_replay-IsSameProof :
    (locale_le : Text → Text → Bool) (db : Db) (x : ProofResult) (i : ProofInput)
    → is_replay locale_le db x i ≡ true
    → IsSameProof x i
unfolding is_replay same_proof
is_replay-IsSameProof locale_le db x i h = record {
  result_id = text_eq_sound x.result_id i.result_id (ground (arith, h));
  node_id = text_eq_sound x.node_id i.node_id (ground (arith, h));
  builder_model = text_eq_sound x.builder_model i.builder_model (ground (arith, h));
  status = outcome_eq_sound x.status i.status (ground (arith, h));
  commit_sha = option_text_eq_sound x.commit_sha i.commit_sha (ground (arith, h));
  failure_code = option_text_eq_sound x.failure_code i.failure_code (ground (arith, h));
  started_at = ground (arith, h);
  finished_at = ground (arith, h);
}

module _ (locale_le : Text → Text → Bool) (i : ProofInput) (r : ProofResult)
    (differs : IsSameProof r i → ⊥) where
  refused_proof :
      (db : Db)
      → find_proof db i.attempt_id ≡ some r
      → (code : ErrorCode) × (record_proof_result locale_le db i ≡ (db, err code))
  refused_proof db found =
      record_proof_result_cases locale_le db i (λ p. (code : ErrorCode) × (p ≡ (db, err code)))
        (λ code. (code, refl))
        (λ x here same.
          let equal : x ≡ r = ground arith in
          absurd (
            differs
              (subst (λ z. IsSameProof z i) equal (is_replay-IsSameProof locale_le db x i same))))
        (λ _ _ fresh. absurd (cc))

  -- After any history of calls, the terminal result of an attempt that had one is still on record,
  -- and one that differs in a field, the checks aside, is refused, which changes nothing.
  pub record_proof_result-conflict :
      (digest : Text → Text) (db : Db) (cs : List Call)
      → find_proof db i.attempt_id ≡ some r
      → (find_proof (run digest db cs) i.attempt_id ≡ some r)
        × ((code : ErrorCode) × (record_proof_result locale_le (run digest db cs) i
              ≡ (run digest db cs, err code)))
  record_proof_result-conflict digest db cs found =
      let kept = run-find_proof digest i.attempt_id r cs db found in
      (kept, refused_proof (run digest db cs) kept)
