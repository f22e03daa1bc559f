-- ===== src/Orchestration/Store/Conflicts.antt =====
-- src/domains/orchestration/sqlite-store.ts: what `acceptResult` answers to a result that is not the one on record, after any history of calls.
use agent_pool.Prelude.{
  ℕ, ◌≡◌, refl, subst, true, some, List, Text, text_eq_sound, option_text_eq_sound, arith,
}
use agent_pool.Orchestration.Contracts.{ErrorCode}
use agent_pool.Orchestration.Store.Schema.{Db, err, AcceptedResult, Outcome, outcome_eq}
use agent_pool.Orchestration.Store.Results.{
  WorkerResult, results_equal, accept_result, find_accepted,
}
use agent_pool.Orchestration.Store.Outcomes.{accept_result_cases}
use agent_pool.Orchestration.Store.Calls.{Call, run}
use agent_pool.Orchestration.Store.ExactlyOnce.{run-accepted}

pub outcome_eq_sound : (o p : Outcome) → outcome_eq o p ≡ true → o ≡ p
outcome_eq_sound Outcome.passed Outcome.passed h = refl
outcome_eq_sound Outcome.failed Outcome.failed h = refl
outcome_eq_sound Outcome.passed Outcome.failed h = absurd (ground (arith, h))
outcome_eq_sound Outcome.failed Outcome.passed h = absurd (ground (arith, h))

-- The result on record, field by field. The token is not stored.
pub record IsSameResult (x : AcceptedResult) (r : WorkerResult) : Type 0 where
  pub result_id : x.result_id ≡ r.result_id
  pub attempt_id : x.attempt_id ≡ r.attempt_id
  pub node_id : x.node_id ≡ r.node_id
  pub work_id : x.work_id ≡ r.work_id
  pub outcome : x.outcome ≡ r.outcome
  pub phase : x.phase ≡ r.phase
  pub generation : x.generation ≡ r.generation
  pub expected_node_version : x.expected_node_version ≡ r.expected_node_version
  pub artifact_path : x.artifact_path ≡ r.artifact_path
  pub summary : x.summary ≡ r.summary

results_equal-IsSameResult :
    (x : AcceptedResult) (r : WorkerResult) → results_equal x r ≡ true → IsSameResult x r
unfolding results_equal
results_equal-IsSameResult x r h = record {
  result_id = text_eq_sound x.result_id r.result_id (ground (arith, h));
  attempt_id = text_eq_sound x.attempt_id r.attempt_id (ground (arith, h));
  node_id = text_eq_sound x.node_id r.node_id (ground (arith, h));
  work_id = text_eq_sound x.work_id r.work_id (ground (arith, h));
  outcome = outcome_eq_sound x.outcome r.outcome (ground (arith, h));
  phase = text_eq_sound x.phase r.phase (ground (arith, h));
  generation = ground (arith, h);
  expected_node_version = ground (arith, h);
  artifact_path = option_text_eq_sound x.artifact_path r.artifact_path (ground (arith, h));
  summary = option_text_eq_sound x.summary r.summary (ground (arith, h));
}

refused_result :
    (digest : Text → Text) (db : Db) (r : WorkerResult) (now : ℕ) (x : AcceptedResult)
    → find_accepted db r.attempt_id ≡ some x
    → (IsSameResult x r → ⊥)
    → (code : ErrorCode) × (accept_result digest db r now ≡ (db, err code))
refused_result digest db r now x old differs =
    accept_result_cases digest db r now (λ p. (code : ErrorCode) × (p ≡ (db, err code)))
      (λ code. (code, refl))
      (λ _ y _ _ _ _ here same.
        let equal : y ≡ x = ground arith in
        absurd
          (differs (subst (λ z. IsSameResult z r) equal (results_equal-IsSameResult y r same))))
      (λ _ _ _ _ _ _ none_yet _ _ _ _. absurd (cc))

-- After any history of calls, a result that differs in any field from one that was on record for
-- its attempt is refused, and the refusal changes nothing.
pub accept_result-conflict :
    (digest : Text → Text) (db : Db) (cs : List Call) (r : WorkerResult) (now : ℕ)
    (x : AcceptedResult)
    → find_accepted db r.attempt_id ≡ some x
    → (IsSameResult x r → ⊥)
    → (code : ErrorCode) × (accept_result digest (run digest db cs) r now
        ≡ (run digest db cs, err code))
accept_result-conflict digest db cs r now x old differs =
    refused_result digest (run digest db cs) r now x (run-accepted digest cs db r.attempt_id x old)
      differs
