-- ===== src/Orchestration/Store/ExactlyOnce.antt =====
-- Results in src/domains/orchestration/sqlite-store.ts: why a result is accepted, that a replay
-- changes nothing, and that a result is completed once.
use agent_pool.Prelude.{
  ℕ, ◌<◌, ◌≡◌, refl, sym, subst, ap, ◌∙◌, true, Option, none, some, List, Text, text_eq,
  text_eq_sound, text_eq_refl, option_text_eq_refl, arith, is_some,
}
use agent_pool.Orchestration.Contracts.{invalid_result}
use agent_pool.Orchestration.Store.Schema.{
  Db, ok, err, AttemptRecord, LeaseRecord, AcceptedResult, with_state, NodeRecord, log,
  result_duplicate_ignored, result_accepted, outcome_eq, Outcome, AuditEvent,
}
use agent_pool.Orchestration.Store.Nodes.{find_node}
use agent_pool.Orchestration.Store.Attempts.{find_attempt}
use agent_pool.Orchestration.Store.Leases.{find_lease}
use agent_pool.Orchestration.Store.Results.{
  WorkerResult, accept_result, accept_for, accept_again, lease_valid, find_accepted,
  find_authorization, stored, new_accepted, new_authorization, results_equal, validate_result,
  result_value, complete_authorized_result,
}
use agent_pool.Orchestration.Store.Views.{view}
use agent_pool.Orchestration.Store.ResultInvariant.{view-stored, view-completed_result}
use agent_pool.Orchestration.Store.Outcomes.{accept_result_cases, complete_authorized_result_cases}
use agent_pool.Orchestration.Store.Calls.{Call, run}
use agent_pool.Orchestration.Store.AttemptHistory.{Stays}
use agent_pool.Orchestration.Store.History.{absent}
use agent_pool.Orchestration.Store.Evolution.{run-Next}

-- Why a first result was accepted, and what is then on record.
pub record Acceptance (digest : Text → Text) (db : Db) (r : WorkerResult) (now : ℕ) (db' : Db)
    : Type 0 where
  pub attempt : AttemptRecord
  pub node : NodeRecord
  pub lease : LeaseRecord
  pub attempt_found : find_attempt db r.attempt_id ≡ some attempt
  pub same_node : attempt.node_id ≡ r.node_id
  pub same_work : attempt.work_id ≡ r.work_id
  pub node_found : find_node db r.work_id r.node_id ≡ some node
  pub same_version : r.expected_node_version ≡ node.version
  pub lease_found : find_lease db r.attempt_id ≡ some lease
  pub unexpired : now < lease.expires_at
  pub same_generation : r.generation ≡ lease.generation
  pub same_token : digest r.token ≡ lease.token_digest
  pub recorded : find_accepted db' r.attempt_id ≡ some (new_accepted r now)
  pub authorized : find_authorization db' r.attempt_id ≡ some (new_authorization r node.version now)
  pub settled : find_attempt db' r.attempt_id ≡ some (with_state result_accepted attempt)

-- A valid lease, taken apart.
lease_valid_parts :
    (digest : Text → Text) (r : WorkerResult) (now : ℕ) (o : Option LeaseRecord)
    → lease_valid digest o r now ≡ true
    → (l : LeaseRecord) × (o ≡ some l)
      × (now < l.expires_at)
      × (r.generation ≡ l.generation)
      × (digest r.token ≡ l.token_digest)
unfolding lease_valid
lease_valid_parts digest r now none v = cc
lease_valid_parts digest r now (some l) v = (
  l,
  refl,
  ground arith,
  ground arith,
  text_eq_sound (digest r.token) l.token_digest (ground arith),
)

module _ (digest : Text → Text) (db : Db) (r : WorkerResult) (now : ℕ) where
  -- A result that is accepted where none was before comes from the holder of an unexpired lease, of
  -- the right generation and token, names the attempt's node and work and the node's version, and
  -- is then on record with its authorization.
  pub accept_result-Acceptance :
      (db' : Db)
      → find_accepted db r.attempt_id ≡ none
      → accept_result digest db r now ≡ (db', ok tt)
      → Acceptance digest db r now db'
  unfolding view
  accept_result-Acceptance db' first =
      accept_result_cases digest db r now (λ p. p ≡ (db', ok tt) → Acceptance digest db r now db')
        (λ code e. absurd (let outcome = ap (λ p. p.1) e in cc))
        (λ _ _ _ _ _ _ old _ e. absurd (cc))
        (λ attempt node _ found node_same work_same _ node_found version valid free e.
          let after = ap (λ p. p.0) e in
          let seen =
            view-stored db r now node.version first
              (absent (find_authorization db r.attempt_id) free) in
          let lease = lease_valid_parts digest r now (find_lease db r.attempt_id) valid in
          record {
            attempt = attempt;
            node = node;
            lease = lease.0;
            attempt_found = found;
            same_node = text_eq_sound attempt.node_id r.node_id node_same;
            same_work = text_eq_sound attempt.work_id r.work_id work_same;
            node_found = node_found;
            same_version = version;
            lease_found = lease.1;
            unexpired = lease.2;
            same_generation = lease.3;
            same_token = lease.4;
            recorded =
                subst (λ d. find_accepted d r.attempt_id ≡ some (new_accepted r now)) after
                  (ap (λ v. v.accepted) seen);
            authorized =
                subst
                  (λ d.
                    find_authorization d r.attempt_id ≡ some (new_authorization r node.version now))
                  after (ap (λ v. v.authorization) seen);
            settled =
                subst (λ d. find_attempt d r.attempt_id ≡ some (with_state result_accepted attempt))
                  after (ap (λ v. v.attempt) seen ∙ rw found);
          })

outcome_eq_refl : (o : Outcome) → outcome_eq o o ≡ true
outcome_eq_refl Outcome.passed = refl
outcome_eq_refl Outcome.failed = refl

results_equal-new_accepted :
    (r : WorkerResult) (now : ℕ) → results_equal (new_accepted r now) r ≡ true
unfolding results_equal new_accepted
results_equal-new_accepted r now = ground (
  arith,
  text_eq_refl r.result_id,
  text_eq_refl r.attempt_id,
  text_eq_refl r.node_id,
  text_eq_refl r.work_id,
  outcome_eq_refl r.outcome,
  text_eq_refl r.phase,
  option_text_eq_refl r.artifact_path,
  option_text_eq_refl r.summary,
)

-- A result that is already on record is acknowledged, and only the audit trail grows.
replayed :
    (digest : Text → Text) (db : Db) (r : WorkerResult) (now : ℕ) (attempt : AttemptRecord)
    (x : AcceptedResult)
    → validate_result (result_value r) ≡ none
    → find_attempt db r.attempt_id ≡ some attempt
    → text_eq attempt.node_id r.node_id ≡ true
    → text_eq attempt.work_id r.work_id ≡ true
    → find_accepted db r.attempt_id ≡ some x
    → results_equal x r ≡ true
    → accept_result digest db r now
      ≡ (log (result_duplicate_ignored r.attempt_id r.result_id) db, ok tt)
unfolding accept_result
replayed digest db r now attempt x v found node work old same =
    rw (v, found, accept_result, node, work, accept_for, old, accept_again, same)

find_attempt-log :
    (db : Db) (e : AuditEvent) (a : Text) → find_attempt (log e db) a ≡ find_attempt db a
unfolding find_attempt
find_attempt-log db e a = refl

find_accepted-log :
    (db : Db) (e : AuditEvent) (a : Text) → find_accepted (log e db) a ≡ find_accepted db a
unfolding find_accepted
find_accepted-log db e a = refl

module _ (digest : Text → Text) (db : Db) (r : WorkerResult) (now : ℕ) where
  -- Sending an accepted result again is acknowledged and changes nothing but the audit trail.
  pub accept_result-replay :
      (db' : Db) (later : ℕ)
      → accept_result digest db r now ≡ (db', ok tt)
      → accept_result digest db' r later
        ≡ (log (result_duplicate_ignored r.attempt_id r.result_id) db', ok tt)
  unfolding view
  accept_result-replay db' later =
      accept_result_cases digest db r now (λ p. p ≡ (db', ok tt) → Again db')
        (λ code e. absurd (let outcome = ap (λ p. p.1) e in cc))
        (λ attempt x v found node work old same e.
          let event = result_duplicate_ignored r.attempt_id r.result_id in
          subst Again (ap (λ p. p.0) e) (
            replayed digest (log event db) r later attempt x v
              (find_attempt-log db event r.attempt_id ∙ found) node work
              (find_accepted-log db event r.attempt_id ∙ old) same))
        (λ attempt row v found node work first _ _ _ free e.
          let seen =
            view-stored db r now row.version first
              (absent (find_authorization db r.attempt_id) free) in
          subst Again (ap (λ p. p.0) e) (
            replayed digest (stored db r now row.version) r later
              (with_state result_accepted attempt) (new_accepted r now) v
              (ap (λ v. v.attempt) seen ∙ rw found) node work (ap (λ v. v.accepted) seen)
              (results_equal-new_accepted r now)))
    where
      Again : Db → Type 0
      Again d =
          accept_result digest d r later
          ≡ (log (result_duplicate_ignored r.attempt_id r.result_id) d, ok tt)

module _ (digest : Text → Text) (cs : List Call) (db : Db) (a : Text) where
  -- An accepted result is on record, word for word, after any history of calls.
  pub run-accepted :
      (x : AcceptedResult)
      → find_accepted db a ≡ some x
      → find_accepted (run digest db cs) a ≡ some x
  unfolding view
  run-accepted x found =
      subst (λ o. Stays o (find_accepted (run digest db cs) a)) found
        (run-Next digest cs db a).stays

unauthorized :
    (db : Db) (w n a : Text)
    → find_authorization db a ≡ none
    → complete_authorized_result db w n a ≡ (db, err invalid_result)
unfolding complete_authorized_result
unauthorized db w n a e = rw (e, complete_authorized_result)

-- After a completion of an attempt, and any history of calls, completing the attempt again is
-- refused and changes nothing, whatever node is named.
pub complete_authorized_result-once :
    (digest : Text → Text) (db db' : Db) (w n a : Text) (row : NodeRecord) (cs : List Call)
    (w' n' : Text)
    → complete_authorized_result db w n a ≡ (db', ok row)
    → complete_authorized_result (run digest db' cs) w' n' a
      ≡ (run digest db' cs, err invalid_result)
unfolding view
complete_authorized_result-once digest db db' w n a row cs w' n' =
    complete_authorized_result_cases db w n a
      (λ p.
        p ≡ (db', ok row) → complete_authorized_result later w' n' a ≡ (later, err invalid_result))
      (λ code e. absurd (let outcome = ap (λ p. p.1) e in cc))
      (λ auth node result _ _ _ found _ e.
        let seen = view-completed_result db w n a auth result in
        let after = ap (λ p. p.0) e in
        unauthorized later w' n' a (
          (run-Next digest cs db' a).settles
            (subst (λ d. is_some (find_accepted d a) ≡ true) after
              (subst (λ o. is_some o ≡ true) (sym (ap (λ v. v.accepted) seen ∙ found)) refl))
            (subst (λ d. find_authorization d a ≡ none) after (ap (λ v. v.authorization) seen))))
  where
    later : Db
    later = run digest db' cs
