-- ===== src/Orchestration/Store/Outcomes.antt =====
-- The outcomes of `transitionNode`, `createAttempt`, `acceptResult` and
-- `completeAuthorizedResult` of src/domains/orchestration/sqlite-store.ts, as case rules.
use agent_pool.Prelude.{
  ℕ, ◌==◌, ◌≡◌, true, false, Option-cases, Bool-cases, inl, inr, none, some, Text, text_eq, arith,
  is_some,
}
use agent_pool.Js.{Value, is_non_empty_string, is_positive_integer}
use agent_pool.Orchestration.Lifecycle.{NodeState, is_valid_transition}
use agent_pool.Orchestration.Contracts.{
  ErrorCode, invalid_transition, node_not_found, stale_version, invalid_result, result_conflict,
  result_identity_mismatch, stale_result, max_id_length, ResolvedBuilderRouting, routing_value,
  is_resolved_builder_routing,
}
use agent_pool.Orchestration.Store.Schema.{
  Db, Result, ok, err, log, NodeRecord, AttemptRecord, AcceptedResult, Authorization,
  result_duplicate_ignored, outcome_state,
}
use agent_pool.Orchestration.Store.Nodes.{find_node, listed_node, is_target, moved, transition_node}
use agent_pool.Orchestration.Store.Attempts.{
  find_attempt, find_routing, is_ready, new_attempt, new_routing, attempt_inserted, create_attempt,
  create_attempt_for,
}
use agent_pool.Orchestration.Store.Leases.{find_lease}
use agent_pool.Orchestration.Store.Results.{
  WorkerResult, result_value, validate_result, results_equal, find_accepted, find_authorization,
  lease_valid, stored, completed_result, accept_result, accept_for, accept_first,
  complete_authorized_result, complete_for,
}

module _ (db : Db) (w n : Text) where
  pub transition_node_cases :
      (P : Db × Result NodeRecord → Type 0) (v : ℕ) (s : NodeState)
      → ((c : ErrorCode) → P (db, err c))
      → ((row : NodeRecord)
          → find_node db w n ≡ some row
          → row.version ≡ v
          → is_valid_transition row.state s ≡ true
          → P (moved db w n v s row, listed_node (moved db w n v s row) w n invalid_transition))
      → P (transition_node db w n v s)
  unfolding transition_node
  transition_node_cases P v s refused done = elim (Bool-cases (is_target s)) [
    | inr bad ↦ rw (bad, transition_node) (refused invalid_transition)
    | inl good ↦ elim (Option-cases (find_node db w n)) [
      | inl e ↦ rw (good, e, transition_node) (refused node_not_found)
      | inr (row, e) ↦
          rw (good, e, transition_node)
            (ground (arith, refused stale_version, refused invalid_transition, done row e))
    ]
  ]

  pub create_attempt_cases :
      (P : Db × Result AttemptRecord → Type 0) (a : Text) (k : ℕ) (job : Text)
      (routing : ResolvedBuilderRouting) (now : ℕ)
      → ((c : ErrorCode) → P (db, err c))
      → ((existing : AttemptRecord) → find_attempt db a ≡ some existing → P (db, ok existing))
      → ((node : NodeRecord)
          → find_node db w n ≡ some node
          → is_ready node.state ≡ true
          → find_attempt db a ≡ none
          → is_some (find_routing db a) ≡ false
          → P (
            attempt_inserted db (new_attempt w n a k job now) (new_routing a routing now),
            ok (new_attempt w n a k job now),
          ))
      → P (create_attempt db w n a k job routing now)
  unfolding create_attempt
  create_attempt_cases P a k job routing now refused again done =
      elim (Bool-cases (is_non_empty_string max_id_length (Value.string a))) [
        | inr bad ↦ rw (bad, create_attempt) (refused invalid_result)
        | inl v₁ ↦ elim (Bool-cases (is_non_empty_string max_id_length (Value.string job))) [
          | inr bad ↦ rw (v₁, bad, create_attempt) (refused invalid_result)
          | inl v₂ ↦ elim (Bool-cases (is_positive_integer (Value.number k))) [
            | inr bad ↦ rw (v₁, v₂, bad, create_attempt) (refused invalid_result)
            | inl v₃ ↦ elim (Bool-cases (is_resolved_builder_routing (routing_value routing))) [
              | inr bad ↦ rw (v₁, v₂, v₃, bad, create_attempt) (refused invalid_result)
              | inl v₄ ↦ elim (Option-cases (find_node db w n)) [
                | inl e ↦ rw (v₁, v₂, v₃, v₄, e, create_attempt) (refused node_not_found)
                | inr (node, e) ↦ rw (v₁, v₂, v₃, v₄, e, create_attempt) (for node e)
              ]
            ]
          ]
        ]
      ]
    where
      for :
          (node : NodeRecord)
          → find_node db w n ≡ some node
          → P (create_attempt_for db w n a k job routing now node)
      for node e = elim (Bool-cases (is_ready node.state)) [
        | inr bad ↦ rw (bad, create_attempt_for) (refused invalid_transition)
        | inl good ↦ elim (Option-cases (find_attempt db a)) [
          | inr (r, old) ↦ rw (good, old, create_attempt_for) (again r old)
          | inl new ↦
              rw (good, new, create_attempt_for)
                (ground (arith, refused invalid_result, done node e good new))
        ]
      ]

module _ (digest : Text → Text) (db : Db) (r : WorkerResult) (now : ℕ) where
  accept_first_cases :
      (P : Db × Result (Unit {0}) → Type 0)
      → ((c : ErrorCode) → P (db, err c))
      → ((node : NodeRecord)
          → find_node db r.work_id r.node_id ≡ some node
          → r.expected_node_version ≡ node.version
          → lease_valid digest (find_lease db r.attempt_id) r now ≡ true
          → is_some (find_authorization db r.attempt_id) ≡ false
          → P (stored db r now node.version, ok tt))
      → P (accept_first digest db r now)
  unfolding accept_first
  accept_first_cases P refused done = elim (Option-cases (find_node db r.work_id r.node_id)) [
    | inl e ↦ rw (e, accept_first) (refused node_not_found)
    | inr (node, e) ↦
        rw (e, accept_first)
          (ground (
            arith,
            refused stale_version,
            refused stale_result,
            refused invalid_result,
            done node e,
          ))
  ]

  pub accept_result_cases :
      (P : Db × Result (Unit {0}) → Type 0)
      → ((c : ErrorCode) → P (db, err c))
      → ((attempt : AttemptRecord) (existing : AcceptedResult)
          → validate_result (result_value r) ≡ none
          → find_attempt db r.attempt_id ≡ some attempt
          → text_eq attempt.node_id r.node_id ≡ true
          → text_eq attempt.work_id r.work_id ≡ true
          → find_accepted db r.attempt_id ≡ some existing
          → results_equal existing r ≡ true
          → P (log (result_duplicate_ignored r.attempt_id r.result_id) db, ok tt))
      → ((attempt : AttemptRecord) (node : NodeRecord)
          → validate_result (result_value r) ≡ none
          → find_attempt db r.attempt_id ≡ some attempt
          → text_eq attempt.node_id r.node_id ≡ true
          → text_eq attempt.work_id r.work_id ≡ true
          → find_accepted db r.attempt_id ≡ none
          → find_node db r.work_id r.node_id ≡ some node
          → r.expected_node_version ≡ node.version
          → lease_valid digest (find_lease db r.attempt_id) r now ≡ true
          → is_some (find_authorization db r.attempt_id) ≡ false
          → P (stored db r now node.version, ok tt))
      → P (accept_result digest db r now)
  unfolding accept_result
  accept_result_cases P refused again done =
      elim (Option-cases (validate_result (result_value r))) [
        | inr (c, e) ↦ rw (e, accept_result) (refused c)
        | inl v ↦ elim (Option-cases (find_attempt db r.attempt_id)) [
          | inl e ↦ rw (v, e, accept_result) (refused invalid_result)
          | inr (attempt, e) ↦ rw (v, e, accept_result) (for attempt v e)
        ]
      ]
    where
      for :
          (attempt : AttemptRecord)
          → validate_result (result_value r) ≡ none
          → find_attempt db r.attempt_id ≡ some attempt
          → P (accept_for digest db r now attempt)
      for attempt v e = elim (Bool-cases (text_eq attempt.node_id r.node_id)) [
        | inr bad ↦ rw (bad, accept_for) (refused result_identity_mismatch)
        | inl node_same ↦ elim (Bool-cases (text_eq attempt.work_id r.work_id)) [
          | inr bad ↦ rw (node_same, bad, accept_for) (refused result_identity_mismatch)
          | inl work_same ↦ elim (Option-cases (find_accepted db r.attempt_id)) [
            | inr (existing, old) ↦
                rw (node_same, work_same, old, accept_for)
                  (ground (
                    arith,
                    refused result_conflict,
                    again attempt existing v e node_same work_same old,
                  ))
            | inl new ↦
                rw (node_same, work_same, new, accept_for)
                  (accept_first_cases P refused λ node at version valid free.
                    done attempt node v e node_same work_same new at version valid free)
          ]
        ]
      ]

module _ (db : Db) (w n a : Text) where
  pub complete_authorized_result_cases :
      (P : Db × Result NodeRecord → Type 0)
      → ((c : ErrorCode) → P (db, err c))
      → ((auth : Authorization) (node : NodeRecord) (result : AcceptedResult)
          → find_authorization db a ≡ some auth
          → find_node db w n ≡ some node
          → node.version ≡ auth.expected_node_version
          → find_accepted db a ≡ some result
          → is_valid_transition node.state (outcome_state result.outcome) ≡ true
          → P (
            completed_result db w n a auth result,
            listed_node (completed_result db w n a auth result) w n invalid_result,
          ))
      → P (complete_authorized_result db w n a)
  unfolding complete_authorized_result
  complete_authorized_result_cases P refused done = elim (Option-cases (find_authorization db a)) [
    | inl e ↦ rw (e, complete_authorized_result) (refused invalid_result)
    | inr (auth, e) ↦ elim (Option-cases (find_node db w n)) [
      | inl e' ↦ rw (e, e', complete_authorized_result) (refused node_not_found)
      | inr (node, e') ↦ rw (e, e', complete_authorized_result) (for auth node e e')
    ]
  ]
    where
      for :
          (auth : Authorization) (node : NodeRecord)
          → find_authorization db a ≡ some auth
          → find_node db w n ≡ some node
          → P (complete_for db w n a auth node)
      for auth node e e' = elim (Bool-cases (node.version == auth.expected_node_version)) [
        | inr bad ↦ rw (bad, complete_for) (refused stale_version)
        | inl same ↦ elim (Option-cases (find_accepted db a)) [
          | inl missing ↦ rw (same, missing, complete_for) (refused invalid_result)
          | inr (result, found) ↦
              rw (same, found, complete_for)
                (ground (
                  arith,
                  refused invalid_transition,
                  done auth node result e e' (ground arith) found,
                ))
        ]
      ]
