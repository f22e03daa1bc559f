-- ===== src/Orchestration/Store/Attempts.antt =====
-- src/domains/orchestration/sqlite-store.ts: `createAttempt`, the queries of attempts, `setJobId`.
-- `now` is `new Date()`. An insert that breaks a key of its table throws, and the catch rolls back.
use agent_pool.Prelude.{
  ℕ, ◌==◌, leb, Bool, true, false, ◌&&◌, ◌||◌, not, List, Option, none, some, Text, text_eq, select,
  select_one, update, insert, is_some, sort, option_text_eq, if◌then◌else◌,
}
use agent_pool.Js.{Value, is_non_empty_string, is_positive_integer}
use agent_pool.Orchestration.Lifecycle.{NodeState}
use agent_pool.Orchestration.Contracts.{
  ResolvedBuilderRouting, routing_value, is_resolved_builder_routing, max_id_length, invalid_result,
  node_not_found, invalid_transition,
}
use agent_pool.Orchestration.Store.Schema.{
  Db, NodeRecord, AttemptRecord, AttemptState, created, leased, RoutingRecord, Result, ok, err,
  attempt_at, routing_at, lease_at, log, attempt_created,
}
use agent_pool.Orchestration.Store.Nodes.{find_node}

abbrev pub is_ready : NodeState → Bool
is_ready NodeState.ready = true
is_ready _ = false

abbrev pub is_created : AttemptState → Bool
is_created created = true
is_created _ = false

abbrev pub is_leased : AttemptState → Bool
is_leased leased = true
is_leased _ = false

unfoldable pub find_attempt : Db → Text → Option AttemptRecord
find_attempt db a = select_one (attempt_at a) db.attempts

unfoldable pub find_routing : Db → Text → Option RoutingRecord
find_routing db a = select_one (routing_at a) db.routing

-- UNIQUE (work_id, node_id, attempt_number).
abbrev pub same_number : Text → Text → ℕ → AttemptRecord → Bool
same_number w n k r = text_eq r.work_id w && text_eq r.node_id n && r.attempt_number == k

unfoldable pub new_attempt : Text → Text → Text → ℕ → Text → ℕ → AttemptRecord
new_attempt w n a k job now = record {
  attempt_id = a;
  work_id = w;
  node_id = n;
  attempt_number = k;
  state = created;
  job_id = some job;
  created_at = now;
  lease_generation = 0;
}

unfoldable pub new_routing : Text → ResolvedBuilderRouting → ℕ → RoutingRecord
new_routing a routing now = record {
  attempt_id = a;
  builder_model = routing.builder;
  policy_version = routing.policy_version;
  created_at = now;
}

-- The committed transaction of `createAttempt`, with its audit row: both rows, or none.
unfoldable pub attempt_inserted : Db → AttemptRecord → RoutingRecord → Db
attempt_inserted db attempt routing =
    log (attempt_created attempt.work_id attempt.node_id attempt.attempt_id)
      (record db { attempts = insert attempt db.attempts; routing = insert routing db.routing })

unfoldable pub insert_attempt : Db → AttemptRecord → RoutingRecord → Db × Result AttemptRecord
unfolding attempt_inserted
insert_attempt db attempt routing =
    if is_some (
        select_one (same_number attempt.work_id attempt.node_id attempt.attempt_number) db.attempts)
      || is_some (find_routing db routing.attempt_id)
    then (db, err invalid_result)
    else (attempt_inserted db attempt routing, ok attempt)

unfoldable pub create_attempt_for :
    Db
    → Text
    → Text
    → Text
    → ℕ
    → Text
    → ResolvedBuilderRouting
    → ℕ
    → NodeRecord
    → Db × Result AttemptRecord
unfolding insert_attempt new_attempt new_routing
create_attempt_for db w n a k job routing now node =
    if not (is_ready node.state) then (db, err invalid_transition) else elim (find_attempt db a) [
      | some existing ↦ (db, ok existing)
      | none ↦ insert_attempt db (new_attempt w n a k job now) (new_routing a routing now)
    ]

unfoldable pub create_attempt :
    Db → Text → Text → Text → ℕ → Text → ResolvedBuilderRouting → ℕ → Db × Result AttemptRecord
unfolding create_attempt_for
create_attempt db w n a k job routing now =
    if not (is_non_empty_string max_id_length (Value.string a))
      || not (is_non_empty_string max_id_length (Value.string job))
    then (db, err invalid_result)
    else if not (is_positive_integer (Value.number k))
    then (db, err invalid_result)
    else if not (is_resolved_builder_routing (routing_value routing))
    then (db, err invalid_result)
    else elim (find_node db w n) [
      | none ↦ (db, err node_not_found)
      | some node ↦ create_attempt_for db w n a k job routing now node
    ]

unfoldable pub find_attempt_by_job : Db → Text → Option AttemptRecord
find_attempt_by_job db job = select_one (λ r. option_text_eq r.job_id (some job)) db.attempts

-- ORDER BY attempt_number DESC LIMIT 1, among the attempts that are created or leased.
unfoldable pub active_attempt : Db → Text → Text → Option AttemptRecord
active_attempt db w n =
    select_one (λ r. true)
      (sort (λ a b. leb b.attempt_number a.attempt_number)
        (select
          (λ r.
            text_eq r.work_id w && text_eq r.node_id n && (is_created r.state || is_leased r.state))
          db.attempts))

unfoldable pub set_job_id : Db → Text → Text → Db
set_job_id db a job = record db {
  attempts =
      update (λ r. attempt_at a r && is_created r.state)
        (λ r. record r { job_id = some job; state = created }) db.attempts;
}

unfoldable pub list_created_attempts : Db → List AttemptRecord
list_created_attempts db = select (λ r. is_created r.state) db.attempts

-- `attempt_id IN (SELECT attempt_id FROM leases WHERE expires_at <= now)`; the id is the key of
-- that table.
unfoldable pub has_expired_lease : Db → ℕ → Text → Bool
has_expired_lease db now a = elim (select_one (lease_at a) db.leases) [
  | none ↦ false
  | some l ↦ leb l.expires_at now
]

unfoldable pub list_attempts_needing_reconciliation : Db → ℕ → List AttemptRecord
list_attempts_needing_reconciliation db now =
    select (λ r. is_created r.state || (is_leased r.state && has_expired_lease db now r.attempt_id))
      db.attempts
