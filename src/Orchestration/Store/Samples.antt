-- ===== src/Orchestration/Store/Samples.antt =====
-- A small history of the store of src/domains/orchestration/sqlite-store.ts, and the theorems at it.
-- SHA-256 is replaced by the identity.
use agent_pool.Prelude.{
  ℕ, ◌≡◌, refl, none, some, List, [], ◌∷◌, Text, codes, text_eq, option_text_eq, select_one, select,
  update, delete, sort, insert_sorted, sql_le,
}
use agent_pool.Js.{
  keys, own, has_own, mem_text, every_in, every_own, has_exact_keys, is_non_empty_string,
  is_positive_integer, is_undefined,
}
use agent_pool.ModelRouting.ApprovedModels.{is_approved_model_id}
use agent_pool.Orchestration.Lifecycle.{NodeState, is_valid_transition}
use agent_pool.Orchestration.Contracts.{
  WorkOrigin, routing_value, is_resolved_builder_routing, lease_value, validate_lease_command,
}
use agent_pool.Orchestration.Store.Schema.{Db, empty_db, Outcome, ok}
use agent_pool.Orchestration.Store.Nodes.{
  find_node, list_nodes, listed_node, is_target, transition_node,
}
use agent_pool.Orchestration.Store.Attempts.{find_attempt, find_routing, create_attempt}
use agent_pool.Orchestration.Store.Leases.{
  find_lease, claim_lease, renew_lease, release_lease, reclaim_lease,
}
use agent_pool.Orchestration.Store.Results.{
  WorkerResult, result_value, validate_result, results_equal, find_accepted, find_authorization,
  lease_valid, accept_result, complete_authorized_result, new_accepted, new_authorization,
}
use agent_pool.Orchestration.Store.Calls.{Call, transitions, creates, reclaims, run}

abbrev pub identity : Text → Text
identity t = t

abbrev pub work : Text
work = codes "w"

abbrev pub node : Text
node = codes "n"

abbrev pub attempt : Text
attempt = codes "a"

-- One imported node.
abbrev pub imported : Db
imported = record empty_db {
  nodes =
      record {
        work_id = work;
        node_id = node;
        state = NodeState.pending;
        version = 1;
        intent = codes "i";
        change_spec = codes "c";
        acceptance_criteria = codes "x" ∷ [];
        depends_on = [];
        criteria_origin_source = WorkOrigin.direct_task;
        criteria_origin_source_id = codes "s";
      }
      ∷ [];
}

-- The node becomes ready, gets an attempt, and starts.
abbrev pub opening : List Call
opening =
    transitions work node 1 NodeState.ready
    ∷ creates work node attempt 1 (codes "j")
        (record { builder = codes "moonshot/kimi-k3"; policy_version = 1 }) 5
    ∷ transitions work node 2 NodeState.in_progress
    ∷ []

unfoldable pub opened : Db
unfolding run
opened = run identity imported opening

-- A worker claims the attempt at time 10, for 20.
unfoldable pub leased : Db
unfolding opened
leased = (claim_lease identity opened attempt (codes "p") (codes "t") 30 10).0

-- Its lease runs out, and another worker claims the attempt.
abbrev pub lapse : List Call
lapse = reclaims attempt (codes "r") 40 ∷ []

unfoldable pub released : Db
unfolding leased run
released =
    (claim_lease identity (run identity leased lapse) attempt (codes "q") (codes "u") 80 50).0

abbrev pub result_at : ℕ → Text → WorkerResult
result_at g token = record {
  result_id = codes "res";
  attempt_id = attempt;
  node_id = node;
  work_id = work;
  outcome = Outcome.passed;
  phase = codes "S";
  token = token;
  generation = g;
  expected_node_version = 3;
  artifact_path = none;
  summary = some (codes "ok");
}

unfoldable pub accepted_db : Db
unfolding released
accepted_db = (accept_result identity released (result_at 2 (codes "u")) 60).0

unfoldable pub completed_db : Db
unfolding accepted_db
completed_db = (complete_authorized_result accepted_db work node attempt).0

-- What the tests compute with.
unfoldable pub everything : Unit {0}
unfolding completed_db run text_eq option_text_eq select_one select update delete sort insert_sorted
    sql_le keys own has_own mem_text every_in every_own has_exact_keys is_non_empty_string
    is_positive_integer is_undefined is_approved_model_id is_valid_transition routing_value
    is_resolved_builder_routing lease_value validate_lease_command find_node list_nodes listed_node
    is_target transition_node find_attempt find_routing create_attempt find_lease claim_lease
    renew_lease release_lease reclaim_lease result_value validate_result results_equal find_accepted
    find_authorization lease_valid accept_result complete_authorized_result new_accepted
    new_authorization
everything = tt

pub opened-claimable :
    (claim_lease identity opened attempt (codes "p") (codes "t") 30 10).1
    ≡ ok (record { generation = 1; token = codes "t" })
unfolding everything
opened-claimable = refl
