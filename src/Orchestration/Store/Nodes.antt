-- ===== src/Orchestration/Store/Nodes.antt =====
-- src/domains/orchestration/sqlite-store.ts: `listNodes`, `getApprovedNode` and `transitionNode`.
use mathlib.Core.Option
use agent_pool.Prelude.{
  ℕ, ◌+◌, ◌==◌, Bool, ◌&&◌, ◌||◌, not, List, Option, none, some, Text, text_eq, select, select_one,
  update, sort, sql_le, if◌then◌else◌,
}
use agent_pool.Orchestration.Lifecycle.{NodeState, is_valid_transition}
use agent_pool.Orchestration.Contracts.{
  ApprovedNode, ErrorCode, invalid_transition, node_not_found, stale_version,
}
use agent_pool.Orchestration.Store.Schema.{
  Db, NodeRecord, Result, err, node_at, or_err, log, node_transitioned,
}

unfoldable pub list_nodes : Db → Text → List NodeRecord
list_nodes db w =
    sort (λ a b. sql_le a.node_id b.node_id) (select (λ r. text_eq r.work_id w) db.nodes)

unfoldable pub find_node : Db → Text → Text → Option NodeRecord
find_node db w n = select_one (node_at w n) db.nodes

unfoldable pub approved : NodeRecord → ApprovedNode
approved r = record {
  id = r.node_id;
  intent = r.intent;
  change_spec = r.change_spec;
  acceptance_criteria = r.acceptance_criteria;
  depends_on = r.depends_on;
  criteria_origin_source = r.criteria_origin_source;
  criteria_origin_source_id = r.criteria_origin_source_id;
}

unfoldable pub get_approved_node : Db → Text → Text → Option ApprovedNode
get_approved_node db w n = Option.map approved (find_node db w n)

-- `(await store.listNodes(workId)).find((n) => n.node_id === nodeId)!`
unfoldable pub listed_node : Db → Text → Text → ErrorCode → Result NodeRecord
unfolding list_nodes
listed_node db w n absent = or_err (select_one (λ r. text_eq r.node_id n) (list_nodes db w)) absent

-- Some state may become `s`.
unfoldable pub is_target : NodeState → Bool
is_target s =
    is_valid_transition NodeState.pending s
    || is_valid_transition NodeState.ready s
    || is_valid_transition NodeState.in_progress s

-- UPDATE nodes SET state = s, version = version + 1 WHERE .. AND version = v.
unfoldable pub set_state : Text → Text → ℕ → NodeState → List NodeRecord → List NodeRecord
set_state w n v s =
    update (λ r. node_at w n r && r.version == v)
      (λ r. record r { state = s; version = r.version + 1 })

-- The committed transaction of `transitionNode`, with its audit row.
unfoldable pub moved : Db → Text → Text → ℕ → NodeState → NodeRecord → Db
unfolding set_state
moved db w n v s row =
    log (node_transitioned w n row.state s v) (record db { nodes = set_state w n v s db.nodes })

unfoldable pub move_node : Db → Text → Text → ℕ → NodeState → NodeRecord → Db × Result NodeRecord
unfolding moved
move_node db w n v s row =
    if not (row.version == v)
    then (db, err stale_version)
    else if not (is_valid_transition row.state s)
    then (db, err invalid_transition)
    else let after : Db = moved db w n v s row in (after, listed_node after w n invalid_transition)

unfoldable pub transition_node : Db → Text → Text → ℕ → NodeState → Db × Result NodeRecord
unfolding move_node
transition_node db w n v s =
    if not (is_target s) then (db, err invalid_transition) else elim (find_node db w n) [
      | none ↦ (db, err node_not_found)
      | some row ↦ move_node db w n v s row
    ]
