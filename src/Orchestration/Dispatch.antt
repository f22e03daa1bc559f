-- ===== src/Orchestration/Dispatch.antt =====
-- src/domains/orchestration/dispatch-service.ts: `dispatchReadyFrontier`. The queue and the builder
-- routing resolver are parameters: `ensure_job` says whether the queue took the envelope, and
-- `resolve` is `none` where the resolver rejects. `locale_le` is the order of `localeCompare`.
pub mod Runs
pub mod Safety
pub mod Reports
use agent_pool.Prelude.{
  ℕ, Bool, true, false, not, List, [], ◌∷◌, map, Option, none, some, Text, text_eq, select,
  select_one, is_some, if◌then◌else◌,
}
use agent_pool.Orchestration.Lifecycle.{NodeState}
use agent_pool.Orchestration.Contracts.{
  ApprovedNode, QueueEnvelope, ResolvedBuilderRouting, routing_value, is_resolved_builder_routing,
}
use agent_pool.Orchestration.Frontier.{FrontierNode, compute_ready_frontier}
use agent_pool.Orchestration.Identifiers.{derive_attempt_id, derive_job_id, make_queue_envelope}
use agent_pool.Orchestration.Store.Schema.{Db, NodeRecord, AttemptRecord, Result, ok, err}
use agent_pool.Orchestration.Store.Nodes.{list_nodes, get_approved_node, transition_node}
use agent_pool.Orchestration.Store.Works.{get_imported_work}
use agent_pool.Orchestration.Store.Attempts.{create_attempt, is_ready}

pub data SkipCode : Type 0 where
  node_record_missing node_transition_failed node_not_dispatchable : SkipCode
  routing_unavailable routing_invalid attempt_creation_failed queue_enqueue_failed : SkipCode

pub data Entry : Type 0 where
  dispatched : (attempt_id job_id : Text) → Entry
  skipped : (node_id : Text) (code : SkipCode) → Entry

abbrev pub is_passed : NodeRecord → Bool
is_passed r = elim r.state [
  | NodeState.passed ↦ true
  | NodeState.pending ↦ false
  | NodeState.ready ↦ false
  | NodeState.in_progress ↦ false
  | NodeState.failed ↦ false
]

abbrev pub is_pending : NodeState → Bool
is_pending NodeState.pending = true
is_pending _ = false

-- The loop that reads the approved nodes.
unfoldable pub approved_nodes : Db → Text → List NodeRecord → List ApprovedNode
approved_nodes db w [] = []
approved_nodes db w (r ∷ rs) =
    let rest = approved_nodes db w rs in
    elim (get_approved_node db w r.node_id) [ none ↦ rest | some node ↦ node ∷ rest ]

unfoldable pub passed_ids : List NodeRecord → List Text
passed_ids records = map (λ r. r.node_id) (select is_passed records)

module _ (ensure_job : QueueEnvelope → Bool)
    (resolve : Text → Text → Text → Option ResolvedBuilderRouting) (now : ℕ) (w : Text) where
  -- The attempt is created; then the queue is told.
  unfoldable pub enqueue : Db × Result AttemptRecord → Text → Db × Entry
  enqueue (db, err c) n = (db, skipped n attempt_creation_failed)
  enqueue (db, ok attempt) n =
      let a = derive_attempt_id w n 1 in
      if ensure_job (make_queue_envelope w n 1)
      then (db, dispatched a (derive_job_id a))
      else (db, skipped n queue_enqueue_failed)

  -- The builder is resolved, and the attempt created.
  unfoldable pub dispatch_ready : Db → Text → Db × Entry
  unfolding enqueue
  dispatch_ready db n =
      let a = derive_attempt_id w n 1 in
      elim (resolve w n a) [
        | none ↦ (db, skipped n routing_unavailable)
        | some routing ↦
            if not (is_resolved_builder_routing (routing_value routing))
            then (db, skipped n routing_invalid)
            else enqueue (create_attempt db w n a 1 (derive_job_id a) routing now) n
      ]

  -- The node after the transition.
  unfoldable pub dispatch_moved : Db × Result NodeRecord → Text → Db × Entry
  unfolding dispatch_ready
  dispatch_moved (db, err c) n = (db, skipped n node_transition_failed)
  dispatch_moved (db, ok row) n =
      if not (is_ready row.state)
      then (db, skipped n node_not_dispatchable)
      else dispatch_ready db n

  -- The body of the loop, for an entry that is ready after scheduling.
  unfoldable pub dispatch_node : List NodeRecord → Db → Text → Db × Entry
  unfolding dispatch_moved
  dispatch_node records db n = elim (select_one (λ r. text_eq r.node_id n) records) [
    | none ↦ (db, skipped n node_record_missing)
    | some row ↦
        if is_pending row.state
        then dispatch_moved (transition_node db w n row.version NodeState.ready) n
        else dispatch_moved (db, ok row) n
  ]

  unfoldable pub dispatch_entries : List NodeRecord → Db → List FrontierNode → Db × List Entry
  unfolding dispatch_node
  dispatch_entries records db [] = (db, [])
  dispatch_entries records db (entry ∷ entries) =
      if not entry.ready_after_scheduling
      then dispatch_entries records db entries
      else let (db', e) = dispatch_node records db entry.node.id in
        let (db'', es) = dispatch_entries records db' entries in (db'', e ∷ es)

  -- `none` is the exception for work that is not there.
  unfoldable pub dispatch_ready_frontier :
      (Text → Text → Bool) → Db → (Text → Option Text) → Db × Option (List Entry)
  unfolding dispatch_entries
  dispatch_ready_frontier locale_le db blockers =
      if not (is_some (get_imported_work db w))
      then (db, none)
      else let records = list_nodes db w in
        let frontier =
          compute_ready_frontier locale_le (approved_nodes db w records) (passed_ids records)
            blockers in
        let (db', entries) = dispatch_entries records db frontier in (db', some entries)
