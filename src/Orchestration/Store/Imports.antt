-- ===== src/Orchestration/Store/Imports.antt =====
-- src/domains/orchestration/sqlite-store.ts: `importApprovedWork`. An insert that breaks a key of its
-- table throws, and the catch rolls back. `digest` is SHA-256 and `json` is `JSON.stringify` of the
-- canonical work.
pub mod Replay
use agent_pool.Prelude.{
  ℕ, ◌==◌, Bool, true, false, ◌&&◌, ◌||◌, not, List, [], ◌∷◌, Option, none, some, Text, text_eq,
  select_one, insert, is_some, length, if◌then◌else◌,
}
use agent_pool.Js.{Value, is_non_empty_string}
use agent_pool.Orchestration.Lifecycle.{NodeState}
use agent_pool.Orchestration.Contracts.{
  ApprovedNode, ErrorCode, WorkOrigin, decomposition, direct_task, max_id_length, max_digest_length,
  max_owner_length, invalid_work, conflicting_work, duplicate_work,
  idempotency_key_payload_mismatch,
}
use agent_pool.Orchestration.Work.{ApprovedWork, work_value}
use agent_pool.Orchestration.Work.Validation.{validate_work}
use agent_pool.Orchestration.Work.Canonical.{canonical_work_hash}
use agent_pool.Orchestration.Store.Schema.{
  Db, WorkRecord, NodeRecord, Dependency, Submission, Idempotency, Result, ok, err, node_at, log,
  work_imported, direct_task_imported,
}
use agent_pool.Orchestration.Store.Works.{find_work, ImportedWork}

unfoldable pub new_node : Text → ApprovedNode → NodeRecord
new_node w n = record {
  work_id = w;
  node_id = n.id;
  state = NodeState.pending;
  version = 1;
  intent = n.intent;
  change_spec = n.change_spec;
  acceptance_criteria = n.acceptance_criteria;
  depends_on = n.depends_on;
  criteria_origin_source = n.criteria_origin_source;
  criteria_origin_source_id = n.criteria_origin_source_id;
}

unfoldable pub new_work : Text → ApprovedWork → WorkRecord
new_work hash work = record {
  work_id = work.work_id;
  origin = work.origin;
  repo = work.repo;
  branch = work.branch;
  payload_hash = hash;
  approval_id = work.approval_id;
  approved_at = work.approved_at;
  approved_head = work.approved_head;
  version = 1;
}

abbrev pub dependency_at : Text → Text → Text → Dependency → Bool
dependency_at w n d r = text_eq r.work_id w && text_eq r.node_id n && text_eq r.depends_on_node_id d

unfoldable pub insert_work : WorkRecord → Db → Db
insert_work row db = record db { works = insert row db.works }

-- PRIMARY KEY (work_id, node_id).
unfoldable pub insert_node : Text → ApprovedNode → Db → Option Db
unfolding new_node
insert_node w n db =
    if is_some (select_one (node_at w n.id) db.nodes)
    then none
    else some (record db { nodes = insert (new_node w n) db.nodes })

-- PRIMARY KEY (work_id, node_id, depends_on_node_id).
unfoldable pub insert_dependencies : Text → Text → List Text → Db → Option Db
insert_dependencies w n [] db = some db
insert_dependencies w n (d ∷ ds) db =
    let row : Dependency = record { work_id = w; node_id = n; depends_on_node_id = d } in
    let rest =
      insert_dependencies w n ds (record db { dependencies = insert row db.dependencies }) in
    if is_some (select_one (dependency_at w n d) db.dependencies) then none else rest

-- The loop over the nodes.
unfoldable pub insert_nodes : Text → List ApprovedNode → Db → Option Db
unfolding insert_node insert_dependencies
insert_nodes w [] db = some db
insert_nodes w (n ∷ ns) db = elim (insert_node w n db) [
  | none ↦ none
  | some db' ↦ elim (insert_dependencies w n.id n.depends_on db') [
    | none ↦ none
    | some db'' ↦ insert_nodes w ns db''
  ]
]

module _ (digest : Text → Text) (json : ApprovedWork → Text) where
  -- The rows of a work and its nodes, or the exception of a broken key.
  unfoldable pub work_rows : ApprovedWork → Db → Option Db
  unfolding insert_work new_work insert_nodes
  work_rows work db =
      insert_nodes work.work_id work.nodes
        (insert_work (new_work (canonical_work_hash digest json work) work) db)

  unfoldable pub import_rows : ApprovedWork → Db → Db × Result ImportedWork
  unfolding work_rows
  import_rows work db = elim (work_rows work db) [
    | none ↦ (db, err invalid_work)
    | some db' ↦
        (log (work_imported work.work_id) db', ok (record { work_id = work.work_id; version = 1 }))
  ]

  unfoldable pub import_approved_work : ApprovedWork → Db → Db × Result ImportedWork
  unfolding import_rows
  import_approved_work work db = elim (validate_work (work_value work)) [
    | some code ↦ (db, err code)
    | none ↦ elim (find_work db work.work_id) [
      | some existing ↦
          if text_eq existing.payload_hash (canonical_work_hash digest json work)
          then (db, ok (record { work_id = work.work_id; version = 1 }))
          else (db, err conflicting_work)
      | none ↦ import_rows work db
    ]
  ]
