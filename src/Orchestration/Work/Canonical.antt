-- ===== src/Orchestration/Work/Canonical.antt =====
-- src/domains/orchestration/sqlite-store.ts: `canonicalWorkHash`. `json` is `JSON.stringify` of the
-- canonical object, `digest` is SHA-256.
use agent_pool.Prelude.{map, Text, sort, js_le}
use agent_pool.Orchestration.Contracts.{ApprovedNode}
use agent_pool.Orchestration.Work.{ApprovedWork}

unfoldable pub canonical_node : ApprovedNode → ApprovedNode
canonical_node n = record n { depends_on = sort js_le n.depends_on }

unfoldable pub canonical_work : ApprovedWork → ApprovedWork
unfolding canonical_node
canonical_work w = record w { nodes = map canonical_node w.nodes }

unfoldable pub canonical_work_hash : (Text → Text) → (ApprovedWork → Text) → ApprovedWork → Text
unfolding canonical_work
canonical_work_hash digest json w = digest (json (canonical_work w))
