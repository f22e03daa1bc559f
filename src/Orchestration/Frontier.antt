-- ===== src/Orchestration/Frontier.antt =====
-- src/domains/orchestration/ready-frontier.ts: the nodes that may be dispatched. A `Set` of ids is
-- the list of its members, a `Map` is its `get`; `locale_le` is the order of `localeCompare`.
pub mod Unblocked
use mathlib.Core.List.{Mem, mem-cons, mem-cons_self, mem-cons_of_mem, not-mem-nil}
use mathlib.Core.List.Perm
use agent_pool.Prelude.{
  ◌≡◌, refl, Bool, true, false, ◌&&◌, not, Option, none, some, List, [], ◌∷◌, Text, sort, sort-perm,
  if◌then◌else◌, is_some, arith, All, Bool-cases, inl, inr,
}
use agent_pool.Js.{mem_text, every_in}
use agent_pool.Orchestration.Contracts.{ApprovedNode}

pub record FrontierNode : Type 0 where
  pub node : ApprovedNode
  pub ready_after_scheduling : Bool
  pub blocker_node_id : Option Text

unfoldable pub frontier_entry : (Text → Option Text) → ApprovedNode → FrontierNode
frontier_entry blockers node = record {
  node = node;
  ready_after_scheduling = not (is_some (blockers node.id));
  blocker_node_id = blockers node.id;
}

-- Not passed itself, and every dependency passed.
unfoldable pub is_unblocked : List Text → ApprovedNode → Bool
is_unblocked passed node = not (mem_text node.id passed) && every_in passed node.depends_on

-- The loop over the nodes.
unfoldable pub collect_frontier :
    List Text → (Text → Option Text) → List ApprovedNode → List FrontierNode
unfolding frontier_entry is_unblocked
collect_frontier passed blockers [] = []
collect_frontier passed blockers (node ∷ nodes) =
    let rest = collect_frontier passed blockers nodes in
    if is_unblocked passed node then frontier_entry blockers node ∷ rest else rest

unfoldable pub compute_ready_frontier :
    (Text → Text → Bool) → List ApprovedNode → List Text → (Text → Option Text) → List FrontierNode
unfolding collect_frontier
compute_ready_frontier locale_le nodes passed blockers =
    sort (λ a b. locale_le a.node.id b.node.id) (collect_frontier passed blockers nodes)
