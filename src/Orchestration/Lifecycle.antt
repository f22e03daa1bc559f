-- ===== src/Orchestration/Lifecycle.antt =====
-- src/domains/orchestration/lifecycle.ts: the states of a node and the transitions between them.
use agent_pool.Prelude.{Bool, true, false}

pub data NodeState : Type 0 where
  pending ready in_progress passed failed : NodeState

-- `ALLOWED_TRANSITIONS[from].has(to)`.
unfoldable pub is_valid_transition : NodeState → NodeState → Bool
is_valid_transition pending ready = true
is_valid_transition ready in_progress = true
is_valid_transition in_progress passed = true
is_valid_transition in_progress failed = true
is_valid_transition _ _ = false

abbrev pub is_terminal : NodeState → Bool
is_terminal passed = true
is_terminal failed = true
is_terminal _ = false

pub NodeState-discrete : Discrete NodeState
NodeState-discrete = hlevel
