-- ===== src/AgentExecution/DagExclusion.antt =====
-- src/domains/agent-execution/dag-exclusion.ts. A value is a tree, so no object is seen twice. Of the
-- units, only the capital letters of ASCII are lowered: no other one becomes a letter of these keys.
pub mod Exclusion
use agent_pool.Prelude.{
  ℕ, ◌+◌, leb, Bool, true, false, ◌&&◌, List, [], ◌∷◌, ◌++◌, map, Option, none, some, Text, codes,
  decimal, if◌then◌else◌,
}
use agent_pool.Js.{Value, Values, Fields, mem_text}

abbrev pub dag_topology_keys : List Text
dag_topology_keys =
    codes "depends_on"
    ∷ codes "dependson"
    ∷ codes "dependencies"
    ∷ codes "dag"
    ∷ codes "dag_id"
    ∷ codes "nodes"
    ∷ codes "edges"
    ∷ codes "ready_frontier"
    ∷ codes "frontier"
    ∷ codes "downstream"
    ∷ codes "upstream"
    ∷ codes "successors"
    ∷ codes "predecessors"
    ∷ codes "topology"
    ∷ codes "graph"
    ∷ codes "sibling_nodes"
    ∷ codes "node_graph"
    ∷ []

abbrev lower : ℕ → ℕ
lower u = if leb 65 u && leb u 90 then u + 32 else u

unfoldable pub is_topology_key : Text → Bool
unfolding mem_text
is_topology_key key = mem_text (map lower key) dag_topology_keys

-- The first hit, or the search of the rest.
abbrev pub or_search : Option Text → Option Text → Option Text
or_search none rest = rest
or_search (some hit) rest = some hit

unfoldable mutual
  pub find_dag_topology : Value → Text → Option Text
  find_dag_topology (Value.array vs) path = find_in_items vs 0 path
  find_dag_topology (Value.object p fs) path = find_in_entries fs path
  find_dag_topology _ path = none

  pub find_in_items : Values → ℕ → Text → Option Text
  find_in_items Values.end index path = none
  find_in_items (Values.item v vs) index path =
      or_search (find_dag_topology v (path ++ (codes "[" ++ (decimal index ++ codes "]"))))
        (find_in_items vs (index + 1) path)

  pub find_in_entries : Fields → Text → Option Text
  find_in_entries Fields.stop path = none
  find_in_entries (Fields.field key child fs) path =
      let here = path ++ (codes "." ++ key) in
      let hit = find_dag_topology child here in
      let rest = find_in_entries fs path in
      if is_topology_key key then some here else or_search hit rest
