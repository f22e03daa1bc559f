-- ===== src/AgentExecution/DagExclusion/Exclusion.antt =====
-- src/domains/agent-execution/dag-exclusion.ts: what a search that finds nothing means.
use agent_pool.Prelude.{
  ℕ, ◌+◌, ◌≡◌, inl, inr, false, Bool-cases, Option-cases, none, Text, codes, decimal, ◌++◌, arith,
}
use agent_pool.Js.{Value, Values, Fields}
use agent_pool.AgentExecution.DagExclusion.{
  is_topology_key, find_dag_topology, find_in_items, find_in_entries,
}

-- No key of the value, at any depth, is a key of the graph.
abbrev mutual
  pub IsDagFree : Value → Type 0
  IsDagFree (Value.array vs) = AreDagFree vs
  IsDagFree (Value.object p fs) = HaveNoTopology fs
  IsDagFree _ = Unit

  pub AreDagFree : Values → Type 0
  AreDagFree Values.end = Unit
  AreDagFree (Values.item v vs) = IsDagFree v × AreDagFree vs

  pub HaveNoTopology : Fields → Type 0
  HaveNoTopology Fields.stop = Unit
  HaveNoTopology (Fields.field key child fs) =
      (is_topology_key key ≡ false) × IsDagFree child × HaveNoTopology fs

mutual
  unfolding find_dag_topology

  pub find_dag_topology-IsDagFree :
      (v : Value) (path : Text) → find_dag_topology v path ≡ none → IsDagFree v
  find_dag_topology-IsDagFree (Value.array vs) path e = find_in_items-AreDagFree vs 0 path e
  find_dag_topology-IsDagFree (Value.object p fs) path e = find_in_entries-HaveNoTopology fs path e
  find_dag_topology-IsDagFree Value.undefined path e = tt
  find_dag_topology-IsDagFree Value.null path e = tt
  find_dag_topology-IsDagFree (Value.bool b) path e = tt
  find_dag_topology-IsDagFree (Value.number n) path e = tt
  find_dag_topology-IsDagFree (Value.other_number n) path e = tt
  find_dag_topology-IsDagFree (Value.string s) path e = tt

  find_in_items-AreDagFree :
      (vs : Values) (i : ℕ) (path : Text) → find_in_items vs i path ≡ none → AreDagFree vs
  find_in_items-AreDagFree Values.end i path e = tt
  find_in_items-AreDagFree (Values.item v vs) i path e =
      let here = path ++ (codes "[" ++ (decimal i ++ codes "]")) in
      elim (Option-cases (find_dag_topology v here)) [
        | inl clean ↦ (
          find_dag_topology-IsDagFree v here clean,
          find_in_items-AreDagFree vs (i + 1) path (ground (arith, e, clean)),
        )
        | inr (hit, found) ↦ absurd (ground (arith, e, found))
      ]

  find_in_entries-HaveNoTopology :
      (fs : Fields) (path : Text) → find_in_entries fs path ≡ none → HaveNoTopology fs
  find_in_entries-HaveNoTopology Fields.stop path e = tt
  find_in_entries-HaveNoTopology (Fields.field key child fs) path e =
      let here = path ++ (codes "." ++ key) in
      elim (Bool-cases (is_topology_key key)) [
        | inl bad ↦ absurd (ground (arith, e, bad))
        | inr fine ↦ elim (Option-cases (find_dag_topology child here)) [
          | inl clean ↦ (
            fine,
            find_dag_topology-IsDagFree child here clean,
            find_in_entries-HaveNoTopology fs path (ground (arith, e, fine, clean)),
          )
          | inr (hit, found) ↦ absurd (ground (arith, e, fine, found))
        ]
      ]
