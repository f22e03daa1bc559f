-- ===== src/Orchestration/Work/Acyclicity.antt =====
-- src/domains/orchestration/sqlite-store.ts, `validateWork`: work that passes is a graph without
-- cycles.
use agent_pool.Prelude.{
  ◌≡◌, refl, sym, subst, Bool, true, false, inl, inr, List, [], ◌∷◌, none, Text, codes, text_eq,
  Bool-cases, arith,
}
use agent_pool.Js.{Value, Values, Fields, own, items, mem_text}
use agent_pool.Orchestration.Work.Topology.{NodeShape}
use agent_pool.Orchestration.Work.Waiting.{ids_of, IsIn, Distinct}
use agent_pool.Orchestration.Work.Validation.{
  known_dependencies, all_known, check_nodes, shapes, validate_work,
}
use agent_pool.Orchestration.Work.Graph.{validate_work-IsGraph}
use agent_pool.Orchestration.Work.Draining.{IsStuck}
use agent_pool.Orchestration.Work.Deadlock.{stuck-is_acyclic}
use agent_pool.Orchestration.Work.Progress.{HasDistinctIds-Distinct, IsIn-mem_text, all_known-mem}

-- Distinct ids, dependencies on other nodes of the work, and no set of ids but the empty one, each
-- of them the id of a node that depends on a member of the set.
pub record IsAcyclicGraph (ns : List NodeShape) : Type 0 where
  pub distinct : Distinct (ids_of ns)
  pub other :
      (n : NodeShape) (d : Text)
      → IsIn n ns
      → mem_text d n.depends_on ≡ true
      → (d ≡ n.id → ⊥) × ((m : NodeShape) × IsIn m ns × (m.id ≡ d))
  pub acyclic : (u : Text → Bool) (x : Text) → IsStuck ns u → u x ≡ false

known_dependencies-other :
    (ids : List Text) (id : Text) (ds : List Text)
    → known_dependencies ids id ds ≡ true
    → mem_text id ds ≡ false
unfolding known_dependencies mem_text
known_dependencies-other ids id [] h = refl
known_dependencies-other ids id (x ∷ ds) h = elim (Bool-cases (text_eq x id)) [
  | inr other ↦ ground (arith, h, other, known_dependencies-other ids id ds)
  | inl same ↦ absurd (ground (arith, h, same))
]

all_known-other :
    (ids : List Text) (ns : List NodeShape) (n : NodeShape)
    → all_known ids ns ≡ true
    → IsIn n ns
    → mem_text n.id n.depends_on ≡ false
unfolding all_known
all_known-other ids [] n h i = elim i [ ]
all_known-other ids (k ∷ ns) n h (inl e) =
    subst (λ r. mem_text r.id r.depends_on ≡ false) (sym e)
      (known_dependencies-other ids k.id k.depends_on (ground (arith, h)))
all_known-other ids (k ∷ ns) n h (inr i) = all_known-other ids ns n (ground (arith, h)) i

-- Work that passes validation has an array of nodes with distinct ids, each dependency is the id of
-- another node of the work, and no set of ids but the empty one has for each member a node with
-- that id that depends on a member.
pub validate_work-IsAcyclicGraph :
    (fs : Fields)
    → validate_work (Value.object true fs) ≡ none
    → (vs : Values) × (ns : List NodeShape) × (own fs (codes "nodes") ≡ Value.array vs)
      × (check_nodes [] (items vs) ≡ shapes ns)
      × IsAcyclicGraph ns
validate_work-IsAcyclicGraph fs valid =
    let (vs, ns, shape, checked, separate, known, reached) = validate_work-IsGraph fs valid in
    let apart = HasDistinctIds-Distinct ns separate in
    (
      vs,
      ns,
      shape,
      checked,
      record {
        distinct = apart;
        other = λ n d i m. (
          λ e. absurd (
              let own_id = subst (λ t. mem_text t n.depends_on ≡ true) e m in
              ground (arith, own_id, all_known-other (ids_of ns) ns n known i)),
          IsIn-mem_text d ns (all_known-mem (ids_of ns) ns n d known i m),
        );
        acyclic = λ u x stuck. elim (Bool-cases (u x)) [
          | inr free ↦ free
          | inl held ↦ absurd (ground (arith, reached, stuck-is_acyclic ns u x apart stuck held))
        ];
      },
    )
