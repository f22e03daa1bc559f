-- ===== src/Orchestration/Work/Graph.antt =====
-- src/domains/orchestration/sqlite-store.ts, `validateWork`: the graph of work that passes.
use agent_pool.Prelude.{
  ◌≡◌, refl, sym, subst, true, false, inl, inr, List, [], ◌∷◌, ◌++◌, map, none, Text, codes,
  text_eq, text_eq_refl, text_eq_sound, Bool-cases, arith,
}
use agent_pool.Js.{Value, Values, Fields, items, own, mem_text}
use agent_pool.Orchestration.Work.Topology.{NodeShape}
use agent_pool.Orchestration.Work.Validation.{
  Checked, refused, shapes, shape_of, check_nodes, all_known, is_acyclic, check_graph,
  check_node_array, valid_node_id, valid_node_fields, validate_work,
}

abbrev pub ids : List NodeShape → List Text
ids ns = map (λ n. n.id) ns

-- No two nodes have one id.
abbrev pub HasDistinctIds : List NodeShape → Type 0
HasDistinctIds [] = Unit
HasDistinctIds (n ∷ ns) = (mem_text n.id (ids ns) ≡ false) × HasDistinctIds ns

apart : (s t : Text) → text_eq s t ≡ false → text_eq t s ≡ false
apart s t h = elim (Bool-cases (text_eq t s)) [
  | inr other ↦ other
  | inl same ↦
      let equal : text_eq s t ≡ true =
        subst (λ x. text_eq s x ≡ true) (sym (text_eq_sound t s same)) (text_eq_refl s) in
      absurd (ground (arith, equal, h))
]

mem_text-snoc :
    (t : Text) (x : NodeShape) (ns : List NodeShape)
    → mem_text t (ids ns) ≡ false
    → text_eq x.id t ≡ false
    → mem_text t (ids (ns ++ x ∷ [])) ≡ false
unfolding mem_text
mem_text-snoc t x [] h k = ground arith
mem_text-snoc t x (n ∷ ns) h k = ground (arith, mem_text-snoc t x ns)

HasDistinctIds-snoc :
    (x : NodeShape) (ns : List NodeShape)
    → HasDistinctIds ns
    → mem_text x.id (ids ns) ≡ false
    → HasDistinctIds (ns ++ x ∷ [])
unfolding mem_text
HasDistinctIds-snoc x [] h fresh = (refl, tt)
HasDistinctIds-snoc x (n ∷ ns) h fresh = (
  mem_text-snoc n.id x ns h.0 (apart n.id x.id (ground arith)),
  HasDistinctIds-snoc x ns h.1 (ground arith),
)

check_nodes-HasDistinctIds :
    (seen : List NodeShape) (vs : List Value) (ns : List NodeShape)
    → HasDistinctIds seen
    → check_nodes seen vs ≡ shapes ns
    → HasDistinctIds ns
unfolding check_nodes shape_of
check_nodes-HasDistinctIds seen [] ns h e =
    let same : seen ≡ ns = ground (arith, e) in subst HasDistinctIds same h
check_nodes-HasDistinctIds seen (Value.object true fs ∷ vs) ns h e =
    let next = shape_of fs in
    elim (Bool-cases (valid_node_id fs)) [
      | inr bad ↦ absurd (ground (arith, e, bad))
      | inl good ↦ elim (Bool-cases (mem_text next.id (ids seen))) [
        | inl twice ↦ absurd (ground (arith, e, good, twice))
        | inr fresh ↦ elim (Bool-cases (valid_node_fields fs)) [
          | inr bad ↦ absurd (ground (arith, e, good, fresh, bad))
          | inl fine ↦
              check_nodes-HasDistinctIds (seen ++ next ∷ []) vs ns
                (HasDistinctIds-snoc next seen h fresh) (ground (arith, e, good, fresh, fine))
        ]
      ]
    ]
check_nodes-HasDistinctIds seen (v ∷ vs) ns h e = absurd (ground (arith, e))

-- The nodes of work that passed.
abbrev pub IsGraph : Value → Type 0
IsGraph v =
    (vs : Values) × (ns : List NodeShape) × (v ≡ Value.array vs)
    × (check_nodes [] (items vs) ≡ shapes ns)
    × HasDistinctIds ns
    × (all_known (ids ns) ns ≡ true)
    × (is_acyclic ns ≡ true)

check_graph_passed :
    (o : Checked)
    → check_graph o ≡ none
    → (ns : List NodeShape) × (o ≡ shapes ns)
      × (all_known (ids ns) ns ≡ true)
      × (is_acyclic ns ≡ true)
unfolding check_graph
check_graph_passed (refused c) e = absurd (ground (arith, e))
check_graph_passed (shapes ns) e = (ns, refl, ground (arith, e), ground (arith, e))

check_node_array-IsGraph : (v : Value) → check_node_array v ≡ none → IsGraph v
unfolding check_node_array
check_node_array-IsGraph (Value.array vs) e =
    let passed : check_graph (check_nodes [] (items vs)) ≡ none = ground (arith, e) in
    let (ns, found, known, acyclic) = check_graph_passed (check_nodes [] (items vs)) passed in
    (vs, ns, refl, found, check_nodes-HasDistinctIds [] (items vs) ns tt found, known, acyclic)
check_node_array-IsGraph v e = absurd (ground (arith, e))

-- Work that passes validation has an array of nodes with distinct ids, each dependency is another
-- node of the work, and the search from the nodes without dependencies reaches every node.
pub validate_work-IsGraph :
    (fs : Fields) → validate_work (Value.object true fs) ≡ none → IsGraph (own fs (codes "nodes"))
unfolding validate_work
validate_work-IsGraph fs e = check_node_array-IsGraph (own fs (codes "nodes")) (ground (arith, e))
