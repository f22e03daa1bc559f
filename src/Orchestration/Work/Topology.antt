-- ===== src/Orchestration/Work/Topology.antt =====
-- src/domains/orchestration/sqlite-store.ts, the end of `validateWork`: the search for a dependency
-- cycle. The map of in-degrees is the list of its entries; a degree is read only to see whether
-- it has just become 0, and one that is 0 or less stays at 0 here. Fuel counts the nodes taken from
-- the queue.
use agent_pool.Prelude.{
  ℕ, zero, suc, ◌+◌, ◌-◌, ◌==◌, ◌≡◌, ◌≤◌, refl, ap, Bool, false, List, [], ◌∷◌, ◌++◌, map, Option,
  none, some, Text, text_eq, select, length, length-append, if◌then◌else◌, arith,
}

pub record NodeShape : Type 0 where
  pub id : Text
  pub depends_on : List Text

pub record Degree : Type 0 where
  pub id : Text
  pub degree : ℕ

-- `adj.get(dep)`: the node once for each of its dependencies that is `dep`, in the nodes' order.
abbrev pub times : Text → Text → List Text → List Text
times dep id [] = []
times dep id (d ∷ ds) = let rest = times dep id ds in if text_eq d dep then id ∷ rest else rest

unfoldable pub children : Text → List NodeShape → List Text
children dep [] = []
children dep (node ∷ nodes) = times dep node.id node.depends_on ++ children dep nodes

unfoldable pub in_degrees : List NodeShape → List Degree
in_degrees nodes = map (λ n. record { id = n.id; degree = length n.depends_on }) nodes

-- The entry of `child`, one less; and whether it has just become 0.
unfoldable pub decrement : Text → List Degree → List Degree × Bool
decrement child [] = ([], false)
decrement child (e ∷ es) =
    let rest = decrement child es in
    if text_eq e.id child
    then if e.degree == 0
      then (e ∷ es, false)
      else (record e { degree = e.degree - 1 } ∷ es, e.degree == 1)
    else (e ∷ rest.0, rest.1)

-- The loop over the children of a node: the degrees, and the queue.
unfoldable pub relax : List Text → List Degree → List Text → List Degree × List Text
unfolding decrement
relax [] degrees queue = (degrees, queue)
relax (child ∷ cs) degrees queue =
    let (degrees', freed) = decrement child degrees in
    relax cs degrees' (if freed then queue ++ child ∷ [] else queue)

unfoldable pub drain : ℕ → List NodeShape → List Degree → List Text → ℕ → Option ℕ
unfolding children relax
drain fuel nodes degrees [] processed = some processed
drain zero nodes degrees (id ∷ queue) processed = none
drain (suc f) nodes degrees (id ∷ queue) processed =
    let (degrees', queue') = relax (children id nodes) degrees queue in
    drain f nodes degrees' queue' (processed + 1)

unfoldable pub processed_nodes : List NodeShape → Option ℕ
unfolding in_degrees drain
processed_nodes nodes =
    let degrees = in_degrees nodes in
    let queue = map (λ e. e.id) (select (λ e. e.degree == 0) degrees) in
    drain (length nodes) nodes degrees queue 0

abbrev pub positive : List Degree → ℕ
positive [] = 0
positive (e ∷ es) = if e.degree == 0 then positive es else suc (positive es)

pub decrement-positive :
    (child : Text) (es : List Degree)
    → positive (decrement child es).0 + (if (decrement child es).1 then 1 else 0) ≡ positive es
unfolding decrement
decrement-positive child [] = refl
decrement-positive child (e ∷ es) = ground (arith, decrement-positive child es)

pub relax-positive :
    (cs : List Text) (es : List Degree) (queue : List Text)
    → positive (relax cs es queue).0 + length (relax cs es queue).1 ≡ positive es + length queue
unfolding relax
relax-positive [] es queue = refl
relax-positive (c ∷ cs) es queue =
    let after = decrement c es in
    ground (
      arith,
      decrement-positive c es,
      length-append queue (c ∷ []),
      relax-positive cs after.0 (queue ++ c ∷ []),
      relax-positive cs after.0 queue,
    )

-- As many steps as nodes are queued or still wait are enough.
drain_finishes :
    (fuel : ℕ) (nodes : List NodeShape) (es : List Degree) (queue : List Text) (k : ℕ)
    → positive es + length queue ≤ fuel
    → (n : ℕ) × (drain fuel nodes es queue k ≡ some n)
unfolding drain
drain_finishes fuel nodes es [] k h = (k, refl)
drain_finishes zero nodes es (id ∷ queue) k h = absurd (omega arith)
drain_finishes (suc f) nodes es (id ∷ queue) k h =
    let r = relax (children id nodes) es queue in
    drain_finishes f nodes r.0 r.1 (k + 1)
      (omega (arith, relax-positive (children id nodes) es queue))

pub start-length :
    (es : List Degree)
    → positive es + length (map (λ e. e.id) (select (λ e. e.degree == 0) es)) ≡ length es
unfolding select
start-length [] = refl
start-length (e ∷ es) = ground (arith, start-length es)

pub length-in_degrees : (nodes : List NodeShape) → length (in_degrees nodes) ≡ length nodes
unfolding in_degrees
length-in_degrees [] = refl
length-in_degrees (n ∷ nodes) = ap suc (length-in_degrees nodes)

-- The search for a dependency cycle ends, with at most one step for each node.
pub processed_nodes_finishes : (nodes : List NodeShape) → (n : ℕ) × (processed_nodes nodes ≡ some n)
unfolding processed_nodes
processed_nodes_finishes nodes =
    let degrees = in_degrees nodes in
    drain_finishes (length nodes) nodes degrees
      (map (λ e. e.id) (select (λ e. e.degree == 0) degrees)) 0
      (omega (arith, start-length degrees, length-in_degrees nodes))
