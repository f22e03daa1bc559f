-- ===== src/WorkIntake/Ordering/Finishes.antt =====
-- src/domains/work-intake/unit-validation.ts, `findUnorderableUnits`: the search ends.
use agent_pool.Prelude.{
  ℕ, zero, suc, ◌+◌, ◌==◌, ◌≡◌, ◌≤◌, refl, List, [], ◌∷◌, map, some, Text, select, length, arith,
}
use agent_pool.Orchestration.Work.Topology.{
  NodeShape, Degree, children, in_degrees, decrement, positive, decrement-positive, start-length,
  length-in_degrees,
}
use agent_pool.WorkIntake.Ordering.{Ordered, release_dependents, pop_all, reversed, order_units}

release_dependents-positive :
    (cs : List Text) (es : List Degree) (stack : List Text)
    → positive (release_dependents cs es stack).0 + length (release_dependents cs es stack).1
      ≡ positive es + length stack
unfolding release_dependents
release_dependents-positive [] es stack = refl
release_dependents-positive (c ∷ cs) es stack =
    let after = decrement c es in
    ground (
      arith,
      decrement-positive c es,
      release_dependents-positive cs after.0 (c ∷ stack),
      release_dependents-positive cs after.0 stack,
    )

-- As many steps as units are on the stack or still wait are enough, and each step orders a unit.
pop_all_finishes :
    (fuel : ℕ) (units : List NodeShape) (es : List Degree) (stack : List Text) (k : ℕ)
    → positive es + length stack ≤ fuel
    → (o : Ordered) × (pop_all fuel units es stack k ≡ some o)
      × (o.ordered + positive o.degrees ≡ k + (positive es + length stack))
unfolding pop_all
pop_all_finishes fuel units es [] k h = (record { ordered = k; degrees = es }, refl, omega arith)
pop_all_finishes zero units es (id ∷ stack) k h = absurd (omega arith)
pop_all_finishes (suc f) units es (id ∷ stack) k h =
    let r = release_dependents (children id units) es stack in
    let step = release_dependents-positive (children id units) es stack in
    let (o, found, count) = pop_all_finishes f units r.0 r.1 (k + 1) (omega (arith, step)) in
    (o, found, omega (arith, step, count))

length-reversed : (done xs : List Text) → length (reversed done xs) ≡ length done + length xs
unfolding reversed
length-reversed done [] = omega arith
length-reversed done (x ∷ xs) = omega (arith, length-reversed (x ∷ done) xs)

-- The search ends, and each unit is ordered or still waits for a dependency.
pub order_units_finishes :
    (units : List NodeShape)
    → (o : Ordered) × (order_units units ≡ some o) × (o.ordered + positive o.degrees ≡ length units)
unfolding order_units
order_units_finishes units =
    let es = in_degrees units in
    let start = map (λ e. e.id) (select (λ e. e.degree == 0) es) in
    let size : positive es + length (reversed [] start) ≡ length units =
      omega (arith, start-length es, length-in_degrees units, length-reversed [] start) in
    let (o, found, count) =
      pop_all_finishes (length units) units es (reversed [] start) 0 (omega (arith, size)) in
    (o, found, omega (arith, size, count))
