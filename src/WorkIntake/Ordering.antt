-- ===== src/WorkIntake/Ordering.antt =====
-- src/domains/work-intake/unit-validation.ts: `findUnorderableUnits`, for units whose ids are
-- distinct, as its only caller has checked. The stack `ready` is a list with its top first. A degree
-- that is 0 or less stays at 0, since the code asks only whether it has just become 0, and whether
-- it is positive. Fuel counts the units taken from the stack.
pub mod Finishes
use agent_pool.Prelude.{
  ℕ, zero, suc, ◌+◌, ◌==◌, ltb, Bool, true, false, List, [], ◌∷◌, map, Option, none, some, Text,
  select, sort, js_le, length, if◌then◌else◌,
}
use agent_pool.Orchestration.Work.Topology.{NodeShape, Degree, children, in_degrees, decrement}

-- The loop over the dependents of a unit: the degrees, and the stack.
unfoldable pub release_dependents : List Text → List Degree → List Text → List Degree × List Text
unfolding decrement
release_dependents [] degrees stack = (degrees, stack)
release_dependents (c ∷ cs) degrees stack =
    let (degrees', freed) = decrement c degrees in
    release_dependents cs degrees' (if freed then c ∷ stack else stack)

pub record Ordered : Type 0 where
  pub ordered : ℕ
  pub degrees : List Degree

unfoldable pub pop_all : ℕ → List NodeShape → List Degree → List Text → ℕ → Option Ordered
unfolding children release_dependents
pop_all fuel units degrees [] n = some (record { ordered = n; degrees = degrees })
pop_all zero units degrees (u ∷ stack) n = none
pop_all (suc f) units degrees (u ∷ stack) n =
    let (degrees', stack') = release_dependents (children u units) degrees stack in
    pop_all f units degrees' stack' (n + 1)

-- The last id that the filter gives is popped first.
unfoldable pub reversed : List Text → List Text → List Text
reversed done [] = done
reversed done (x ∷ xs) = reversed (x ∷ done) xs

unfoldable pub order_units : List NodeShape → Option Ordered
unfolding in_degrees pop_all reversed
order_units units =
    let degrees = in_degrees units in
    pop_all (length units) units degrees
      (reversed [] (map (λ e. e.id) (select (λ e. e.degree == 0) degrees))) 0

unfoldable pub find_unorderable_units : List NodeShape → Option (List Text)
unfolding order_units
find_unorderable_units units = elim (order_units units) [
  | none ↦ none
  | some o ↦ some (
      if o.ordered == length units
      then []
      else sort js_le (map (λ e. e.id) (select (λ e. ltb 0 e.degree) o.degrees)))
]
