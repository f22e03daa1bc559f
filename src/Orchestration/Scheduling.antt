-- ===== src/Orchestration/Scheduling.antt =====
-- src/domains/orchestration/contracts.ts: `makeEmpiricalSchedulingPolicy`. A confidence is a number
-- between 0 and 1; the model takes it in any fixed unit, as the policy only compares it.
pub mod Order
use agent_pool.Prelude.{
  ℕ, ltb, Bool, true, false, ◌&&◌, ◌||◌, not, List, [], ◌∷◌, map, Option, none, some, Text, text_eq,
  select, select_one, sort, js_le, if◌then◌else◌,
}
use agent_pool.Js.{mem_text}

pub record ClassifiedOverlap : Type 0 where
  pub node_id : Text
  pub confidence : ℕ
  pub likely_touched_units : List Text
  pub shared_surfaces : List Text

pub data Decision : Type 0 where
  optimistic : Decision
  serialize : (blocker_node_id : Text) → Decision

-- `xs.some((x) => ys.includes(x))`.
unfoldable pub meets : List Text → List Text → Bool
meets [] ys = false
meets (x ∷ xs) ys = mem_text x ys || meets xs ys

unfoldable pub is_empty : List Text → Bool
is_empty [] = true
is_empty (x ∷ xs) = false

-- The filter that picks the other confident nodes with a surface or a unit in common.
unfoldable pub conflicts : ℕ → ClassifiedOverlap → Text → ClassifiedOverlap → Bool
unfolding meets
conflicts min_confidence self node_id other =
    not (text_eq other.node_id node_id)
    && not (ltb other.confidence min_confidence)
    && (meets other.shared_surfaces self.shared_surfaces
        || meets other.likely_touched_units self.likely_touched_units)

-- The id that stands before `node_id` in the sorted list, if `node_id` is not the first.
unfoldable pub predecessor : Text → List Text → Option Text
predecessor n [] = none
predecessor n (x ∷ []) = none
predecessor n (x ∷ y ∷ ys) =
    let rest = predecessor n (y ∷ ys) in
    if text_eq x n then none else if text_eq y n then some x else rest

unfoldable pub decide : Text → List ClassifiedOverlap → Decision
unfolding predecessor
decide node_id [] = optimistic
decide node_id (o ∷ os) =
    elim (predecessor node_id (sort js_le (node_id ∷ map (λ x. x.node_id) (o ∷ os)))) [
      | none ↦ optimistic
      | some blocker ↦ serialize blocker
    ]

unfoldable pub classify_self : ℕ → Text → ClassifiedOverlap → List ClassifiedOverlap → Decision
unfolding is_empty conflicts decide
classify_self min_confidence node_id self overlaps =
    if ltb self.confidence min_confidence
    then optimistic
    else if is_empty self.likely_touched_units && is_empty self.shared_surfaces
    then optimistic
    else decide node_id (select (conflicts min_confidence self node_id) overlaps)

unfoldable pub classify : ℕ → Text → List ClassifiedOverlap → Decision
unfolding classify_self
classify min_confidence node_id overlaps =
    elim (select_one (λ o. text_eq o.node_id node_id) overlaps) [
      | none ↦ optimistic
      | some self ↦ classify_self min_confidence node_id self overlaps
    ]
