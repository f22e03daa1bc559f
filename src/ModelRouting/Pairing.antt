-- ===== src/ModelRouting/Pairing.antt =====
-- src/domains/model-routing-and-evaluation/model-router.ts: `selectBuilderEvaluatorPair`. A `continue`
-- of a loop is the rest of it.
pub mod Choice
pub mod Separation
use agent_pool.Prelude.{
  ℕ, ltb, Bool, true, false, ◌&&◌, ◌||◌, not, List, [], ◌∷◌, Option, none, some, Text, codes,
  text_eq, if◌then◌else◌,
}
use agent_pool.ModelRouting.ApprovedModels.{is_approved_id}
use agent_pool.ModelRouting.Router.{
  RoutingPolicy, RoutingDecision, Routed, routed, failed, failure, Availability, has, candidates_of,
  select_for_role, unapproved_explicit_model, missing_pair_policy, pair_construction_failed,
  no_valid_builder_evaluator_pair,
}

abbrev pub building : Text
building = codes "building"

abbrev pub assessing : Text
assessing = codes "assessing"

pub record Pair : Type 0 where
  pub builder : RoutingDecision
  pub evaluator : RoutingDecision

-- `options.explicitBuilder` and `options.explicitEvaluator`.
pub record PairOptions : Type 0 where
  pub explicit_builder : Option Text
  pub explicit_evaluator : Option Text

-- `explicit ?? id`.
abbrev pub effective : Option Text → Text → Text
effective none id = id
effective (some e) id = e

-- `explicit !== undefined && explicit !== id`.
abbrev pub overrides : Option Text → Text → Bool
overrides none id = false
overrides (some e) id = not (text_eq e id)

-- `explicit !== undefined && !isApprovedModelId(explicit)`.
abbrev pub is_unapproved : Option Text → Bool
is_unapproved none = false
is_unapproved (some e) = not (is_approved_id e)

-- The guards on a candidate that do not speak of the other one.
unfoldable pub is_usable : Availability → Option Text → Text → Bool
unfolding has
is_usable available explicit id =
    has available id
    && not (overrides explicit id)
    && is_approved_id (effective explicit id)
    && has available (effective explicit id)

-- The guards on the two of them.
unfoldable pub may_pair : RoutingPolicy → Text → Text → Bool
may_pair policy b e = not (text_eq b e) && not (ltb (policy.get_rank e) (policy.get_rank b))

unfoldable pub construct : RoutingPolicy → Availability → Text → Text → Routed Pair
unfolding select_for_role
construct policy available b e = elim (select_for_role policy building available (some b)) [
  | failed f ↦ failed (failure pair_construction_failed none none)
  | routed bd ↦ elim (select_for_role policy assessing available (some e)) [
    | failed f ↦ failed (failure pair_construction_failed none none)
    | routed ed ↦ routed (record { builder = bd; evaluator = ed })
  ]
]

-- The result of the inner loop, or what follows it.
abbrev pub chosen : Option (Routed Pair) → Routed Pair → Routed Pair
chosen none rest = rest
chosen (some out) rest = out

module _ (policy : RoutingPolicy) (available : Availability) (options : PairOptions) where
  -- The inner loop; `none` where it ends.
  unfoldable pub evaluator_for : Text → List Text → Option (Routed Pair)
  unfolding is_usable may_pair construct
  evaluator_for b [] = none
  evaluator_for b (id ∷ ids) =
      let rest = evaluator_for b ids in
      let e = effective options.explicit_evaluator id in
      if not (is_usable available options.explicit_evaluator id)
      then rest
      else if not (may_pair policy b e)
      then rest
      else some (construct policy available b e)

  unfoldable pub pair_from : List Text → List Text → Routed Pair
  unfolding evaluator_for
  pair_from [] evaluators = failed (failure no_valid_builder_evaluator_pair none none)
  pair_from (id ∷ ids) evaluators =
      let rest = pair_from ids evaluators in
      if not (is_usable available options.explicit_builder id)
      then rest
      else chosen (evaluator_for (effective options.explicit_builder id) evaluators) rest

  unfoldable pub select_builder_evaluator_pair : Routed Pair
  unfolding pair_from
  select_builder_evaluator_pair = elim (policy.get_role_config building) [
    | none ↦ failed (failure missing_pair_policy none none)
    | some builders ↦ elim (policy.get_role_config assessing) [
      | none ↦ failed (failure missing_pair_policy none none)
      | some evaluators ↦
          if is_unapproved options.explicit_builder
          then failed (failure unapproved_explicit_model (some building) none)
          else if is_unapproved options.explicit_evaluator
          then failed (failure unapproved_explicit_model (some assessing) none)
          else pair_from (candidates_of builders) (candidates_of evaluators)
    ]
  ]
