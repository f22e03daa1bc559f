-- ===== src/ModelRouting/Witnesses.antt =====
-- The theorems about src/domains/model-routing-and-evaluation at small inputs.
use agent_pool.Prelude.{◌<◌, ◌≡◌, ◌⊎◌, refl, [], ◌∷◌, none, some}
use agent_pool.Js.{Value}
use agent_pool.ModelRouting.ApprovedModels.{model_id, luna, terra, sol}
use agent_pool.ModelRouting.Router.{
  RoleConfig, Pick, routed, failed, failure, candidates_of, decided, select_for_role,
  no_available_candidate, validate_availability,
}
use agent_pool.ModelRouting.Router.Preference.{IsFirst, NoneAvailable, select_for_role-IsFirst}
use agent_pool.ModelRouting.Router.Listing.{IsListing, entries_of, validate_availability-entries_of}
use agent_pool.ModelRouting.Pairing.{Pair, building, assessing, select_builder_evaluator_pair}
use agent_pool.ModelRouting.Pairing.Choice.{
  choices, pair_of, first_allowed, select_builder_evaluator_pair-first_allowed,
}
use agent_pool.ModelRouting.Pairing.Separation.{
  IsSeparate, select_builder_evaluator_pair-IsSeparate,
}
use agent_pool.ModelRouting.Loaders.{
  LoadedPolicy, policy_of, load_worker_eval_publication, load_worker_bootstrap_policy,
}
use agent_pool.ModelRouting.Loaders.Ranks.{load_worker_eval_publication-outranks}
use agent_pool.ModelRouting.Loaders.Loaded.{load_worker_bootstrap_policy-IsConfigured}
use agent_pool.ModelRouting.Samples.{
  everything_routed, builders, evaluators, policy, all_available, no_options, publication,
  bootstrap, policy_or_none,
}

-- Terra builds; luna may not evaluate it, so sol does.
abbrev chosen : Pair
chosen =
    pair_of policy all_available no_options
      (record { builder = model_id terra; evaluator = model_id sol })

select_builder_evaluator_pair-first_allowed_example :
    select_builder_evaluator_pair policy all_available no_options
    ≡ first_allowed policy all_available no_options
        (choices (candidates_of builders) (candidates_of evaluators))
unfolding everything_routed
select_builder_evaluator_pair-first_allowed_example =
    select_builder_evaluator_pair-first_allowed policy all_available no_options builders evaluators
      refl refl refl refl

select_builder_evaluator_pair-IsSeparate_example : IsSeparate policy all_available no_options chosen
unfolding everything_routed
select_builder_evaluator_pair-IsSeparate_example =
    select_builder_evaluator_pair-IsSeparate policy all_available no_options chosen refl

select_for_role-IsFirst_example :
    (NoneAvailable (model_id luna ∷ []) (candidates_of builders)
      × (select_for_role policy building (model_id luna ∷ []) none
          ≡ failed (failure no_available_candidate (some building) none)))
    ⊎ ((p : Pick) × IsFirst (model_id luna ∷ []) (candidates_of builders) p
        × (select_for_role policy building (model_id luna ∷ []) none
            ≡ routed (decided building 1 p)))
unfolding everything_routed
select_for_role-IsFirst_example =
    select_for_role-IsFirst policy building (model_id luna ∷ []) builders refl

validate_availability-entries_of_example :
    validate_availability (Value.array (entries_of all_available)) ≡ routed all_available
unfolding everything_routed
validate_availability-entries_of_example =
    validate_availability-entries_of all_available (refl, refl, (refl, refl, (refl, refl, tt)))

abbrev published : LoadedPolicy
published = policy_or_none (load_worker_eval_publication publication)

load_worker_eval_publication-outranks_example :
    (policy_of published).get_rank (model_id terra) < (policy_of published).get_rank (model_id sol)
unfolding everything_routed
load_worker_eval_publication-outranks_example =
    load_worker_eval_publication-outranks publication published all_available no_options
      (pair_of (policy_of published) all_available no_options
        (record { builder = model_id terra; evaluator = model_id sol }))
      refl refl

abbrev booted : LoadedPolicy
booted = policy_or_none (load_worker_bootstrap_policy bootstrap)

load_worker_bootstrap_policy-IsConfigured_example :
    (config : RoleConfig) × ((policy_of booted).get_role_config assessing ≡ some config)
    × IsListing [] (candidates_of config)
unfolding everything_routed
load_worker_bootstrap_policy-IsConfigured_example =
    load_worker_bootstrap_policy-IsConfigured bootstrap booted assessing refl refl
