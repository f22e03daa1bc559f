-- ===== src/ModelRouting/Samples.antt =====
-- What the tests of src/domains/model-routing-and-evaluation compute with: a policy, a publication, and
-- a snapshot of what is available.
use agent_pool.Prelude.{true, false, List, [], ◌∷◌, Option, none, some, Text, codes, text_eq}
use agent_pool.Js.{Value, Values, Fields, items, keys, own, has_own, mem_text, every_in}
use agent_pool.ModelRouting.ApprovedModels.{
  is_approved_id, model_id, luna, terra, sol, get_capability_rank, get_provider, get_model_name,
}
use agent_pool.ModelRouting.Router.{
  RoleConfig, RoutingPolicy, Availability, has, select_for_role, validate_availability,
}
use agent_pool.ModelRouting.Pairing.{
  PairOptions, building, assessing, select_builder_evaluator_pair,
}
use agent_pool.ModelRouting.Policies.{worker_roles}
use agent_pool.ModelRouting.Loaders.{
  LoadedPolicy, policy_of, load_worker_eval_publication, load_worker_bootstrap_policy,
}

unfoldable pub everything_routed : Unit {0}
unfolding select_builder_evaluator_pair select_for_role validate_availability has is_approved_id
    model_id get_capability_rank get_provider get_model_name mem_text text_eq items own keys has_own
    every_in load_worker_eval_publication load_worker_bootstrap_policy policy_of
everything_routed = tt

abbrev pub builders : RoleConfig
builders = record { primary = model_id terra; fallback = model_id luna ∷ [] }

abbrev pub evaluators : RoleConfig
evaluators = record { primary = model_id luna; fallback = model_id sol ∷ [] }

abbrev pub config_for : Text → Option RoleConfig
config_for role = elim (text_eq role building) [ true ↦ some builders | false ↦ some evaluators ]

abbrev pub policy : RoutingPolicy
policy = record { version = 1; get_role_config = config_for; get_rank = get_capability_rank }

abbrev pub all_available : Availability
all_available = model_id luna ∷ model_id terra ∷ model_id sol ∷ []

abbrev pub no_options : PairOptions
no_options = record { explicit_builder = none; explicit_evaluator = none }

abbrev text_field : Text → Text → Fields → Fields
text_field k s fs = Fields.field k (Value.string s) fs

abbrev config_value : RoleConfig → Text → Value
config_value c second = Value.object true (
    text_field (codes "primary") c.primary (
      Fields.field (codes "fallback") (Value.array (Values.item (Value.string second) Values.end))
        Fields.stop))

abbrev rank_fields : Fields
rank_fields = Fields.field (codes "openai-codex/gpt-5.6-luna") (Value.number 1) (
    Fields.field (codes "moonshot/kimi-k2.7-code") (Value.number 2) (
      Fields.field (codes "openai-codex/gpt-5.6-terra") (Value.number 3) (
        Fields.field (codes "moonshot/kimi-k3") (Value.number 4)
          (Fields.field (codes "openai-codex/gpt-5.6-sol") (Value.number 5) Fields.stop))))

abbrev rule_fields : Fields
rule_fields =
    Fields.field (codes "builderEvaluatorMustDiffer") (Value.bool true)
      (Fields.field (codes "evaluatorMustNotBeLowerCapability") (Value.bool true) Fields.stop)

abbrev pub publication : Value
publication = Value.object true (
    Fields.field (codes "version") (Value.number 2) (
      text_field (codes "status") (codes "eval-derived") (
        text_field (codes "actor") (codes "pool-worker") (
          text_field (codes "source") (codes "e") (
            Fields.field (codes "capability_rank") (Value.object true rank_fields) (
              Fields.field (codes "roles")
                (Value.object true (
                  Fields.field building (config_value builders (model_id luna))
                    (Fields.field assessing (config_value evaluators (model_id sol)) Fields.stop)))
                (Fields.field (codes "rules") (Value.object true rule_fields) Fields.stop)))))))

-- The same configuration for every role.
abbrev role_fields : List Text → Fields
role_fields [] = Fields.stop
role_fields (r ∷ rs) = Fields.field r (config_value builders (model_id luna)) (role_fields rs)

abbrev pub bootstrap : Value
bootstrap = Value.object true (
    Fields.field (codes "version") (Value.number 1) (
      text_field (codes "status") (codes "bootstrap-until-eval-derived") (
        Fields.field (codes "capability_rank") (Value.object true rank_fields) (
          Fields.field (codes "roles") (Value.object true (role_fields worker_roles))
            (Fields.field (codes "rules") (Value.object true rule_fields) Fields.stop)))))

abbrev pub no_policy : LoadedPolicy
no_policy = record {
  version = 0;
  status = [];
  actor = [];
  source = none;
  roles = [];
  rules = Fields.stop;
  ranks = none;
}

abbrev pub policy_or_none : Option LoadedPolicy → LoadedPolicy
policy_or_none none = no_policy
policy_or_none (some p) = p
