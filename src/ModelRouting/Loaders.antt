-- ===== src/ModelRouting/Loaders.antt =====
-- src/domains/model-routing-and-evaluation/bootstrap-policy.ts: the loaders of the bootstrap policies
-- and of the publications that are derived from evaluations, and the policies that they make.
pub mod Ranks
pub mod Loaded
use agent_pool.Prelude.{
  ℕ, ltb, ◌==◌, Bool, true, false, ◌&&◌, not, List, [], ◌∷◌, Option, none, some, Text, codes,
  text_eq, length, if◌then◌else◌, ◌>>=◌, ◌>>◌, require,
}
use agent_pool.Js.{Value, Values, Fields, keys, own, has_own, every_in}
use agent_pool.ModelRouting.ApprovedModels.{get_capability_rank}
use agent_pool.ModelRouting.Router.{RoleConfig, RoutingPolicy}
use agent_pool.ModelRouting.Policies.{
  Rank, Role, worker_roles, orchestrator_roles, worker_rules, orchestrator_rules, mandatory_rules,
  assert_object, assert_string, assert_positive_integer_version, validate_capability_rank, rank_of,
  all_boolean, all_true, parse_roles, get_role,
}

-- A policy object. `ranks` is what `getCapabilityRank` reads in place of the canonical ranks: the
-- capability ranks of a publication. A bootstrap policy checks its ranks, but answers with the
-- canonical ones.
pub record LoadedPolicy : Type 0 where
  pub version : ℕ
  pub status : Text
  pub actor : Text
  pub source : Option Text
  pub roles : List Role
  pub rules : Fields
  pub ranks : Option (List Rank)

abbrev pub get_rank : LoadedPolicy → Text → ℕ
get_rank p id = elim p.ranks [ none ↦ get_capability_rank id | some rs ↦ rank_of rs id ]

-- The policy, as the router reads it.
unfoldable pub policy_of : LoadedPolicy → RoutingPolicy
unfolding get_role rank_of get_capability_rank
policy_of p = record {
  version = p.version;
  get_role_config = λ name. get_role p.roles name;
  get_rank = λ id. get_rank p id;
}

unfoldable pub has_rule : LoadedPolicy → Text → Bool
unfolding has_own
has_rule p name = has_own p.rules name

unfoldable pub get_rule : LoadedPolicy → Text → Value
unfolding own
get_rule p name = own p.rules name

-- `value === literal`.
abbrev pub is_text : Value → Text → Bool
is_text (Value.string s) t = text_eq s t
is_text _ t = false

abbrev pub bootstrap_status : Text
bootstrap_status = codes "bootstrap-until-eval-derived"

abbrev pub eval_status : Text
eval_status = codes "eval-derived"

abbrev pub worker_actor : Text
worker_actor = codes "pool-worker"

abbrev pub orchestrator_actor : Text
orchestrator_actor = codes "orchestrator-control-plane"

abbrev pub worker_bootstrap_fields : List Text
worker_bootstrap_fields =
    codes "version" ∷ codes "status" ∷ codes "capability_rank" ∷ codes "roles" ∷ codes "rules" ∷ []

-- The constructor of `BootstrapWorkerPolicy`.
unfoldable pub worker_policy : ℕ → Fields → Fields → Fields → Option LoadedPolicy
unfolding validate_capability_rank parse_roles all_true all_boolean
worker_policy version capability_rank roles rules = do
  ranks ← validate_capability_rank capability_rank
  role_map ← parse_roles roles worker_roles
  require (every_in worker_roles (keys roles))
  require (every_in worker_rules (keys rules))
  require (all_true rules mandatory_rules)
  require (all_boolean rules worker_rules)
  some (record {
    version = version;
    status = bootstrap_status;
    actor = worker_actor;
    source = none;
    roles = role_map;
    rules = rules;
    ranks = none;
  })

unfoldable pub load_worker_bootstrap_policy : Value → Option LoadedPolicy
unfolding assert_positive_integer_version worker_policy
load_worker_bootstrap_policy json = do
  fs ← assert_object json
  require (every_in worker_bootstrap_fields (keys fs))
  version ← assert_positive_integer_version (own fs (codes "version"))
  require (is_text (own fs (codes "status")) bootstrap_status)
  capability_rank ← assert_object (own fs (codes "capability_rank"))
  roles ← assert_object (own fs (codes "roles"))
  rules ← assert_object (own fs (codes "rules"))
  worker_policy version capability_rank roles rules

-- The constructor of `BootstrapOrchestratorPolicy`.
unfoldable pub orchestrator_policy : ℕ → Value → Fields → Fields → Option LoadedPolicy
unfolding parse_roles all_boolean
orchestrator_policy version actor roles rules = do
  require (is_text actor orchestrator_actor)
  role_map ← parse_roles roles orchestrator_roles
  require (every_in orchestrator_roles (keys roles))
  require (every_in orchestrator_rules (keys rules))
  require (all_boolean rules orchestrator_rules)
  some (record {
    version = version;
    status = bootstrap_status;
    actor = orchestrator_actor;
    source = none;
    roles = role_map;
    rules = rules;
    ranks = none;
  })

unfoldable pub load_orchestrator_bootstrap_policy : Value → Option LoadedPolicy
unfolding assert_positive_integer_version orchestrator_policy
load_orchestrator_bootstrap_policy json = do
  fs ← assert_object json
  require (
      every_in
        (codes "version" ∷ codes "status" ∷ codes "actor" ∷ codes "roles" ∷ codes "rules" ∷ [])
        (keys fs))
  version ← assert_positive_integer_version (own fs (codes "version"))
  require (is_text (own fs (codes "status")) bootstrap_status)
  roles ← assert_object (own fs (codes "roles"))
  rules ← assert_object (own fs (codes "rules"))
  orchestrator_policy version (own fs (codes "actor")) roles rules

pub record Envelope : Type 0 where
  pub version : ℕ
  pub source : Text

-- `assertEvalPublicationEnvelope`. The status and the actor that it returns are those it has compared.
unfoldable pub assert_eval_publication_envelope : Fields → Text → List Text → Option Envelope
unfolding assert_positive_integer_version
assert_eval_publication_envelope fs actor allowed = do
  require (is_text (own fs (codes "actor")) actor)
  require (every_in allowed (keys fs))
  version ← assert_positive_integer_version (own fs (codes "version"))
  require (is_text (own fs (codes "status")) eval_status)
  source ← assert_string (own fs (codes "source"))
  require (ltb 0 (length source))
  some (record { version = version; source = source })

unfoldable pub parse_eval_role_map : Value → List Text → Option (List Role)
unfolding parse_roles
parse_eval_role_map v allowed = do
  roles ← assert_object v
  require (every_in allowed (keys roles))
  parse_roles roles (keys roles)

unfoldable pub parse_eval_rules : Value → List Text → List Text → Option Fields
unfolding all_boolean all_true
parse_eval_rules Value.undefined allowed mandatory =
    if ltb 0 (length mandatory) then none else some Fields.stop
parse_eval_rules v allowed mandatory = do
  rules ← assert_object v
  require (every_in allowed (keys rules))
  require (all_boolean rules allowed)
  require (all_true rules mandatory)
  some rules

abbrev pub worker_publication_fields : List Text
worker_publication_fields =
    codes "version"
    ∷ codes "status"
    ∷ codes "actor"
    ∷ codes "source"
    ∷ codes "capability_rank"
    ∷ codes "roles"
    ∷ codes "rules"
    ∷ []

unfoldable pub load_worker_eval_publication : Value → Option LoadedPolicy
unfolding assert_eval_publication_envelope validate_capability_rank parse_eval_role_map
    parse_eval_rules
load_worker_eval_publication json = do
  fs ← assert_object json
  envelope ← assert_eval_publication_envelope fs worker_actor worker_publication_fields
  capability_rank ← assert_object (own fs (codes "capability_rank"))
  ranks ← validate_capability_rank capability_rank
  roles ← parse_eval_role_map (own fs (codes "roles")) worker_roles
  rules ← parse_eval_rules (own fs (codes "rules")) worker_rules mandatory_rules
  some (record {
    version = envelope.version;
    status = eval_status;
    actor = worker_actor;
    source = some envelope.source;
    roles = roles;
    rules = rules;
    ranks = some ranks;
  })

unfoldable pub load_orchestrator_eval_publication : Value → Option LoadedPolicy
unfolding assert_eval_publication_envelope parse_eval_role_map parse_eval_rules
load_orchestrator_eval_publication json = do
  fs ← assert_object json
  envelope ← assert_eval_publication_envelope fs orchestrator_actor (
      codes "version"
      ∷ codes "status"
      ∷ codes "actor"
      ∷ codes "source"
      ∷ codes "roles"
      ∷ codes "rules"
      ∷ [])
  roles ← parse_eval_role_map (own fs (codes "roles")) orchestrator_roles
  rules ← parse_eval_rules (own fs (codes "rules")) orchestrator_rules []
  some (record {
    version = envelope.version;
    status = eval_status;
    actor = orchestrator_actor;
    source = some envelope.source;
    roles = roles;
    rules = rules;
    ranks = none;
  })
