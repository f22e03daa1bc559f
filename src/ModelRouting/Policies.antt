-- ===== src/ModelRouting/Policies.antt =====
-- src/domains/model-routing-and-evaluation/bootstrap-policy.ts: what the loaders of policies check.
-- An exception is `none`, and a loader that returns is `some`. The input is a value that JSON can
-- write, so a field that is read is a field of its own.
use agent_pool.Prelude.{
  ℕ, leb, ◌==◌, Bool, true, false, ◌&&◌, not, List, [], ◌∷◌, ◌++◌, Option, none, some, Text, codes,
  text_eq, if◌then◌else◌, ◌>>=◌, ◌>>◌, require,
}
use agent_pool.Js.{Value, Fields, items, keys, own, has_own, mem_text, every_in}
use agent_pool.ModelRouting.ApprovedModels.{is_approved_id, approved_ids}
use agent_pool.ModelRouting.Router.{RoleConfig}

abbrev pub worker_roles : List Text
worker_roles =
    codes "node_conductor"
    ∷ codes "planning"
    ∷ codes "building"
    ∷ codes "assessing"
    ∷ codes "tightening"
    ∷ codes "sharpening"
    ∷ codes "failure_diagnosis"
    ∷ []

abbrev pub orchestrator_roles : List Text
orchestrator_roles = codes "decomposition" ∷ []

abbrev pub worker_rules : List Text
worker_rules =
    codes "builderEvaluatorMustDiffer"
    ∷ codes "evaluatorMustNotBeLowerCapability"
    ∷ codes "reserveSolFromNormalBuilding"
    ∷ codes "failClosedOnUnavailableExplicitModel"
    ∷ []

abbrev pub orchestrator_rules : List Text
orchestrator_rules = codes "failClosedOnUnavailableExplicitModel" ∷ []

-- `assertObject`.
unfoldable pub assert_object : Value → Option Fields
assert_object (Value.object p fs) = some fs
assert_object _ = none

unfoldable pub assert_string : Value → Option Text
assert_string (Value.string s) = some s
assert_string _ = none

unfoldable pub assert_array : Value → Option (List Value)
assert_array (Value.array vs) = some (items vs)
assert_array _ = none

-- `Number.MAX_SAFE_INTEGER`.
abbrev pub max_safe_integer : ℕ
max_safe_integer = 9007199254740991

unfoldable pub assert_positive_integer_version : Value → Option ℕ
assert_positive_integer_version (Value.number n) =
    if leb 1 n && leb n max_safe_integer then some n else none
assert_positive_integer_version _ = none

-- The loop over the fallback, with the candidates seen.
unfoldable pub parse_fallback : List Text → List Value → Option (List Text)
unfolding mem_text assert_string
parse_fallback seen [] = some []
parse_fallback seen (v ∷ vs) = do
  id ← assert_string v
  require (is_approved_id id)
  require (not (mem_text id seen))
  rest ← parse_fallback (seen ++ id ∷ []) vs
  some (id ∷ rest)

unfoldable pub assert_valid_role_config : Value → Option RoleConfig
unfolding parse_fallback every_in keys own assert_object assert_array
assert_valid_role_config v = do
  fs ← assert_object v
  require (every_in (codes "primary" ∷ codes "fallback" ∷ []) (keys fs))
  primary ← assert_string (own fs (codes "primary"))
  require (is_approved_id primary)
  entries ← assert_array (own fs (codes "fallback"))
  fallback ← parse_fallback (primary ∷ []) entries
  some (record { primary = primary; fallback = fallback })

unfoldable pub assert_rank : Value → Option ℕ
assert_rank (Value.number n) = if leb 1 n && leb n 5 then some n else none
assert_rank _ = none

pub record Rank : Type 0 where
  pub id : Text
  pub rank : ℕ

abbrev pub mem_rank : ℕ → List Rank → Bool
mem_rank n [] = false
mem_rank n (r ∷ rs) = if r.rank == n then true else mem_rank n rs

-- The loop over the approved models, with the ranks so far.
unfoldable pub collect_ranks : Fields → List Rank → List Text → Option (List Rank)
unfolding own assert_rank
collect_ranks fs ranks [] = some ranks
collect_ranks fs ranks (id ∷ ids) = do
  n ← assert_rank (own fs id)
  require (not (mem_rank n ranks))
  collect_ranks fs (record { id = id; rank = n } ∷ ranks) ids

-- `validateCapabilityRank`, and the copy that is kept. Its last test, that there are as many ranks as
-- models, is the loop's.
unfoldable pub validate_capability_rank : Fields → Option (List Rank)
unfolding collect_ranks approved_ids every_in keys
validate_capability_rank fs = do
  require (every_in approved_ids (keys fs))
  collect_ranks fs [] approved_ids

-- `capabilityRank[modelId]`.
unfoldable pub rank_of : List Rank → Text → ℕ
rank_of [] id = 0
rank_of (r ∷ rs) id = if text_eq r.id id then r.rank else rank_of rs id

abbrev pub is_true : Value → Bool
is_true (Value.bool b) = b
is_true _ = false

abbrev pub is_boolean : Value → Bool
is_boolean (Value.bool b) = true
is_boolean _ = false

-- `hasOwnProperty(rules, name) && typeof rules[name] !== 'boolean'`, for no name.
unfoldable pub all_boolean : Fields → List Text → Bool
unfolding has_own own
all_boolean fs [] = true
all_boolean fs (name ∷ names) =
    not (has_own fs name && not (is_boolean (own fs name))) && all_boolean fs names

unfoldable pub all_true : Fields → List Text → Bool
unfolding own
all_true fs [] = true
all_true fs (name ∷ names) = is_true (own fs name) && all_true fs names

abbrev pub mandatory_rules : List Text
mandatory_rules =
    codes "builderEvaluatorMustDiffer" ∷ codes "evaluatorMustNotBeLowerCapability" ∷ []

-- An entry of the map of roles.
pub record Role : Type 0 where
  pub name : Text
  pub config : RoleConfig

-- The loop over the roles that are required, or over those that are given.
unfoldable pub parse_roles : Fields → List Text → Option (List Role)
unfolding assert_valid_role_config own
parse_roles fs [] = some []
parse_roles fs (name ∷ names) = do
  config ← assert_valid_role_config (own fs name)
  rest ← parse_roles fs names
  some (record { name = name; config = config } ∷ rest)

-- `roles.get(role)`.
unfoldable pub get_role : List Role → Text → Option RoleConfig
get_role [] name = none
get_role (r ∷ rs) name = if text_eq r.name name then some r.config else get_role rs name
