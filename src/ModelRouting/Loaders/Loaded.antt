-- ===== src/ModelRouting/Loaders/Loaded.antt =====
-- src/domains/model-routing-and-evaluation/bootstrap-policy.ts: the roles of a policy that was loaded.
use agent_pool.Prelude.{
  ◌≡◌, refl, ap, subst, inl, inr, true, not, List, [], ◌∷◌, ◌++◌, none, some, Text, codes, text_eq,
  Bool-cases, arith, >>=-cases, require-eq-some,
}
use agent_pool.Js.{Value, Fields, own, keys, every_in, mem_text}
use agent_pool.ModelRouting.ApprovedModels.{is_approved_id}
use agent_pool.ModelRouting.Router.{RoleConfig, has, candidates_of}
use agent_pool.ModelRouting.Router.Listing.{IsListing}
use agent_pool.ModelRouting.Policies.{
  Role, assert_object, assert_array, assert_string, assert_positive_integer_version, parse_fallback,
  assert_valid_role_config, parse_roles, get_role, validate_capability_rank, worker_roles,
  worker_rules, mandatory_rules, all_true, all_boolean,
}
use agent_pool.ModelRouting.Loaders.{
  LoadedPolicy, policy_of, worker_bootstrap_fields, is_text, bootstrap_status,
  load_worker_bootstrap_policy,
}

parse_fallback-IsListing :
    (seen : List Text) (vs : List Value) (out : List Text)
    → parse_fallback seen vs ≡ some out
    → IsListing seen out
unfolding parse_fallback has
parse_fallback-IsListing seen [] out e =
    let same : [] ≡ out = ground (arith, e) in subst (IsListing seen) same tt
parse_fallback-IsListing seen (v ∷ vs) out e = >>=-cases (assert_string v) e λ id _ e.
    let (known, e) = require-eq-some (is_approved_id id) _ out e in
    let (fresh, e) = require-eq-some (not (mem_text id seen)) _ out e in
    >>=-cases (parse_fallback (seen ++ id ∷ []) vs) e λ rest found e.
      let same : id ∷ rest ≡ out = ground (arith, e) in
      subst (IsListing seen) same
        (known, ground (arith, fresh), parse_fallback-IsListing (seen ++ id ∷ []) vs rest found)

assert_valid_role_config-IsListing :
    (v : Value) (config : RoleConfig)
    → assert_valid_role_config v ≡ some config
    → IsListing [] (candidates_of config)
unfolding assert_valid_role_config has
assert_valid_role_config-IsListing v config e = >>=-cases (assert_object v) e λ fs _ e.
    let (_, e) =
      require-eq-some (every_in (codes "primary" ∷ codes "fallback" ∷ []) (keys fs)) _ config e in
    >>=-cases (assert_string (own fs (codes "primary"))) e λ primary _ e.
      let (known, e) = require-eq-some (is_approved_id primary) _ config e in
      >>=-cases (assert_array (own fs (codes "fallback"))) e λ entries _ e.
        >>=-cases (parse_fallback (primary ∷ []) entries) e λ fallback found e.
          let made : RoleConfig = record { primary = primary; fallback = fallback } in
          let same : made ≡ config = ground (arith, e) in
          subst (λ c. IsListing [] (candidates_of c)) same
            (known, refl, parse_fallback-IsListing (primary ∷ []) entries fallback found)

-- The role is there, with distinct approved candidates.
abbrev pub IsConfigured : List Role → Text → Type 0
IsConfigured roles name =
    (config : RoleConfig) × (get_role roles name ≡ some config)
    × IsListing [] (candidates_of config)

parse_roles-IsConfigured :
    (fs : Fields) (names : List Text) (roles : List Role) (name : Text)
    → parse_roles fs names ≡ some roles
    → mem_text name names ≡ true
    → IsConfigured roles name
unfolding parse_roles mem_text get_role
parse_roles-IsConfigured fs [] roles name e m = absurd (ground (arith, m))
parse_roles-IsConfigured fs (n ∷ names) roles name e m =
    >>=-cases (assert_valid_role_config (own fs n)) e λ config found e.
      >>=-cases (parse_roles fs names) e λ rest parsed e.
        let all : List Role = record { name = n; config = config } ∷ rest in
        let same : all ≡ roles = ground (arith, e) in
        subst (λ rs. IsConfigured rs name) same
          (elim (Bool-cases (text_eq n name)) [
            | inl here ↦
                (config, rw here refl, assert_valid_role_config-IsListing (own fs n) config found)
            | inr other ↦
                let (c, there, listing) =
                  parse_roles-IsConfigured fs names rest name parsed (ground (arith, m, other)) in
                (c, rw other there, listing)
          ])

-- A bootstrap policy that was loaded has, for each of the seven roles of a worker, a configuration
-- whose candidates are approved models without repetition.
pub load_worker_bootstrap_policy-IsConfigured :
    (json : Value) (p : LoadedPolicy) (name : Text)
    → load_worker_bootstrap_policy json ≡ some p
    → mem_text name worker_roles ≡ true
    → (config : RoleConfig) × ((policy_of p).get_role_config name ≡ some config)
      × IsListing [] (candidates_of config)
unfolding load_worker_bootstrap_policy policy_of
load_worker_bootstrap_policy-IsConfigured json p name e m =
    >>=-cases (assert_object json) e λ fs _ e.
      let (_, e) = require-eq-some (every_in worker_bootstrap_fields (keys fs)) _ p e in
      >>=-cases (assert_positive_integer_version (own fs (codes "version"))) e λ version _ e.
        let (_, e) = require-eq-some (is_text (own fs (codes "status")) bootstrap_status) _ p e in
        >>=-cases (assert_object (own fs (codes "capability_rank"))) e λ rank_fields _ e.
          >>=-cases (assert_object (own fs (codes "roles"))) e λ role_fields _ e.
            >>=-cases (assert_object (own fs (codes "rules"))) e λ rules _ e.
              >>=-cases (validate_capability_rank rank_fields) e λ ranks _ e.
                >>=-cases (parse_roles role_fields worker_roles) e λ roles parsed e.
                  let (_, e) = require-eq-some (every_in worker_roles (keys role_fields)) _ p e in
                  let (_, e) = require-eq-some (every_in worker_rules (keys rules)) _ p e in
                  let (_, e) = require-eq-some (all_true rules mandatory_rules) _ p e in
                  let (_, e) = require-eq-some (all_boolean rules worker_rules) _ p e in
                  subst (λ rs. IsConfigured rs name)
                    (ap (λ o. elim o [ none ↦ roles | some q ↦ q.roles ]) e)
                    (parse_roles-IsConfigured role_fields worker_roles roles name parsed m)
