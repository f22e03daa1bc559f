-- ===== src/AgentExecution/AttemptContracts.antt =====
-- src/domains/agent-execution/attempt-contract.ts. A failure is its code and its detail; its reason is
-- told by the code. Freezing is the absence of writes.
pub mod Terms
pub mod Accepted
use agent_pool.Prelude.{
  ℕ, leb, ◌==◌, Bool, true, false, ◌&&◌, ◌||◌, not, List, [], ◌∷◌, ◌++◌, map, Option, none, some,
  Text, codes, text_eq, length, if◌then◌else◌,
}
use agent_pool.Js.{
  Value, Values, Fields, items, keys, own, has_own, mem_text, is_blank, is_positive_integer,
}
use agent_pool.AgentExecution.DagExclusion.{find_dag_topology}

pub data FailureCode : Type 0 where
  contract_not_an_object contract_unknown_field contract_missing_field : FailureCode
  contract_invalid_field contract_version_unsupported contract_identity_mismatch : FailureCode
  contract_target_mismatch contract_carries_dag_topology contract_not_exactly_one : FailureCode

pub record ExecutionFailure : Type 0 where
  pub code : FailureCode
  pub detail : Option Text

abbrev pub failure : FailureCode → Option Text → Option ExecutionFailure
failure c d = some (record { code = c; detail = d })

abbrev pub required_fields : List Text
required_fields =
    codes "schema_version"
    ∷ codes "node_id"
    ∷ codes "attempt_id"
    ∷ codes "attempt_number"
    ∷ codes "intent"
    ∷ codes "change_spec"
    ∷ codes "acceptance_criteria"
    ∷ codes "criteria_origin"
    ∷ codes "target_repo"
    ∷ codes "target_branch"
    ∷ codes "prior_failure_context"
    ∷ []

abbrev pub text_fields : List Text
text_fields =
    codes "node_id"
    ∷ codes "attempt_id"
    ∷ codes "intent"
    ∷ codes "change_spec"
    ∷ codes "target_repo"
    ∷ codes "target_branch"
    ∷ []

abbrev phases : List Text
phases = codes "C" ∷ codes "R" ∷ codes "A" ∷ codes "F" ∷ codes "T" ∷ codes "S" ∷ []

abbrev prior_fields : List Text
prior_fields =
    codes "attempt_id"
    ∷ codes "phase"
    ∷ codes "attempted"
    ∷ codes "failure_reason"
    ∷ codes "discoveries"
    ∷ codes "dead_ends"
    ∷ []

unfoldable pub is_non_empty_string : Value → Bool
unfolding is_blank
is_non_empty_string (Value.string s) = not (is_blank s)
is_non_empty_string _ = false

abbrev pub is_string : Value → Bool
is_string (Value.string s) = true
is_string _ = false

unfoldable pub all_strings : List Value → Bool
all_strings [] = true
all_strings (v ∷ vs) = is_string v && all_strings vs

unfoldable pub is_string_array : Value → Bool
unfolding all_strings items
is_string_array (Value.array vs) = all_strings (items vs)
is_string_array _ = false

-- `set.has(value)`.
abbrev pub is_one_of : List Text → Value → Bool
is_one_of allowed (Value.string s) = mem_text s allowed
is_one_of allowed _ = false

-- A field that was checked to be a string.
abbrev pub text_of : Value → Text
text_of (Value.string s) = s
text_of _ = []

-- The loop over the criteria; the ids seen are the text of checked fields.
unfoldable pub check_criteria : List Text → List Value → Bool
unfolding keys own mem_text is_non_empty_string
check_criteria seen [] = true
check_criteria seen (Value.object p fs ∷ vs) =
    let id = text_of (own fs (codes "id")) in
    let rest = check_criteria (id ∷ seen) vs in
    length (keys fs) == 2
    && is_non_empty_string (own fs (codes "id"))
    && is_non_empty_string (own fs (codes "text"))
    && not (mem_text id seen)
    && rest
check_criteria seen (v ∷ vs) = false

unfoldable pub validate_criteria : Value → Option ExecutionFailure
unfolding check_criteria items
validate_criteria (Value.array vs) =
    if length (items vs) == 0 || not (check_criteria [] (items vs))
    then failure contract_invalid_field (some (codes "acceptance_criteria"))
    else none
validate_criteria _ = failure contract_invalid_field (some (codes "acceptance_criteria"))

-- The first key that is not allowed.
unfoldable pub first_unknown : List Text → List Text → Option Text
unfolding mem_text
first_unknown allowed [] = none
first_unknown allowed (k ∷ ks) =
    let rest = first_unknown allowed ks in if mem_text k allowed then rest else some k

-- The first key that is missing.
unfoldable pub first_missing : Fields → List Text → Option Text
unfolding has_own
first_missing fs [] = none
first_missing fs (k ∷ ks) = let rest = first_missing fs ks in if has_own fs k then rest else some k

-- The first of these fields that is no string with a unit that is not blank.
unfoldable pub first_empty : Fields → List Text → Option Text
unfolding own is_non_empty_string
first_empty fs [] = none
first_empty fs (k ∷ ks) =
    let rest = first_empty fs ks in if is_non_empty_string (own fs k) then rest else some k

unfoldable pub valid_prior : Fields → Bool
unfolding own is_non_empty_string is_string_array
valid_prior fs =
    is_non_empty_string (own fs (codes "attempt_id"))
    && is_one_of phases (own fs (codes "phase"))
    && is_string_array (own fs (codes "attempted"))
    && is_string (own fs (codes "failure_reason"))
    && is_string_array (own fs (codes "discoveries"))
    && is_string_array (own fs (codes "dead_ends"))

unfoldable pub check_priors : List Value → Option ExecutionFailure
unfolding first_unknown keys valid_prior
check_priors [] = none
check_priors (Value.object p fs ∷ vs) =
    let rest = check_priors vs in
    elim (first_unknown prior_fields (keys fs)) [
      | some key ↦ failure contract_unknown_field (some (codes "prior_failure_context." ++ key))
      | none ↦
          if not (valid_prior fs)
          then failure contract_invalid_field (some (codes "prior_failure_context"))
          else rest
    ]
check_priors (v ∷ vs) = failure contract_invalid_field (some (codes "prior_failure_context"))

unfoldable pub validate_prior_failure_context : Value → Option ExecutionFailure
unfolding check_priors items
validate_prior_failure_context (Value.array vs) = check_priors (items vs)
validate_prior_failure_context _ =
    failure contract_invalid_field (some (codes "prior_failure_context"))

unfoldable pub valid_origin : Value → Bool
unfolding keys own is_non_empty_string mem_text
valid_origin (Value.object p fs) =
    length (keys fs) == 2
    && is_one_of (codes "decomposition" ∷ codes "direct_task" ∷ []) (own fs (codes "source"))
    && is_non_empty_string (own fs (codes "source_id"))
valid_origin _ = false

pub record Expectations : Type 0 where
  pub node_id : Text
  pub attempt_id : Text
  pub target_repo : Text
  pub target_branch : Text

-- `fields[key] === expected`.
abbrev pub is_text : Value → Text → Bool
is_text (Value.string s) t = text_eq s t
is_text _ t = false

abbrev pub is_number : Value → ℕ → Bool
is_number (Value.number m) n = m == n
is_number _ n = false

-- A check that fails, or the checks that follow it.
infixl 5 ◌then_check◌
abbrev pub ◌then_check◌ :
    Option ExecutionFailure → Option ExecutionFailure → Option ExecutionFailure
none then_check next = next
some f then_check next = some f

abbrev pub unless : Bool → FailureCode → Option Text → Option ExecutionFailure
unless ok c d = if ok then none else failure c d

abbrev pub reporting : FailureCode → Option Text → Option ExecutionFailure
reporting c none = none
reporting c (some d) = failure c (some d)

-- `none` is a contract that is accepted.
unfoldable pub validate_one : Value → Expectations → Option ExecutionFailure
unfolding first_unknown first_missing first_empty validate_criteria valid_origin
    validate_prior_failure_context find_dag_topology
validate_one (Value.object p fs) expected =
    reporting contract_unknown_field (first_unknown required_fields (keys fs))
    then_check reporting contract_missing_field (first_missing fs required_fields)
    then_check unless (is_number (own fs (codes "schema_version")) 1) contract_version_unsupported
        none
    then_check reporting contract_invalid_field (first_empty fs text_fields)
    then_check unless (is_positive_integer (own fs (codes "attempt_number"))) contract_invalid_field
        (some (codes "attempt_number"))
    then_check validate_criteria (own fs (codes "acceptance_criteria"))
    then_check unless (valid_origin (own fs (codes "criteria_origin"))) contract_invalid_field
        (some (codes "criteria_origin"))
    then_check validate_prior_failure_context (own fs (codes "prior_failure_context"))
    then_check reporting contract_carries_dag_topology
        (find_dag_topology (Value.object p fs) (codes "attempt-contract"))
    then_check unless
        (is_text (own fs (codes "node_id")) expected.node_id
          && is_text (own fs (codes "attempt_id")) expected.attempt_id)
        contract_identity_mismatch none
    then_check unless
        (is_text (own fs (codes "target_repo")) expected.target_repo
          && is_text (own fs (codes "target_branch")) expected.target_branch)
        contract_target_mismatch none
validate_one _ expected = failure contract_not_an_object none

unfoldable pub validate_attempt_contracts : Value → Expectations → Option ExecutionFailure
unfolding validate_one items
validate_attempt_contracts (Value.array (Values.item v Values.end)) expected =
    validate_one v expected
validate_attempt_contracts _ expected = failure contract_not_exactly_one none
