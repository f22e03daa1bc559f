-- ===== src/AgentExecution/AttemptContracts/Accepted.antt =====
-- src/domains/agent-execution/attempt-contract.ts: what a batch that is accepted is.
use agent_pool.Prelude.{
  ℕ, ◌<◌, ◌∙◌, sym, subst, List, [], ◌∷◌, text_eq, ◌≡◌, refl, ap, Bool, true, false, &&-eq-true,
  Option, none, some, Text, codes, text_eq_sound, arith,
}
use agent_pool.Js.{
  Value, Values, Fields, own, keys, has_own, mem_text, is_blank, is_positive_integer,
}
use agent_pool.AgentExecution.DagExclusion.Exclusion.{IsDagFree, find_dag_topology-IsDagFree}
use agent_pool.AgentExecution.AttemptContracts.Terms.{
  IsFilled, HasCriteria, IsOrigin, validate_criteria-HasCriteria, valid_origin-IsOrigin,
  first_unknown-none, first_missing-none, first_empty-none,
}
use agent_pool.AgentExecution.AttemptContracts.{
  ExecutionFailure, FailureCode, contract_unknown_field, contract_missing_field,
  contract_invalid_field, contract_carries_dag_topology, contract_version_unsupported,
  contract_identity_mismatch, contract_target_mismatch, Expectations, required_fields, text_fields,
  text_of, is_number, is_text, unless, reporting, ◌then_check◌, validate_one,
  validate_attempt_contracts,
}

abbrev contract_keys : List Text
contract_keys =
    codes "schema_version"
    ∷ codes "node_id"
    ∷ codes "attempt_id"
    ∷ codes "attempt_number"
    ∷ codes "intent"
    ∷ codes "change_spec"
    ∷ codes "acceptance_criteria"
    ∷ codes "criteria_origin"
    ∷ codes "target_repo"
    ∷ codes "target_branch"
    ∷ codes "prior_failure_context"
    ∷ []

-- One contract, of the attempt that is expected, with the fields of a contract and nothing of the
-- graph of nodes.
pub record IsContract (v : Value) (expected : Expectations) : Type 0 where
  pub plain : Bool
  pub fields : Fields
  pub shape : v ≡ Value.array (Values.item (Value.object plain fields) Values.end)
  pub no_other : (k : Text) → mem_text k (keys fields) ≡ true → mem_text k contract_keys ≡ true
  pub complete : (k : Text) → mem_text k contract_keys ≡ true → has_own fields k ≡ true
  pub version : own fields (codes "schema_version") ≡ Value.number 1
  pub number : (n : ℕ) × (own fields (codes "attempt_number") ≡ Value.number n) × (0 < n)
  pub intent : IsFilled (own fields (codes "intent"))
  pub change_spec : IsFilled (own fields (codes "change_spec"))
  pub criteria : HasCriteria (own fields (codes "acceptance_criteria"))
  pub origin : IsOrigin (own fields (codes "criteria_origin"))
  pub dag_free : IsDagFree (Value.object plain fields)
  pub of_node : own fields (codes "node_id") ≡ Value.string expected.node_id
  pub of_attempt : own fields (codes "attempt_id") ≡ Value.string expected.attempt_id
  pub of_repo : own fields (codes "target_repo") ≡ Value.string expected.target_repo
  pub of_branch : own fields (codes "target_branch") ≡ Value.string expected.target_branch
  pub named :
      (is_blank expected.node_id ≡ false)
      × (is_blank expected.attempt_id ≡ false)
      × (is_blank expected.target_repo ≡ false)
      × (is_blank expected.target_branch ≡ false)

is_number_sound : (v : Value) (n : ℕ) → is_number v n ≡ true → v ≡ Value.number n
is_number_sound (Value.number m) n h = ap Value.number (ground (arith, h))
is_number_sound v n h = absurd (ground (arith, h))

is_positive_integer_sound :
    (v : Value) → is_positive_integer v ≡ true → (n : ℕ) × (v ≡ Value.number n) × (0 < n)
unfolding is_positive_integer
is_positive_integer_sound (Value.number n) h = (n, refl, ground (arith, h))
is_positive_integer_sound v h = absurd (ground (arith, h))

string_is : (s : Text) (v : Value) → v ≡ Value.string s → IsFilled v → is_blank s ≡ false
string_is s v e (t, f, filled) =
    subst (λ x. is_blank x ≡ false) (sym (ap text_of (sym e ∙ f))) filled

then_check-eq-none :
    (a b : Option ExecutionFailure) → (a then_check b) ≡ none → (a ≡ none) × (b ≡ none)
then_check-eq-none none b e = (refl, e)
then_check-eq-none (some f) b e = absurd (ground (arith, e))

reporting-eq-none : (c : FailureCode) (o : Option Text) → reporting c o ≡ none → o ≡ none
reporting-eq-none c none e = refl
reporting-eq-none c (some d) e = absurd (ground (arith, e))

unless-eq-none : (b : Bool) (c : FailureCode) (d : Option Text) → unless b c d ≡ none → b ≡ true
unless-eq-none true c d e = refl
unless-eq-none false c d e = absurd (ground (arith, e))

is_text_sound : (v : Value) (t : Text) → is_text v t ≡ true → v ≡ Value.string t
is_text_sound (Value.string s) t h = ap Value.string (text_eq_sound s t h)
is_text_sound v t h = absurd (ground (arith, h))

validate_one-IsContract :
    (v : Value) (expected : Expectations)
    → validate_one v expected ≡ none
    → IsContract (Value.array (Values.item v Values.end)) expected
unfolding validate_one mem_text text_eq
validate_one-IsContract (Value.object p fs) expected e =
    let (e, target) = then_check-eq-none _ _ e in
    let (e, identity) = then_check-eq-none _ _ e in
    let (e, dag) = then_check-eq-none _ _ e in
    let (e, _) = then_check-eq-none _ _ e in
    let (e, origin) = then_check-eq-none _ _ e in
    let (e, criteria) = then_check-eq-none _ _ e in
    let (e, number) = then_check-eq-none _ _ e in
    let (e, filled) = then_check-eq-none _ _ e in
    let (e, version) = then_check-eq-none _ _ e in
    let (unknown, missing) = then_check-eq-none _ _ e in
    let ids = &&-eq-true _ _ (unless-eq-none _ contract_identity_mismatch none identity) in
    let targets = &&-eq-true _ _ (unless-eq-none _ contract_target_mismatch none target) in
    let no_blank = reporting-eq-none contract_invalid_field _ filled in
    let at_node = is_text_sound (own fs (codes "node_id")) expected.node_id ids.0 in
    let at_attempt = is_text_sound (own fs (codes "attempt_id")) expected.attempt_id ids.1 in
    let at_repo = is_text_sound (own fs (codes "target_repo")) expected.target_repo targets.0 in
    let at_branch =
      is_text_sound (own fs (codes "target_branch")) expected.target_branch targets.1 in
    let at_text : (k : Text) → mem_text k text_fields ≡ true → IsFilled (own fs k) =
      λ k m. first_empty-none fs text_fields k no_blank m in
    record {
      plain = p;
      fields = fs;
      shape = refl;
      no_other = λ k m.
          first_unknown-none required_fields (keys fs) k
            (reporting-eq-none contract_unknown_field _ unknown) m;
      complete = λ k m.
          first_missing-none fs required_fields k
            (reporting-eq-none contract_missing_field _ missing) m;
      version =
          is_number_sound (own fs (codes "schema_version")) 1
            (unless-eq-none _ contract_version_unsupported none version);
      number =
          is_positive_integer_sound (own fs (codes "attempt_number"))
            (unless-eq-none _ contract_invalid_field (some (codes "attempt_number")) number);
      intent = at_text (codes "intent") refl;
      change_spec = at_text (codes "change_spec") refl;
      criteria = validate_criteria-HasCriteria (own fs (codes "acceptance_criteria")) criteria;
      origin =
          valid_origin-IsOrigin (own fs (codes "criteria_origin"))
            (unless-eq-none _ contract_invalid_field (some (codes "criteria_origin")) origin);
      dag_free =
          find_dag_topology-IsDagFree (Value.object p fs) (codes "attempt-contract")
            (reporting-eq-none contract_carries_dag_topology _ dag);
      of_node = at_node;
      of_attempt = at_attempt;
      of_repo = at_repo;
      of_branch = at_branch;
      named = (
        string_is expected.node_id (own fs (codes "node_id")) at_node
            (at_text (codes "node_id") refl),
        string_is expected.attempt_id (own fs (codes "attempt_id")) at_attempt
            (at_text (codes "attempt_id") refl),
        string_is expected.target_repo (own fs (codes "target_repo")) at_repo
            (at_text (codes "target_repo") refl),
        string_is expected.target_branch (own fs (codes "target_branch")) at_branch
            (at_text (codes "target_branch") refl),
      );
    }
validate_one-IsContract v expected e = absurd (ground (arith, e))

-- A batch that is accepted is one object with the eleven fields of a contract and no other, of
-- version 1, with a positive attempt number, an intent and a change spec that are not blank, a
-- non-empty array of criteria with distinct ids and filled texts and a known origin, of the
-- expected node, attempt, repository and branch, none of them blank, and no key at any depth of it
-- is one of the graph of nodes.
pub validate_attempt_contracts-IsContract :
    (v : Value) (expected : Expectations)
    → validate_attempt_contracts v expected ≡ none
    → IsContract v expected
unfolding validate_attempt_contracts
validate_attempt_contracts-IsContract (Value.array (Values.item v Values.end)) expected e =
    validate_one-IsContract v expected e
validate_attempt_contracts-IsContract v expected e = absurd (ground (arith, e))
