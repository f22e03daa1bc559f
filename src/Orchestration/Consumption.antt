-- ===== src/Orchestration/Consumption.antt =====
-- src/domains/orchestration/attempt-dispatch.ts: `projectAttemptContract` and
-- `consumeQueueEnvelope`, which validates the projection at the boundary of the Agent Execution domain
-- (`validateAttemptContracts`).
pub mod Handoff
pub mod Delivery
use agent_pool.Prelude.{
  ℕ, ◌+◌, Bool, true, ◌&&◌, ◌||◌, not, is_some, List, [], ◌∷◌, none, some, Text, codes, text_eq,
  if◌then◌else◌,
}
use agent_pool.Js.{Value, Values, Fields, own}
use agent_pool.Orchestration.Contracts.{
  ApprovedNode, WorkOrigin, decomposition, direct_task, QueueEnvelope, validate_queue_envelope,
  queue_envelope_invalid, node_not_found, work_not_found,
}
use agent_pool.AgentExecution.AttemptContracts.{Expectations, validate_attempt_contracts}
use agent_pool.Orchestration.Identifiers.{derive_criterion_id}
use agent_pool.Orchestration.Store.Schema.{Db, AttemptRecord, Result, ok, err}
use agent_pool.Orchestration.Store.Nodes.{get_approved_node}
use agent_pool.Orchestration.Store.Works.{get_work, WorkTarget}
use agent_pool.Orchestration.Store.Attempts.{find_attempt_by_job, is_created, is_leased}

pub record Criterion : Type 0 where
  pub id : Text
  pub text : Text

-- What a worker is given: nothing of the graph of nodes.
pub record AttemptContract : Type 0 where
  pub node_id : Text
  pub attempt_id : Text
  pub attempt_number : ℕ
  pub intent : Text
  pub change_spec : Text
  pub acceptance_criteria : List Criterion
  pub origin_source : WorkOrigin
  pub origin_source_id : Text
  pub target_repo : Text
  pub target_branch : Text

-- `acceptance_criteria.map((text, index) => ..)`, from an index on.
unfoldable pub project_criteria : Text → Text → ℕ → List Text → List Criterion
project_criteria w n index [] = []
project_criteria w n index (text ∷ texts) =
    record { id = derive_criterion_id w n index text; text = text }
    ∷ project_criteria w n (index + 1) texts

unfoldable pub project_attempt_contract :
    ApprovedNode → Text → Text → ℕ → Text → Text → AttemptContract
unfolding project_criteria
project_attempt_contract node w a k repo branch = record {
  node_id = node.id;
  attempt_id = a;
  attempt_number = k;
  intent = node.intent;
  change_spec = node.change_spec;
  acceptance_criteria = project_criteria w node.id 0 node.acceptance_criteria;
  origin_source = node.criteria_origin_source;
  origin_source_id = node.criteria_origin_source_id;
  target_repo = repo;
  target_branch = branch;
}

-- A field that was checked to be a string.
abbrev field_text : Fields → Text → Text
field_text fs key = elim (own fs key) [
  | Value.undefined ↦ []
  | Value.null ↦ []
  | Value.bool b ↦ []
  | Value.number n ↦ []
  | Value.other_number n ↦ []
  | Value.string s ↦ s
  | Value.array vs ↦ []
  | Value.object p gs ↦ []
]

-- The envelope that a value is, once it was validated.
unfoldable pub envelope_of : Value → QueueEnvelope
envelope_of (Value.object p fs) = record {
  job_id = field_text fs (codes "job_id");
  attempt_id = field_text fs (codes "attempt_id");
  node_id = field_text fs (codes "node_id");
  work_id = field_text fs (codes "work_id");
}
envelope_of _ = record { job_id = []; attempt_id = []; node_id = []; work_id = [] }

unfoldable pub is_dispatchable : AttemptRecord → Bool
is_dispatchable attempt = is_created attempt.state || is_leased attempt.state

unfoldable pub names_attempt : QueueEnvelope → AttemptRecord → Bool
names_attempt ev attempt =
    text_eq attempt.attempt_id ev.attempt_id
    && text_eq attempt.node_id ev.node_id
    && text_eq attempt.work_id ev.work_id

abbrev origin_text : WorkOrigin → Text
origin_text decomposition = codes "decomposition"
origin_text direct_task = codes "direct_task"

abbrev text_field : Text → Text → Fields → Fields
text_field key s fs = Fields.field key (Value.string s) fs

abbrev criteria_values : List Criterion → Values
criteria_values [] = Values.end
criteria_values (c ∷ cs) =
    Values.item
      (Value.object true
        (text_field (codes "id") c.id (text_field (codes "text") c.text Fields.stop)))
      (criteria_values cs)

-- The JavaScript object that a contract is.
unfoldable pub contract_value : AttemptContract → Value
contract_value c = Value.object true (
    Fields.field (codes "schema_version") (Value.number 1) (
      text_field (codes "node_id") c.node_id (
        text_field (codes "attempt_id") c.attempt_id (
          Fields.field (codes "attempt_number") (Value.number c.attempt_number) (
            text_field (codes "intent") c.intent (
              text_field (codes "change_spec") c.change_spec (
                Fields.field (codes "acceptance_criteria")
                  (Value.array (criteria_values c.acceptance_criteria))
                  (Fields.field (codes "criteria_origin")
                    (Value.object true (
                      text_field (codes "source") (origin_text c.origin_source)
                        (text_field (codes "source_id") c.origin_source_id Fields.stop)))
                    (text_field (codes "target_repo") c.target_repo (
                      text_field (codes "target_branch") c.target_branch (
                        Fields.field (codes "prior_failure_context") (Value.array Values.end)
                          Fields.stop)))))))))))

abbrev pub expectations_of : AttemptRecord → WorkTarget → Expectations
expectations_of attempt work = record {
  node_id = attempt.node_id;
  attempt_id = attempt.attempt_id;
  target_repo = work.repo;
  target_branch = work.branch;
}

-- `!('code' in validateAttemptContracts([contract], ..))`.
unfoldable pub is_valid_contract : AttemptContract → AttemptRecord → WorkTarget → Bool
unfolding contract_value validate_attempt_contracts
is_valid_contract contract attempt work = not (
    is_some (
      validate_attempt_contracts (Value.array (Values.item (contract_value contract) Values.end))
        (expectations_of attempt work)))

unfoldable pub hand_off : AttemptRecord → ApprovedNode → WorkTarget → Result AttemptContract
unfolding project_attempt_contract is_valid_contract
hand_off attempt node work =
    let contract =
      project_attempt_contract node attempt.work_id attempt.attempt_id attempt.attempt_number
        work.repo work.branch in
    if is_valid_contract contract attempt work then ok contract else err queue_envelope_invalid

-- The node and the work of the attempt are read.
unfoldable pub rehydrate : Db → AttemptRecord → Result AttemptContract
unfolding hand_off
rehydrate db attempt = elim (get_approved_node db attempt.work_id attempt.node_id) [
  | none ↦ err node_not_found
  | some node ↦ elim (get_work db attempt.work_id) [
    | none ↦ err work_not_found
    | some work ↦ hand_off attempt node work
  ]
]

unfoldable pub consume_for : Db → QueueEnvelope → Result AttemptContract
unfolding rehydrate names_attempt is_dispatchable
consume_for db ev = elim (find_attempt_by_job db ev.job_id) [
  | none ↦ err queue_envelope_invalid
  | some attempt ↦
      if not (names_attempt ev attempt)
      then err queue_envelope_invalid
      else if not (is_dispatchable attempt)
      then err queue_envelope_invalid
      else rehydrate db attempt
]

-- Of the expectations, the target is not read.
unfoldable pub consume_queue_envelope : Db → Value → Text → Text → Result AttemptContract
unfolding consume_for envelope_of
consume_queue_envelope db envelope expected_node expected_attempt =
    elim (validate_queue_envelope envelope) [
      | some code ↦ err code
      | none ↦
          let ev = envelope_of envelope in
          if not (text_eq ev.node_id expected_node) || not (text_eq ev.attempt_id expected_attempt)
          then err queue_envelope_invalid
          else consume_for db ev
    ]
