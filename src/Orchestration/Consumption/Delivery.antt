-- ===== src/Orchestration/Consumption/Delivery.antt =====
-- src/domains/orchestration/attempt-dispatch.ts: what `consumeQueueEnvelope` hands to a worker.
use agent_pool.Prelude.{
  ◌≡◌, refl, ◌∙◌, true, not, ◌||◌, ◌⊎◌, inl, inr, is_some, Option, none, some, Text, text_eq_sound,
  arith,
}
use agent_pool.Js.{Value, Values}
use agent_pool.AgentExecution.AttemptContracts.{validate_attempt_contracts}
use agent_pool.AgentExecution.AttemptContracts.Accepted.{
  IsContract, validate_attempt_contracts-IsContract,
}
use agent_pool.Orchestration.Contracts.{ApprovedNode, QueueEnvelope}
use agent_pool.Orchestration.Store.Schema.{Db, AttemptRecord, AttemptState, created, leased, ok}
use agent_pool.Orchestration.Store.Nodes.{get_approved_node}
use agent_pool.Orchestration.Store.Works.{get_work, WorkTarget}
use agent_pool.Orchestration.Store.Attempts.{find_attempt_by_job, is_created, is_leased}
use agent_pool.Orchestration.Consumption.{
  AttemptContract, project_attempt_contract, envelope_of, is_dispatchable, names_attempt,
  is_valid_contract, contract_value, expectations_of, consume_queue_envelope,
}
use agent_pool.Orchestration.Consumption.Handoff.{consumed}

-- What a worker gets: the valid projection of an open attempt that is stored, and of its node and
-- its work.
pub record IsHandedOver (db : Db) (ev : QueueEnvelope) (n a : Text) (c : AttemptContract)
    : Type 0 where
  pub attempt : AttemptRecord
  pub node : ApprovedNode
  pub work : WorkTarget
  pub of_job : find_attempt_by_job db ev.job_id ≡ some attempt
  pub of_attempt : attempt.attempt_id ≡ a
  pub of_node : attempt.node_id ≡ n
  pub of_work : attempt.work_id ≡ ev.work_id
  pub is_open : (attempt.state ≡ created) ⊎ (attempt.state ≡ leased)
  pub node_found : get_approved_node db attempt.work_id attempt.node_id ≡ some node
  pub work_found : get_work db attempt.work_id ≡ some work
  pub projected :
      c
      ≡ project_attempt_contract node attempt.work_id attempt.attempt_id attempt.attempt_number
          work.repo work.branch
  pub valid :
      IsContract
        (Value.array (Values.item (contract_value c) Values.end))
        (expectations_of attempt work)

open_states :
    (s : AttemptState) → (is_created s || is_leased s) ≡ true → (s ≡ created) ⊎ (s ≡ leased)
open_states created h = inl refl
open_states leased h = inr refl
open_states s h = absurd (ground (arith, h))

empty_of : {A : Type 0} (o : Option A) → not (is_some o) ≡ true → o ≡ none
empty_of none h = refl
empty_of (some x) h = absurd (ground (arith, h))

module _ (db : Db) where
  names_attempt_sound :
      (ev : QueueEnvelope) (attempt : AttemptRecord)
      → names_attempt ev attempt ≡ true
      → (attempt.attempt_id ≡ ev.attempt_id)
        × (attempt.node_id ≡ ev.node_id)
        × (attempt.work_id ≡ ev.work_id)
  unfolding names_attempt
  names_attempt_sound ev attempt h = (
    text_eq_sound attempt.attempt_id ev.attempt_id (ground (arith, h)),
    text_eq_sound attempt.node_id ev.node_id (ground (arith, h)),
    text_eq_sound attempt.work_id ev.work_id (ground (arith, h)),
  )

  is_dispatchable_sound :
      (attempt : AttemptRecord)
      → is_dispatchable attempt ≡ true
      → (attempt.state ≡ created) ⊎ (attempt.state ≡ leased)
  unfolding is_dispatchable
  is_dispatchable_sound attempt h = open_states attempt.state h

  is_valid_contract-IsContract :
      (c : AttemptContract) (attempt : AttemptRecord) (work : WorkTarget)
      → is_valid_contract c attempt work ≡ true
      → IsContract
          (Value.array (Values.item (contract_value c) Values.end))
          (expectations_of attempt work)
  unfolding is_valid_contract
  is_valid_contract-IsContract c attempt work h =
      let one = Value.array (Values.item (contract_value c) Values.end) in
      validate_attempt_contracts-IsContract one (expectations_of attempt work)
        (empty_of (validate_attempt_contracts one (expectations_of attempt work)) h)

  -- What a worker is handed is the projection of a stored node and work of the attempt that the
  -- envelope's job belongs to; that attempt is the expected one of the expected node and of the
  -- envelope's work, is created or leased, and the projection is a contract as the boundary of the
  -- agents defines it.
  pub consume_queue_envelope-IsHandedOver :
      (envelope : Value) (n a : Text) (c : AttemptContract)
      → consume_queue_envelope db envelope n a ≡ ok c
      → IsHandedOver db (envelope_of envelope) n a c
  consume_queue_envelope-IsHandedOver envelope n a c e =
      let ev = envelope_of envelope in
      let (at_n, at_a, of_attempt) = consumed db envelope n a c e in
      let (attempt, found, named, still, projection) = of_attempt in
      let (node, work, at_node, at_work, valid, made) = projection in
      let (same_attempt, same_node, same_work) = names_attempt_sound ev attempt named in
      record {
        attempt = attempt;
        node = node;
        work = work;
        of_job = found;
        of_attempt = same_attempt ∙ at_a;
        of_node = same_node ∙ at_n;
        of_work = same_work;
        is_open = is_dispatchable_sound attempt still;
        node_found = at_node;
        work_found = at_work;
        projected = made;
        valid = is_valid_contract-IsContract c attempt work valid;
      }
