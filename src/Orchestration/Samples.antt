-- ===== src/Orchestration/Samples.antt =====
-- What the tests of src/domains/orchestration compute with.
use agent_pool.AgentExecution.Samples.{everything_executed}
use agent_pool.Prelude.{decimal}
use agent_pool.Orchestration.Contracts.{validate_queue_envelope}
use agent_pool.Orchestration.Consumption.{
  is_valid_contract, contract_value, project_attempt_contract, consume_queue_envelope,
}
use agent_pool.Orchestration.Identifiers.{derive_criterion_id}
use agent_pool.Orchestration.Store.Works.{get_work}
use agent_pool.Orchestration.Store.Attempts.{find_attempt_by_job}
use agent_pool.Prelude.{text_eq, select, select_one, sort, js_le}
use agent_pool.Js.{keys, own, has_own, mem_text, every_in, is_undefined, is_non_empty_string, items}
use agent_pool.Orchestration.Frontier.{frontier_entry, compute_ready_frontier}
use agent_pool.Orchestration.Identifiers.{derive_attempt_id, derive_job_id}
use agent_pool.Orchestration.Dispatch.{dispatch_ready_frontier, approved_nodes, passed_ids}
use agent_pool.Orchestration.Scheduling.{classify}
use agent_pool.Orchestration.Work.{work_value}
use agent_pool.Orchestration.Work.Topology.{processed_nodes}
use agent_pool.Orchestration.Work.Validation.{
  validate_work, own_or_missing, is_optional_string, all_strings,
}
use agent_pool.Orchestration.Work.Canonical.{canonical_work_hash}
use agent_pool.Orchestration.Store.Nodes.{approved, get_approved_node}
use agent_pool.Orchestration.Store.Works.{find_work, get_imported_work}
use agent_pool.Orchestration.Store.Attempts.{find_attempt}
use agent_pool.Orchestration.Store.Artifacts.{
  record_phase_artifact, get_latest_phase_artifact, is_safe_artifact_locator,
}
use agent_pool.Orchestration.Store.Imports.{import_approved_work}
use agent_pool.Orchestration.Store.Samples.{everything}

unfoldable pub everything_imported : Unit {0}
unfolding import_approved_work validate_work work_value processed_nodes canonical_work_hash
    find_work select_one select text_eq keys own has_own mem_text every_in is_non_empty_string
    is_undefined items own_or_missing is_optional_string all_strings
everything_imported = tt

unfoldable pub everything_recorded : Unit {0}
unfolding record_phase_artifact get_latest_phase_artifact is_safe_artifact_locator
    is_non_empty_string mem_text text_eq select select_one sort find_attempt
everything_recorded = tt

unfoldable pub everything_scheduled : Unit {0}
unfolding classify mem_text text_eq select select_one sort js_le
everything_scheduled = tt

unfoldable pub everything_dispatched : Unit {0}
unfolding dispatch_ready_frontier everything frontier_entry compute_ready_frontier approved_nodes
    passed_ids get_imported_work approved get_approved_node decimal derive_attempt_id derive_job_id
    js_le
everything_dispatched = tt

unfoldable pub everything_consumed : Unit {0}
unfolding everything everything_executed is_valid_contract contract_value consume_queue_envelope
    validate_queue_envelope project_attempt_contract derive_criterion_id decimal approved
    get_approved_node get_work find_attempt_by_job find_work
everything_consumed = tt
