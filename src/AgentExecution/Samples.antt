-- ===== src/AgentExecution/Samples.antt =====
-- What the tests of src/domains/agent-execution compute with, and a contract.
use agent_pool.Prelude.{true, Text, codes, text_eq, decimal}
use agent_pool.Js.{
  Value, Values, Fields, items, keys, own, has_own, mem_text, is_blank, is_positive_integer,
}
use agent_pool.ModelRouting.ApprovedModels.{is_approved_id, model_id}
use agent_pool.AgentExecution.DagExclusion.{find_dag_topology, is_topology_key}
use agent_pool.AgentExecution.AttemptContracts.{Expectations, validate_attempt_contracts}
use agent_pool.AgentExecution.PhaseCapabilities.{authorize_write, get_phase_grant, grant_of}
use agent_pool.AgentExecution.WorkspaceLifecycle.{
  create_lifecycle, begin_extraction, mark_audit_complete, mark_audit_incomplete, evaluate_cleanup,
}
use agent_pool.AgentExecution.BackendFallback.{create_ledger, record_consumption, sum_cost}

unfoldable pub everything_executed : Unit {0}
unfolding validate_attempt_contracts find_dag_topology is_topology_key items keys own has_own
    mem_text is_blank is_positive_integer text_eq decimal authorize_write get_phase_grant grant_of
    create_lifecycle begin_extraction mark_audit_complete mark_audit_incomplete evaluate_cleanup
    create_ledger record_consumption sum_cost is_approved_id model_id
everything_executed = tt

abbrev pub expected : Expectations
expected = record {
  node_id = codes "n";
  attempt_id = codes "a";
  target_repo = codes "r";
  target_branch = codes "b";
}

abbrev text_field : Text → Text → Fields → Fields
text_field k s fs = Fields.field k (Value.string s) fs

abbrev pub delivered : Value
delivered = Value.array (
    Values.item
      (Value.object true (
        Fields.field (codes "schema_version") (Value.number 1) (
          text_field (codes "node_id") (codes "n") (
            text_field (codes "attempt_id") (codes "a") (
              Fields.field (codes "attempt_number") (Value.number 1) (
                text_field (codes "intent") (codes "i") (
                  text_field (codes "change_spec") (codes "c") (
                    Fields.field (codes "acceptance_criteria")
                      (Value.array (
                        Values.item
                          (Value.object true (
                            text_field (codes "id") (codes "1")
                              (text_field (codes "text") (codes "t") Fields.stop)))
                          Values.end))
                      (Fields.field (codes "criteria_origin")
                        (Value.object true (
                          text_field (codes "source") (codes "direct_task")
                            (text_field (codes "source_id") (codes "s") Fields.stop)))
                        (text_field (codes "target_repo") (codes "r") (
                          text_field (codes "target_branch") (codes "b") (
                            Fields.field (codes "prior_failure_context") (Value.array Values.end)
                              Fields.stop))))))))))))
      Values.end)
