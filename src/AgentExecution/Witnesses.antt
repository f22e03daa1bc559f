-- ===== src/AgentExecution/Witnesses.antt =====
-- The theorems about src/domains/agent-execution at small inputs.
use agent_pool.Prelude.{ℕ, ◌≡◌, refl, true, false, [], Option, none, some, codes, arith}
use agent_pool.Js.{Value, Values, Fields}
use agent_pool.AgentExecution.AttemptContracts.Accepted.{
  IsContract, validate_attempt_contracts-IsContract,
}
use agent_pool.AgentExecution.PhaseCapabilities.{
  phase_s, knowledge_sink, Roots, WriteAuthorization, IsWriter, authorize_write-IsWriter,
}
use agent_pool.AgentExecution.WorkspaceLifecycle.{
  Lifecycle, ready, AuditRecord, begin_extraction, mark_audit_incomplete, destroy, wait,
  evaluate_cleanup,
}
use agent_pool.AgentExecution.WorkspaceLifecycle.Bounded.{
  Steps, begins, fails, done, then_step, IsUnverified, evaluate_cleanup-destroy,
  evaluate_cleanup-wait,
}
use agent_pool.AgentExecution.BackendFallback.{Ledger, Input, record_consumption}
use agent_pool.AgentExecution.BackendFallback.Ledgers.{IsLedger, record_consumption-IsLedger}
use agent_pool.AgentExecution.Samples.{everything_executed, expected, delivered}

validate_attempt_contracts-IsContract_example : IsContract delivered expected
unfolding everything_executed
validate_attempt_contracts-IsContract_example =
    validate_attempt_contracts-IsContract delivered expected refl

abbrev roots : Roots
roots = record { workspace_root = codes "/w"; knowledge_sink_root = some (codes "/k") }

abbrev write_of_s : WriteAuthorization
write_of_s = record { phase = phase_s; scope = knowledge_sink; root = codes "/k" }

authorize_write-IsWriter_example : IsWriter (codes "S") write_of_s roots
unfolding everything_executed
authorize_write-IsWriter_example = authorize_write-IsWriter (codes "S") roots write_of_s refl

abbrev started : Lifecycle
started = record { attempt_id = codes "a"; deadline = 900010; state = ready; failure_reason = none }

-- The extraction begins, and fails.
abbrev failed_extraction : Lifecycle
failed_extraction = (mark_audit_incomplete (begin_extraction started).0 (codes "f")).0

to_failure : (P : Option AuditRecord → Type 0) → Steps P started failed_extraction
to_failure P = then_step started (begin_extraction started).0 failed_extraction (begins started) (
    then_step (begin_extraction started).0 failed_extraction failed_extraction
      (fails (begin_extraction started).0 (codes "f")) (done failed_extraction))

evaluate_cleanup-destroy_example :
    (evaluate_cleanup failed_extraction (some 3600010)).decision ≡ destroy
unfolding everything_executed
evaluate_cleanup-destroy_example =
    evaluate_cleanup-destroy (IsUnverified (codes "a")) (codes "a") 10 3600010 none started
      failed_extraction refl (to_failure (IsUnverified (codes "a"))) (omega arith)

evaluate_cleanup-wait_example : (evaluate_cleanup failed_extraction (some 20)).decision ≡ wait
unfolding everything_executed
evaluate_cleanup-wait_example =
    evaluate_cleanup-wait (codes "a") 10 20 none started failed_extraction refl
      (to_failure (IsUnverified (codes "a"))) (omega arith)

abbrev read_number : Value → Option ℕ
read_number (Value.number n) = some n
read_number _ = none

abbrev fresh_ledger : Ledger ℕ
fresh_ledger = record {
  attempt_id = codes "a";
  node_id = codes "n";
  role = codes "building";
  max_backends = 2;
  consumptions = [];
  sealed = false;
}

abbrev spent : Input
spent = record {
  attempt_id = codes "a";
  model = codes "openai-codex/gpt-5.6-luna";
  outcome = codes "failed";
  cost = Value.object true (
      Fields.field (codes "input_tokens") (Value.number 3) (
        Fields.field (codes "output_tokens") (Value.number 4) (
          Fields.field (codes "amount") Value.null
            (Fields.field (codes "currency") Value.null Fields.stop))));
  evidence = Value.array Values.end;
}

fresh_ledger-IsLedger : IsLedger ℕ fresh_ledger
fresh_ledger-IsLedger = record { few = omega arith; bounded = omega arith; chain = refl }

record_consumption-IsLedger_example :
    IsLedger ℕ (record_consumption read_number fresh_ledger spent).0
record_consumption-IsLedger_example =
    record_consumption-IsLedger read_number fresh_ledger spent fresh_ledger-IsLedger
