-- ===== src/Orchestration/Store/Schema.antt =====
-- src/domains/orchestration/sqlite-store.ts, the tables after migration 8 and the row types.
-- A table is the list of its rows in insertion order. A column that holds a JSON array of strings
-- is that list; a date is its milliseconds.
use agent_pool.Prelude.{
  ℕ, Bool, true, false, ◌&&◌, List, [], Option, none, some, Text, text_eq, insert,
}
use agent_pool.Orchestration.Lifecycle.{NodeState}
use agent_pool.Orchestration.Contracts.{ErrorCode, WorkOrigin}

pub data Outcome : Type 0 where
  passed failed : Outcome

abbrev pub outcome_state : Outcome → NodeState
outcome_state passed = NodeState.passed
outcome_state failed = NodeState.failed

abbrev pub outcome_eq : Outcome → Outcome → Bool
outcome_eq passed passed = true
outcome_eq failed failed = true
outcome_eq _ _ = false

pub data AttemptState : Type 0 where
  created leased result_accepted completed : AttemptState

pub record WorkRecord : Type 0 where
  pub work_id : Text
  pub origin : WorkOrigin
  pub repo : Text
  pub branch : Text
  pub payload_hash : Text
  pub approval_id : Option Text
  pub approved_at : Option Text
  pub approved_head : Option Text
  pub version : ℕ

pub record NodeRecord : Type 0 where
  pub work_id : Text
  pub node_id : Text
  pub state : NodeState
  pub version : ℕ
  pub intent : Text
  pub change_spec : Text
  pub acceptance_criteria : List Text
  pub depends_on : List Text
  pub criteria_origin_source : WorkOrigin
  pub criteria_origin_source_id : Text

pub record Dependency : Type 0 where
  pub work_id : Text
  pub node_id : Text
  pub depends_on_node_id : Text

pub record AttemptRecord : Type 0 where
  pub attempt_id : Text
  pub work_id : Text
  pub node_id : Text
  pub attempt_number : ℕ
  pub state : AttemptState
  pub job_id : Option Text
  pub created_at : ℕ
  pub lease_generation : ℕ

pub record RoutingRecord : Type 0 where
  pub attempt_id : Text
  pub builder_model : Text
  pub policy_version : ℕ
  pub created_at : ℕ

pub record LeaseRecord : Type 0 where
  pub attempt_id : Text
  pub generation : ℕ
  pub owner : Text
  pub token_digest : Text
  pub issued_at : ℕ
  pub expires_at : ℕ

pub record AcceptedResult : Type 0 where
  pub attempt_id : Text
  pub result_id : Text
  pub node_id : Text
  pub work_id : Text
  pub outcome : Outcome
  pub phase : Text
  pub artifact_path : Option Text
  pub summary : Option Text
  pub accepted_at : ℕ
  pub generation : ℕ
  pub expected_node_version : ℕ

pub record Authorization : Type 0 where
  pub attempt_id : Text
  pub node_id : Text
  pub work_id : Text
  pub result_id : Text
  pub expected_node_version : ℕ
  pub authorized_at : ℕ

pub record PhaseArtifact : Type 0 where
  pub attempt_id : Text
  pub phase : Text
  pub revision : ℕ
  pub status : Text
  pub content_hash : Text
  pub artifact_path : Text
  pub created_at : ℕ

pub record ProofResult : Type 0 where
  pub attempt_id : Text
  pub result_id : Text
  pub node_id : Text
  pub builder_model : Text
  pub status : Outcome
  pub commit_sha : Option Text
  pub failure_code : Option Text
  pub started_at : ℕ
  pub finished_at : ℕ

pub record ProofCheck : Type 0 where
  pub attempt_id : Text
  pub check_name : Text
  pub passed : Bool

pub record Submission : Type 0 where
  pub submission_id : Text
  pub caller_id : Text
  pub work_id : Text
  pub payload_hash : Text
  pub acceptance_json : Text
  pub manifest_json : Text
  pub created_at : ℕ

pub record Idempotency : Type 0 where
  pub scope_key : Text
  pub caller_id : Text
  pub payload_hash : Text
  pub submission_id : Text

-- The audit rows, by event; the id columns are what each event fills.
pub data AuditEvent : Type 0 where
  work_imported : (work_id : Text) → AuditEvent
  node_transitioned : (work_id node_id : Text) (from to : NodeState) (version : ℕ) → AuditEvent
  attempt_created : (work_id node_id attempt_id : Text) → AuditEvent
  lease_claimed : (attempt_id : Text) (generation : ℕ) (owner : Text) → AuditEvent
  lease_renewed : (attempt_id : Text) (generation : ℕ) → AuditEvent
  lease_released : (attempt_id : Text) → AuditEvent
  lease_reclaimed : (attempt_id : Text) (generation : ℕ) (owner : Text) → AuditEvent
  result_duplicate_ignored : (attempt_id result_id : Text) → AuditEvent
  accepted : (attempt_id result_id : Text) (outcome : Outcome) (generation : ℕ) → AuditEvent
  result_completed : (attempt_id result_id : Text) (outcome : Outcome) → AuditEvent
  phase_artifact_recorded : (attempt_id phase : Text) (revision : ℕ) → AuditEvent
  proof_result_recorded : (attempt_id result_id : Text) → AuditEvent
  proof_result_replay_no_op : (attempt_id result_id : Text) → AuditEvent
  direct_task_imported : (work_id : Text) → AuditEvent

pub record Db : Type 0 where
  pub works : List WorkRecord
  pub nodes : List NodeRecord
  pub dependencies : List Dependency
  pub attempts : List AttemptRecord
  pub routing : List RoutingRecord
  pub leases : List LeaseRecord
  pub accepted_results : List AcceptedResult
  pub authorizations : List Authorization
  pub artifacts : List PhaseArtifact
  pub proofs : List ProofResult
  pub checks : List ProofCheck
  pub submissions : List Submission
  pub idempotency : List Idempotency
  pub audit : List AuditEvent

abbrev pub empty_db : Db
empty_db = record {
  works = [];
  nodes = [];
  dependencies = [];
  attempts = [];
  routing = [];
  leases = [];
  accepted_results = [];
  authorizations = [];
  artifacts = [];
  proofs = [];
  checks = [];
  submissions = [];
  idempotency = [];
  audit = [];
}

pub data Result (A : Type 0) : Type 0 where
  ok : A → Result A
  err : ErrorCode → Result A

abbrev pub or_err : {A : Type 0} → Option A → ErrorCode → Result A
or_err none c = err c
or_err (some a) c = ok a

-- The keys of the WHERE clauses.
abbrev pub node_at : Text → Text → NodeRecord → Bool
node_at w n r = text_eq r.work_id w && text_eq r.node_id n

abbrev pub attempt_at : Text → AttemptRecord → Bool
attempt_at a r = text_eq r.attempt_id a

abbrev pub with_state : AttemptState → AttemptRecord → AttemptRecord
with_state s r = record r { state = s }

abbrev pub with_lease : ℕ → AttemptRecord → AttemptRecord
with_lease g r = record r { state = leased; lease_generation = g }

abbrev pub with_expiry : ℕ → LeaseRecord → LeaseRecord
with_expiry t l = record l { expires_at = t }

abbrev pub lease_at : Text → LeaseRecord → Bool
lease_at a r = text_eq r.attempt_id a

abbrev pub accepted_at : Text → AcceptedResult → Bool
accepted_at a r = text_eq r.attempt_id a

abbrev pub authorized_at : Text → Authorization → Bool
authorized_at a r = text_eq r.attempt_id a

abbrev pub routing_at : Text → RoutingRecord → Bool
routing_at a r = text_eq r.attempt_id a

abbrev pub log : AuditEvent → Db → Db
log e db = record db { audit = insert e db.audit }
