-- ===== src/Orchestration/Contracts.antt =====
-- src/domains/orchestration/contracts.ts: the shared types, the limits, and the validators of
-- queue envelopes, lease commands and builder routing. Error messages are not modelled.
use agent_pool.Prelude.{
  ℕ, Bool, true, false, ◌&&◌, not, List, [], ◌∷◌, Option, none, some, Text, codes, text_eq,
  if◌then◌else◌,
}
use agent_pool.Js.{Value, Fields, own, has_exact_keys, is_non_empty_string}
use agent_pool.ModelRouting.ApprovedModels.{is_approved_model_id}

pub data ErrorCode : Type 0 where
  invalid_work duplicate_work conflicting_work work_not_found node_not_found : ErrorCode
  invalid_transition stale_version invalid_lease_command lease_conflict lease_expired : ErrorCode
  invalid_result stale_result result_identity_mismatch result_conflict : ErrorCode
  conflicting_proof_result idempotency_key_payload_mismatch queue_envelope_invalid : ErrorCode
  predicted_touch_invalid database_path_unsafe migration_failed database_unreachable : ErrorCode

pub data WorkOrigin : Type 0 where
  decomposition direct_task : WorkOrigin

abbrev pub max_id_length : ℕ
max_id_length = 200

abbrev pub max_text_length : ℕ
max_text_length = 20000

abbrev pub max_criteria_per_node : ℕ
max_criteria_per_node = 100

abbrev pub max_nodes : ℕ
max_nodes = 500

abbrev pub max_dependencies_per_node : ℕ
max_dependencies_per_node = 500

abbrev pub max_repo_length : ℕ
max_repo_length = 400

abbrev pub max_branch_length : ℕ
max_branch_length = 400

abbrev pub max_owner_length : ℕ
max_owner_length = 200

abbrev pub max_token_length : ℕ
max_token_length = 256

abbrev pub max_digest_length : ℕ
max_digest_length = 256

abbrev pub max_version_length : ℕ
max_version_length = 100

abbrev pub max_result_id_length : ℕ
max_result_id_length = 200

abbrev pub max_summary_length : ℕ
max_summary_length = 4000

abbrev pub max_path_length : ℕ
max_path_length = 2000

-- Identifier-only envelope of the queue.
pub record QueueEnvelope : Type 0 where
  pub job_id : Text
  pub attempt_id : Text
  pub node_id : Text
  pub work_id : Text

-- One node of approved work.
pub record ApprovedNode : Type 0 where
  pub id : Text
  pub intent : Text
  pub change_spec : Text
  pub acceptance_criteria : List Text
  pub depends_on : List Text
  pub criteria_origin_source : WorkOrigin
  pub criteria_origin_source_id : Text

abbrev pub envelope_keys : List Text
envelope_keys = codes "job_id" ∷ codes "attempt_id" ∷ codes "node_id" ∷ codes "work_id" ∷ []

-- The loop over the four keys.
all_ids : Fields → List Text → Bool
all_ids fs [] = true
all_ids fs (k ∷ ks) = is_non_empty_string max_id_length (own fs k) && all_ids fs ks

unfoldable pub validate_queue_envelope : Value → Option ErrorCode
unfolding all_ids
validate_queue_envelope (Value.object true fs) =
    if not (has_exact_keys envelope_keys fs)
    then some queue_envelope_invalid
    else if all_ids fs envelope_keys
    then none
    else some queue_envelope_invalid
validate_queue_envelope _ = some queue_envelope_invalid

pub data LeaseCommand : Type 0 where
  claim : (attempt_id owner : Text) → LeaseCommand
  renew : (attempt_id owner token : Text) → LeaseCommand
  release : (attempt_id owner token : Text) → LeaseCommand

-- The JavaScript object that a lease command is.
unfoldable pub lease_value : LeaseCommand → Value
lease_value (claim a o) = Value.object true (
    Fields.field (codes "kind") (Value.string (codes "claim")) (
      Fields.field (codes "attempt_id") (Value.string a)
        (Fields.field (codes "owner") (Value.string o) Fields.stop)))
lease_value (renew a o t) = Value.object true (
    Fields.field (codes "kind") (Value.string (codes "renew")) (
      Fields.field (codes "attempt_id") (Value.string a) (
        Fields.field (codes "owner") (Value.string o)
          (Fields.field (codes "token") (Value.string t) Fields.stop))))
lease_value (release a o t) = Value.object true (
    Fields.field (codes "kind") (Value.string (codes "release")) (
      Fields.field (codes "attempt_id") (Value.string a) (
        Fields.field (codes "owner") (Value.string o)
          (Fields.field (codes "token") (Value.string t) Fields.stop))))

abbrev claim_keys : List Text
claim_keys = codes "kind" ∷ codes "attempt_id" ∷ codes "owner" ∷ []

abbrev token_keys : List Text
token_keys = codes "kind" ∷ codes "attempt_id" ∷ codes "owner" ∷ codes "token" ∷ []

abbrev is_text : Text → Value → Bool
is_text s (Value.string t) = text_eq t s
is_text s _ = false

claim_fields : Fields → Option ErrorCode
claim_fields fs =
    if not (has_exact_keys claim_keys fs)
    then some invalid_lease_command
    else if not (is_non_empty_string max_id_length (own fs (codes "attempt_id")))
    then some invalid_lease_command
    else if not (is_non_empty_string max_owner_length (own fs (codes "owner")))
    then some invalid_lease_command
    else none

token_fields : Fields → Option ErrorCode
token_fields fs =
    if not (has_exact_keys token_keys fs)
    then some invalid_lease_command
    else if not (is_non_empty_string max_id_length (own fs (codes "attempt_id")))
    then some invalid_lease_command
    else if not (is_non_empty_string max_owner_length (own fs (codes "owner")))
    then some invalid_lease_command
    else if not (is_non_empty_string max_token_length (own fs (codes "token")))
    then some invalid_lease_command
    else none

unfoldable pub validate_lease_command : Value → Option ErrorCode
unfolding claim_fields token_fields
validate_lease_command (Value.object true fs) =
    let kind = own fs (codes "kind") in
    if is_text (codes "claim") kind
    then claim_fields fs
    else if is_text (codes "renew") kind
    then token_fields fs
    else if is_text (codes "release") kind
    then token_fields fs
    else some invalid_lease_command
validate_lease_command _ = some invalid_lease_command

pub record ResolvedBuilderRouting : Type 0 where
  pub builder : Text
  pub policy_version : ℕ

unfoldable pub routing_value : ResolvedBuilderRouting → Value
routing_value r = Value.object true (
    Fields.field (codes "builder") (Value.string r.builder)
      (Fields.field (codes "policyVersion") (Value.number r.policy_version) Fields.stop))

-- `Number.isInteger(v) && v >= 0`.
abbrev is_natural : Value → Bool
is_natural (Value.number n) = true
is_natural _ = false

unfoldable pub is_resolved_builder_routing : Value → Bool
is_resolved_builder_routing (Value.object true fs) =
    has_exact_keys (codes "builder" ∷ codes "policyVersion" ∷ []) fs
    && is_approved_model_id (own fs (codes "builder"))
    && is_natural (own fs (codes "policyVersion"))
is_resolved_builder_routing _ = false
