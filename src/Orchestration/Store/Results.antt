-- ===== src/Orchestration/Store/Results.antt =====
-- src/domains/orchestration/sqlite-store.ts: `acceptResult`, `completeAuthorizedResult` and what
-- they call (`validateResult`, `resultsEqual`). `digest` is SHA-256 of node:crypto.
use agent_pool.Prelude.{
  ℕ, ◌==◌, ltb, Bool, true, false, ◌&&◌, ◌||◌, not, List, [], ◌∷◌, Option, none, some, Text, codes,
  text_eq, option_text_eq, select_one, delete, insert, is_some, if◌then◌else◌,
}
use agent_pool.Js.{
  Value, Fields, keys, own, every_in, is_non_empty_string, is_positive_integer, is_undefined,
}
use agent_pool.Orchestration.Lifecycle.{is_valid_transition}
use agent_pool.Orchestration.Contracts.{
  ErrorCode, max_id_length, max_result_id_length, max_version_length, max_token_length,
  max_path_length, max_summary_length, invalid_result, result_identity_mismatch, result_conflict,
  node_not_found, stale_version, stale_result, invalid_transition,
}
use agent_pool.Orchestration.Store.Schema.{
  Db, NodeRecord, AttemptRecord, result_accepted, completed, LeaseRecord, AcceptedResult,
  Authorization, Outcome, outcome_eq, outcome_state, Result, ok, err, accepted_at, authorized_at,
  log, result_duplicate_ignored, accepted, result_completed,
}
use agent_pool.Orchestration.Store.Nodes.{find_node, set_state, listed_node}
use agent_pool.Orchestration.Store.Attempts.{find_attempt}
use agent_pool.Orchestration.Store.Leases.{find_lease, set_attempt_state}

pub record WorkerResult : Type 0 where
  pub result_id : Text
  pub attempt_id : Text
  pub node_id : Text
  pub work_id : Text
  pub outcome : Outcome
  pub phase : Text
  pub token : Text
  pub generation : ℕ
  pub expected_node_version : ℕ
  pub artifact_path : Option Text
  pub summary : Option Text

outcome_text : Outcome → Text
outcome_text Outcome.passed = codes "passed"
outcome_text Outcome.failed = codes "failed"

-- An optional property that is absent.
optional : Text → Option Text → Fields → Fields
optional key none fs = fs
optional key (some s) fs = Fields.field key (Value.string s) fs

text_field : Text → Text → Fields → Fields
text_field key s fs = Fields.field key (Value.string s) fs

-- The JavaScript object that a worker result is.
unfoldable pub result_value : WorkerResult → Value
unfolding outcome_text optional text_field
result_value r = Value.object true (
    text_field (codes "result_id") r.result_id (
      text_field (codes "attempt_id") r.attempt_id (
        text_field (codes "node_id") r.node_id (
          text_field (codes "work_id") r.work_id (
            text_field (codes "outcome") (outcome_text r.outcome) (
              text_field (codes "phase") r.phase (
                text_field (codes "token") r.token (
                  Fields.field (codes "generation") (Value.number r.generation) (
                    Fields.field (codes "expected_node_version")
                      (Value.number r.expected_node_version)
                      (optional (codes "artifact_path") r.artifact_path
                        (optional (codes "summary") r.summary Fields.stop)))))))))))

result_keys : List Text
result_keys =
    codes "result_id"
    ∷ codes "attempt_id"
    ∷ codes "node_id"
    ∷ codes "work_id"
    ∷ codes "outcome"
    ∷ codes "phase"
    ∷ codes "token"
    ∷ codes "generation"
    ∷ codes "expected_node_version"
    ∷ codes "artifact_path"
    ∷ codes "summary"
    ∷ []

is_outcome : Value → Bool
is_outcome (Value.string s) = text_eq s (codes "passed") || text_eq s (codes "failed")
is_outcome _ = false

-- `value !== undefined && !isNonEmptyString(value, max)` is the complaint.
optional_string : ℕ → Value → Bool
optional_string max v = is_undefined v || is_non_empty_string max v

valid_result_fields : Fields → Bool
unfolding result_keys is_outcome optional_string
valid_result_fields fs =
    every_in result_keys (keys fs)
    && is_non_empty_string max_result_id_length (own fs (codes "result_id"))
    && is_non_empty_string max_id_length (own fs (codes "attempt_id"))
    && is_non_empty_string max_id_length (own fs (codes "node_id"))
    && is_non_empty_string max_id_length (own fs (codes "work_id"))
    && is_outcome (own fs (codes "outcome"))
    && is_non_empty_string max_version_length (own fs (codes "phase"))
    && is_non_empty_string max_token_length (own fs (codes "token"))
    && is_positive_integer (own fs (codes "generation"))
    && is_positive_integer (own fs (codes "expected_node_version"))
    && optional_string max_path_length (own fs (codes "artifact_path"))
    && optional_string max_summary_length (own fs (codes "summary"))

-- Every complaint has the one code.
unfoldable pub validate_result : Value → Option ErrorCode
unfolding valid_result_fields
validate_result (Value.object true fs) =
    if valid_result_fields fs then none else some invalid_result
validate_result _ = some invalid_result

-- `resultsEqual(existing, result)`: the token is not stored, and is not compared.
unfoldable pub results_equal : AcceptedResult → WorkerResult → Bool
results_equal a b =
    text_eq a.result_id b.result_id
    && text_eq a.attempt_id b.attempt_id
    && text_eq a.node_id b.node_id
    && text_eq a.work_id b.work_id
    && outcome_eq a.outcome b.outcome
    && text_eq a.phase b.phase
    && a.generation == b.generation
    && a.expected_node_version == b.expected_node_version
    && option_text_eq a.artifact_path b.artifact_path
    && option_text_eq a.summary b.summary

unfoldable pub find_accepted : Db → Text → Option AcceptedResult
find_accepted db a = select_one (accepted_at a) db.accepted_results

unfoldable pub find_authorization : Db → Text → Option Authorization
find_authorization db a = select_one (authorized_at a) db.authorizations

unfoldable pub new_accepted : WorkerResult → ℕ → AcceptedResult
new_accepted r now = record {
  attempt_id = r.attempt_id;
  result_id = r.result_id;
  node_id = r.node_id;
  work_id = r.work_id;
  outcome = r.outcome;
  phase = r.phase;
  artifact_path = r.artifact_path;
  summary = r.summary;
  accepted_at = now;
  generation = r.generation;
  expected_node_version = r.expected_node_version;
}

unfoldable pub new_authorization : WorkerResult → ℕ → ℕ → Authorization
new_authorization r version now = record {
  attempt_id = r.attempt_id;
  node_id = r.node_id;
  work_id = r.work_id;
  result_id = r.result_id;
  expected_node_version = version;
  authorized_at = now;
}

-- The committed transaction of `acceptResult`, with its audit row.
unfoldable pub stored : Db → WorkerResult → ℕ → ℕ → Db
unfolding new_accepted new_authorization set_attempt_state
stored db r now version =
    let inserted : Db = record db {
      accepted_results = insert (new_accepted r now) db.accepted_results;
      authorizations = insert (new_authorization r version now) db.authorizations;
    } in
    log (accepted r.attempt_id r.result_id r.outcome r.generation)
      (set_attempt_state r.attempt_id result_accepted inserted)

-- An authorization that is already there breaks its key.
unfoldable pub store_result : Db → WorkerResult → ℕ → NodeRecord → Db × Result (Unit {0})
unfolding stored
store_result db r now node =
    if is_some (find_authorization db r.attempt_id)
    then (db, err invalid_result)
    else (stored db r now node.version, ok tt)

-- The committed transaction of `completeAuthorizedResult`, with its audit row.
unfoldable pub completed_result : Db → Text → Text → Text → Authorization → AcceptedResult → Db
unfolding set_state set_attempt_state
completed_result db w n a auth result =
    let moved : Db = record db {
      nodes = set_state w n auth.expected_node_version (outcome_state result.outcome) db.nodes;
      authorizations = delete (authorized_at a) db.authorizations;
    } in
    log (result_completed a auth.result_id result.outcome) (set_attempt_state a completed moved)

module _ (digest : Text → Text) where
  -- `lease && expires_at > now && generations agree && the token's digest is the stored one`.
  unfoldable pub lease_valid : Option LeaseRecord → WorkerResult → ℕ → Bool
  lease_valid none r now = false
  lease_valid (some lease) r now =
      ltb now lease.expires_at
      && r.generation == lease.generation
      && text_eq (digest r.token) lease.token_digest

  unfoldable pub accept_first : Db → WorkerResult → ℕ → Db × Result (Unit {0})
  unfolding store_result
  accept_first db r now = elim (find_node db r.work_id r.node_id) [
    | none ↦ (db, err node_not_found)
    | some node ↦
        if not (r.expected_node_version == node.version)
        then (db, err stale_version)
        else if not (lease_valid (find_lease db r.attempt_id) r now)
        then (db, err stale_result)
        else store_result db r now node
  ]

  unfoldable pub accept_again : Db → WorkerResult → AcceptedResult → Db × Result (Unit {0})
  accept_again db r existing =
      if results_equal existing r
      then (log (result_duplicate_ignored r.attempt_id r.result_id) db, ok tt)
      else (db, err result_conflict)

  unfoldable pub accept_for : Db → WorkerResult → ℕ → AttemptRecord → Db × Result (Unit {0})
  unfolding accept_first accept_again
  accept_for db r now attempt =
      if not (text_eq attempt.node_id r.node_id) || not (text_eq attempt.work_id r.work_id)
      then (db, err result_identity_mismatch)
      else elim (find_accepted db r.attempt_id) [
        | some existing ↦ accept_again db r existing
        | none ↦ accept_first db r now
      ]

  unfoldable pub accept_result : Db → WorkerResult → ℕ → Db × Result (Unit {0})
  unfolding accept_for
  accept_result db r now = elim (validate_result (result_value r)) [
    | some code ↦ (db, err code)
    | none ↦ elim (find_attempt db r.attempt_id) [
      | none ↦ (db, err invalid_result)
      | some attempt ↦ accept_for db r now attempt
    ]
  ]

unfoldable pub complete_with :
    Db → Text → Text → Text → Authorization → NodeRecord → AcceptedResult → Db × Result NodeRecord
unfolding completed_result
complete_with db w n a auth node result =
    if not (is_valid_transition node.state (outcome_state result.outcome))
    then (db, err invalid_transition)
    else let done : Db = completed_result db w n a auth result in
      (done, listed_node done w n invalid_result)

unfoldable pub complete_for :
    Db → Text → Text → Text → Authorization → NodeRecord → Db × Result NodeRecord
unfolding complete_with
complete_for db w n a auth node =
    if not (node.version == auth.expected_node_version)
    then (db, err stale_version)
    else elim (find_accepted db a) [
      | none ↦ (db, err invalid_result)
      | some result ↦ complete_with db w n a auth node result
    ]

unfoldable pub complete_authorized_result : Db → Text → Text → Text → Db × Result NodeRecord
unfolding complete_for
complete_authorized_result db w n a = elim (find_authorization db a) [
  | none ↦ (db, err invalid_result)
  | some auth ↦ elim (find_node db w n) [
    | none ↦ (db, err node_not_found)
    | some node ↦ complete_for db w n a auth node
  ]
]
