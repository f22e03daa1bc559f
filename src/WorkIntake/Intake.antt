-- ===== src/WorkIntake/Intake.antt =====
-- src/domains/work-intake/direct-intake.ts: `acceptDirectTasks`, over the store in memory.
-- `json` is `JSON.stringify`, `digest` is SHA-256, and the submission id that the generator gives is
-- an argument. Freezing is the absence of writes.
pub mod Cases
pub mod Bindings
pub mod Replay
pub mod Isolation
use agent_pool.Prelude.{
  ℕ, Bool, true, false, ◌&&◌, ◌||◌, not, List, [], ◌∷◌, map, Option, none, some, Text, codes,
  text_eq, if◌then◌else◌,
}
use agent_pool.Js.{Value, Values, Fields, is_blank}
use agent_pool.WorkIntake.Contracts.{
  DirectTaskUnit, CriteriaProvenance, AcceptedUnit, SubmissionShape, single_unit, hand_authored_dag,
  DirectTaskAcceptance, DirectTaskResult, accepted, rejected, IntakeViolation, unauthenticated,
  invalid_idempotency_key, idempotency_key_payload_mismatch,
}
use agent_pool.WorkIntake.Idempotency.{
  IdempotencyRecord, InMemoryStore, get, put, is_valid_idempotency_key, idempotency_scope_key,
  direct_task_route,
}
use agent_pool.WorkIntake.Units.{violation}
use agent_pool.WorkIntake.Submissions.{
  ValidatedSubmission, SubmissionValidation, valid, invalid, validate_submission, list_of,
}
use agent_pool.WorkIntake.Canonical.{hash_payload}

pub record DirectTaskRequest : Type 0 where
  pub caller_id : Text
  pub body : Value
  pub idempotency_key : Option Text

-- A result, or an exception.
pub data Outcome : Type 0 where
  threw : Outcome
  returned : DirectTaskResult → Outcome

unfoldable pub accept_unit : Text → Text → Option Text → DirectTaskUnit → AcceptedUnit
accept_unit caller submission key u = record {
  id = u.id;
  intent = u.intent;
  change_spec = u.change_spec;
  acceptance_criteria = u.acceptance_criteria;
  depends_on = list_of u.depends_on;
  provenance = record {
    caller_id = caller;
    submission_id = submission;
    unit_id = u.id;
    idempotency_key = key;
  };
}

abbrev texts_value : List Text → Values
texts_value [] = Values.end
texts_value (s ∷ ss) = Values.item (Value.string s) (texts_value ss)

abbrev text_field : Text → Text → Fields → Fields
text_field k s fs = Fields.field k (Value.string s) fs

abbrev unit_value : DirectTaskUnit → Value
unit_value u = Value.object true (
    text_field (codes "id") u.id (
      text_field (codes "intent") u.intent (
        text_field (codes "change_spec") u.change_spec (
          Fields.field (codes "acceptance_criteria")
            (Value.array (texts_value u.acceptance_criteria))
            (Fields.field (codes "depends_on") (Value.array (texts_value (list_of u.depends_on)))
              Fields.stop)))))

abbrev units_value : List DirectTaskUnit → Values
units_value [] = Values.end
units_value (u ∷ us) = Values.item (unit_value u) (units_value us)

abbrev shape_text : SubmissionShape → Text
shape_text single_unit = codes "single_unit"
shape_text hand_authored_dag = codes "hand_authored_dag"

-- The submission that is hashed.
unfoldable pub normalized : ValidatedSubmission → Value
normalized v = Value.object true (
    text_field (codes "repo") v.repo (
      text_field (codes "branch") v.branch (
        text_field (codes "shape") (shape_text v.shape)
          (Fields.field (codes "units") (Value.array (units_value v.units)) Fields.stop))))

unfoldable pub new_acceptance :
    Text → Text → Option Text → Text → ValidatedSubmission → DirectTaskAcceptance
unfolding accept_unit
new_acceptance caller submission key hash v = record {
  submission_id = submission;
  repo = v.repo;
  branch = v.branch;
  units = map (accept_unit caller submission key) v.units;
  submission_shape = v.shape;
  gate1_required = false;
  gate2_required = true;
  decomposition_invoked = false;
  payload_hash = hash;
  replayed = false;
}

abbrev pub as_replayed : DirectTaskAcceptance → DirectTaskAcceptance
as_replayed a = record a { replayed = true }

-- The scope key of a caller's key.
abbrev pub scope_of : Text → Text → Text
scope_of caller key = idempotency_scope_key caller direct_task_route key

abbrev pub valid_key : Option Text → Bool
valid_key none = true
valid_key (some k) = is_valid_idempotency_key k

abbrev pub rejecting : IntakeViolation → Outcome
rejecting v = returned (rejected (v ∷ []))

-- What the store made of the new acceptance.
unfoldable pub settle :
    InMemoryStore → DirectTaskAcceptance → Option InMemoryStore → InMemoryStore × Outcome
settle store a none = (store, threw)
settle store a (some store') = (store', returned (accepted a))

-- A submission with no key, or with a key that is new.
unfoldable pub accept_fresh :
    InMemoryStore → Text → Option Text → Text → Text → ValidatedSubmission → InMemoryStore × Outcome
unfolding settle new_acceptance
accept_fresh store caller key submission hash v =
    if is_blank submission then (store, threw) else elim key [
      | none ↦ (store, returned (accepted (new_acceptance caller submission none hash v)))
      | some k ↦
          let a = new_acceptance caller submission (some k) hash v in
          settle store a
            (put store (scope_of caller k) (record { payload_hash = hash; result = a }))
    ]

-- The key was used before.
unfoldable pub replay_or_conflict :
    InMemoryStore → Text → IdempotencyRecord → InMemoryStore × Outcome
replay_or_conflict store hash existing =
    if not (text_eq existing.payload_hash hash)
    then (
      store,
      rejecting (violation idempotency_key_payload_mismatch (codes "Idempotency-Key") none),
    )
    else (store, returned (accepted (as_replayed existing.result)))

unfoldable pub accept_hashed :
    InMemoryStore → Text → Option Text → Text → Text → ValidatedSubmission → InMemoryStore × Outcome
unfolding accept_fresh replay_or_conflict
accept_hashed store caller none submission hash v = accept_fresh store caller none submission hash v
accept_hashed store caller (some k) submission hash v = elim (get store (scope_of caller k)) [
  | none ↦ accept_fresh store caller (some k) submission hash v
  | some existing ↦ replay_or_conflict store hash existing
]

module _ (json : Value → Option Text) (digest : Text → Text) where
  unfoldable pub accept_valid :
      InMemoryStore → Text → Option Text → Text → SubmissionValidation → InMemoryStore × Outcome
  unfolding accept_hashed normalized
  accept_valid store caller key submission (invalid vs) = (store, returned (rejected vs))
  accept_valid store caller key submission (valid v) =
      elim (hash_payload json digest (normalized v)) [
        | none ↦ (store, threw)
        | some hash ↦ accept_hashed store caller key submission hash v
      ]

  unfoldable pub accept_direct_tasks :
      InMemoryStore → DirectTaskRequest → Text → InMemoryStore × Outcome
  unfolding accept_valid
  accept_direct_tasks store request submission =
      if is_blank request.caller_id
      then (store, rejecting (violation unauthenticated (codes "$") none))
      else if not (valid_key request.idempotency_key)
      then (store, rejecting (violation invalid_idempotency_key (codes "Idempotency-Key") none))
      else accept_valid store request.caller_id request.idempotency_key submission
          (validate_submission request.body)
