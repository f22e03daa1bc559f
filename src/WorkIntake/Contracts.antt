-- ===== src/WorkIntake/Contracts.antt =====
-- src/domains/work-intake/contracts.ts: units, acceptances, violations and limits. The message of a
-- violation is not modelled: its path and its code tell it.
use agent_pool.Prelude.{ℕ, Bool, List, [], ◌∷◌, Option, Text, codes}

abbrev pub unit_fields : List Text
unit_fields =
    codes "id"
    ∷ codes "intent"
    ∷ codes "change_spec"
    ∷ codes "acceptance_criteria"
    ∷ codes "depends_on"
    ∷ []

abbrev pub submission_fields : List Text
submission_fields = codes "repo" ∷ codes "branch" ∷ codes "unit" ∷ codes "units" ∷ []

pub record DirectTaskUnit : Type 0 where
  pub id : Text
  pub intent : Text
  pub change_spec : Text
  pub acceptance_criteria : List Text
  pub depends_on : Option (List Text)

-- Its `origin` is always `direct_task`.
pub record CriteriaProvenance : Type 0 where
  pub caller_id : Text
  pub submission_id : Text
  pub unit_id : Text
  pub idempotency_key : Option Text

pub record AcceptedUnit : Type 0 where
  pub id : Text
  pub intent : Text
  pub change_spec : Text
  pub acceptance_criteria : List Text
  pub depends_on : List Text
  pub provenance : CriteriaProvenance

pub data SubmissionShape : Type 0 where
  single_unit hand_authored_dag : SubmissionShape

pub record DirectTaskAcceptance : Type 0 where
  pub submission_id : Text
  pub repo : Text
  pub branch : Text
  pub units : List AcceptedUnit
  pub submission_shape : SubmissionShape
  pub gate1_required : Bool
  pub gate2_required : Bool
  pub decomposition_invoked : Bool
  pub payload_hash : Text
  pub replayed : Bool

pub data IntakeErrorCode : Type 0 where
  malformed_body unknown_field missing_field invalid_field_type : IntakeErrorCode
  invalid_field_format field_too_long payload_too_large too_many_units : IntakeErrorCode
  ambiguous_submission_shape empty_submission missing_acceptance_criteria : IntakeErrorCode
  duplicate_unit_id unknown_dependency self_dependency duplicate_dependency : IntakeErrorCode
  dependency_cycle single_unit_has_dependencies : IntakeErrorCode
  idempotency_key_payload_mismatch invalid_idempotency_key unauthenticated : IntakeErrorCode

-- The string that the code is, which the order of violations compares.
abbrev pub code_text : IntakeErrorCode → Text
code_text malformed_body = codes "MALFORMED_BODY"
code_text unknown_field = codes "UNKNOWN_FIELD"
code_text missing_field = codes "MISSING_FIELD"
code_text invalid_field_type = codes "INVALID_FIELD_TYPE"
code_text invalid_field_format = codes "INVALID_FIELD_FORMAT"
code_text field_too_long = codes "FIELD_TOO_LONG"
code_text payload_too_large = codes "PAYLOAD_TOO_LARGE"
code_text too_many_units = codes "TOO_MANY_UNITS"
code_text ambiguous_submission_shape = codes "AMBIGUOUS_SUBMISSION_SHAPE"
code_text empty_submission = codes "EMPTY_SUBMISSION"
code_text missing_acceptance_criteria = codes "MISSING_ACCEPTANCE_CRITERIA"
code_text duplicate_unit_id = codes "DUPLICATE_UNIT_ID"
code_text unknown_dependency = codes "UNKNOWN_DEPENDENCY"
code_text self_dependency = codes "SELF_DEPENDENCY"
code_text duplicate_dependency = codes "DUPLICATE_DEPENDENCY"
code_text dependency_cycle = codes "DEPENDENCY_CYCLE"
code_text single_unit_has_dependencies = codes "SINGLE_UNIT_HAS_DEPENDENCIES"
code_text idempotency_key_payload_mismatch = codes "IDEMPOTENCY_KEY_PAYLOAD_MISMATCH"
code_text invalid_idempotency_key = codes "INVALID_IDEMPOTENCY_KEY"
code_text unauthenticated = codes "UNAUTHENTICATED"

pub record IntakeViolation : Type 0 where
  pub code : IntakeErrorCode
  pub path : Text
  pub unit_id : Option Text

pub data DirectTaskResult : Type 0 where
  accepted : DirectTaskAcceptance → DirectTaskResult
  rejected : List IntakeViolation → DirectTaskResult

-- `INTAKE_LIMITS`.
pub record IntakeLimits : Type 0 where
  pub max_total_content_chars : ℕ
  pub max_units : ℕ
  pub max_id_length : ℕ
  pub max_intent_length : ℕ
  pub max_change_spec_length : ℕ
  pub max_criterion_length : ℕ
  pub max_criteria_per_unit : ℕ
  pub max_dependencies_per_unit : ℕ
  pub max_repo_length : ℕ
  pub max_branch_length : ℕ
  pub max_idempotency_key_length : ℕ

abbrev pub intake_limits : IntakeLimits
intake_limits = record {
  max_total_content_chars = 1000000;
  max_units = 500;
  max_id_length = 200;
  max_intent_length = 2000;
  max_change_spec_length = 20000;
  max_criterion_length = 4000;
  max_criteria_per_unit = 100;
  max_dependencies_per_unit = 500;
  max_repo_length = 400;
  max_branch_length = 400;
  max_idempotency_key_length = 255;
}
