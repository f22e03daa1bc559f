-- ===== src/WorkIntake/Samples.antt =====
-- What the tests of src/domains/work-intake compute with, and a submission.
use agent_pool.Prelude.{
  true, false, [], Option, none, some, Text, codes, text_eq, select, select_one, sort, js_le, take,
  decimal, update,
}
use agent_pool.Js.{Value, Values, Fields, items, keys, own, mem_text, is_blank, is_undefined}
use agent_pool.WorkIntake.Contracts.{DirectTaskAcceptance, accepted, rejected, single_unit}
use agent_pool.WorkIntake.Idempotency.{
  InMemoryStore, get, put, is_valid_idempotency_key, idempotency_scope_key,
}
use agent_pool.WorkIntake.Ordering.{order_units}
use agent_pool.WorkIntake.Submissions.{validate_submission, unit_of}
use agent_pool.WorkIntake.Targets.{matches_repo, matches_branch}
use agent_pool.WorkIntake.Canonical.{hash_payload, join_commas}
use agent_pool.WorkIntake.Intake.{
  DirectTaskRequest, Outcome, threw, returned, accept_direct_tasks, normalized,
}
use agent_pool.WorkIntake.Intake.Replay.{after}

unfoldable pub everything_accepted : Unit {0}
unfolding accept_direct_tasks validate_submission hash_payload normalized matches_repo
    matches_branch is_valid_idempotency_key idempotency_scope_key get put text_eq select select_one
    sort js_le take decimal update items keys own mem_text is_blank is_undefined join_commas unit_of
    order_units after
everything_accepted = tt

-- A string is written as it is; two values that differ elsewhere are not told apart.
abbrev pub plain_json : Value → Option Text
plain_json (Value.string s) = some s
plain_json _ = some []

abbrev pub identity : Text → Text
identity s = s

abbrev pub unit_value : Text → Value
unit_value intent = Value.object true (
    Fields.field (codes "id") (Value.string (codes "u")) (
      Fields.field (codes "intent") (Value.string intent) (
        Fields.field (codes "change_spec") (Value.string (codes "c")) (
          Fields.field (codes "acceptance_criteria")
            (Value.array (Values.item (Value.string (codes "a")) Values.end)) Fields.stop))))

abbrev pub body_of : Text → Value
body_of intent = Value.object true (
    Fields.field (codes "repo") (Value.string (codes "o/r")) (
      Fields.field (codes "branch") (Value.string (codes "b"))
        (Fields.field (codes "unit") (unit_value intent) Fields.stop)))

abbrev pub request_of : Text → DirectTaskRequest
request_of intent = record {
  caller_id = codes "x";
  body = body_of intent;
  idempotency_key = some (codes "k");
}

abbrev pub empty_store : InMemoryStore
empty_store = record { records = []; limit = 2 }

abbrev pub no_acceptance : DirectTaskAcceptance
no_acceptance = record {
  submission_id = [];
  repo = [];
  branch = [];
  units = [];
  submission_shape = single_unit;
  gate1_required = false;
  gate2_required = false;
  decomposition_invoked = false;
  payload_hash = [];
  replayed = false;
}

abbrev pub acceptance_of : Outcome → DirectTaskAcceptance
acceptance_of threw = no_acceptance
acceptance_of (returned (accepted a)) = a
acceptance_of (returned (rejected vs)) = no_acceptance

abbrev pub text_or_empty : Option Text → Text
text_or_empty none = []
text_or_empty (some s) = s
