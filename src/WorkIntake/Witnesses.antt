-- ===== src/WorkIntake/Witnesses.antt =====
-- The theorems about src/domains/work-intake at small inputs.
use agent_pool.Prelude.{◌≡◌, ◌≢◌, inl, refl, List, [], ◌∷◌, none, Text, codes, arith}
use agent_pool.WorkIntake.Contracts.{accepted, idempotency_key_payload_mismatch, single_unit}
use agent_pool.WorkIntake.Idempotency.{InMemoryStore, get}
use agent_pool.WorkIntake.Units.{violation}
use agent_pool.WorkIntake.Submissions.{unit_of, ValidatedSubmission}
use agent_pool.WorkIntake.Submissions.Sound.{IsSound, validate_submission-IsSound}
use agent_pool.WorkIntake.Intake.{
  normalized, Outcome, returned, as_replayed, scope_of, rejecting, accept_direct_tasks,
}
use agent_pool.WorkIntake.Canonical.{hash_payload}
use agent_pool.WorkIntake.Intake.Replay.{
  Submitted, after, accept_direct_tasks_again, accept_direct_tasks_conflict,
}
use agent_pool.WorkIntake.Intake.Isolation.{
  IsFaithful, accept_direct_tasks_other, accept_direct_tasks-IsFaithful,
}
use agent_pool.WorkIntake.Samples.{
  everything_accepted, unit_value, text_or_empty, plain_json, identity, body_of, request_of,
  empty_store, acceptance_of,
}

-- The store and the answer after the first submission.
abbrev first : InMemoryStore × Outcome
first = accept_direct_tasks plain_json identity empty_store (request_of (codes "i")) (codes "s")

abbrev others : List Submitted
others = record { request = request_of (codes "j"); submission = codes "t" } ∷ []

accept_direct_tasks_again_example :
    accept_direct_tasks plain_json identity
      (after plain_json identity first.0 others)
      (request_of (codes "i"))
      (codes "n")
    ≡ (
      after plain_json identity first.0 others,
      returned (accepted (as_replayed (acceptance_of first.1))),
    )
unfolding everything_accepted
accept_direct_tasks_again_example =
    accept_direct_tasks_again plain_json identity empty_store first.0 (request_of (codes "i"))
      (codes "s") (codes "n") (codes "k") (acceptance_of first.1) others (omega arith) refl refl

-- The submission that a body is.
abbrev submission_of : Text → ValidatedSubmission
submission_of intent = record {
  repo = codes "o/r";
  branch = codes "b";
  units = unit_of (unit_value intent) ∷ [];
  shape = single_unit;
}

abbrev hash_of : Text → Text
hash_of intent =
    text_or_empty (hash_payload plain_json identity (normalized (submission_of intent)))

hashes_differ : hash_of (codes "i") ≢ hash_of (codes "j")
unfolding everything_accepted
hashes_differ e = ground (arith, e)

accept_direct_tasks_conflict_example :
    accept_direct_tasks plain_json identity
      (after plain_json identity first.0 [])
      (request_of (codes "j"))
      (codes "n")
    ≡ (
      after plain_json identity first.0 [],
      rejecting (violation idempotency_key_payload_mismatch (codes "Idempotency-Key") none),
    )
unfolding everything_accepted
accept_direct_tasks_conflict_example =
    accept_direct_tasks_conflict plain_json identity empty_store first.0 (request_of (codes "i"))
      (request_of (codes "j")) (codes "s") (codes "n") (codes "k") (hash_of (codes "i"))
      (hash_of (codes "j")) (submission_of (codes "i")) (submission_of (codes "j"))
      (acceptance_of first.1) [] (omega arith) refl refl refl refl refl refl refl hashes_differ refl

other_caller : codes "y" ≢ codes "x"
other_caller e = ground (arith, e)

accept_direct_tasks_other_example :
    get first.0 (scope_of (codes "y") (codes "k"))
    ≡ get empty_store (scope_of (codes "y") (codes "k"))
accept_direct_tasks_other_example =
    accept_direct_tasks_other plain_json identity empty_store (request_of (codes "i")) (codes "s")
      (codes "y") (codes "k") (omega arith) (inl other_caller)

empty_store-IsFaithful : IsFaithful empty_store
unfolding everything_accepted
empty_store-IsFaithful = record {
  within = omega arith;
  gated = λ k r e. absurd (ground (arith, e));
}

accept_direct_tasks-IsFaithful_example : IsFaithful first.0
accept_direct_tasks-IsFaithful_example =
    accept_direct_tasks-IsFaithful plain_json identity empty_store (request_of (codes "i"))
      (codes "s") empty_store-IsFaithful

validate_submission-IsSound_example : IsSound (submission_of (codes "i"))
unfolding everything_accepted
validate_submission-IsSound_example =
    validate_submission-IsSound (body_of (codes "i")) (submission_of (codes "i")) refl
