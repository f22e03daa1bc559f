-- ===== src/WorkIntake/Intake/Cases.antt =====
-- src/domains/work-intake/direct-intake.ts: the ways a submission goes through the intake.
use agent_pool.Prelude.{
  ◌≡◌, refl, true, false, inl, inr, Option, none, some, Text, codes, text_eq, text_eq_sound,
  Option-cases, Bool-cases, arith,
}
use agent_pool.Js.{Value, is_blank}
use agent_pool.WorkIntake.Contracts.{
  accepted, rejected, idempotency_key_payload_mismatch, unauthenticated, invalid_idempotency_key,
}
use agent_pool.WorkIntake.Idempotency.{IdempotencyRecord, InMemoryStore, get, put}
use agent_pool.WorkIntake.Units.{violation}
use agent_pool.WorkIntake.Submissions.{
  ValidatedSubmission, SubmissionValidation, valid, invalid, validate_submission,
}
use agent_pool.WorkIntake.Canonical.{hash_payload}
use agent_pool.WorkIntake.Intake.{
  DirectTaskRequest, Outcome, threw, returned, new_acceptance, normalized, as_replayed, scope_of,
  valid_key, rejecting, settle, accept_fresh, replay_or_conflict, accept_hashed, accept_valid,
  accept_direct_tasks,
}

-- An exception, or a rejection.
abbrev pub IsRefusal : Outcome → Type 0
IsRefusal threw = Unit
IsRefusal (returned (rejected vs)) = Unit
IsRefusal (returned (accepted a)) = ⊥

-- What a submission that is hashed has passed.
abbrev pub Passes :
    (Value → Option Text) → (Text → Text) → DirectTaskRequest → Text → ValidatedSubmission → Type 0
Passes json digest request hash v =
    (is_blank request.caller_id ≡ false)
    × (valid_key request.idempotency_key ≡ true)
    × (validate_submission request.body ≡ valid v)
    × (hash_payload json digest (normalized v) ≡ some hash)

-- The outcomes of a submission, as a case rule: it is refused, or replayed, or accepted without a
-- key, or accepted and put under its key.
module _ (json : Value → Option Text) (digest : Text → Text) (store : InMemoryStore)
    (request : DirectTaskRequest) (submission : Text) (P : InMemoryStore × Outcome → Type 0)
    (refuses : (o : Outcome) → IsRefusal o → P (store, o))
    (replays : (k hash : Text) (v : ValidatedSubmission) (r : IdempotencyRecord)
      → request.idempotency_key ≡ some k
      → Passes json digest request hash v
      → get store (scope_of request.caller_id k) ≡ some r
      → r.payload_hash ≡ hash
      → P (store, returned (accepted (as_replayed r.result))))
    (keyless : (hash : Text) (v : ValidatedSubmission)
      → request.idempotency_key ≡ none
      → Passes json digest request hash v
      → P (store, returned (accepted (new_acceptance request.caller_id submission none hash v))))
    (keyed : (k hash : Text) (v : ValidatedSubmission) (store' : InMemoryStore)
      → request.idempotency_key ≡ some k
      → Passes json digest request hash v
      → get store (scope_of request.caller_id k) ≡ none
      → put store (scope_of request.caller_id k) (record {
        payload_hash = hash;
        result = new_acceptance request.caller_id submission (some k) hash v;
      })
        ≡ some store'
      → P (
        store',
        returned (accepted (new_acceptance request.caller_id submission (some k) hash v)),
      )) where
  accept_fresh_keyed :
      (k hash : Text) (v : ValidatedSubmission)
      → request.idempotency_key ≡ some k
      → Passes json digest request hash v
      → get store (scope_of request.caller_id k) ≡ none
      → P (accept_fresh store request.caller_id (some k) submission hash v)
  unfolding accept_fresh settle
  accept_fresh_keyed k hash v key passes fresh =
      let a = new_acceptance request.caller_id submission (some k) hash v in
      elim (Bool-cases (is_blank submission)) [
        | inl blank ↦ rw blank (refuses threw tt)
        | inr named ↦
            elim (Option-cases (
              put store (scope_of request.caller_id k)
                (record { payload_hash = hash; result = a }))) [
                  | inl full ↦ rw (named, full, settle) (refuses threw tt)
                  | inr (store', taken) ↦
                      rw (named, taken, settle) (keyed k hash v store' key passes fresh taken)
                ]
      ]

  accept_hashed_cases :
      (key : Option Text) (hash : Text) (v : ValidatedSubmission)
      → request.idempotency_key ≡ key
      → Passes json digest request hash v
      → P (accept_hashed store request.caller_id key submission hash v)
  unfolding accept_hashed accept_fresh replay_or_conflict
  accept_hashed_cases none hash v key passes =
      ground (arith, refuses threw tt, keyless hash v key passes)
  accept_hashed_cases (some k) hash v key passes =
      elim (Option-cases (get store (scope_of request.caller_id k))) [
        | inl fresh ↦ rw (fresh, accept_hashed) (accept_fresh_keyed k hash v key passes fresh)
        | inr (r, e) ↦ elim (Bool-cases (text_eq r.payload_hash hash)) [
          | inr other ↦
              rw (e, accept_hashed, other)
                (refuses
                  (rejecting
                    (violation idempotency_key_payload_mismatch (codes "Idempotency-Key") none))
                  tt)
          | inl same ↦
              rw (e, accept_hashed, same)
                (replays k hash v r key passes e (text_eq_sound r.payload_hash hash same))
        ]
      ]

  accept_valid_cases :
      (o : SubmissionValidation)
      → is_blank request.caller_id ≡ false
      → valid_key request.idempotency_key ≡ true
      → validate_submission request.body ≡ o
      → P (accept_valid json digest store request.caller_id request.idempotency_key submission o)
  unfolding accept_valid
  accept_valid_cases (invalid vs) named usable found = refuses (returned (rejected vs)) tt
  accept_valid_cases (valid v) named usable found =
      elim (Option-cases (hash_payload json digest (normalized v))) [
        | inl e ↦ rw (e, accept_valid) (refuses threw tt)
        | inr (hash, e) ↦
            rw (e, accept_valid)
              (accept_hashed_cases request.idempotency_key hash v refl (named, usable, found, e))
      ]

  pub accept_direct_tasks_cases : P (accept_direct_tasks json digest store request submission)
  unfolding accept_direct_tasks
  accept_direct_tasks_cases = elim (Bool-cases (is_blank request.caller_id)) [
    | inl blank ↦
        rw (blank, accept_direct_tasks)
          (refuses (rejecting (violation unauthenticated (codes "$") none)) tt)
    | inr named ↦ elim (Bool-cases (valid_key request.idempotency_key)) [
      | inr bad ↦
          rw (named, bad, accept_direct_tasks)
            (refuses (rejecting (violation invalid_idempotency_key (codes "Idempotency-Key") none))
              tt)
      | inl usable ↦
          rw (named, usable, accept_direct_tasks)
            (accept_valid_cases (validate_submission request.body) named usable refl)
    ]
  ]
