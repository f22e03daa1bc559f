-- ===== src/WorkIntake/Intake/Replay.antt =====
-- src/domains/work-intake/direct-intake.ts: what a second submission under a key meets.
use agent_pool.Prelude.{
  ◌≡◌, ◌≢◌, refl, sym, ap, ◌∙◌, inl, inr, Option, none, some, List, [], ◌∷◌, Text, codes, text_eq,
  text_eq_refl, text_eq_sound, ◌≤◌, length, Bool-cases, arith,
}
use mathlib.Core.Option.{none-ne-some}
use agent_pool.Js.{Value, is_blank}
use agent_pool.WorkIntake.Contracts.{
  DirectTaskAcceptance, accepted, idempotency_key_payload_mismatch,
}
use agent_pool.WorkIntake.Idempotency.{IdempotencyRecord, InMemoryStore, get}
use agent_pool.WorkIntake.Units.{violation}
use agent_pool.WorkIntake.Submissions.{ValidatedSubmission, valid, validate_submission}
use agent_pool.WorkIntake.Canonical.{hash_payload}
use agent_pool.WorkIntake.Intake.{
  DirectTaskRequest, returned, normalized, as_replayed, scope_of, valid_key, rejecting,
  replay_or_conflict, accept_direct_tasks,
}
use agent_pool.WorkIntake.Intake.Cases.{accept_direct_tasks_cases}
use agent_pool.WorkIntake.Intake.Bindings.{put-get, accept-Bound, accepted-Passes, accept_found}

-- A record that the store has is never replaced.
accept_direct_tasks_kept :
    (json : Value → Option Text) (digest : Text → Text) (store : InMemoryStore)
    (request : DirectTaskRequest) (submission j : Text) (r : IdempotencyRecord)
    → length store.records ≤ store.limit
    → get store j ≡ some r
    → (get (accept_direct_tasks json digest store request submission).0 j ≡ some r)
      × (length (accept_direct_tasks json digest store request submission).0.records
          ≤ (accept_direct_tasks json digest store request submission).0.limit)
accept_direct_tasks_kept json digest store request submission j r within there =
    accept_direct_tasks_cases json digest store request submission
      (λ out. (get out.0 j ≡ some r) × (length out.0.records ≤ out.0.limit))
      (λ o refused. (there, within)) (λ k hash v s key passes found same. (there, within))
      (λ hash v key passes. (there, within))
      (λ k hash v s key passes fresh taken.
        let kept = put-get store s (scope_of request.caller_id k) _ within taken in
        elim (Bool-cases (text_eq (scope_of request.caller_id k) j)) [
          | inl same ↦ absurd (
              none-ne-some r (
                sym fresh
                ∙ (ap (get store) (text_eq_sound (scope_of request.caller_id k) j same) ∙ there)))
          | inr other ↦ (kept.1 j other ∙ there, kept.2)
        ])

-- A request, and the submission id that is generated for it.
pub record Submitted : Type 0 where
  pub request : DirectTaskRequest
  pub submission : Text

-- The store after submissions, the earliest first.
unfoldable pub after :
    (Value → Option Text) → (Text → Text) → InMemoryStore → List Submitted → InMemoryStore
unfolding accept_direct_tasks
after json digest store [] = store
after json digest store (s ∷ later) =
    after json digest (accept_direct_tasks json digest store s.request s.submission).0 later

after-kept :
    (json : Value → Option Text) (digest : Text → Text) (store : InMemoryStore)
    (later : List Submitted) (j : Text) (r : IdempotencyRecord)
    → length store.records ≤ store.limit
    → get store j ≡ some r
    → get (after json digest store later) j ≡ some r
unfolding after
after-kept json digest store [] j r within there = there
after-kept json digest store (s ∷ later) j r within there =
    let kept = accept_direct_tasks_kept json digest store s.request s.submission j r within there in
    after-kept json digest (accept_direct_tasks json digest store s.request s.submission).0 later j
      r kept.1 kept.0

-- In a store within its limit, where a submission with a key was accepted, the same submission is
-- answered, after any further submissions, with the same acceptance marked as replayed, whatever
-- submission id is generated, and the store stays as it is.
pub accept_direct_tasks_again :
    (json : Value → Option Text) (digest : Text → Text) (store store' : InMemoryStore)
    (request : DirectTaskRequest) (submission submission' k : Text) (a : DirectTaskAcceptance)
    (later : List Submitted)
    → length store.records ≤ store.limit
    → request.idempotency_key ≡ some k
    → accept_direct_tasks json digest store request submission ≡ (store', returned (accepted a))
    → accept_direct_tasks json digest (after json digest store' later) request submission'
      ≡ (after json digest store' later, returned (accepted (as_replayed a)))
unfolding replay_or_conflict
accept_direct_tasks_again json digest store store' request submission submission' k a later within
      key e =
    let (hash, v, passes) =
      accepted-Passes json digest store request submission a (ap (λ p. p.1) e) in
    let b =
      accept-Bound json digest store within request submission k hash v store' a key passes e in
    accept_found json digest (after json digest store' later) request submission' k hash v b.held
      key passes
      (after-kept json digest store' later (scope_of request.caller_id k) b.held b.within_limit
        b.found)
    ∙ rw (b.same_hash, text_eq_refl hash, b.same_result) refl

-- In a store within its limit, where a valid submission with a key was accepted, a valid submission
-- of the same caller with the same key and another payload hash is rejected as a mismatch, after
-- any further submissions, and the store stays as it is.
pub accept_direct_tasks_conflict :
    (json : Value → Option Text) (digest : Text → Text) (store store' : InMemoryStore)
    (request request' : DirectTaskRequest) (submission submission' k hash hash' : Text)
    (v v' : ValidatedSubmission) (a : DirectTaskAcceptance) (later : List Submitted)
    → length store.records ≤ store.limit
    → request.idempotency_key ≡ some k
    → request'.idempotency_key ≡ some k
    → request'.caller_id ≡ request.caller_id
    → validate_submission request.body ≡ valid v
    → hash_payload json digest (normalized v) ≡ some hash
    → validate_submission request'.body ≡ valid v'
    → hash_payload json digest (normalized v') ≡ some hash'
    → hash ≢ hash'
    → accept_direct_tasks json digest store request submission ≡ (store', returned (accepted a))
    → accept_direct_tasks json digest (after json digest store' later) request' submission' ≡ (
      after json digest store' later,
      rejecting (violation idempotency_key_payload_mismatch (codes "Idempotency-Key") none),
    )
unfolding replay_or_conflict
accept_direct_tasks_conflict json digest store store' request request' submission submission' k hash
      hash' v v' a later within key key' caller found hashed found' hashed' differ e =
    let (_, _, (named, usable, _, _)) =
      accepted-Passes json digest store request submission a (ap (λ p. p.1) e) in
    let b =
      accept-Bound json digest store within request submission k hash v store' a key
        (named, usable, found, hashed) e in
    accept_found json digest (after json digest store' later) request' submission' k hash' v' b.held
      key' (ap is_blank caller ∙ named, ap valid_key (key' ∙ sym key) ∙ usable, found', hashed')
      (ap (λ c. get (after json digest store' later) (scope_of c k)) caller
        ∙ after-kept json digest store' later (scope_of request.caller_id k) b.held b.within_limit
            b.found)
    ∙ ground (arith, b.same_hash, differ, text_eq_sound hash hash')
