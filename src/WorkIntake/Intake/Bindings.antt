-- ===== src/WorkIntake/Intake/Bindings.antt =====
-- src/domains/work-intake/direct-intake.ts: what the store has under a key once a submission with it
-- was accepted.
use agent_pool.Prelude.{
  ◌≡◌, ◌≢◌, ◌⊎◌, refl, sym, ap, ◌∙◌, subst, false, inl, inr, Option, some, Text, text_eq,
  text_eq_sound, ◌≤◌, length, Option-cases, arith,
}
use mathlib.Core.Option.{some-injective}
use agent_pool.Js.{Value}
use agent_pool.WorkIntake.Contracts.{DirectTaskAcceptance, accepted, rejected}
use agent_pool.WorkIntake.Idempotency.{IdempotencyRecord, InMemoryStore, get, put}
use agent_pool.WorkIntake.Idempotency.ScopeKeys.{put_cases}
use agent_pool.WorkIntake.Submissions.{ValidatedSubmission}
use agent_pool.WorkIntake.Canonical.{hash_payload}
use agent_pool.WorkIntake.Intake.{
  DirectTaskRequest, Outcome, threw, returned, new_acceptance, as_replayed, scope_of,
  replay_or_conflict, accept_fresh, settle, accept_hashed, accept_valid, accept_direct_tasks,
}
use agent_pool.WorkIntake.Intake.Cases.{IsRefusal, Passes, accept_direct_tasks_cases}

-- What the store holds under a key once a submission with it was accepted.
pub record Bound (store : InMemoryStore) (scope : Text) (hash : Text) (a : DirectTaskAcceptance)
    : Type 0 where
  pub held : IdempotencyRecord
  pub found : get store scope ≡ some held
  pub within_limit : length store.records ≤ store.limit
  pub same_hash : held.payload_hash ≡ hash
  pub same_result : as_replayed a ≡ as_replayed held.result

-- The record that a new acceptance is put in.
abbrev recorded : Text → DirectTaskAcceptance → IdempotencyRecord
recorded hash a = record { payload_hash = hash; result = a }

pub put-get :
    (store store' : InMemoryStore) (k : Text) (r : IdempotencyRecord)
    → length store.records ≤ store.limit
    → put store k r ≡ some store'
    → (get store' k ≡ some r)
      × ((j : Text) → text_eq k j ≡ false → get store' j ≡ get store j)
      × (length store'.records ≤ store'.limit)
put-get store store' k r within e = elim (put_cases store k r within) [
  | inl (fresh, full, refused) ↦ absurd (cc (e, refused))
  | inr (s, taken, back, others, fits, limit) ↦
      subst
        (λ s'.
          (get s' k ≡ some r)
          × ((j : Text) → text_eq k j ≡ false → get s' j ≡ get store j)
          × (length s'.records ≤ s'.limit))
        (some-injective s store' (sym taken ∙ e)) (back, others, fits)
]

module _ (json : Value → Option Text) (digest : Text → Text) (store : InMemoryStore)
    (within : length store.records ≤ store.limit) (request : DirectTaskRequest)
    (submission : Text) where
  -- Once past the checks, a submission is decided by the store alone.
  accept-Passes :
      (hash : Text) (v : ValidatedSubmission)
      → Passes json digest request hash v
      → accept_direct_tasks json digest store request submission
        ≡ accept_hashed store request.caller_id request.idempotency_key submission hash v
  unfolding accept_direct_tasks accept_valid hash_payload
  accept-Passes hash v (named, usable, found, hashed) = rw (named, usable, found, hashed) refl

  -- How a submission with a key came to be accepted.
  accepted_keyed :
      (k hash : Text) (v : ValidatedSubmission) (store' : InMemoryStore) (a : DirectTaskAcceptance)
      → accept_hashed store request.caller_id (some k) submission hash v
        ≡ (store', returned (accepted a))
      → ((r : IdempotencyRecord) × (get store (scope_of request.caller_id k) ≡ some r)
          × (r.payload_hash ≡ hash)
          × (store' ≡ store)
          × (a ≡ as_replayed r.result))
        ⊎ ((put store
                (scope_of request.caller_id k)
                (recorded hash (new_acceptance request.caller_id submission (some k) hash v))
              ≡ some store')
            × (a ≡ new_acceptance request.caller_id submission (some k) hash v))
  unfolding accept_hashed accept_fresh replay_or_conflict settle
  accepted_keyed k hash v store' a e =
      elim (Option-cases (get store (scope_of request.caller_id k))) [
        | inr (r, there) ↦ inl (
          r,
          there,
          ground (arith, e, there, text_eq_sound r.payload_hash hash),
          ground (arith, e, there),
          ground (arith, e, there),
        )
        | inl fresh ↦
            elim (Option-cases (
              put store (scope_of request.caller_id k)
                (recorded hash (new_acceptance request.caller_id submission (some k) hash v)))) [
                  | inl full ↦ absurd (ground (arith, e, fresh, full))
                  | inr (store'', taken) ↦ inr (ground (arith, e, fresh, taken))
                ]
      ]

  -- A key that a submission was accepted with is bound to the hash of its payload.
  pub accept-Bound :
      (k hash : Text) (v : ValidatedSubmission) (store' : InMemoryStore) (a : DirectTaskAcceptance)
      → request.idempotency_key ≡ some k
      → Passes json digest request hash v
      → accept_direct_tasks json digest store request submission ≡ (store', returned (accepted a))
      → Bound store' (scope_of request.caller_id k) hash a
  accept-Bound k hash v store' a key passes e =
      elim (accepted_keyed k hash v store' a (
        ap (λ o. accept_hashed store request.caller_id o submission hash v) (sym key)
        ∙ (sym (accept-Passes hash v passes) ∙ e))) [
          | inl (r, there, same, unchanged, result) ↦ record {
            held = r;
            found = ap (λ s. get s (scope_of request.caller_id k)) unchanged ∙ there;
            within_limit = subst (λ s. length s.records ≤ s.limit) (sym unchanged) within;
            same_hash = same;
            same_result = ap as_replayed result;
          }
          | inr (taken, result) ↦
              let stored =
                recorded hash (new_acceptance request.caller_id submission (some k) hash v) in
              record {
                held = stored;
                found = (put-get store store' (scope_of request.caller_id k) stored within taken).0;
                within_limit =
                    (put-get store store' (scope_of request.caller_id k) stored within taken).2;
                same_hash = refl;
                same_result = ap as_replayed result;
              }
        ]

refusal-accepted :
    (o : Outcome) (a : DirectTaskAcceptance) → IsRefusal o → o ≢ returned (accepted a)
refusal-accepted threw a h e = ground (arith, e)
refusal-accepted (returned (rejected vs)) a h e = ground (arith, e)
refusal-accepted (returned (accepted b)) a h e = elim h [ ]

pub accepted-Passes :
    (json : Value → Option Text) (digest : Text → Text) (store : InMemoryStore)
    (request : DirectTaskRequest) (submission : Text) (a : DirectTaskAcceptance)
    → (accept_direct_tasks json digest store request submission).1 ≡ returned (accepted a)
    → (hash : Text) × (v : ValidatedSubmission) × Passes json digest request hash v
accepted-Passes json digest store request submission a =
    accept_direct_tasks_cases json digest store request submission
      (λ out.
        out.1 ≡ returned (accepted a)
        → (hash : Text) × (v : ValidatedSubmission) × Passes json digest request hash v)
      (λ o refused e. absurd (refusal-accepted o a refused e))
      (λ k hash v r key passes found same e. (hash, v, passes))
      (λ hash v key passes e. (hash, v, passes))
      (λ k hash v s key passes fresh taken e. (hash, v, passes))

-- What the store has under the key decides a submission that is past the checks.
pub accept_found :
    (json : Value → Option Text) (digest : Text → Text) (store : InMemoryStore)
    (request : DirectTaskRequest) (submission k hash : Text) (v : ValidatedSubmission)
    (r : IdempotencyRecord)
    → request.idempotency_key ≡ some k
    → Passes json digest request hash v
    → get store (scope_of request.caller_id k) ≡ some r
    → accept_direct_tasks json digest store request submission ≡ replay_or_conflict store hash r
unfolding accept_direct_tasks accept_valid accept_hashed hash_payload
accept_found json digest store request submission k hash v r key (named, usable, checked, hashed)
      found =
    rw (named, usable, checked, hashed, key, found, accept_hashed) refl
