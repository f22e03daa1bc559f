-- ===== src/WorkIntake/Intake/Isolation.antt =====
-- src/domains/work-intake/direct-intake.ts: what a submission leaves as it was.
use agent_pool.Prelude.{
  ◌≡◌, ◌≢◌, ◌⊎◌, refl, sym, ap, ◌∙◌, subst, true, false, inl, inr, Option, some, Text, text_eq,
  text_eq_sound, ◌≤◌, length, Bool-cases,
}
use mathlib.Core.Option.{some-injective}
use agent_pool.Js.{Value}
use agent_pool.WorkIntake.Idempotency.{IdempotencyRecord, InMemoryStore, get, direct_task_route}
use agent_pool.WorkIntake.Idempotency.ScopeKeys.{idempotency_scope_key-injective}
use agent_pool.WorkIntake.Intake.{DirectTaskRequest, new_acceptance, scope_of, accept_direct_tasks}
use agent_pool.WorkIntake.Intake.Cases.{IsRefusal, accept_direct_tasks_cases}
use agent_pool.WorkIntake.Intake.Bindings.{put-get}

-- A submission that is refused leaves the store as it was.
pub accept_direct_tasks-IsRefusal :
    (json : Value → Option Text) (digest : Text → Text) (store : InMemoryStore)
    (request : DirectTaskRequest) (submission : Text)
    → IsRefusal (accept_direct_tasks json digest store request submission).1
    → (accept_direct_tasks json digest store request submission).0 ≡ store
accept_direct_tasks-IsRefusal json digest store request submission =
    accept_direct_tasks_cases json digest store request submission
      (λ out. IsRefusal out.1 → out.0 ≡ store) (λ o refused h. refl)
      (λ k hash v r key passes found same h. refl) (λ hash v key passes h. refl)
      (λ k hash v s key passes fresh taken h. elim h [ ])

scope_of-other :
    (caller caller' k k' : Text)
    → (caller' ≢ caller) ⊎ (k' ≢ k)
    → text_eq (scope_of caller k) (scope_of caller' k') ≡ false
scope_of-other caller caller' k k' differ =
    elim (Bool-cases (text_eq (scope_of caller k) (scope_of caller' k'))) [
      | inr other ↦ other
      | inl same ↦
          let parts =
            idempotency_scope_key-injective caller direct_task_route k caller' direct_task_route k'
              (text_eq_sound (scope_of caller k) (scope_of caller' k') same) in
          elim differ [
            | inl callers ↦ absurd (callers (sym parts.0))
            | inr keys ↦ absurd (keys (sym parts.2))
          ]
    ]

-- In a store within its limit, a submission leaves what is held for another caller, or for another
-- key, as it was.
pub accept_direct_tasks_other :
    (json : Value → Option Text) (digest : Text → Text) (store : InMemoryStore)
    (request : DirectTaskRequest) (submission caller k : Text)
    → length store.records ≤ store.limit
    → (caller ≢ request.caller_id) ⊎ (some k ≢ request.idempotency_key)
    → get (accept_direct_tasks json digest store request submission).0 (scope_of caller k)
      ≡ get store (scope_of caller k)
accept_direct_tasks_other json digest store request submission caller k within differ =
    accept_direct_tasks_cases json digest store request submission
      (λ out. get out.0 (scope_of caller k) ≡ get store (scope_of caller k)) (λ o refused. refl)
      (λ k' hash v r key passes found same. refl) (λ hash v key passes. refl)
      (λ k' hash v s key passes fresh taken.
        (put-get store s (scope_of request.caller_id k') _ within taken).1 (scope_of caller k) (
          scope_of-other request.caller_id caller k' k (elim differ [
            | inl callers ↦ inl callers
            | inr keys ↦ inr (λ e. keys (ap some e ∙ sym key))
          ])))

-- What the store holds.
pub record IsFaithful (store : InMemoryStore) : Type 0 where
  pub within : length store.records ≤ store.limit
  pub gated :
      (k : Text) (r : IdempotencyRecord)
      → get store k ≡ some r
      → (r.result.gate2_required ≡ true)
        × (r.result.decomposition_invoked ≡ false)
        × (r.result.payload_hash ≡ r.payload_hash)

-- A store that is within its limit, and whose results all require gate 2, were not decomposed and
-- have the hash that they are held with, is such a store after any submission.
pub accept_direct_tasks-IsFaithful :
    (json : Value → Option Text) (digest : Text → Text) (store : InMemoryStore)
    (request : DirectTaskRequest) (submission : Text)
    → IsFaithful store
    → IsFaithful (accept_direct_tasks json digest store request submission).0
unfolding new_acceptance
accept_direct_tasks-IsFaithful json digest store request submission f =
    accept_direct_tasks_cases json digest store request submission (λ out. IsFaithful out.0)
      (λ o refused. f) (λ k hash v r key passes found same. f) (λ hash v key passes. f)
      (λ k hash v s key passes fresh taken.
        let kept = put-get store s (scope_of request.caller_id k) _ f.within taken in
        record {
          within = kept.2;
          gated = λ j r found. elim (Bool-cases (text_eq (scope_of request.caller_id k) j)) [
            | inl here ↦
                subst
                  (λ r.
                    (r.result.gate2_required ≡ true)
                    × (r.result.decomposition_invoked ≡ false)
                    × (r.result.payload_hash ≡ r.payload_hash))
                  (some-injective _ r (
                    sym kept.0
                    ∙ (ap (get s) (text_eq_sound (scope_of request.caller_id k) j here) ∙ found)))
                  (refl, refl, refl)
            | inr other ↦ f.gated j r (sym (kept.1 j other) ∙ found)
          ];
        })
