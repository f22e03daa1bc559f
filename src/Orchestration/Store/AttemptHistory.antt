-- ===== src/Orchestration/Store/AttemptHistory.antt =====
-- Attempts over any history of the store of src/domains/orchestration/sqlite-store.ts: lease
-- generations grow, the identity of an attempt and its accepted result stay, and what is settled
-- stays settled.
use mathlib.Core.Option
use agent_pool.Prelude.{
  ℕ, ◌+◌, ◌≤◌, ◌≡◌, refl, sym, subst, true, false, ◌&&◌, inl, inr, Option, none, some, Text,
  text_eq, text_eq_sound, arith, Bool-cases, select_one, select_one-update, is_some, if◌then◌else◌,
}
use agent_pool.Orchestration.Lifecycle.{NodeState}
use agent_pool.Orchestration.Store.Schema.{
  Db, NodeRecord, AttemptRecord, AcceptedResult, Authorization, LeaseRecord, RoutingRecord,
  AuditEvent, AttemptState, with_state, attempt_at, accepted_at, log, created, result_accepted,
  completed,
}
use agent_pool.Orchestration.Store.Nodes.{moved}
use agent_pool.Orchestration.Store.Attempts.{
  find_attempt, find_routing, is_created, attempt_inserted, set_job_id,
}
use agent_pool.Orchestration.Store.Leases.{find_lease, claimed, renewed, returned}
use agent_pool.Orchestration.Store.Results.{
  WorkerResult, stored, completed_result, find_accepted, find_authorization,
}
use agent_pool.Orchestration.Store.Views.{AttemptView, view}
use agent_pool.Orchestration.Store.LeaseInvariant.{
  view-claimed, view-claimed_other, view-renewed, view-renewed_other, view-returned,
  view-returned_other,
}
use agent_pool.Orchestration.Store.ResultInvariant.{
  view-attempt_inserted, view-attempt_inserted_other, view-stored, view-stored_other,
  view-completed_result, view-completed_result_other,
}
use agent_pool.Orchestration.Store.History.{with_job}

-- The attempt is still there, is the same attempt of the same node, and its generation did not fall.
abbrev pub Continues : Option AttemptRecord → Option AttemptRecord → Type 0
Continues none o = Unit
Continues (some r) none = ⊥
Continues (some r) (some r') =
    (r.lease_generation ≤ r'.lease_generation)
    × (r'.attempt_id ≡ r.attempt_id)
    × (r'.work_id ≡ r.work_id)
    × (r'.node_id ≡ r.node_id)
    × (r'.attempt_number ≡ r.attempt_number)

-- An accepted result stays, word for word.
abbrev pub Stays : Option AcceptedResult → Option AcceptedResult → Type 0
Stays none o = Unit
Stays (some x) o = o ≡ some x

-- Once a result is accepted, an authorization can be used up but never comes back.
abbrev pub Settles : AttemptView → AttemptView → Type 0
Settles v v' = is_some v.accepted ≡ true → v.authorization ≡ none → v'.authorization ≡ none

pub record Evolves (v v' : AttemptView) : Type 0 where
  pub continues : Continues v.attempt v'.attempt
  pub stays : Stays v.accepted v'.accepted
  pub settles : Settles v v'

Stays-refl : (o : Option AcceptedResult) → Stays o o
Stays-refl none = tt
Stays-refl (some x) = refl

Continues-with_state :
    (s : AttemptState) (o : Option AttemptRecord) → Continues o (Option.map (with_state s) o)
Continues-with_state s none = tt
Continues-with_state s (some r) = ground arith

-- Only the attempt and its lease change.
evolve :
    (v : AttemptView) (o : Option AttemptRecord) (l : Option LeaseRecord)
    → Continues v.attempt o
    → Evolves v (record v { attempt = o; lease = l })
evolve v o l c = record { continues = c; stays = Stays-refl v.accepted; settles = λ _ e. e }

Continues-refl : (o : Option AttemptRecord) → Continues o o
Continues-refl none = tt
Continues-refl (some r) = ground arith

pub Evolves-refl : (v : AttemptView) → Evolves v v
Evolves-refl v = evolve v v.attempt v.lease (Continues-refl v.attempt)

-- A transaction on attempt `a` is judged at `a` alone.
Evolves-at :
    (a : Text) (db db' : Db)
    → ((b : Text) → text_eq a b ≡ false → view db' b ≡ view db b)
    → Evolves (view db a) (view db' a)
    → (b : Text) → Evolves (view db b) (view db' b)
Evolves-at a db db' frame here b = elim (Bool-cases (text_eq a b)) [
  | inl same ↦ subst (λ c. Evolves (view db c) (view db' c)) (text_eq_sound a b same) here
  | inr other ↦ subst (Evolves (view db b)) (sym (frame b other)) (Evolves-refl (view db b))
]

module _ (db : Db) where
  abbrev pub Next : Db → Type 0
  Next db' = (b : Text) → Evolves (view db b) (view db' b)

  pub same : Next db
  same b = Evolves-refl (view db b)

  pub Next-claimed :
      (digest : Text → Text) (a owner token : Text) (expires issued : ℕ) (r : AttemptRecord)
      → find_attempt db a ≡ some r
      → find_lease db a ≡ none
      → Next (claimed digest db a owner token (r.lease_generation + 1) expires issued)
  unfolding view
  Next-claimed digest a owner token expires issued r e free =
      Evolves-at a db _ (view-claimed_other db a digest owner token _ expires issued) (
        rw (view-claimed db a digest owner token (r.lease_generation + 1) expires issued free)
          (evolve (view db a) _ _ (rw e (ground arith))))

  pub Next-renewed : (a : Text) (expires : ℕ) (l : LeaseRecord) → Next (renewed db a expires l)
  unfolding view
  Next-renewed a expires l = Evolves-at a db _ (view-renewed_other db a expires l) (
      rw (view-renewed db a expires l)
        (evolve (view db a) _ _ (Continues-refl (find_attempt db a))))

  pub Next-returned : (a : Text) → Next (returned db a)
  unfolding view
  Next-returned a = Evolves-at a db _ (view-returned_other db a) (
      rw (view-returned db a)
        (evolve (view db a) _ _ (Continues-with_state created (find_attempt db a))))

  pub Next-attempt_inserted :
      (attempt : AttemptRecord) (routing : RoutingRecord)
      → attempt.attempt_id ≡ routing.attempt_id
      → find_attempt db attempt.attempt_id ≡ none
      → find_routing db attempt.attempt_id ≡ none
      → Next (attempt_inserted db attempt routing)
  unfolding view
  Next-attempt_inserted attempt routing same_id fresh unrouted =
      Evolves-at attempt.attempt_id db _ (view-attempt_inserted_other db attempt routing same_id) (
        rw (view-attempt_inserted db attempt routing same_id fresh unrouted) (record {
          continues = rw fresh tt;
          stays = Stays-refl (find_accepted db attempt.attempt_id);
          settles = λ _ e. e;
        }))

  pub Next-stored :
      (r : WorkerResult) (now version : ℕ)
      → find_accepted db r.attempt_id ≡ none
      → find_authorization db r.attempt_id ≡ none
      → Next (stored db r now version)
  unfolding view
  Next-stored r now version first free =
      Evolves-at r.attempt_id db _ (view-stored_other db r now version) (
        rw (view-stored db r now version first free) (record {
          continues = Continues-with_state result_accepted (find_attempt db r.attempt_id);
          stays = rw first tt;
          settles = λ there _. absurd (let none_there = first in ground arith);
        }))

  pub Next-completed_result :
      (w n a : Text) (auth : Authorization) (result : AcceptedResult)
      → Next (completed_result db w n a auth result)
  unfolding view
  Next-completed_result w n a auth result =
      Evolves-at a db _ (view-completed_result_other db w n a auth result) (
        rw (view-completed_result db w n a auth result) (record {
          continues = Continues-with_state completed (find_attempt db a);
          stays = Stays-refl (find_accepted db a);
          settles = λ _ _. refl;
        }))

  pub Next-moved :
      (w n : Text) (v : ℕ) (s : NodeState) (row : NodeRecord) → Next (moved db w n v s row)
  unfolding moved view find_attempt find_routing find_lease find_accepted find_authorization
  Next-moved w n v s row = same

  pub Next-log : (e : AuditEvent) (db' : Db) → Next db' → Next (log e db')
  unfolding view find_attempt find_routing find_lease find_accepted find_authorization
  Next-log e db' h = h

  pub Next-set_job_id : (a job : Text) → Next (set_job_id db a job)
  unfolding set_job_id view find_attempt find_routing find_lease find_accepted find_authorization
  Next-set_job_id a job b = record {
    continues =
        rw
          (select_one-update (attempt_at b) (λ r. attempt_at a r && is_created r.state)
            (with_job job) (λ r. refl) db.attempts)
          (kept (select_one (attempt_at b) db.attempts));
    stays = Stays-refl (select_one (accepted_at b) db.accepted_results);
    settles = λ _ e. e;
  }
    where
      kept :
          (o : Option AttemptRecord)
          → Continues o (
              Option.map
                (λ r. if attempt_at a r && is_created r.state then with_job job r else r)
                o)
      kept none = tt
      kept (some r) = ground arith
