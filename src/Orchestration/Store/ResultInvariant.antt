-- ===== src/Orchestration/Store/ResultInvariant.antt =====
-- `createAttempt`, `acceptResult` and `completeAuthorizedResult` of
-- src/domains/orchestration/sqlite-store.ts: what their transactions do to the attempts, and that
-- they keep the invariant of the store.
use mathlib.Core.Option
use agent_pool.Prelude.{ℕ, ◌≡◌, false, none, some, Text, text_eq, text_eq_refl, arith}
use agent_pool.Orchestration.Store.Schema.{
  Db, AttemptRecord, RoutingRecord, AcceptedResult, Authorization, with_state, result_accepted,
  completed,
}
use agent_pool.Orchestration.Store.Attempts.{find_attempt, find_routing, attempt_inserted}
use agent_pool.Orchestration.Store.Leases.{find_lease}
use agent_pool.Orchestration.Store.Results.{
  find_accepted, find_authorization, WorkerResult, new_accepted, new_authorization, stored,
  completed_result,
}
use agent_pool.Orchestration.Store.Views.{view, Inv, Inv-step}
use agent_pool.Orchestration.Store.Queries.{
  attempt-with_state, attempt-insert, routing-insert, accepted-insert, authorization-insert,
  authorization-delete,
}

module _ (db : Db) (attempt : AttemptRecord) (routing : RoutingRecord) where
  pub view-attempt_inserted_other :
      attempt.attempt_id ≡ routing.attempt_id
      → (b : Text) → text_eq attempt.attempt_id b ≡ false
      → view (attempt_inserted db attempt routing) b ≡ view db b
  unfolding attempt_inserted view find_attempt find_lease find_routing find_accepted
      find_authorization
  view-attempt_inserted_other same b other =
      ground (arith, attempt-insert b attempt db.attempts, routing-insert b routing db.routing)

  pub view-attempt_inserted :
      attempt.attempt_id ≡ routing.attempt_id
      → find_attempt db attempt.attempt_id ≡ none
      → find_routing db attempt.attempt_id ≡ none
      → view (attempt_inserted db attempt routing) attempt.attempt_id
        ≡ record (view db attempt.attempt_id) { attempt = some attempt; routing = some routing }
  unfolding attempt_inserted view find_attempt find_lease find_routing find_accepted
      find_authorization
  view-attempt_inserted same fresh unrouted = ground (
    arith,
    text_eq_refl attempt.attempt_id,
    attempt-insert attempt.attempt_id attempt db.attempts,
    routing-insert attempt.attempt_id routing db.routing,
  )

  pub attempt_inserted-Inv :
      attempt.attempt_id ≡ routing.attempt_id
      → find_attempt db attempt.attempt_id ≡ none
      → find_routing db attempt.attempt_id ≡ none
      → Inv db
      → Inv (attempt_inserted db attempt routing)
  unfolding view
  attempt_inserted-Inv same fresh unrouted inv =
      Inv-step attempt.attempt_id db (attempt_inserted db attempt routing)
        (view-attempt_inserted_other same)
        (rw (view-attempt_inserted same fresh unrouted)
          (let s = inv attempt.attempt_id in ground arith))
        inv

module _ (db : Db) (r : WorkerResult) (now version : ℕ) where
  pub view-stored_other :
      (b : Text) → text_eq r.attempt_id b ≡ false → view (stored db r now version) b ≡ view db b
  unfolding stored view find_attempt find_lease find_routing find_accepted find_authorization
  view-stored_other b other = ground (
    arith,
    attempt-with_state r.attempt_id b result_accepted db.attempts,
    accepted-insert b (new_accepted r now) db.accepted_results,
    authorization-insert b (new_authorization r version now) db.authorizations,
  )

  pub view-stored :
      find_accepted db r.attempt_id ≡ none
      → find_authorization db r.attempt_id ≡ none
      → view (stored db r now version) r.attempt_id ≡ record (view db r.attempt_id) {
        attempt = Option.map (with_state result_accepted) (find_attempt db r.attempt_id);
        accepted = some (new_accepted r now);
        authorization = some (new_authorization r version now);
      }
  unfolding stored view find_attempt find_lease find_routing find_accepted find_authorization
  view-stored first free = ground (
    arith,
    text_eq_refl r.attempt_id,
    attempt-with_state r.attempt_id r.attempt_id result_accepted db.attempts,
    accepted-insert r.attempt_id (new_accepted r now) db.accepted_results,
    authorization-insert r.attempt_id (new_authorization r version now) db.authorizations,
  )

  pub stored-Inv :
      (attempt : AttemptRecord)
      → find_attempt db r.attempt_id ≡ some attempt
      → find_accepted db r.attempt_id ≡ none
      → find_authorization db r.attempt_id ≡ none
      → attempt.node_id ≡ r.node_id
      → attempt.work_id ≡ r.work_id
      → r.expected_node_version ≡ version
      → Inv db
      → Inv (stored db r now version)
  unfolding view new_accepted new_authorization
  stored-Inv attempt e first free node work same inv =
      Inv-step r.attempt_id db (stored db r now version) view-stored_other
        (rw (view-stored first free) (let s = inv r.attempt_id in ground arith)) inv

module _ (db : Db) (w n a : Text) (auth : Authorization) (result : AcceptedResult) where
  pub view-completed_result_other :
      (b : Text) → text_eq a b ≡ false → view (completed_result db w n a auth result) b ≡ view db b
  unfolding completed_result view find_attempt find_lease find_routing find_accepted
      find_authorization
  view-completed_result_other b other = ground (
    arith,
    attempt-with_state a b completed db.attempts,
    authorization-delete a b db.authorizations,
  )

  pub view-completed_result : view (completed_result db w n a auth result) a ≡ record (view db a) {
    attempt = Option.map (with_state completed) (find_attempt db a);
    authorization = none;
  }
  unfolding completed_result view find_attempt find_lease find_routing find_accepted
      find_authorization
  view-completed_result = ground (
    arith,
    text_eq_refl a,
    attempt-with_state a a completed db.attempts,
    authorization-delete a a db.authorizations,
  )

  pub completed_result-Inv : Inv db → Inv (completed_result db w n a auth result)
  unfolding view
  completed_result-Inv inv =
      Inv-step a db (completed_result db w n a auth result) view-completed_result_other
        (rw view-completed_result (let s = inv a in ground arith)) inv
