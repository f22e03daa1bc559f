-- ===== src/Orchestration/Dispatch/Runs.antt =====
-- src/domains/orchestration/dispatch-service.ts, as a client of the store: what `dispatchReadyFrontier`
-- does to the database is a history of the store's calls.
use agent_pool.Prelude.{
  ℕ, ◌≡◌, Bool, inl, inr, List, [], ◌∷◌, Option, Text, text_eq, select_one, select_one-insert,
  is_some, true, text_eq_refl, Bool-cases, Option-cases, arith,
}
use agent_pool.Orchestration.Lifecycle.{NodeState}
use agent_pool.Orchestration.Contracts.{QueueEnvelope, ResolvedBuilderRouting}
use agent_pool.Orchestration.Frontier.{FrontierNode}
use agent_pool.Orchestration.Identifiers.{derive_attempt_id, derive_job_id}
use agent_pool.Orchestration.Store.Schema.{
  Db, NodeRecord, AttemptRecord, Result, ok, err, attempt_at,
}
use agent_pool.Orchestration.Store.Nodes.{transition_node}
use agent_pool.Orchestration.Store.Attempts.{
  create_attempt, find_attempt, attempt_inserted, new_attempt,
}
use agent_pool.Orchestration.Store.Outcomes.{create_attempt_cases}
use agent_pool.Orchestration.Store.Calls.{transitions, creates, step}
use agent_pool.Orchestration.Store.Reach.{Reaches, Reaches-refl, Reaches-trans, Reaches-call}
use agent_pool.Orchestration.Dispatch.{
  Entry, dispatched, skipped, SkipCode, attempt_creation_failed, node_record_missing,
  node_transition_failed, node_not_dispatchable, routing_unavailable, routing_invalid,
  queue_enqueue_failed, enqueue, dispatch_ready, dispatch_moved, dispatch_node, dispatch_entries,
}

-- An attempt that was answered is on record.
abbrev Stored : Text → Db × Result AttemptRecord → Type 0
Stored a (db, err c) = Unit
Stored a (db, ok attempt) = is_some (find_attempt db a) ≡ true

create_attempt-Stored :
    (db : Db) (w n a : Text) (k : ℕ) (job : Text) (routing : ResolvedBuilderRouting) (now : ℕ)
    → Stored a (create_attempt db w n a k job routing now)
unfolding find_attempt attempt_inserted new_attempt
create_attempt-Stored db w n a k job routing now =
    create_attempt_cases db w n (Stored a) a k job routing now (λ _. tt)
      (λ existing found. ground (arith, found))
      (λ _ _ _ fresh _. ground (
        arith,
        fresh,
        text_eq_refl a,
        select_one-insert (attempt_at a) (new_attempt w n a k job now) db.attempts,
      ))

module _ (digest : Text → Text) where
  module _ (ensure_job : QueueEnvelope → Bool)
      (resolve : Text → Text → Text → Option ResolvedBuilderRouting) (now : ℕ) (w n : Text)
      (P : Db × Entry → Type 0) (db : Db)
      (skips : (db' : Db) (code : SkipCode) → Reaches digest db db' → P (db', skipped n code))
      (sends : (db' : Db)
        → Reaches digest db db'
        → is_some (find_attempt db' (derive_attempt_id w n 1)) ≡ true
        → P (
          db',
          dispatched (derive_attempt_id w n 1) (derive_job_id (derive_attempt_id w n 1)),
        )) where
    enqueue_cases :
        (p : Db × Result AttemptRecord)
        → Reaches digest db p.0
        → Stored (derive_attempt_id w n 1) p
        → P (enqueue ensure_job resolve now w p n)
    unfolding enqueue
    enqueue_cases (db', err c) r stored_row = skips db' attempt_creation_failed r
    enqueue_cases (db', ok attempt) r stored_row =
        ground (arith, skips db' queue_enqueue_failed r, sends db' r stored_row)

    Reaches-creates :
        (d : Db) (a : Text) (routing : ResolvedBuilderRouting)
        → Reaches digest d (create_attempt d w n a 1 (derive_job_id a) routing now).0
    unfolding step
    Reaches-creates d a routing =
        Reaches-call digest d (creates w n a 1 (derive_job_id a) routing now)

    Reaches-transitions : (v : ℕ) → Reaches digest db (transition_node db w n v NodeState.ready).0
    unfolding step
    Reaches-transitions v = Reaches-call digest db (transitions w n v NodeState.ready)

    dispatch_ready_cases :
        (d : Db) → Reaches digest db d → P (dispatch_ready ensure_job resolve now w d n)
    unfolding dispatch_ready
    dispatch_ready_cases d r =
        let a = derive_attempt_id w n 1 in
        elim (Option-cases (resolve w n a)) [
          | inl e ↦ rw (e, dispatch_ready) (skips d routing_unavailable r)
          | inr (routing, e) ↦
              let created =
                Reaches-trans digest db d (create_attempt d w n a 1 (derive_job_id a) routing now).0
                  r (Reaches-creates d a routing) in
              rw (e, dispatch_ready)
                (ground (
                  arith,
                  skips d routing_invalid r,
                  enqueue_cases (create_attempt d w n a 1 (derive_job_id a) routing now) created
                      (create_attempt-Stored d w n a 1 (derive_job_id a) routing now),
                ))
        ]

    dispatch_moved_cases :
        (p : Db × Result NodeRecord)
        → Reaches digest db p.0
        → P (dispatch_moved ensure_job resolve now w p n)
    unfolding dispatch_moved
    dispatch_moved_cases (d, err c) r = skips d node_transition_failed r
    dispatch_moved_cases (d, ok row) r =
        ground (arith, skips d node_not_dispatchable r, dispatch_ready_cases d r)

    pub dispatch_node_cases :
        (records : List NodeRecord) → P (dispatch_node ensure_job resolve now w records db n)
    unfolding dispatch_node
    dispatch_node_cases records =
        elim (Option-cases (select_one (λ r. text_eq r.node_id n) records)) [
          | inl e ↦ rw (e, dispatch_node) (skips db node_record_missing (Reaches-refl digest db))
          | inr (row, e) ↦
              rw (e, dispatch_node)
                (ground (
                  arith,
                  dispatch_moved_cases (transition_node db w n row.version NodeState.ready)
                      (Reaches-transitions row.version),
                  dispatch_moved_cases (db, ok row) (Reaches-refl digest db),
                ))
        ]

  module _ (ensure_job : QueueEnvelope → Bool)
      (resolve : Text → Text → Text → Option ResolvedBuilderRouting) (now : ℕ) (w : Text) where
    pub dispatch_entries-run :
        (records : List NodeRecord) (entries : List FrontierNode) (db : Db)
        → Reaches digest db (dispatch_entries ensure_job resolve now w records db entries).0
    unfolding dispatch_entries
    dispatch_entries-run records [] db = Reaches-refl digest db
    dispatch_entries-run records (entry ∷ entries) db =
        let after = (dispatch_node ensure_job resolve now w records db entry.node.id).0 in
        let one : Reaches digest db after =
          dispatch_node_cases ensure_job resolve now w entry.node.id (λ p. Reaches digest db p.0) db
            (λ _ _ r. r) (λ _ r _. r) records in
        elim (Bool-cases entry.ready_after_scheduling) [
          | inl y ↦ rw y (
              Reaches-trans digest db after
                (dispatch_entries ensure_job resolve now w records after entries).0 one
                (dispatch_entries-run records entries after))
          | inr no_entry ↦ rw no_entry (dispatch_entries-run records entries db)
        ]
