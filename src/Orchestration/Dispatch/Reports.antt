-- ===== src/Orchestration/Dispatch/Reports.antt =====
-- src/domains/orchestration/dispatch-service.ts: what `dispatchReadyFrontier` reports.
use agent_pool.Prelude.{
  ℕ, ◌≡◌, refl, subst, Bool, true, inl, inr, List, [], ◌∷◌, Option, none, some, Text, select,
  is_some, Bool-cases, arith,
}
use agent_pool.Orchestration.Contracts.{QueueEnvelope, ResolvedBuilderRouting}
use agent_pool.Orchestration.Frontier.{FrontierNode, compute_ready_frontier}
use agent_pool.Orchestration.Identifiers.{derive_attempt_id, derive_job_id}
use agent_pool.Orchestration.Store.Schema.{Db, NodeRecord, AttemptRecord}
use agent_pool.Orchestration.Store.Nodes.{list_nodes}
use agent_pool.Orchestration.Store.Works.{get_imported_work}
use agent_pool.Orchestration.Store.Attempts.{find_attempt}
use agent_pool.Orchestration.Store.Views.{view}
use agent_pool.Orchestration.Store.AttemptHistory.{Continues}
use agent_pool.Orchestration.Store.Evolution.{run-Next}
use agent_pool.Orchestration.Store.Calls.{run}
use agent_pool.Orchestration.Store.Reach.{Reaches}
use agent_pool.Orchestration.Dispatch.{
  Entry, dispatched, skipped, dispatch_node, dispatch_entries, dispatch_ready_frontier,
  approved_nodes, passed_ids,
}
use agent_pool.Orchestration.Dispatch.Runs.{dispatch_node_cases, dispatch_entries-run}

-- The entry of a node: skipped, or its first attempt, which is on record.
abbrev pub IsAnswer : Db → Text → Text → Entry → Type 0
IsAnswer db w n (skipped m code) = m ≡ n
IsAnswer db w n (dispatched a job) =
    (a ≡ derive_attempt_id w n 1) × (job ≡ derive_job_id a) × (is_some (find_attempt db a) ≡ true)

-- One entry for each node, in order.
abbrev pub AreAnswers : Db → Text → List FrontierNode → List Entry → Type 0
AreAnswers db w [] [] = Unit
AreAnswers db w (f ∷ fs) (e ∷ es) = IsAnswer db w f.node.id e × AreAnswers db w fs es
AreAnswers db w _ _ = ⊥

still_some : (o o' : Option AttemptRecord) → Continues o o' → is_some o ≡ true → is_some o' ≡ true
still_some none o' c h = absurd (ground (arith, h))
still_some (some r) none c h = absurd c
still_some (some r) (some r') c h = refl

still_stored :
    (db db' : Db) (a : Text)
    → Reaches (λ t. t) db db'
    → is_some (find_attempt db a) ≡ true
    → is_some (find_attempt db' a) ≡ true
unfolding view
still_stored db db' a (cs, e) h =
    subst (λ d. is_some (find_attempt d a) ≡ true) e
      (still_some (find_attempt db a) (find_attempt (run (λ t. t) db cs) a)
        (run-Next (λ t. t) cs db a).continues h)

still_answered :
    (db db' : Db) (w n : Text) (e : Entry)
    → Reaches (λ t. t) db db'
    → IsAnswer db w n e
    → IsAnswer db' w n e
still_answered db db' w n (skipped m code) r h = h
still_answered db db' w n (dispatched a job) r (same, at_job, there) =
    (same, at_job, still_stored db db' a r there)

module _ (ensure_job : QueueEnvelope → Bool)
    (resolve : Text → Text → Text → Option ResolvedBuilderRouting) (now : ℕ) (w : Text) where
  dispatch_entries-AreAnswers :
      (records : List NodeRecord) (entries : List FrontierNode) (db : Db)
      → AreAnswers
          (dispatch_entries ensure_job resolve now w records db entries).0
          w
          (select (λ f. f.ready_after_scheduling) entries)
          (dispatch_entries ensure_job resolve now w records db entries).1
  unfolding dispatch_entries select
  dispatch_entries-AreAnswers records [] db = tt
  dispatch_entries-AreAnswers records (entry ∷ entries) db =
      let n = entry.node.id in
      let one = dispatch_node ensure_job resolve now w records db n in
      let answered : IsAnswer one.0 w n one.1 =
        dispatch_node_cases (λ t. t) ensure_job resolve now w n (λ p. IsAnswer p.0 w n p.1) db
          (λ _ _ _. refl) (λ _ _ there. (refl, refl, there)) records in
      elim (Bool-cases entry.ready_after_scheduling) [
        | inr held ↦ rw held (dispatch_entries-AreAnswers records entries db)
        | inl y ↦ rw y (
          still_answered one.0 (dispatch_entries ensure_job resolve now w records one.0 entries).0 w
              n one.1 (dispatch_entries-run (λ t. t) ensure_job resolve now w records entries one.0)
              answered,
          dispatch_entries-AreAnswers records entries one.0,
        )
      ]

  -- A dispatch of imported work answers with one entry for each node of the frontier that the
  -- scheduler does not hold back, in the order of the frontier: the entry skips that node, or names
  -- its first attempt and job, and that attempt is on record when the dispatch has ended.
  pub dispatch_ready_frontier-AreAnswers :
      (locale_le : Text → Text → Bool) (db : Db) (blockers : Text → Option Text)
      → is_some (get_imported_work db w) ≡ true
      → (entries : List Entry) × ((dispatch_ready_frontier ensure_job resolve now w locale_le db
            blockers).1
          ≡ some entries)
        × AreAnswers
            (dispatch_ready_frontier ensure_job resolve now w locale_le db blockers).0
            w
            (select
              (λ f. f.ready_after_scheduling)
              (compute_ready_frontier locale_le
                (approved_nodes db w (list_nodes db w))
                (passed_ids (list_nodes db w))
                blockers))
            entries
  unfolding dispatch_ready_frontier
  dispatch_ready_frontier-AreAnswers locale_le db blockers here =
      let records = list_nodes db w in
      let frontier =
        compute_ready_frontier locale_le (approved_nodes db w records) (passed_ids records)
          blockers in
      rw here (
        (dispatch_entries ensure_job resolve now w records db frontier).1,
        refl,
        dispatch_entries-AreAnswers records frontier db,
      )
