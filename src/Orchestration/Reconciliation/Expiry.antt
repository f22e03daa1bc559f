-- ===== src/Orchestration/Reconciliation/Expiry.antt =====
-- src/domains/orchestration/reconciliation.ts: a reconciliation ends the leases that have run out, and
-- no other.
use agent_pool.Prelude.{
  ℕ, ◌≡◌, ◌≤◌, ◌<◌, subst, ◌∙◌, Bool, true, inl, inr, none, some, Text, Bool-cases, sym, refl,
}
use agent_pool.Orchestration.Contracts.{QueueEnvelope}
use agent_pool.Orchestration.Store.Schema.{Db, AttemptRecord, LeaseRecord, leased}
use agent_pool.Orchestration.Store.Attempts.{
  find_attempt, is_leased, list_created_attempts, list_attempts_needing_reconciliation,
}
use agent_pool.Orchestration.Store.Leases.{find_lease}
use agent_pool.Orchestration.Reconciliation.{
  ensure_jobs, complete_all, reclaim_expired, reconcile, list_authorized_results,
}
use agent_pool.Orchestration.Reconciliation.Ended.{
  reclaim_all-keeps, reclaim_expired-ends, ensure_jobs-lease, ensure_jobs-leased, ensure_jobs-went,
  complete_all-lease,
}

module _ (ensure_job : QueueEnvelope → Bool) (remove_job : Text → Bool) (db : Db) (now : ℕ)
    (a : Text) (l : LeaseRecord) (found : find_lease db a ≡ some l) where
  abbrev opened : Db × Bool
  opened = ensure_jobs ensure_job remove_job db (list_created_attempts db)

  opened-lease : find_lease opened.0 a ≡ some l
  opened-lease = ensure_jobs-lease ensure_job remove_job a (list_created_attempts db) db ∙ found

  abbrev reclaimed : Db
  reclaimed = reclaim_expired now opened.0

  completed-lease :
      find_lease
        (complete_all ensure_job remove_job reclaimed (list_authorized_results reclaimed)).0
        a
      ≡ find_lease reclaimed a
  completed-lease =
      complete_all-lease ensure_job remove_job a (list_authorized_results reclaimed) reclaimed

  -- A reconciliation, also one that the queue interrupts, leaves a lease that has not expired as it
  -- was.
  pub reconcile_keeps :
      now < l.expires_at → find_lease (reconcile ensure_job remove_job db now).0 a ≡ some l
  unfolding reconcile reclaim_expired
  reconcile_keeps live =
      let kept =
        reclaim_all-keeps now a (list_attempts_needing_reconciliation opened.0 now) opened.0 l
          opened-lease live in
      elim (Bool-cases opened.1) [
        | inr stopped ↦ rw stopped opened-lease
        | inl went ↦ rw went (completed-lease ∙ kept)
      ]

  -- A reconciliation whose jobs the queue all takes ends every lease that has expired and whose
  -- attempt is leased.
  pub reconcile_ends :
      (r : AttemptRecord)
      → find_attempt db a ≡ some r
      → r.state ≡ leased
      → ((e : QueueEnvelope) → ensure_job e ≡ true)
      → l.expires_at ≤ now
      → find_lease (reconcile ensure_job remove_job db now).0 a ≡ none
  unfolding reconcile
  reconcile_ends r at_a state takes late =
      let held : is_leased r.state ≡ true = subst (λ s. is_leased s ≡ true) (sym state) refl in
      let still =
        ensure_jobs-leased ensure_job remove_job a (list_created_attempts db) db r at_a held in
      rw (ensure_jobs-went ensure_job remove_job a takes (list_created_attempts db) db)
        (completed-lease ∙ reclaim_expired-ends now a opened.0 r l still held opened-lease late)
