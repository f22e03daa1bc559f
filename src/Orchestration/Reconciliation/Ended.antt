-- ===== src/Orchestration/Reconciliation/Ended.antt =====
-- src/domains/orchestration/reconciliation.ts: the leases after a reconciliation.
use agent_pool.Prelude.{
  ℕ, ◌≡◌, ◌≤◌, ◌<◌, refl, sym, ap, subst, ◌∙◌, Bool, true, false, ◌&&◌, ◌||◌, inl, inr, List, [],
  ◌∷◌, none, some, Text, codes, text_eq, text_eq_sound, select_one, select_one-update,
  select_one-select, select_one_holds, is_some, Bool-cases, Option-cases, arith,
}
use agent_pool.Orchestration.Lifecycle.{is_terminal}
use agent_pool.Orchestration.Contracts.{QueueEnvelope}
use agent_pool.Orchestration.Identifiers.{make_queue_envelope}
use agent_pool.Orchestration.Store.Schema.{
  Db, AttemptRecord, NodeRecord, LeaseRecord, Authorization, Result, ok, err, attempt_at,
  AttemptState, leased,
}
use agent_pool.Orchestration.Store.Nodes.{list_nodes}
use agent_pool.Orchestration.Store.Attempts.{
  find_attempt, is_leased, is_created, set_job_id, has_expired_lease,
  list_attempts_needing_reconciliation,
}
use agent_pool.Orchestration.Store.Leases.{find_lease, reclaim_lease}
use agent_pool.Orchestration.Store.Results.{complete_authorized_result, completed_result}
use agent_pool.Orchestration.Store.Outcomes.{complete_authorized_result_cases}
use agent_pool.Orchestration.Store.History.{with_job}
use agent_pool.Orchestration.Reconciliation.{
  ensure_jobs, finish_job, complete_one, complete_all, reclaim_all, reclaim_expired,
}
use agent_pool.Orchestration.Reconciliation.Leases.{
  reclaim_lease-keeps, reclaim_lease-none, reclaim_lease-IsOver, reclaim_lease-over, IsOver,
}

-- A row that one query finds, and that another asks for too.
asked_too :
    {R : Type 0} (q w : R → Bool) (rs : List R) (r : R)
    → select_one q rs ≡ some r
    → w r ≡ true
    → is_some (select_one w rs) ≡ true
unfolding select_one
asked_too q w [] r e h = absurd (ground (arith, e))
asked_too q w (x ∷ rs) r e h = elim (Bool-cases (w x)) [
  | inl asked ↦ rw asked refl
  | inr other ↦ elim (Bool-cases (q x)) [
    | inl here ↦
        let same : x ≡ r = ground (arith, e, here) in absurd (ground (arith, h, other, ap w same))
    | inr there ↦ rw other (asked_too q w rs r (ground (arith, e, there)) h)
  ]
]

module _ (now : ℕ) (a : Text) where
  pub reclaim_all-keeps :
      (rs : List AttemptRecord) (db : Db) (l : LeaseRecord)
      → find_lease db a ≡ some l
      → now < l.expires_at
      → find_lease (reclaim_all now db rs) a ≡ some l
  unfolding reclaim_all
  reclaim_all-keeps [] db l found live = found
  reclaim_all-keeps (r ∷ rs) db l found live = elim (Bool-cases (is_leased r.state)) [
    | inr rests ↦ rw rests (reclaim_all-keeps rs db l found live)
    | inl held ↦ rw held (
        reclaim_all-keeps rs (reclaim_lease db r.attempt_id (codes "reconciliation") now).0 l
          (reclaim_lease-keeps now a db r.attempt_id (codes "reconciliation") l found live) live)
  ]

  reclaim_all-none :
      (rs : List AttemptRecord) (db : Db)
      → find_lease db a ≡ none
      → find_lease (reclaim_all now db rs) a ≡ none
  unfolding reclaim_all
  reclaim_all-none [] db gone = gone
  reclaim_all-none (r ∷ rs) db gone = elim (Bool-cases (is_leased r.state)) [
    | inr rests ↦ rw rests (reclaim_all-none rs db gone)
    | inl held ↦ rw held (
        reclaim_all-none rs (reclaim_lease db r.attempt_id (codes "reconciliation") now).0
          (reclaim_lease-none now a db r.attempt_id (codes "reconciliation") gone))
  ]

  abbrev is_held : AttemptRecord → Bool
  is_held r = attempt_at a r && is_leased r.state

  reclaim_all-ends :
      (rs : List AttemptRecord) (db : Db)
      → IsOver now a db
      → is_some (select_one is_held rs) ≡ true
      → find_lease (reclaim_all now db rs) a ≡ none
  unfolding reclaim_all select_one
  reclaim_all-ends [] db over h = absurd (ground (arith, h))
  reclaim_all-ends (r ∷ rs) db over h = elim (Bool-cases (is_leased r.state)) [
    | inr rests ↦ rw rests (reclaim_all-ends rs db over (ground (arith, h, rests)))
    | inl held ↦
        let next = (reclaim_lease db r.attempt_id (codes "reconciliation") now).0 in
        elim (Bool-cases (text_eq r.attempt_id a)) [
          | inl same ↦ rw held (
              reclaim_all-none rs next (
                subst (λ x. find_lease (reclaim_lease db x (codes "reconciliation") now).0 a ≡ none)
                  (sym (text_eq_sound r.attempt_id a same)) (reclaim_lease-over now a db over)))
          | inr other ↦ rw held (
              reclaim_all-ends rs next
                (reclaim_lease-IsOver now a db r.attempt_id (codes "reconciliation") over)
                (ground (arith, h, other)))
        ]
  ]

  pub reclaim_expired-ends :
      (db : Db) (r : AttemptRecord) (l : LeaseRecord)
      → find_attempt db a ≡ some r
      → is_leased r.state ≡ true
      → find_lease db a ≡ some l
      → l.expires_at ≤ now
      → find_lease (reclaim_expired now db) a ≡ none
  unfolding reclaim_expired find_attempt find_lease list_attempts_needing_reconciliation
      has_expired_lease
  reclaim_expired-ends db r l at_a held found late =
      let mine : text_eq r.attempt_id a ≡ true = select_one_holds (attempt_at a) db.attempts at_a in
      let expired : has_expired_lease db now r.attempt_id ≡ true =
        subst (λ x. has_expired_lease db now x ≡ true) (sym (text_eq_sound r.attempt_id a mine))
          (rw (found, has_expired_lease) (ground (arith, late))) in
      let listed =
        asked_too (attempt_at a)
          (λ x.
            (is_created x.state || (is_leased x.state && has_expired_lease db now x.attempt_id))
            && is_held x)
          db.attempts r at_a (ground (arith, mine, held, expired)) in
      reclaim_all-ends (list_attempts_needing_reconciliation db now) db
        (subst (λ o. is_some o ≡ true) (sym at_a) refl, inr (l, found, late))
        (subst (λ o. is_some o ≡ true)
          (sym (
            select_one-select is_held
              (λ x.
                is_created x.state || (is_leased x.state && has_expired_lease db now x.attempt_id))
              db.attempts))
          listed)

leased_kept :
    (db : Db) (b job a : Text) (r : AttemptRecord)
    → find_attempt db a ≡ some r
    → is_leased r.state ≡ true
    → find_attempt (set_job_id db b job) a ≡ some r
unfolding find_attempt set_job_id
leased_kept db b job a r found held =
    let not_created : is_created r.state ≡ false = apart r.state held in
    ground (
      arith,
      found,
      not_created,
      select_one-update (attempt_at a) (λ x. attempt_at b x && is_created x.state) (with_job job)
          (λ x. refl) db.attempts,
    )
  where
    apart : (s : AttemptState) → is_leased s ≡ true → is_created s ≡ false
    apart leased h = refl
    apart s h = ground (arith, h)

module _ (ensure_job : QueueEnvelope → Bool) (remove_job : Text → Bool) (a : Text) where
  -- The loop over the created attempts writes no lease and no leased attempt.
  pub ensure_jobs-lease :
      (rs : List AttemptRecord) (db : Db)
      → find_lease (ensure_jobs ensure_job remove_job db rs).0 a ≡ find_lease db a
  unfolding ensure_jobs find_lease set_job_id
  ensure_jobs-lease [] db = refl
  ensure_jobs-lease (r ∷ rs) db =
      let envelope = make_queue_envelope r.work_id r.node_id r.attempt_number in
      elim (Bool-cases (ensure_job envelope)) [
        | inr refused ↦ rw refused refl
        | inl taken ↦ rw taken (ensure_jobs-lease rs (set_job_id db r.attempt_id envelope.job_id))
      ]

  pub ensure_jobs-leased :
      (rs : List AttemptRecord) (db : Db) (held : AttemptRecord)
      → find_attempt db a ≡ some held
      → is_leased held.state ≡ true
      → find_attempt (ensure_jobs ensure_job remove_job db rs).0 a ≡ some held
  unfolding ensure_jobs
  ensure_jobs-leased [] db held found state = found
  ensure_jobs-leased (r ∷ rs) db held found state =
      let envelope = make_queue_envelope r.work_id r.node_id r.attempt_number in
      elim (Bool-cases (ensure_job envelope)) [
        | inr refused ↦ rw refused found
        | inl taken ↦ rw taken (
            ensure_jobs-leased rs (set_job_id db r.attempt_id envelope.job_id) held
              (leased_kept db r.attempt_id envelope.job_id a held found state) state)
      ]

  pub ensure_jobs-went :
      ((e : QueueEnvelope) → ensure_job e ≡ true)
      → (rs : List AttemptRecord) (db : Db) → (ensure_jobs ensure_job remove_job db rs).1 ≡ true
  unfolding ensure_jobs
  ensure_jobs-went takes [] db = refl
  ensure_jobs-went takes (r ∷ rs) db =
      let envelope = make_queue_envelope r.work_id r.node_id r.attempt_number in
      rw (takes envelope) (ensure_jobs-went takes rs (set_job_id db r.attempt_id envelope.job_id))

  -- The loop over the authorized results writes no lease.
  finish_job-db :
      (p : Db × Result NodeRecord) (x : Text) → (finish_job ensure_job remove_job p x).0 ≡ p.0
  unfolding finish_job
  finish_job-db (db, err c) x = refl
  finish_job-db (db, ok row) x = refl

  complete_one-lease :
      (db : Db) (auth : Authorization)
      → find_lease (complete_one ensure_job remove_job db auth).0 a ≡ find_lease db a
  unfolding complete_one find_lease completed_result
  complete_one-lease db auth =
      let w = auth.work_id in
      let completing =
        complete_authorized_result_cases db auth.work_id auth.node_id auth.attempt_id
          (λ p. find_lease p.0 a ≡ find_lease db a) (λ _. refl) (λ _ _ _ _ _ _ _ _. refl) in
      elim (Option-cases
        (select_one (λ r. text_eq r.node_id auth.node_id) (list_nodes db auth.work_id))) [
          | inl e ↦ rw (e, complete_one) refl
          | inr (node, e) ↦ elim (Bool-cases (is_terminal node.state)) [
            | inl final ↦ rw (e, complete_one, final) refl
            | inr waiting ↦
                let answer =
                  complete_authorized_result db auth.work_id auth.node_id auth.attempt_id in
                rw (e, complete_one, waiting, finish_job-db answer auth.attempt_id) completing
          ]
        ]

  pub complete_all-lease :
      (auths : List Authorization) (db : Db)
      → find_lease (complete_all ensure_job remove_job db auths).0 a ≡ find_lease db a
  unfolding complete_all
  complete_all-lease [] db = refl
  complete_all-lease (auth ∷ auths) db =
      let one = complete_one ensure_job remove_job db auth in
      elim (Bool-cases one.1) [
        | inr stopped ↦ rw stopped (complete_one-lease db auth)
        | inl went ↦ rw went (complete_all-lease auths one.0 ∙ complete_one-lease db auth)
      ]
