-- ===== src/Orchestration/Store/Imported.antt =====
-- src/domains/orchestration/sqlite-store.ts: what `importApprovedWork`, `importDirectTask`,
-- `recordPhaseArtifact` and `recordProofResult` leave as it was.
use agent_pool.Prelude.{
  ℕ, ◌≡◌, refl, subst, Bool, ◌+◌, inl, inr, Option, none, some, Text, text_eq, select_one, insert,
  is_some, Bool-cases, Option-cases,
}
use agent_pool.Orchestration.Work.{ApprovedWork, work_value}
use agent_pool.Orchestration.Work.Validation.{validate_work}
use agent_pool.Orchestration.Work.Canonical.{canonical_work_hash}
use agent_pool.Orchestration.Store.Schema.{
  Db, WorkRecord, work_imported, direct_task_imported, phase_artifact_recorded,
  proof_result_replay_no_op,
}
use agent_pool.Orchestration.Store.Works.{find_work}
use agent_pool.Orchestration.Store.Attempts.{find_attempt, find_routing}
use agent_pool.Orchestration.Store.Leases.{find_lease}
use agent_pool.Orchestration.Store.Results.{find_accepted, find_authorization}
use agent_pool.Orchestration.Store.Views.{view}
use agent_pool.Orchestration.Store.Imports.{
  insert_work, new_work, work_rows, import_rows, import_approved_work,
}
use agent_pool.Orchestration.Store.DirectTasks.{
  DirectTask, insert_bare_nodes, insert_submission, insert_idempotency, replay, IdempotencyRecord,
  direct_rows, import_fresh, import_scoped, import_direct_task, submission_at, valid_direct_task,
  find_idempotency,
}
use agent_pool.Orchestration.Store.Artifacts.{
  ArtifactInput, artifact_recorded, record_phase_artifact, new_artifact, max_revision,
  valid_artifact,
}
use agent_pool.Orchestration.Store.Proofs.{ProofInput, record_proof_result}
use agent_pool.Orchestration.Store.Proofs.Kept.{record_proof_result_cases}
use agent_pool.Orchestration.Store.Additions.{
  Preserves, Preserves-refl, Adds, Adds-trans, beside, insert_nodes-Adds, insert_bare_nodes-Adds,
  log-Adds, insert_submission-Adds, insert_idempotency-Adds, proof_added,
}

insert_work-Preserves : (row : WorkRecord) (db : Db) → Preserves db (insert_work row db)
unfolding insert_work
insert_work-Preserves row db =
    beside db (insert row db.works) db.dependencies db.artifacts db.submissions db.idempotency
      db.audit

module _ (digest : Text → Text) (json : ApprovedWork → Text) where
  import_rows-Preserves :
      (work : ApprovedWork) (db : Db) → Preserves db (import_rows digest json work db).0
  unfolding import_rows work_rows
  import_rows-Preserves work db =
      let row = new_work (canonical_work_hash digest json work) work in
      let added =
        Adds-trans db (insert_work row db) (work_rows digest json work db)
          (insert_work-Preserves row db)
          (insert_nodes-Adds work.work_id work.nodes (insert_work row db)) in
      elim (Option-cases (work_rows digest json work db)) [
        | inl broken ↦ rw (broken, import_rows) (Preserves-refl db)
        | inr (db', e) ↦
            rw (e, import_rows)
              (log-Adds db db' (work_imported work.work_id) (subst (Adds db) e added))
      ]

  pub import_approved_work-Preserves :
      (work : ApprovedWork) (db : Db) → Preserves db (import_approved_work digest json work db).0
  unfolding import_approved_work
  import_approved_work-Preserves work db = elim (Option-cases (validate_work (work_value work))) [
    | inr (code, bad) ↦ rw (bad, import_approved_work) (Preserves-refl db)
    | inl valid ↦ elim (Option-cases (find_work db work.work_id)) [
      | inl fresh ↦ rw (valid, import_approved_work, fresh) (import_rows-Preserves work db)
      | inr (existing, there) ↦
          rw (valid, import_approved_work, there)
            (elim (Bool-cases
              (text_eq existing.payload_hash (canonical_work_hash digest json work))) [
                | inl same ↦ rw same (Preserves-refl db)
                | inr other ↦ rw other (Preserves-refl db)
              ])
    ]
  ]

  direct_rows-Adds :
      (t : DirectTask) (now : ℕ) (db : Db) → Adds db (direct_rows digest json t now db)
  unfolding direct_rows
  direct_rows-Adds t now db =
      let row = new_work (canonical_work_hash digest json t.work) t.work in
      let first =
        Adds-trans db (insert_work row db)
          (insert_bare_nodes t.work.work_id t.work.nodes (insert_work row db))
          (insert_work-Preserves row db)
          (insert_bare_nodes-Adds t.work.work_id t.work.nodes (insert_work row db)) in
      elim (Option-cases (insert_bare_nodes t.work.work_id t.work.nodes (insert_work row db))) [
        | inl broken ↦ rw (broken, direct_rows) tt
        | inr (db', e) ↦
            let second = insert_submission-Adds t now db' in
            elim (Option-cases (insert_submission t now db')) [
              | inl broken ↦ rw (e, direct_rows, broken) tt
              | inr (db'', e') ↦
                  rw (e, direct_rows, e')
                    (Adds-trans db db' (insert_idempotency t t.scope_key db'')
                      (subst (Adds db) e first)
                      (Adds-trans db' db'' (insert_idempotency t t.scope_key db'')
                        (subst (Adds db') e' second) (insert_idempotency-Adds t t.scope_key db'')))
            ]
      ]

  import_fresh-Preserves :
      (t : DirectTask) (now : ℕ) (db : Db) → Preserves db (import_fresh digest json t now db).0
  unfolding import_fresh
  import_fresh-Preserves t now db = elim (Bool-cases (is_some (find_work db t.work.work_id))) [
    | inl there ↦ rw there (Preserves-refl db)
    | inr fresh ↦
        elim (Bool-cases (is_some (select_one (submission_at t.submission_id) db.submissions))) [
          | inl twice ↦ rw (fresh, twice) (Preserves-refl db)
          | inr once ↦
              let added = direct_rows-Adds t now db in
              elim (Option-cases (direct_rows digest json t now db)) [
                | inl broken ↦ rw (fresh, once, broken, import_fresh) (Preserves-refl db)
                | inr (db', e) ↦
                    rw (fresh, once, e, import_fresh)
                      (log-Adds db db' (direct_task_imported t.work.work_id)
                        (subst (Adds db) e added))
              ]
        ]
  ]

replay-db :
    (db : Db) (t : DirectTask) (existing : IdempotencyRecord) → (replay db t existing).0 ≡ db
unfolding replay
replay-db db t existing = elim (Bool-cases (text_eq existing.caller_id t.caller_id)) [
  | inr other ↦ rw other refl
  | inl caller ↦ elim (Bool-cases (text_eq existing.payload_hash t.payload_hash)) [
    | inr other ↦ rw (caller, other) refl
    | inl same ↦ rw (caller, same) refl
  ]
]

module _ (digest : Text → Text) (json : ApprovedWork → Text) where
  import_scoped-Preserves :
      (t : DirectTask) (now : ℕ) (db : Db) (k : Option Text)
      → Preserves db (import_scoped digest json t now db k).0
  unfolding import_scoped
  import_scoped-Preserves t now db none = import_fresh-Preserves digest json t now db
  import_scoped-Preserves t now db (some k) = elim (Option-cases (find_idempotency db k)) [
    | inl fresh ↦ rw (fresh, import_scoped) (import_fresh-Preserves digest json t now db)
    | inr (existing, there) ↦ rw (there, import_scoped, replay-db db t existing) (Preserves-refl db)
  ]

  pub import_direct_task-Preserves :
      (t : DirectTask) (now : ℕ) (db : Db)
      → Preserves db (import_direct_task digest json t now db).0
  unfolding import_direct_task
  import_direct_task-Preserves t now db = elim (Option-cases (validate_work (work_value t.work))) [
    | inr (code, bad) ↦ rw (bad, import_direct_task) (Preserves-refl db)
    | inl valid ↦ elim (Bool-cases (valid_direct_task t)) [
      | inr bad ↦ rw (valid, import_direct_task, bad) (Preserves-refl db)
      | inl good ↦
          rw (valid, import_direct_task, good) (import_scoped-Preserves t now db t.scope_key)
    ]
  ]

pub record_phase_artifact-Preserves :
    (db : Db) (i : ArtifactInput) (now : ℕ) → Preserves db (record_phase_artifact db i now).0
unfolding record_phase_artifact artifact_recorded
record_phase_artifact-Preserves db i now = elim (Bool-cases (valid_artifact i)) [
  | inr bad ↦ rw bad (Preserves-refl db)
  | inl valid ↦ elim (Bool-cases (is_some (find_attempt db i.attempt_id))) [
    | inr absent ↦ rw (valid, absent) (Preserves-refl db)
    | inl there ↦
        let row = new_artifact i (max_revision i.attempt_id i.phase db.artifacts + 1) now in
        rw (valid, there)
          (beside db db.works db.dependencies (insert row db.artifacts) db.submissions
            db.idempotency
            (insert (phase_artifact_recorded row.attempt_id row.phase row.revision) db.audit))
  ]
]

pub record_proof_result-Preserves :
    (locale_le : Text → Text → Bool) (db : Db) (i : ProofInput)
    → Preserves db (record_proof_result locale_le db i).0
record_proof_result-Preserves locale_le db i =
    record_proof_result_cases locale_le db i (λ p. Preserves db p.0) (λ _. Preserves-refl db)
      (λ _ _ _.
        log-Adds db db (proof_result_replay_no_op i.attempt_id i.result_id) (Preserves-refl db))
      (λ checks _ _. proof_added db i checks)

-- What the invariants read of an attempt.
pub Preserves-view : (db db' : Db) (a : Text) → Preserves db db' → view db' a ≡ view db a
unfolding view find_attempt find_lease find_routing find_accepted find_authorization
Preserves-view db db' a h =
    rw (h.attempts, h.routing, h.leases, h.accepted_results, h.authorizations) refl
