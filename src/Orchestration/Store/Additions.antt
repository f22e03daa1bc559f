-- ===== src/Orchestration/Store/Additions.antt =====
-- src/domains/orchestration/sqlite-store.ts: what the inserts of `importApprovedWork`,
-- `importDirectTask`, `recordPhaseArtifact` and `recordProofResult` leave as it was.
use agent_pool.Prelude.{
  ℕ, ◌≡◌, refl, subst, ◌∙◌, Bool, ◌||◌, inl, inr, List, [], ◌∷◌, Option, none, some, Text, text_eq,
  select_one, select_one-insert, insert, is_some, Bool-cases, Option-cases, arith,
}
use agent_pool.Orchestration.Contracts.{ApprovedNode}
use agent_pool.Orchestration.Store.Schema.{
  Db, WorkRecord, NodeRecord, Dependency, ProofResult, ProofCheck, PhaseArtifact, Submission,
  Idempotency, AuditEvent, node_at, log,
}
use agent_pool.Orchestration.Store.Nodes.{find_node}
use agent_pool.Orchestration.Store.Imports.{
  new_node, dependency_at, insert_node, insert_dependencies, insert_nodes,
}
use agent_pool.Orchestration.Store.DirectTasks.{
  DirectTask, insert_bare_nodes, insert_submission, insert_idempotency, submission_at, scope_at,
  new_submission, new_idempotency,
}
use agent_pool.Orchestration.Store.Proofs.{
  ProofInput, find_proof, proof_at, new_proof, proof_recorded,
}

-- The tables of attempts, leases and results are the same, and no node and no terminal result that
-- was there has changed.
pub record Preserves (db db' : Db) : Type 0 where
  pub attempts : db'.attempts ≡ db.attempts
  pub routing : db'.routing ≡ db.routing
  pub leases : db'.leases ≡ db.leases
  pub accepted_results : db'.accepted_results ≡ db.accepted_results
  pub authorizations : db'.authorizations ≡ db.authorizations
  pub nodes : (w n : Text) (r : NodeRecord) → find_node db w n ≡ some r → find_node db' w n ≡ some r
  pub proofs : (a : Text) (r : ProofResult) → find_proof db a ≡ some r → find_proof db' a ≡ some r

pub Preserves-refl : (db : Db) → Preserves db db
Preserves-refl db = record {
  attempts = refl;
  routing = refl;
  leases = refl;
  accepted_results = refl;
  authorizations = refl;
  nodes = λ w n r e. e;
  proofs = λ a r e. e;
}

Preserves-trans : (a b c : Db) → Preserves a b → Preserves b c → Preserves a c
Preserves-trans a b c h k = record {
  attempts = k.attempts ∙ h.attempts;
  routing = k.routing ∙ h.routing;
  leases = k.leases ∙ h.leases;
  accepted_results = k.accepted_results ∙ h.accepted_results;
  authorizations = k.authorizations ∙ h.authorizations;
  nodes = λ w n r e. k.nodes w n r (h.nodes w n r e);
  proofs = λ x r e. k.proofs x r (h.proofs x r e);
}

-- A row that is found is still found where rows are added behind.
found-insert :
    {R : Type 0} (q : R → Bool) (row r : R) (rows : List R)
    → select_one q rows ≡ some r
    → select_one q (insert row rows) ≡ some r
found-insert q row r rows e = ground (arith, e, select_one-insert q row rows)

node_added : (row : NodeRecord) (db : Db) → Preserves db (record db { nodes = insert row db.nodes })
unfolding find_node find_proof
node_added row db = record {
  attempts = refl;
  routing = refl;
  leases = refl;
  accepted_results = refl;
  authorizations = refl;
  nodes = λ w n r e. found-insert (node_at w n) row r db.nodes e;
  proofs = λ a r e. e;
}

pub proof_added :
    (db : Db) (i : ProofInput) (checks : List ProofCheck)
    → Preserves db (proof_recorded db i checks)
unfolding find_node find_proof proof_recorded
proof_added db i checks = record {
  attempts = refl;
  routing = refl;
  leases = refl;
  accepted_results = refl;
  authorizations = refl;
  nodes = λ w n r e. e;
  proofs = λ a r e. found-insert (proof_at a) (new_proof i) r db.proofs e;
}

-- The other tables.
module _ (db : Db) where
  pub beside :
      (works : List WorkRecord) (dependencies : List Dependency) (artifacts : List PhaseArtifact)
      (submissions : List Submission) (idempotency : List Idempotency) (audit : List AuditEvent)
      → Preserves db (record db {
        works = works;
        dependencies = dependencies;
        artifacts = artifacts;
        submissions = submissions;
        idempotency = idempotency;
        audit = audit;
      })
  unfolding find_node find_proof
  beside works dependencies artifacts submissions idempotency audit = record {
    attempts = refl;
    routing = refl;
    leases = refl;
    accepted_results = refl;
    authorizations = refl;
    nodes = λ w n r e. e;
    proofs = λ a r e. e;
  }

-- A sequence of inserts, or the exception of a broken key.
abbrev pub Adds : Db → Option Db → Type 0
Adds db none = Unit
Adds db (some db') = Preserves db db'

pub Adds-trans : (a b : Db) (o : Option Db) → Preserves a b → Adds b o → Adds a o
Adds-trans a b none h k = tt
Adds-trans a b (some c) h k = Preserves-trans a b c h k

insert_node-Adds : (w : Text) (n : ApprovedNode) (db : Db) → Adds db (insert_node w n db)
unfolding insert_node
insert_node-Adds w n db = elim (Bool-cases (is_some (select_one (node_at w n.id) db.nodes))) [
  | inl there ↦ rw there tt
  | inr fresh ↦ rw fresh (node_added (new_node w n) db)
]

insert_dependencies-Adds :
    (w n : Text) (ds : List Text) (db : Db) → Adds db (insert_dependencies w n ds db)
unfolding insert_dependencies
insert_dependencies-Adds w n [] db = Preserves-refl db
insert_dependencies-Adds w n (d ∷ ds) db =
    let row : Dependency = record { work_id = w; node_id = n; depends_on_node_id = d } in
    let db' : Db = record db { dependencies = insert row db.dependencies } in
    elim (Bool-cases (is_some (select_one (dependency_at w n d) db.dependencies))) [
      | inl there ↦ rw there tt
      | inr fresh ↦ rw fresh (
          Adds-trans db db' (insert_dependencies w n ds db')
            (beside db db.works (insert row db.dependencies) db.artifacts db.submissions
              db.idempotency db.audit)
            (insert_dependencies-Adds w n ds db'))
    ]

pub insert_nodes-Adds :
    (w : Text) (ns : List ApprovedNode) (db : Db) → Adds db (insert_nodes w ns db)
unfolding insert_nodes
insert_nodes-Adds w [] db = Preserves-refl db
insert_nodes-Adds w (n ∷ ns) db =
    let first = insert_node-Adds w n db in
    elim (Option-cases (insert_node w n db)) [
      | inl broken ↦ rw (broken, insert_nodes) tt
      | inr (db', e) ↦
          let second = insert_dependencies-Adds w n.id n.depends_on db' in
          elim (Option-cases (insert_dependencies w n.id n.depends_on db')) [
            | inl broken ↦ rw (e, insert_nodes, broken) tt
            | inr (db'', e') ↦
                rw (e, insert_nodes, e')
                  (Adds-trans db db' (insert_nodes w ns db'') (subst (Adds db) e first) (
                    Adds-trans db' db'' (insert_nodes w ns db'') (subst (Adds db') e' second)
                      (insert_nodes-Adds w ns db'')))
          ]
    ]

pub insert_bare_nodes-Adds :
    (w : Text) (ns : List ApprovedNode) (db : Db) → Adds db (insert_bare_nodes w ns db)
unfolding insert_bare_nodes
insert_bare_nodes-Adds w [] db = Preserves-refl db
insert_bare_nodes-Adds w (n ∷ ns) db =
    let first = insert_node-Adds w n db in
    elim (Option-cases (insert_node w n db)) [
      | inl broken ↦ rw (broken, insert_bare_nodes) tt
      | inr (db', e) ↦
          rw (e, insert_bare_nodes)
            (Adds-trans db db' (insert_bare_nodes w ns db') (subst (Adds db) e first)
              (insert_bare_nodes-Adds w ns db'))
    ]

pub log-Adds : (a b : Db) (e : AuditEvent) → Preserves a b → Preserves a (log e b)
log-Adds a b e h =
    Preserves-trans a b (log e b) h
      (beside b b.works b.dependencies b.artifacts b.submissions b.idempotency (insert e b.audit))

pub insert_submission-Adds :
    (t : DirectTask) (now : ℕ) (db : Db) → Adds db (insert_submission t now db)
unfolding insert_submission
insert_submission-Adds t now db =
    elim (Bool-cases (
      is_some (select_one (submission_at t.submission_id) db.submissions)
      || is_some (select_one (λ r. text_eq r.work_id t.work.work_id) db.submissions))) [
        | inl there ↦ rw there tt
        | inr fresh ↦ rw fresh (
            beside db db.works db.dependencies db.artifacts
              (insert (new_submission t now) db.submissions) db.idempotency db.audit)
      ]

pub insert_idempotency-Adds :
    (t : DirectTask) (k : Option Text) (db : Db) → Adds db (insert_idempotency t k db)
unfolding insert_idempotency
insert_idempotency-Adds t none db = Preserves-refl db
insert_idempotency-Adds t (some k) db =
    elim (Bool-cases (is_some (select_one (scope_at k) db.idempotency))) [
      | inl there ↦ rw there tt
      | inr fresh ↦ rw fresh (
          beside db db.works db.dependencies db.artifacts db.submissions
            (insert (new_idempotency t k) db.idempotency) db.audit)
    ]
