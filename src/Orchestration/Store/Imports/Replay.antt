-- ===== src/Orchestration/Store/Imports/Replay.antt =====
-- src/domains/orchestration/sqlite-store.ts: imports that are repeated.
use agent_pool.Prelude.{
  ◌≡◌, refl, ap, sym, ◌∙◌, subst, true, inl, inr, List, [], ◌∷◌, none, some, Text, text_eq,
  text_eq_refl, select_one, select_one-insert, insert, Bool-cases, Option-cases, arith,
}
use agent_pool.Orchestration.Contracts.{ApprovedNode, conflicting_work, invalid_work}
use agent_pool.Orchestration.Work.{ApprovedWork, work_value}
use agent_pool.Orchestration.Work.Validation.{validate_work}
use agent_pool.Orchestration.Work.Canonical.{canonical_work_hash}
use agent_pool.Orchestration.Store.Schema.{
  Db, WorkRecord, Dependency, Result, ok, err, log, work_imported,
}
use agent_pool.Orchestration.Store.Works.{find_work, work_at, ImportedWork}
use agent_pool.Orchestration.Store.Imports.{
  new_work, insert_work, insert_node, insert_dependencies, insert_nodes, work_rows, import_rows,
  import_approved_work,
}

insert_node-works :
    (w : Text) (n : ApprovedNode) (db db' : Db)
    → insert_node w n db ≡ some db'
    → db'.works ≡ db.works
unfolding insert_node
insert_node-works w n db db' e = ground (arith, e)

insert_dependencies-works :
    (w n : Text) (ds : List Text) (db db' : Db)
    → insert_dependencies w n ds db ≡ some db'
    → db'.works ≡ db.works
unfolding insert_dependencies
insert_dependencies-works w n [] db db' e = ground (arith, e)
insert_dependencies-works w n (d ∷ ds) db db' e =
    let row : Dependency = record { work_id = w; node_id = n; depends_on_node_id = d } in
    let next : Db = record db { dependencies = insert row db.dependencies } in
    ground (arith, e, insert_dependencies-works w n ds next db')

insert_nodes-works :
    (w : Text) (ns : List ApprovedNode) (db db' : Db)
    → insert_nodes w ns db ≡ some db'
    → db'.works ≡ db.works
unfolding insert_nodes
insert_nodes-works w [] db db' e = ground (arith, e)
insert_nodes-works w (n ∷ ns) db db' e = elim (Option-cases (insert_node w n db)) [
  | inl broken ↦
      let stuck : insert_nodes w (n ∷ ns) db ≡ none = rw (broken, insert_nodes) refl in
      absurd (ground (arith, stuck, e))
  | inr (one, first) ↦ elim (Option-cases (insert_dependencies w n.id n.depends_on one)) [
    | inl broken ↦
        let stuck : insert_nodes w (n ∷ ns) db ≡ none = rw (first, broken, insert_nodes) refl in
        absurd (ground (arith, stuck, e))
    | inr (two, second) ↦
        let on : insert_nodes w (n ∷ ns) db ≡ insert_nodes w ns two =
          rw (first, second, insert_nodes) refl in
        insert_nodes-works w ns two db' (sym on ∙ e)
        ∙ (insert_dependencies-works w n.id n.depends_on one two second
            ∙ insert_node-works w n db one first)
  ]
]

module _ (digest : Text → Text) (json : ApprovedWork → Text) (work : ApprovedWork) where
  -- The work's row after its rows were written.
  find_work-work_rows :
      (db db' : Db)
      → find_work db work.work_id ≡ none
      → work_rows digest json work db ≡ some db'
      → find_work (log (work_imported work.work_id) db') work.work_id
        ≡ some (new_work (canonical_work_hash digest json work) work)
  unfolding work_rows find_work insert_work new_work
  find_work-work_rows db db' fresh e =
      let row = new_work (canonical_work_hash digest json work) work in
      let kept = insert_nodes-works work.work_id work.nodes (insert_work row db) db' e in
      ap (λ ws. select_one (work_at work.work_id) ws) kept
      ∙ ground (
        arith,
        fresh,
        select_one-insert (work_at work.work_id) row db.works,
        text_eq_refl work.work_id,
      )

  stored_again :
      (db : Db) (row : WorkRecord)
      → validate_work (work_value work) ≡ none
      → find_work db work.work_id ≡ some row
      → text_eq row.payload_hash (canonical_work_hash digest json work) ≡ true
      → import_approved_work digest json work db
        ≡ (db, ok (record { work_id = work.work_id; version = 1 }))
  unfolding import_approved_work
  stored_again db row valid found same = rw (valid, found, same, import_approved_work) refl

  -- The answer is that of the run that settled the database.
  settled :
      (db now db' : Db) (answer : ImportedWork) (given : Result ImportedWork)
      → import_approved_work digest json work db ≡ (now, given)
      → import_approved_work digest json work now ≡ (now, given)
      → import_approved_work digest json work db ≡ (db', ok answer)
      → import_approved_work digest json work db' ≡ (db', ok answer)
  settled db now db' answer given first second e =
      let there : now ≡ db' = ap (λ p. p.0) (sym first ∙ e) in
      let same : given ≡ ok answer = ap (λ p. p.1) (sym first ∙ e) in
      subst (λ d. import_approved_work digest json work d ≡ (d, ok answer)) there
        (second ∙ ap (λ r. (now, r)) same)

  -- Importing approved work again, right after it was imported, has the same answer and changes
  -- nothing.
  pub import_approved_work-again :
      (db db' : Db) (answer : ImportedWork)
      → import_approved_work digest json work db ≡ (db', ok answer)
      → import_approved_work digest json work db' ≡ (db', ok answer)
  unfolding import_approved_work new_work
  import_approved_work-again db db' answer e =
      let hash = canonical_work_hash digest json work in
      elim (Option-cases (validate_work (work_value work))) [
        | inr (code, bad) ↦
            let result : import_approved_work digest json work db ≡ (db, err code) =
              rw (bad, import_approved_work) refl in
            absurd (ground (arith, ap (λ p. p.1) (sym result ∙ e)))
        | inl valid ↦ elim (Option-cases (find_work db work.work_id)) [
          | inr (row, found) ↦ elim (Bool-cases (text_eq row.payload_hash hash)) [
            | inl same ↦
                let result = stored_again db row valid found same in
                settled db db db' answer (ok (record { work_id = work.work_id; version = 1 }))
                  result result e
            | inr other ↦
                let result : import_approved_work digest json work db ≡ (db, err conflicting_work) =
                  rw (valid, found, other, import_approved_work) refl in
                absurd (ground (arith, ap (λ p. p.1) (sym result ∙ e)))
          ]
          | inl fresh ↦ elim (Option-cases (work_rows digest json work db)) [
            | inl broken ↦
                let result : import_approved_work digest json work db ≡ (db, err invalid_work) =
                  rw (valid, fresh, import_approved_work, broken, import_rows) refl in
                absurd (ground (arith, ap (λ p. p.1) (sym result ∙ e)))
            | inr (rows, written) ↦
                let now = log (work_imported work.work_id) rows in
                let given : Result ImportedWork =
                  ok (record { work_id = work.work_id; version = 1 }) in
                let first : import_approved_work digest json work db ≡ (now, given) =
                  rw (valid, fresh, import_approved_work, written, import_rows) refl in
                settled db now db' answer given first
                  (stored_again now (new_work hash work) valid
                    (find_work-work_rows db rows fresh written) (text_eq_refl hash))
                  e
          ]
        ]
      ]
