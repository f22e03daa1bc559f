-- ===== src/Orchestration/Store/DirectTasks.antt =====
-- src/domains/orchestration/sqlite-store.ts: `importDirectTask`. An insert that breaks a key of its
-- table throws, and the catch rolls back. `digest` is SHA-256, `json` is `JSON.stringify` of the
-- canonical work, and `now` is `new Date()`.
use agent_pool.Prelude.{
  ℕ, ◌==◌, Bool, true, false, ◌&&◌, ◌||◌, not, List, [], ◌∷◌, Option, none, some, Text, text_eq,
  select_one, insert, is_some, length, if◌then◌else◌,
}
use agent_pool.Js.{Value, is_non_empty_string}
use agent_pool.Orchestration.Contracts.{
  ApprovedNode, WorkOrigin, decomposition, direct_task, max_id_length, max_digest_length,
  max_owner_length, invalid_work, conflicting_work, duplicate_work,
  idempotency_key_payload_mismatch,
}
use agent_pool.Orchestration.Work.{ApprovedWork, work_value}
use agent_pool.Orchestration.Work.Validation.{validate_work}
use agent_pool.Orchestration.Work.Canonical.{canonical_work_hash}
use agent_pool.Orchestration.Store.Schema.{
  Db, Submission, Idempotency, Result, ok, err, log, direct_task_imported,
}
use agent_pool.Orchestration.Store.Works.{find_work}
use agent_pool.Orchestration.Store.Imports.{new_work, insert_work, insert_node}

-- The loop of `importDirectTask`, which writes no dependencies.
unfoldable pub insert_bare_nodes : Text → List ApprovedNode → Db → Option Db
unfolding insert_node
insert_bare_nodes w [] db = some db
insert_bare_nodes w (n ∷ ns) db = elim (insert_node w n db) [
  | none ↦ none
  | some db' ↦ insert_bare_nodes w ns db'
]

abbrev pub submission_at : Text → Submission → Bool
submission_at s r = text_eq r.submission_id s

abbrev pub scope_at : Text → Idempotency → Bool
scope_at k r = text_eq r.scope_key k

pub record DirectTask : Type 0 where
  pub work : ApprovedWork
  pub caller_id : Text
  pub payload_hash : Text
  pub submission_id : Text
  pub acceptance_json : Text
  pub manifest_json : Text
  pub scope_key : Option Text

pub data DirectImport : Type 0 where
  replayed : (work_id submission_id acceptance_json : Text) → DirectImport
  imported : (work_id submission_id : Text) → DirectImport

pub record IdempotencyRecord : Type 0 where
  pub caller_id : Text
  pub payload_hash : Text
  pub submission_id : Text
  pub work_id : Text
  pub acceptance_json : Text

-- The JOIN of the idempotency row with its submission.
unfoldable pub find_idempotency : Db → Text → Option IdempotencyRecord
find_idempotency db k = elim (select_one (scope_at k) db.idempotency) [
  | none ↦ none
  | some i ↦ elim (select_one (submission_at i.submission_id) db.submissions) [
    | none ↦ none
    | some s ↦ some (record {
      caller_id = i.caller_id;
      payload_hash = i.payload_hash;
      submission_id = i.submission_id;
      work_id = s.work_id;
      acceptance_json = s.acceptance_json;
    })
  ]
]

-- `isNonEmptyString` of a string.
abbrev fits : ℕ → Text → Bool
fits max s = is_non_empty_string max (Value.string s)

abbrev scope_fits : Option Text → Bool
scope_fits none = true
scope_fits (some k) = fits 1024 k

abbrev is_direct : WorkOrigin → Bool
is_direct direct_task = true
is_direct decomposition = false

unfoldable pub valid_direct_task : DirectTask → Bool
valid_direct_task t =
    fits max_owner_length t.caller_id
    && fits max_digest_length t.payload_hash
    && fits max_id_length t.submission_id
    && (fits 1000000 t.acceptance_json && fits 1000000 t.manifest_json)
    && scope_fits t.scope_key
    && (is_direct t.work.origin && length t.work.nodes == 1)

unfoldable pub new_submission : DirectTask → ℕ → Submission
new_submission t now = record {
  submission_id = t.submission_id;
  caller_id = t.caller_id;
  work_id = t.work.work_id;
  payload_hash = t.payload_hash;
  acceptance_json = t.acceptance_json;
  manifest_json = t.manifest_json;
  created_at = now;
}

unfoldable pub new_idempotency : DirectTask → Text → Idempotency
new_idempotency t k = record {
  scope_key = k;
  caller_id = t.caller_id;
  payload_hash = t.payload_hash;
  submission_id = t.submission_id;
}

-- PRIMARY KEY (submission_id), UNIQUE (work_id).
unfoldable pub insert_submission : DirectTask → ℕ → Db → Option Db
unfolding new_submission
insert_submission t now db =
    if is_some (select_one (submission_at t.submission_id) db.submissions)
      || is_some (select_one (λ r. text_eq r.work_id t.work.work_id) db.submissions)
    then none
    else some (record db { submissions = insert (new_submission t now) db.submissions })

-- PRIMARY KEY (scope_key).
unfoldable pub insert_idempotency : DirectTask → Option Text → Db → Option Db
unfolding new_idempotency
insert_idempotency t none db = some db
insert_idempotency t (some k) db =
    if is_some (select_one (scope_at k) db.idempotency)
    then none
    else some (record db { idempotency = insert (new_idempotency t k) db.idempotency })

-- The answer to a scope key that was used before.
unfoldable pub replay : Db → DirectTask → IdempotencyRecord → Db × Result DirectImport
replay db t existing =
    if not (text_eq existing.caller_id t.caller_id)
    then (db, err invalid_work)
    else if not (text_eq existing.payload_hash t.payload_hash)
    then (db, err idempotency_key_payload_mismatch)
    else (db, ok (replayed existing.work_id existing.submission_id existing.acceptance_json))

module _ (digest : Text → Text) (json : ApprovedWork → Text) where
  unfoldable pub direct_rows : DirectTask → ℕ → Db → Option Db
  unfolding insert_bare_nodes insert_work new_work insert_submission insert_idempotency
  direct_rows t now db =
      let row = new_work (canonical_work_hash digest json t.work) t.work in
      elim (insert_bare_nodes t.work.work_id t.work.nodes (insert_work row db)) [
        | none ↦ none
        | some db' ↦ elim (insert_submission t now db') [
          | none ↦ none
          | some db'' ↦ insert_idempotency t t.scope_key db''
        ]
      ]

  -- The import of a task whose scope key, if it has one, is new.
  unfoldable pub import_fresh : DirectTask → ℕ → Db → Db × Result DirectImport
  unfolding direct_rows
  import_fresh t now db =
      if is_some (find_work db t.work.work_id)
      then (db, err conflicting_work)
      else if is_some (select_one (submission_at t.submission_id) db.submissions)
      then (db, err duplicate_work)
      else elim (direct_rows t now db) [
        | none ↦ (db, err invalid_work)
        | some db' ↦ (
          log (direct_task_imported t.work.work_id) db',
          ok (imported t.work.work_id t.submission_id),
        )
      ]

  unfoldable pub import_scoped : DirectTask → ℕ → Db → Option Text → Db × Result DirectImport
  unfolding find_idempotency replay import_fresh
  import_scoped t now db none = import_fresh t now db
  import_scoped t now db (some k) = elim (find_idempotency db k) [
    | some existing ↦ replay db t existing
    | none ↦ import_fresh t now db
  ]

  unfoldable pub import_direct_task : DirectTask → ℕ → Db → Db × Result DirectImport
  unfolding valid_direct_task import_scoped
  import_direct_task t now db = elim (validate_work (work_value t.work)) [
    | some code ↦ (db, err code)
    | none ↦
        if not (valid_direct_task t)
        then (db, err invalid_work)
        else import_scoped t now db t.scope_key
  ]
