-- ===== src/Orchestration/Store/Leases.antt =====
-- src/domains/orchestration/sqlite-store.ts: `claimLease`, `renewLease`, `releaseLease` and
-- `reclaimLease`. `digest` is SHA-256 of node:crypto; the token that `generateToken` draws is an
-- argument. Each method is one transaction: an error leaves the database as it was.
use agent_pool.Prelude.{
  ℕ, ◌+◌, ltb, leb, not, Option, none, some, Text, text_eq, select_one, update, delete, insert,
  if◌then◌else◌,
}
use agent_pool.Js.{Value, is_non_empty_string}
use agent_pool.Orchestration.Contracts.{
  claim, renew, release, lease_value, validate_lease_command, max_owner_length,
  invalid_lease_command, lease_conflict, lease_expired,
}
use agent_pool.Orchestration.Store.Schema.{
  Db, AttemptRecord, AttemptState, created, LeaseRecord, Result, ok, err, attempt_at, lease_at,
  with_state, with_lease, with_expiry, log, lease_claimed, lease_renewed, lease_released,
  lease_reclaimed,
}
use agent_pool.Orchestration.Store.Attempts.{find_attempt}

pub record Claimed : Type 0 where
  pub generation : ℕ
  pub token : Text

unfoldable pub find_lease : Db → Text → Option LeaseRecord
find_lease db a = select_one (lease_at a) db.leases

-- UPDATE attempts SET state = s WHERE attempt_id = a.
unfoldable pub set_attempt_state : Text → AttemptState → Db → Db
set_attempt_state a s db = record db { attempts = update (attempt_at a) (with_state s) db.attempts }

-- UPDATE attempts SET state = 'leased', lease_generation = g WHERE attempt_id = a.
unfoldable pub set_leased : Text → ℕ → Db → Db
set_leased a g db = record db { attempts = update (attempt_at a) (with_lease g) db.attempts }

unfoldable pub remove_lease : Text → Db → Db
remove_lease a db = record db { leases = delete (lease_at a) db.leases }

-- The lease is gone and the attempt is `created` again: what `releaseLease` and `reclaimLease` commit.
unfoldable pub returned : Db → Text → Db
unfolding remove_lease set_attempt_state
returned db a = set_attempt_state a created (remove_lease a db)

unfoldable pub renewed : Db → Text → ℕ → LeaseRecord → Db
renewed db a expires lease =
    log (lease_renewed a lease.generation)
      (record db { leases = update (lease_at a) (with_expiry expires) db.leases })

module _ (digest : Text → Text) where
  unfoldable pub new_lease : Text → Text → Text → ℕ → ℕ → ℕ → LeaseRecord
  new_lease a owner token g issued expires = record {
    attempt_id = a;
    generation = g;
    owner = owner;
    token_digest = digest token;
    issued_at = issued;
    expires_at = expires;
  }

  -- The committed transaction of `claimLease`, with its audit row.
  unfoldable pub claimed : Db → Text → Text → Text → ℕ → ℕ → ℕ → Db
  unfolding new_lease set_leased
  claimed db a owner token g expires issued =
      let inserted : Db = record db {
        leases = insert (new_lease a owner token g issued expires) db.leases;
      } in
      log (lease_claimed a g owner) (set_leased a g inserted)

  unfoldable pub claim_for : Db → Text → Text → Text → ℕ → ℕ → AttemptRecord → Db × Result Claimed
  unfolding claimed
  claim_for db a owner token expires issued attempt = elim (find_lease db a) [
    | some existing ↦ (db, err lease_conflict)
    | none ↦
        let g = attempt.lease_generation + 1 in
        (claimed db a owner token g expires issued, ok (record { generation = g; token = token }))
  ]

  unfoldable pub claim_lease : Db → Text → Text → Text → ℕ → ℕ → Db × Result Claimed
  unfolding claim_for
  claim_lease db a owner token expires issued =
      elim (validate_lease_command (lease_value (claim a owner))) [
        | some code ↦ (db, err code)
        | none ↦ elim (find_attempt db a) [
          | none ↦ (db, err invalid_lease_command)
          | some attempt ↦ claim_for db a owner token expires issued attempt
        ]
      ]

  unfoldable pub renew_for : Db → Text → Text → Text → ℕ → ℕ → LeaseRecord → Db × Result ℕ
  unfolding renewed
  renew_for db a owner token expires now lease =
      if not (text_eq lease.owner owner)
      then (db, err invalid_lease_command)
      else if not (text_eq (digest token) lease.token_digest)
      then (db, err invalid_lease_command)
      else if leb lease.expires_at now
      then (db, err lease_expired)
      else (renewed db a expires lease, ok lease.generation)

  unfoldable pub renew_lease : Db → Text → Text → Text → ℕ → ℕ → Db × Result ℕ
  unfolding renew_for
  renew_lease db a owner token expires now =
      elim (validate_lease_command (lease_value (renew a owner token))) [
        | some code ↦ (db, err code)
        | none ↦ elim (find_lease db a) [
          | none ↦ (db, err lease_expired)
          | some lease ↦ renew_for db a owner token expires now lease
        ]
      ]

  unfoldable pub release_for : Db → Text → Text → Text → LeaseRecord → Db × Result (Unit {0})
  unfolding returned
  release_for db a owner token lease =
      if not (text_eq lease.owner owner)
      then (db, err invalid_lease_command)
      else if not (text_eq (digest token) lease.token_digest)
      then (db, err invalid_lease_command)
      else (log (lease_released a) (returned db a), ok tt)

  unfoldable pub release_lease : Db → Text → Text → Text → Db × Result (Unit {0})
  unfolding release_for
  release_lease db a owner token =
      elim (validate_lease_command (lease_value (release a owner token))) [
        | some code ↦ (db, err code)
        | none ↦ elim (find_lease db a) [
          | none ↦ (db, err invalid_lease_command)
          | some lease ↦ release_for db a owner token lease
        ]
      ]

unfoldable pub reclaim_for : Db → Text → Text → ℕ → AttemptRecord → LeaseRecord → Db × Result ℕ
unfolding returned
reclaim_for db a owner now attempt lease =
    if ltb now lease.expires_at
    then (db, err lease_conflict)
    else let g = attempt.lease_generation + 1 in
      (log (lease_reclaimed a g owner) (returned db a), ok g)

unfoldable pub reclaim_lease : Db → Text → Text → ℕ → Db × Result ℕ
unfolding reclaim_for
reclaim_lease db a owner now =
    if not (is_non_empty_string max_owner_length (Value.string owner))
    then (db, err invalid_lease_command)
    else elim (find_attempt db a) [
      | none ↦ (db, err invalid_lease_command)
      | some attempt ↦ elim (find_lease db a) [
        | none ↦ (db, err lease_expired)
        | some lease ↦ reclaim_for db a owner now attempt lease
      ]
    ]
