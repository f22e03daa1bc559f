-- ===== src/Orchestration/Store/Leasing.antt =====
-- The outcomes of the lease methods of src/domains/orchestration/sqlite-store.ts, as case rules.
use agent_pool.Prelude.{
  ℕ, ◌+◌, ◌≡◌, true, Option-cases, Bool-cases, ◌≤◌, ◌<◌, inl, inr, none, some, Text, text_eq, arith,
}
use agent_pool.Orchestration.Store.Schema.{
  Db, Result, ok, err, log, lease_released, lease_reclaimed, AttemptRecord, LeaseRecord,
}
use agent_pool.Js.{Value, is_non_empty_string}
use agent_pool.Orchestration.Contracts.{
  ErrorCode, invalid_lease_command, lease_conflict, lease_expired, claim, renew, release,
  max_owner_length, lease_value, validate_lease_command,
}
use agent_pool.Orchestration.Store.Attempts.{find_attempt}
use agent_pool.Orchestration.Store.Leases.{
  find_lease, claim_for, claimed, renewed, returned, Claimed, claim_lease, renew_lease,
  release_lease, reclaim_lease,
}

-- Each method either leaves the database alone or commits its one transaction.
module _ (digest : Text → Text) (db : Db) (a owner token : Text) where
  pub claim_lease_cases :
      (P : Db × Result Claimed → Type 0) (expires issued : ℕ)
      → ((c : ErrorCode) → P (db, err c))
      → ((r : AttemptRecord)
          → find_attempt db a ≡ some r
          → find_lease db a ≡ none
          → P (
            claimed digest db a owner token (r.lease_generation + 1) expires issued,
            ok (record { generation = r.lease_generation + 1; token = token }),
          ))
      → P (claim_lease digest db a owner token expires issued)
  unfolding claim_lease
  claim_lease_cases P expires issued refused done =
      elim (Option-cases (validate_lease_command (lease_value (claim a owner)))) [
        | inr (c, e) ↦ rw (e, claim_lease) (refused c)
        | inl v ↦ elim (Option-cases (find_attempt db a)) [
          | inl e ↦ rw (v, e, claim_lease) (refused invalid_lease_command)
          | inr (r, e) ↦ elim (Option-cases (find_lease db a)) [
            | inl free ↦ rw (v, e, claim_lease, free, claim_for) (done r e free)
            | inr (l, taken) ↦ rw (v, e, claim_lease, taken, claim_for) (refused lease_conflict)
          ]
        ]
      ]

  pub renew_lease_cases :
      (P : Db × Result ℕ → Type 0) (expires now : ℕ)
      → ((c : ErrorCode) → P (db, err c))
      → ((l : LeaseRecord)
          → find_lease db a ≡ some l
          → text_eq l.owner owner ≡ true
          → text_eq (digest token) l.token_digest ≡ true
          → now < l.expires_at
          → P (renewed db a expires l, ok l.generation))
      → P (renew_lease digest db a owner token expires now)
  unfolding renew_lease
  renew_lease_cases P expires now refused done =
      elim (Option-cases (validate_lease_command (lease_value (renew a owner token)))) [
        | inr (c, e) ↦ rw (e, renew_lease) (refused c)
        | inl v ↦ elim (Option-cases (find_lease db a)) [
          | inl e ↦ rw (v, e, renew_lease) (refused lease_expired)
          | inr (l, e) ↦
              rw (v, e, renew_lease)
                (ground (arith, refused invalid_lease_command, refused lease_expired, done l e))
        ]
      ]

  pub release_lease_cases :
      (P : Db × Result (Unit {0}) → Type 0)
      → ((c : ErrorCode) → P (db, err c))
      → ((l : LeaseRecord)
          → find_lease db a ≡ some l
          → text_eq l.owner owner ≡ true
          → text_eq (digest token) l.token_digest ≡ true
          → P (log (lease_released a) (returned db a), ok tt))
      → P (release_lease digest db a owner token)
  unfolding release_lease
  release_lease_cases P refused done =
      elim (Option-cases (validate_lease_command (lease_value (release a owner token)))) [
        | inr (c, e) ↦ rw (e, release_lease) (refused c)
        | inl v ↦ elim (Option-cases (find_lease db a)) [
          | inl e ↦ rw (v, e, release_lease) (refused invalid_lease_command)
          | inr (l, e) ↦
              rw (v, e, release_lease) (ground (arith, refused invalid_lease_command, done l e))
        ]
      ]

module _ (db : Db) (a owner : Text) where
  pub reclaim_lease_cases :
      (P : Db × Result ℕ → Type 0) (now : ℕ)
      → ((c : ErrorCode) → P (db, err c))
      → ((r : AttemptRecord) (l : LeaseRecord)
          → find_attempt db a ≡ some r
          → find_lease db a ≡ some l
          → l.expires_at ≤ now
          → P (
            log (lease_reclaimed a (r.lease_generation + 1) owner) (returned db a),
            ok (r.lease_generation + 1),
          ))
      → P (reclaim_lease db a owner now)
  unfolding reclaim_lease
  reclaim_lease_cases P now refused done =
      elim (Bool-cases (is_non_empty_string max_owner_length (Value.string owner))) [
        | inr bad ↦ rw (bad, reclaim_lease) (refused invalid_lease_command)
        | inl good ↦ elim (Option-cases (find_attempt db a)) [
          | inl e ↦ rw (good, e, reclaim_lease) (refused invalid_lease_command)
          | inr (r, e) ↦ elim (Option-cases (find_lease db a)) [
            | inl none_left ↦ rw (good, e, none_left, reclaim_lease) (refused lease_expired)
            | inr (l, found) ↦
                rw (good, e, found, reclaim_lease)
                  (ground (arith, refused lease_conflict, done r l e found))
          ]
        ]
      ]
