-- ===== src/Orchestration/Store/Reopening.antt =====
-- src/domains/orchestration/sqlite-store.ts: what `releaseLease` does to an attempt, whatever its
-- state.
use agent_pool.Prelude.{◌≡◌, ap, subst, some, Text, text_eq_refl, arith}
use agent_pool.Orchestration.Store.Schema.{
  Db, AttemptRecord, created, Result, ok, with_state, log, lease_released,
}
use agent_pool.Orchestration.Store.Attempts.{find_attempt}
use agent_pool.Orchestration.Store.Leases.{returned, release_lease}
use agent_pool.Orchestration.Store.Queries.{attempt-with_state}
use agent_pool.Orchestration.Store.Leasing.{release_lease_cases}

module _ (digest : Text → Text) (db db' : Db) (a owner token : Text) (attempt : AttemptRecord) where
  Released : Db × Result (Unit {0}) → Type 0
  Released p = p.1 ≡ ok tt → find_attempt p.0 a ≡ some (with_state created attempt)

  find_attempt-returned :
      find_attempt db a ≡ some attempt
      → find_attempt (log (lease_released a) (returned db a)) a ≡ some (with_state created attempt)
  unfolding find_attempt returned
  find_attempt-returned found =
      ground (arith, attempt-with_state a a created db.attempts, text_eq_refl a, found)

  -- A granted release makes its attempt `created` again, whatever state it was in.
  pub release_lease_reopens :
      find_attempt db a ≡ some attempt
      → release_lease digest db a owner token ≡ (db', ok tt)
      → find_attempt db' a ≡ some (with_state created attempt)
  unfolding Released
  release_lease_reopens found e =
      let either : Released (release_lease digest db a owner token) =
        release_lease_cases digest db a owner token Released (λ c h. absurd (ground arith))
          (λ l _ _ _ h. find_attempt-returned found) in
      subst (λ d. find_attempt d a ≡ some (with_state created attempt)) (ap (λ p. p.0) e)
        (either (ap (λ p. p.1) e))
