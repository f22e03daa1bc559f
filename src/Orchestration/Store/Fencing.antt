-- ===== src/Orchestration/Store/Fencing.antt =====
-- Lease fencing in src/domains/orchestration/sqlite-store.ts: generations grow with every claim,
-- and a worker that lost its lease cannot have a result accepted.
use agent_pool.Prelude.{
  ℕ, ◌+◌, ◌≤◌, ◌<◌, ◌≡◌, ◌≢◌, refl, sym, subst, ap, ◌∙◌, true, Option, none, some, List, Text,
  arith,
}
use agent_pool.Orchestration.Contracts.{ErrorCode}
use agent_pool.Orchestration.Store.Schema.{Db, ok, err, AttemptRecord, LeaseRecord, with_lease}
use agent_pool.Orchestration.Store.Attempts.{find_attempt}
use agent_pool.Orchestration.Store.Leases.{find_lease, Claimed, claim_lease}
use agent_pool.Orchestration.Store.Results.{WorkerResult, accept_result, lease_valid, find_accepted}
use agent_pool.Orchestration.Store.Views.{view, IsCurrent, Inv}
use agent_pool.Orchestration.Store.Leasing.{claim_lease_cases}
use agent_pool.Orchestration.Store.LeaseInvariant.{view-claimed}
use agent_pool.Orchestration.Store.Outcomes.{accept_result_cases}
use agent_pool.Orchestration.Store.Calls.{Call, claims, step, run}
use agent_pool.Orchestration.Store.History.{step-Inv, run-Inv}
use agent_pool.Orchestration.Store.AttemptHistory.{Continues}
use agent_pool.Orchestration.Store.Evolution.{run-Next}

-- A claim that was granted: the state after it, and what it returned.
abbrev pub Grants : (Text → Text) → Db → Text → Db → Claimed → Type 0
Grants digest db a db' c =
    (owner : Text) × (token : Text) × (expires : ℕ) × (issued : ℕ) × (claim_lease digest db a owner
        token expires issued
      ≡ (db', ok c))

-- What a claim that was granted has done.
pub claim_granted :
    (digest : Text → Text) (db : Db) (a : Text) (db' : Db) (c : Claimed)
    → Grants digest db a db' c
    → (r : AttemptRecord) × (find_attempt db a ≡ some r)
      × (c.generation ≡ r.lease_generation + 1)
      × (find_attempt db' a ≡ some (with_lease c.generation r))
unfolding view
claim_granted digest db a db' c (owner, token, expires, issued, granted) =
    claim_lease_cases digest db a owner token
      (λ p.
        p ≡ (db', ok c)
        → (r : AttemptRecord) × (find_attempt db a ≡ some r)
          × (c.generation ≡ r.lease_generation + 1)
          × (find_attempt db' a ≡ some (with_lease c.generation r)))
      expires issued (λ code e. absurd (let outcome = ap (λ p. p.1) e in cc))
      (λ r found free e.
        let seen =
          view-claimed db a digest owner token (r.lease_generation + 1) expires issued free in
        let outcome = ap (λ p. p.1) e in
        let g : c.generation ≡ r.lease_generation + 1 = ground arith in
        (
          r,
          found,
          g,
          subst (λ d. find_attempt d a ≡ some (with_lease c.generation r)) (ap (λ p. p.0) e)
              (ap (λ v. v.attempt) seen ∙ rw (found, g)),
        ))
      granted

-- A later granted claim of the same attempt, after any history of calls, has a greater generation.
pub claim_lease-generations :
    (digest : Text → Text) (db db₁ db₂ : Db) (a : Text) (cs : List Call) (c c' : Claimed)
    → Grants digest db a db₁ c
    → Grants digest (run digest db₁ cs) a db₂ c'
    → c.generation < c'.generation
unfolding view
claim_lease-generations digest db db₁ db₂ a cs c c' e e' =
    let first = claim_granted digest db a db₁ c e in
    let second = claim_granted digest (run digest db₁ cs) a db₂ c' e' in
    let grown : Continues (find_attempt db₁ a) (find_attempt (run digest db₁ cs) a) =
      (run-Next digest cs db₁ a).continues in
    let at_least : c.generation ≤ second.0.lease_generation =
      (let h = first.3 in let h' = second.1 in ground arith) in
    let next = second.2 in omega arith

Grants-Inv :
    (digest : Text → Text) (db : Db) (a : Text) (db' : Db) (c : Claimed)
    → Grants digest db a db' c
    → Inv db
    → Inv db'
unfolding step
Grants-Inv digest db a db' c (owner, token, expires, issued, granted) inv =
    subst Inv (ap (λ p. p.0) granted) (step-Inv digest db (claims a owner token expires issued) inv)

-- A valid lease carries the attempt's latest generation.
valid_generation :
    (digest : Text → Text) (r : WorkerResult) (now : ℕ) (o : Option LeaseRecord)
    (attempt : AttemptRecord)
    → IsCurrent o (some attempt)
    → lease_valid digest o r now ≡ true
    → r.generation ≡ attempt.lease_generation
unfolding lease_valid
valid_generation digest r now none attempt h v = cc
valid_generation digest r now (some l) attempt h v = ground arith

module _ (digest : Text → Text) (db : Db) (r : WorkerResult) (now : ℕ) where
  -- A result whose generation is not the attempt's latest is refused and changes nothing, unless a
  -- result was accepted before.
  pub accept_result-stale :
      (attempt : AttemptRecord)
      → Inv db
      → find_attempt db r.attempt_id ≡ some attempt
      → find_accepted db r.attempt_id ≡ none
      → r.generation ≢ attempt.lease_generation
      → (code : ErrorCode) × (accept_result digest db r now ≡ (db, err code))
  unfolding view
  accept_result-stale attempt inv found first stale =
      accept_result_cases digest db r now (λ p. (code : ErrorCode) × (p ≡ (db, err code)))
        (λ code. (code, refl)) (λ _ _ _ _ _ _ old _. cc)
        (λ _ _ _ _ _ _ _ _ _ valid _. absurd (
          stale (
            valid_generation digest r now (find_lease db r.attempt_id) attempt
              (subst (IsCurrent (find_lease db r.attempt_id)) found (inv r.attempt_id).current)
              valid)))

-- From a database that satisfies the invariant: after a granted claim, any history of calls and a
-- second granted claim of the attempt, a result of the attempt that carries the first claim's
-- generation is refused and changes nothing, whatever its token, if no result of the attempt is on
-- record.
pub accept_result-superseded :
    (digest : Text → Text) (db db₁ db₂ : Db) (a : Text) (cs : List Call) (c c' : Claimed)
    (r : WorkerResult) (now : ℕ)
    → Inv db
    → Grants digest db a db₁ c
    → Grants digest (run digest db₁ cs) a db₂ c'
    → r.attempt_id ≡ a
    → r.generation ≡ c.generation
    → find_accepted db₂ a ≡ none
    → (code : ErrorCode) × (accept_result digest db₂ r now ≡ (db₂, err code))
accept_result-superseded digest db db₁ db₂ a cs c c' r now inv e e' named old first =
    let grew = claim_lease-generations digest db db₁ db₂ a cs c c' e e' in
    let second = claim_granted digest (run digest db₁ cs) a db₂ c' e' in
    accept_result-stale digest db₂ r now (with_lease c'.generation second.0)
      (Grants-Inv digest (run digest db₁ cs) a db₂ c' e'
        (run-Inv digest cs db₁ (Grants-Inv digest db a db₁ c e inv)))
      (subst (λ x. find_attempt db₂ x ≡ some (with_lease c'.generation second.0)) (sym named)
        second.3)
      (subst (λ x. find_accepted db₂ x ≡ none) (sym named) first) (λ same. absurd (omega arith))
