-- ===== src/Orchestration/Store/Queries.antt =====
-- What the queries by attempt id see of the tables after the statements of the store's methods.
use mathlib.Core.Option
use agent_pool.Prelude.{
  ℕ, ◌≡◌, refl, none, some, List, Text, text_eq, or_else, if◌then◌else◌, select_one, update, delete,
  insert,
}
use agent_pool.Prelude.Keyed.{find-insert, find-update, find-delete}
use agent_pool.Orchestration.Store.Schema.{
  AcceptedResult, Authorization, RoutingRecord, accepted_at, authorized_at, routing_at,
  AttemptRecord, AttemptState, LeaseRecord, attempt_at, lease_at, with_state, with_lease,
  with_expiry,
}

-- The statements of the methods, as queries by attempt see them.
pub attempt-with_state :
    (a b : Text) (s : AttemptState) (rs : List AttemptRecord)
    → select_one (attempt_at b) (update (attempt_at a) (with_state s) rs) ≡ (
        if text_eq a b
        then Option.map (with_state s) (select_one (attempt_at b) rs)
        else select_one (attempt_at b) rs)
attempt-with_state a b s rs = find-update (λ r. r.attempt_id) b a (with_state s) (λ r. refl) rs

pub attempt-with_lease :
    (a b : Text) (g : ℕ) (rs : List AttemptRecord)
    → select_one (attempt_at b) (update (attempt_at a) (with_lease g) rs) ≡ (
        if text_eq a b
        then Option.map (with_lease g) (select_one (attempt_at b) rs)
        else select_one (attempt_at b) rs)
attempt-with_lease a b g rs = find-update (λ r. r.attempt_id) b a (with_lease g) (λ r. refl) rs

pub lease-with_expiry :
    (a b : Text) (t : ℕ) (ls : List LeaseRecord)
    → select_one (lease_at b) (update (lease_at a) (with_expiry t) ls) ≡ (
        if text_eq a b
        then Option.map (with_expiry t) (select_one (lease_at b) ls)
        else select_one (lease_at b) ls)
lease-with_expiry a b t ls = find-update (λ l. l.attempt_id) b a (with_expiry t) (λ l. refl) ls

pub lease-insert :
    (b : Text) (l : LeaseRecord) (ls : List LeaseRecord)
    → select_one (lease_at b) (insert l ls)
      ≡ or_else (select_one (lease_at b) ls) (if text_eq l.attempt_id b then some l else none)
lease-insert b l ls = find-insert (λ l. l.attempt_id) b l ls

pub lease-delete :
    (a b : Text) (ls : List LeaseRecord)
    → select_one (lease_at b) (delete (lease_at a) ls)
      ≡ (if text_eq a b then none else select_one (lease_at b) ls)
lease-delete a b ls = find-delete (λ l. l.attempt_id) b a ls

pub accepted-insert :
    (b : Text) (x : AcceptedResult) (xs : List AcceptedResult)
    → select_one (accepted_at b) (insert x xs)
      ≡ or_else (select_one (accepted_at b) xs) (if text_eq x.attempt_id b then some x else none)
accepted-insert b x xs = find-insert (λ x. x.attempt_id) b x xs

pub authorization-insert :
    (b : Text) (z : Authorization) (zs : List Authorization)
    → select_one (authorized_at b) (insert z zs)
      ≡ or_else (select_one (authorized_at b) zs) (if text_eq z.attempt_id b then some z else none)
authorization-insert b z zs = find-insert (λ z. z.attempt_id) b z zs

pub authorization-delete :
    (a b : Text) (zs : List Authorization)
    → select_one (authorized_at b) (delete (authorized_at a) zs)
      ≡ (if text_eq a b then none else select_one (authorized_at b) zs)
authorization-delete a b zs = find-delete (λ z. z.attempt_id) b a zs

pub attempt-insert :
    (b : Text) (r : AttemptRecord) (rs : List AttemptRecord)
    → select_one (attempt_at b) (insert r rs)
      ≡ or_else (select_one (attempt_at b) rs) (if text_eq r.attempt_id b then some r else none)
attempt-insert b r rs = find-insert (λ r. r.attempt_id) b r rs

pub routing-insert :
    (b : Text) (r : RoutingRecord) (rs : List RoutingRecord)
    → select_one (routing_at b) (insert r rs)
      ≡ or_else (select_one (routing_at b) rs) (if text_eq r.attempt_id b then some r else none)
routing-insert b r rs = find-insert (λ r. r.attempt_id) b r rs
