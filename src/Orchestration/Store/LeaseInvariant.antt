-- ===== src/Orchestration/Store/LeaseInvariant.antt =====
-- The lease methods of src/domains/orchestration/sqlite-store.ts keep the invariant of the store.
use mathlib.Core.Option
use agent_pool.Prelude.{ℕ, ◌+◌, ◌≡◌, false, none, some, Text, text_eq, text_eq_refl, arith}
use agent_pool.Orchestration.Store.Schema.{
  Db, AttemptRecord, LeaseRecord, with_state, with_lease, with_expiry, created,
}
use agent_pool.Orchestration.Store.Attempts.{find_attempt, find_routing}
use agent_pool.Orchestration.Store.Leases.{find_lease, new_lease, claimed, renewed, returned}
use agent_pool.Orchestration.Store.Results.{find_accepted, find_authorization}
use agent_pool.Orchestration.Store.Views.{view, Inv, Inv-step}
use agent_pool.Orchestration.Store.Queries.{
  attempt-with_state, attempt-with_lease, lease-with_expiry, lease-insert, lease-delete,
}

module _ (db : Db) (a : Text) where
  module _ (digest : Text → Text) (owner token : Text) (g expires issued : ℕ) where
    pub view-claimed_other :
        (b : Text)
        → text_eq a b ≡ false
        → view (claimed digest db a owner token g expires issued) b ≡ view db b
    unfolding claimed view find_attempt find_lease find_routing find_accepted find_authorization
    view-claimed_other b other = ground (
      arith,
      attempt-with_lease a b g db.attempts,
      lease-insert b (new_lease digest a owner token g issued expires) db.leases,
    )

    pub view-claimed :
        find_lease db a ≡ none
        → view (claimed digest db a owner token g expires issued) a ≡ record (view db a) {
          attempt = Option.map (with_lease g) (find_attempt db a);
          lease = some (new_lease digest a owner token g issued expires);
        }
    unfolding claimed view find_attempt find_lease find_routing find_accepted find_authorization
    view-claimed free = ground (
      arith,
      text_eq_refl a,
      attempt-with_lease a a g db.attempts,
      lease-insert a (new_lease digest a owner token g issued expires) db.leases,
    )

    pub claimed-Inv :
        (r : AttemptRecord)
        → find_attempt db a ≡ some r
        → find_lease db a ≡ none
        → g ≡ r.lease_generation + 1
        → Inv db
        → Inv (claimed digest db a owner token g expires issued)
    unfolding view new_lease
    claimed-Inv r e free next inv =
        Inv-step a db (claimed digest db a owner token g expires issued) view-claimed_other
          (rw (view-claimed free) (let s = inv a in ground arith)) inv

  module _ (expires : ℕ) (l : LeaseRecord) where
    pub view-renewed_other :
        (b : Text) → text_eq a b ≡ false → view (renewed db a expires l) b ≡ view db b
    unfolding renewed view find_attempt find_lease find_routing find_accepted find_authorization
    view-renewed_other b other = ground (arith, lease-with_expiry a b expires db.leases)

    pub view-renewed :
        view (renewed db a expires l) a
        ≡ record (view db a) { lease = Option.map (with_expiry expires) (find_lease db a) }
    unfolding renewed view find_attempt find_lease find_routing find_accepted find_authorization
    view-renewed = ground (arith, text_eq_refl a, lease-with_expiry a a expires db.leases)

    pub renewed-Inv : Inv db → Inv (renewed db a expires l)
    unfolding view
    renewed-Inv inv =
        Inv-step a db (renewed db a expires l) view-renewed_other
          (rw view-renewed (let s = inv a in ground arith)) inv

  pub view-returned_other : (b : Text) → text_eq a b ≡ false → view (returned db a) b ≡ view db b
  unfolding returned view find_attempt find_lease find_routing find_accepted find_authorization
  view-returned_other b other =
      ground (arith, attempt-with_state a b created db.attempts, lease-delete a b db.leases)

  pub view-returned : view (returned db a) a ≡ record (view db a) {
    attempt = Option.map (with_state created) (find_attempt db a);
    lease = none;
  }
  unfolding returned view find_attempt find_lease find_routing find_accepted find_authorization
  view-returned = ground (
    arith,
    text_eq_refl a,
    attempt-with_state a a created db.attempts,
    lease-delete a a db.leases,
  )

  pub returned-Inv : Inv db → Inv (returned db a)
  unfolding view
  returned-Inv inv =
      Inv-step a db (returned db a) view-returned_other
        (rw view-returned (let s = inv a in ground arith)) inv
