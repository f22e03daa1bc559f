-- ===== src/Orchestration/Store/Views.antt =====
-- What the database says of one attempt, and of one node.
use agent_pool.Prelude.{
  ◌≡◌, Option, none, some, Text, is_some, true, false, text_eq, text_eq_sound, Bool-cases, inl, inr,
  subst, sym,
}
use agent_pool.Orchestration.Store.Schema.{
  Db, AttemptRecord, RoutingRecord, LeaseRecord, AcceptedResult, Authorization,
}
use agent_pool.Orchestration.Store.Attempts.{find_attempt, find_routing}
use agent_pool.Orchestration.Store.Leases.{find_lease}
use agent_pool.Orchestration.Store.Results.{find_accepted, find_authorization}

pub record AttemptView : Type 0 where
  pub attempt : Option AttemptRecord
  pub routing : Option RoutingRecord
  pub lease : Option LeaseRecord
  pub accepted : Option AcceptedResult
  pub authorization : Option Authorization

unfoldable pub view : Db → Text → AttemptView
view db a = record {
  attempt = find_attempt db a;
  routing = find_routing db a;
  lease = find_lease db a;
  accepted = find_accepted db a;
  authorization = find_authorization db a;
}

-- An attempt has its builder routing.
abbrev pub IsRouted : Option AttemptRecord → Option RoutingRecord → Type 0
IsRouted none o = Unit
IsRouted (some r) o = is_some o ≡ true

-- A lease belongs to an attempt, and holds its latest generation.
abbrev pub IsCurrent : Option LeaseRecord → Option AttemptRecord → Type 0
IsCurrent none o = Unit
IsCurrent (some l) none = ⊥
IsCurrent (some l) (some r) = l.generation ≡ r.lease_generation

-- An accepted result belongs to an attempt, and names its node and its work.
abbrev pub IsOwned : Option AcceptedResult → Option AttemptRecord → Type 0
IsOwned none o = Unit
IsOwned (some x) none = ⊥
IsOwned (some x) (some r) = (x.node_id ≡ r.node_id) × (x.work_id ≡ r.work_id)

-- An authorization belongs to an accepted result, and repeats it.
abbrev pub IsBacked : Option Authorization → Option AcceptedResult → Type 0
IsBacked none o = Unit
IsBacked (some z) none = ⊥
IsBacked (some z) (some x) =
    (z.result_id ≡ x.result_id)
    × (z.node_id ≡ x.node_id)
    × (z.work_id ≡ x.work_id)
    × (z.expected_node_version ≡ x.expected_node_version)

pub record IsSound (v : AttemptView) : Type 0 where
  pub routed : IsRouted v.attempt v.routing
  pub current : IsCurrent v.lease v.attempt
  pub owned : IsOwned v.accepted v.attempt
  pub backed : IsBacked v.authorization v.accepted

-- The invariant of the store.
abbrev pub Inv : Db → Type 0
Inv db = (a : Text) → IsSound (view db a)

-- A method that writes only the rows of attempt `a` has to show soundness at `a` alone.
pub Inv-step :
    (a : Text) (db db' : Db)
    → ((b : Text) → text_eq a b ≡ false → view db' b ≡ view db b)
    → IsSound (view db' a)
    → Inv db
    → Inv db'
Inv-step a db db' frame sound inv b = elim (Bool-cases (text_eq a b)) [
  | inl same ↦ subst (λ c. IsSound (view db' c)) (text_eq_sound a b same) sound
  | inr other ↦ subst IsSound (sym (frame b other)) (inv b)
]
