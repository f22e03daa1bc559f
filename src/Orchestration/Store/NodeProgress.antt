-- ===== src/Orchestration/Store/NodeProgress.antt =====
-- What the transactions of src/domains/orchestration/sqlite-store.ts do to the nodes: a node moves
-- along the lifecycle, one version at a time.
use mathlib.Core.Option
use agent_pool.Prelude.{
  ℕ, ◌+◌, ◌==◌, ◌≡◌, refl, sym, ap, ◌∙◌, subst, true, ◌&&◌, ◌⊎◌, inl, inr, Option, none, some, List,
  Text, text_eq, text_eq_iff, text_eq_sound, arith, select_one, select, select_one_holds,
  select_one-update, select_one-sort, select_one-select, sql_le, sql_le_refl, if◌then◌else◌,
  Bool-cases, Option-cases,
}
use agent_pool.Orchestration.Lifecycle.{NodeState, is_valid_transition}
use agent_pool.Orchestration.Contracts.{ErrorCode}
use agent_pool.Orchestration.Store.Schema.{Db, NodeRecord, or_err, node_at}
use agent_pool.Orchestration.Store.Nodes.{find_node, set_state, list_nodes, listed_node}

abbrev pub stepped : NodeState → NodeRecord → NodeRecord
stepped s r = record r { state = s; version = r.version + 1 }

-- The first row of a key, after the update of a state.
pub find-set_state :
    (w n : Text) (v : ℕ) (s : NodeState) (w' n' : Text) (rs : List NodeRecord)
    → select_one (node_at w' n') (set_state w n v s rs)
      ≡ Option.map
          (λ r. if node_at w n r && r.version == v then stepped s r else r)
          (select_one (node_at w' n') rs)
unfolding set_state
find-set_state w n v s w' n' rs =
    select_one-update (node_at w' n') (λ r. node_at w n r && r.version == v) (stepped s) (λ r. refl)
      rs

-- A row that a query by one key finds, and that has another key, is what that key finds.
find-same_key :
    (w n w' n' : Text) (rs : List NodeRecord) (r : NodeRecord)
    → select_one (node_at w' n') rs ≡ some r
    → node_at w n r ≡ true
    → select_one (node_at w n) rs ≡ some r
find-same_key w n w' n' rs r found key =
    let key' : node_at w' n' r ≡ true = select_one_holds (node_at w' n') rs found in
    let same_work : w' ≡ w = ground (arith, text_eq_iff r.work_id w, text_eq_iff r.work_id w') in
    let same_node : n' ≡ n = ground (arith, text_eq_iff r.node_id n, text_eq_iff r.node_id n') in
    subst (λ x. select_one (node_at x n) rs ≡ some r) same_work
      (subst (λ y. select_one (node_at w' y) rs ≡ some r) same_node found)

-- One call leaves a node as it is, or moves it along one allowed transition to the next version.
abbrev pub Progress : Option NodeRecord → Option NodeRecord → Type 0
Progress none o = Unit
Progress (some r) none = ⊥
Progress (some r) (some r') =
    (r' ≡ r) ⊎ ((is_valid_transition r.state r'.state ≡ true) × (r' ≡ stepped r'.state r))

pub set_state-Progress :
    (w n : Text) (v : ℕ) (s : NodeState) (w' n' : Text) (rs : List NodeRecord) (row : NodeRecord)
    → select_one (node_at w n) rs ≡ some row
    → is_valid_transition row.state s ≡ true
    → Progress (select_one (node_at w' n') rs) (select_one (node_at w' n') (set_state w n v s rs))
set_state-Progress w n v s w' n' rs row found valid =
    rw (find-set_state w n v s w' n' rs) (elim (Option-cases (select_one (node_at w' n') rs)) [
      | inl e ↦ rw e tt
      | inr (r, e) ↦ rw e (elim (Bool-cases (node_at w n r && r.version == v)) [
        | inr miss ↦ rw miss (inl refl)
        | inl hit ↦ rw hit (
            inr (
              let key : node_at w n r ≡ true = ground arith in
                  let same = find-same_key w n w' n' rs r e key in ground arith,
              refl,
            ))
      ])
    ])

pub Progress-refl : (o : Option NodeRecord) → Progress o o
Progress-refl none = tt
Progress-refl (some r) = inl refl

-- `listNodes(..).find(..)` is the row that the query by key finds.
pub listed_node-find_node :
    (db : Db) (w n : Text) (c : ErrorCode) → listed_node db w n c ≡ or_err (find_node db w n) c
unfolding listed_node list_nodes find_node
listed_node-find_node db w n c =
    ap (λ o. or_err o c)
      (select_one-sort (λ (a b : NodeRecord). sql_le a.node_id b.node_id) (λ r. text_eq r.node_id n)
          (λ a b p q.
            subst (λ t. sql_le a.node_id t ≡ true)
              (text_eq_sound a.node_id n p ∙ sym (text_eq_sound b.node_id n q))
              (sql_le_refl a.node_id))
          (select (λ r. text_eq r.work_id w) db.nodes)
        ∙ select_one-select (λ (r : NodeRecord). text_eq r.node_id n) (λ r. text_eq r.work_id w)
            db.nodes)
