-- ===== src/Orchestration/Dispatch/Safety.antt =====
-- src/domains/orchestration/dispatch-service.ts: which nodes `dispatchReadyFrontier` dispatches.
use agent_pool.Prelude.{
  ℕ, ◌≡◌, refl, sym, ap, ◌∙◌, subst, Bool, true, false, ◌&&◌, not, inl, inr, List, [], ◌∷◌, Option,
  none, some, Text, text_eq, text_eq_sound, select, sort, sql_le, select_one, select_one_holds,
  select_one-select, is_some, is_some-sort, Bool-cases, Option-cases, All, All-imp, arith,
}
use agent_pool.Js.{mem_text, every_in}
use agent_pool.Orchestration.Contracts.{ApprovedNode, QueueEnvelope, ResolvedBuilderRouting}
use agent_pool.Orchestration.Frontier.{
  FrontierNode, frontier_entry, is_unblocked, compute_ready_frontier,
}
use agent_pool.Orchestration.Frontier.Unblocked.{
  All-every_in, IsUnblocked, compute_ready_frontier-IsUnblocked,
}
use agent_pool.Orchestration.Identifiers.{derive_attempt_id, derive_job_id}
use agent_pool.Orchestration.Store.Schema.{Db, NodeRecord, node_at}
use agent_pool.Orchestration.Store.Nodes.{list_nodes, find_node, approved, get_approved_node}
use agent_pool.Orchestration.Store.Works.{get_imported_work}
use agent_pool.Orchestration.Dispatch.{
  Entry, dispatched, skipped, is_passed, dispatch_node, dispatch_entries, dispatch_ready_frontier,
  approved_nodes, passed_ids,
}
use agent_pool.Orchestration.Dispatch.Runs.{dispatch_node_cases}

-- Some row of the node is in the state `passed`.
abbrev pub has_passed : Db → Text → Text → Bool
has_passed db w n =
    is_some (select_one (λ r. text_eq r.work_id w && (is_passed r && text_eq r.node_id n)) db.nodes)

-- The entry is skipped, or names the attempt of a node that the scheduler does not hold back, that
-- has not passed, and whose dependencies have all passed.
abbrev pub WasReady : Db → Text → (Text → Option Text) → Entry → Type 0
WasReady db w blockers (skipped n code) = Unit
WasReady db w blockers (dispatched a job) =
    (row : NodeRecord) × (find_node db w row.node_id ≡ some row)
    × (a ≡ derive_attempt_id w row.node_id 1)
    × (job ≡ derive_job_id a)
    × (blockers row.node_id ≡ none)
    × (has_passed db w row.node_id ≡ false)
    × All (λ d. has_passed db w d ≡ true) row.depends_on

mem_text-passed_ids :
    (n : Text) (rs : List NodeRecord)
    → mem_text n (passed_ids rs) ≡ is_some (select_one (λ r. is_passed r && text_eq r.node_id n) rs)
unfolding mem_text passed_ids select select_one
mem_text-passed_ids n [] = refl
mem_text-passed_ids n (r ∷ rs) = ground (arith, mem_text-passed_ids n rs)

module _ (db : Db) (w : Text) where
  mem_text-has_passed : (n : Text) → mem_text n (passed_ids (list_nodes db w)) ≡ has_passed db w n
  unfolding list_nodes
  mem_text-has_passed n =
      let mine : NodeRecord → Bool = λ r. text_eq r.work_id w in
      let le : NodeRecord → NodeRecord → Bool = λ a b. sql_le a.node_id b.node_id in
      let q : NodeRecord → Bool = λ r. is_passed r && text_eq r.node_id n in
      mem_text-passed_ids n (sort le (select mine db.nodes))
      ∙ (is_some-sort q le (select mine db.nodes)
          ∙ ap (λ o. is_some o) (select_one-select q mine db.nodes))

  -- The approved node is that of a row.
  abbrev IsStored : ApprovedNode → Type 0
  IsStored node =
      (row : NodeRecord) × (find_node db w row.node_id ≡ some row) × (approved row ≡ node)

  find_node-id :
      (n : Text) (row : NodeRecord)
      → find_node db w n ≡ some row
      → find_node db w row.node_id ≡ some row
  unfolding find_node
  find_node-id n row found =
      let hit : node_at w n row ≡ true = select_one_holds (node_at w n) db.nodes found in
      let same : n ≡ row.node_id = sym (text_eq_sound row.node_id n (ground arith)) in
      subst (λ m. find_node db w m ≡ some row) same found

  approved_nodes-IsStored : (rs : List NodeRecord) → All IsStored (approved_nodes db w rs)
  unfolding approved_nodes get_approved_node
  approved_nodes-IsStored [] = tt
  approved_nodes-IsStored (r ∷ rs) =
      let rest = approved_nodes-IsStored rs in
      elim (Option-cases (find_node db w r.node_id)) [
        | inl e ↦ rw (e, approved_nodes, get_approved_node) rest
        | inr (row, e) ↦
            rw (e, approved_nodes, get_approved_node)
              ((row, find_node-id r.node_id row e, refl), rest)
      ]

  module _ (blockers : Text → Option Text) where
    -- What an entry of this store's frontier says.
    abbrev Listed : FrontierNode → Type 0
    Listed = IsUnblocked (passed_ids (list_nodes db w)) blockers IsStored

    has_passed-deps :
        (ds : List Text)
        → every_in (passed_ids (list_nodes db w)) ds ≡ true
        → All (λ d. has_passed db w d ≡ true) ds
    has_passed-deps ds h =
        All-imp (λ d. mem_text d (passed_ids (list_nodes db w)) ≡ true)
          (λ d. has_passed db w d ≡ true) (λ d e. sym (mem_text-has_passed d) ∙ e) ds
          (All-every_in (passed_ids (list_nodes db w)) ds h)

    unheld : (o : Option Text) → not (is_some o) ≡ true → o ≡ none
    unheld none h = refl
    unheld (some x) h = ground arith

    Listed-WasReady :
        (entry : FrontierNode)
        → Listed entry
        → entry.ready_after_scheduling ≡ true
        → WasReady db w blockers (
            dispatched
              (derive_attempt_id w entry.node.id 1)
              (derive_job_id (derive_attempt_id w entry.node.id 1)))
    unfolding is_unblocked frontier_entry approved
    Listed-WasReady entry ((row, found, same), free, shape) ready =
        let n = entry.node.id in
        let here : row.node_id ≡ n = ap (λ x. x.id) same in
        let marked : entry.ready_after_scheduling ≡ not (is_some (blockers n)) =
          ap (λ x. x.ready_after_scheduling) shape in
        let fresh : mem_text n (passed_ids (list_nodes db w)) ≡ false = ground arith in
        let deps = has_passed-deps entry.node.depends_on (ground arith) in
        (
          row,
          found,
          ap (λ x. derive_attempt_id w x 1) (sym here),
          refl,
          subst (λ x. blockers x ≡ none) (sym here) (unheld (blockers n) (sym marked ∙ ready)),
          subst (λ x. has_passed db w x ≡ false) (sym here) (sym (mem_text-has_passed n) ∙ fresh),
          subst (λ x. All (λ d. has_passed db w d ≡ true) x.depends_on) (sym same) deps,
        )

  module _ (ensure_job : QueueEnvelope → Bool)
      (resolve : Text → Text → Text → Option ResolvedBuilderRouting) (now : ℕ)
      (blockers : Text → Option Text) where
    dispatch_entries-WasReady :
        (records : List NodeRecord) (entries : List FrontierNode) (d : Db)
        → All (Listed blockers) entries
        → All
            (WasReady db w blockers)
            (dispatch_entries ensure_job resolve now w records d entries).1
    unfolding dispatch_entries
    dispatch_entries-WasReady records [] d h = tt
    dispatch_entries-WasReady records (entry ∷ entries) d h =
        let after = (dispatch_node ensure_job resolve now w records d entry.node.id).0 in
        elim (Bool-cases entry.ready_after_scheduling) [
          | inl y ↦ rw y (
            dispatch_node_cases (λ t. t) ensure_job resolve now w entry.node.id
                (λ p. WasReady db w blockers p.1) d (λ _ _ _. tt)
                (λ _ _ _. Listed-WasReady blockers entry h.0 y) records,
            dispatch_entries-WasReady records entries after h.1,
          )
          | inr held ↦ rw held (dispatch_entries-WasReady records entries d h.1)
        ]

    -- Every attempt that a dispatch reports is the first attempt of a stored node that the
    -- scheduler does not hold back, that has not passed, and whose dependencies had all passed when
    -- the dispatch began.
    pub dispatch_ready_frontier-WasReady :
        (locale_le : Text → Text → Bool) (entries : List Entry)
        → (dispatch_ready_frontier ensure_job resolve now w locale_le db blockers).1 ≡ some entries
        → All (WasReady db w blockers) entries
    unfolding dispatch_ready_frontier
    dispatch_ready_frontier-WasReady locale_le entries e =
        let records = list_nodes db w in
        let frontier =
          compute_ready_frontier locale_le (approved_nodes db w records) (passed_ids records)
            blockers in
        let listed = dispatch_entries-WasReady records frontier db (
          compute_ready_frontier-IsUnblocked (passed_ids records) blockers IsStored locale_le
            (approved_nodes db w records) (approved_nodes-IsStored records)) in
        let found = (dispatch_entries ensure_job resolve now w records db frontier).1 in
        elim (Bool-cases (is_some (get_imported_work db w))) [
          | inl here ↦
              let result : (dispatch_ready_frontier ensure_job resolve now w locale_le db
                    blockers).1
                  ≡ some found =
                rw here refl in
              let same : found ≡ entries = ground arith in
              subst (All (WasReady db w blockers)) same listed
          | inr absent ↦
              let result : (dispatch_ready_frontier ensure_job resolve now w locale_le db
                    blockers).1
                  ≡ none =
                rw absent refl in
              absurd (ground arith)
        ]
