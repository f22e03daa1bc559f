-- ===== src/Orchestration/Frontier/Unblocked.antt =====
-- src/domains/orchestration/ready-frontier.ts: which nodes the frontier lists.
use mathlib.Core.List.{
  Mem, mem-cons_self, mem-cons_of_mem, eq-or-mem_of_mem-cons, not-mem-nil, Mem-prop,
}
use mathlib.Core.Logic.Or
use mathlib.Core.List.Perm
use agent_pool.Prelude.{
  ◌≡◌, refl, subst, Bool, true, false, Option, List, [], ◌∷◌, Text, sort-perm, All, All-sort,
  Bool-cases, inl, inr, arith, if◌then◌else◌,
}
use agent_pool.Js.{mem_text, every_in}
use agent_pool.Orchestration.Contracts.{ApprovedNode}
use agent_pool.Orchestration.Frontier.{
  FrontierNode, frontier_entry, is_unblocked, collect_frontier, compute_ready_frontier,
}

pub All-every_in :
    (allowed ds : List Text) → every_in allowed ds ≡ true → All (λ d. mem_text d allowed ≡ true) ds
unfolding every_in
All-every_in allowed [] h = tt
All-every_in allowed (d ∷ ds) h = (ground arith, All-every_in allowed ds (ground arith))

module _ (passed : List Text) (blockers : Text → Option Text) where
  module _ (Q : ApprovedNode → Type 0) where
    -- What an entry of the frontier says, for nodes that all satisfy `Q`.
    abbrev pub IsUnblocked : FrontierNode → Type 0
    IsUnblocked e =
        Q e.node × (is_unblocked passed e.node ≡ true) × (e ≡ frontier_entry blockers e.node)

    collect_frontier-IsUnblocked :
        (nodes : List ApprovedNode)
        → All Q nodes
        → All IsUnblocked (collect_frontier passed blockers nodes)
    unfolding collect_frontier
    collect_frontier-IsUnblocked [] h = tt
    collect_frontier-IsUnblocked (node ∷ nodes) h =
        let rest = collect_frontier-IsUnblocked nodes h.1 in
        elim (Bool-cases (is_unblocked passed node)) [
          | inl free ↦ rw free ((h.0, free, refl), rest)
          | inr held ↦ rw held rest
        ]

    pub compute_ready_frontier-IsUnblocked :
        (locale_le : Text → Text → Bool) (nodes : List ApprovedNode)
        → All Q nodes
        → All IsUnblocked (compute_ready_frontier locale_le nodes passed blockers)
    unfolding compute_ready_frontier
    compute_ready_frontier-IsUnblocked locale_le nodes h =
        All-sort IsUnblocked (λ a b. locale_le a.node.id b.node.id)
          (collect_frontier passed blockers nodes) (collect_frontier-IsUnblocked nodes h)

  Mem-collect_frontier :
      (node : ApprovedNode) (nodes : List ApprovedNode)
      → Mem node nodes
      → is_unblocked passed node ≡ true
      → Mem (frontier_entry blockers node) (collect_frontier passed blockers nodes)
  unfolding collect_frontier
  Mem-collect_frontier node [] m h = absurd (not-mem-nil m)
  Mem-collect_frontier node (x ∷ nodes) m h =
      let rest = collect_frontier passed blockers nodes in
      Or.elim Mem-prop (eq-or-mem_of_mem-cons m)
        (λ same.
          subst
            (λ y.
              Mem (frontier_entry blockers node)
                (if is_unblocked passed y then frontier_entry blockers y ∷ rest else rest))
            same (rw h mem-cons_self))
        (λ later.
          let there = Mem-collect_frontier node nodes later h in
          elim (Bool-cases (is_unblocked passed x)) [
            | inl free ↦ rw free (mem-cons_of_mem (frontier_entry blockers x) there)
            | inr held ↦ rw held there
          ])

  every_in-All :
      (ds : List Text) → All (λ d. mem_text d passed ≡ true) ds → every_in passed ds ≡ true
  unfolding every_in
  every_in-All [] h = refl
  every_in-All (d ∷ ds) h = ground (arith, h.0, every_in-All ds h.1)

  -- Every node of the list that has not passed and whose dependencies have all passed is on the
  -- frontier, with its blocker.
  pub compute_ready_frontier_complete :
      (locale_le : Text → Text → Bool) (node : ApprovedNode) (nodes : List ApprovedNode)
      → Mem node nodes
      → mem_text node.id passed ≡ false
      → All (λ d. mem_text d passed ≡ true) node.depends_on
      → Mem (frontier_entry blockers node) (compute_ready_frontier locale_le nodes passed blockers)
  unfolding compute_ready_frontier is_unblocked
  compute_ready_frontier_complete locale_le node nodes m fresh deps =
      let free : is_unblocked passed node ≡ true =
        ground (arith, fresh, every_in-All node.depends_on deps) in
      (Perm.mem_iff (
          sort-perm (λ a b. locale_le a.node.id b.node.id)
            (collect_frontier passed blockers nodes))).1
        (Mem-collect_frontier node nodes m free)
