-- ===== src/Orchestration/Work/Progress.antt =====
-- src/domains/orchestration/sqlite-store.ts, `validateWork`: work that passes is never stuck.
use agent_pool.Prelude.{
  ◌≡◌, ◌⊎◌, inl, inr, refl, sym, subst, Bool, true, false, ◌&&◌, &&-eq-true, not, List, [], ◌∷◌,
  none, Text, codes, text_eq, text_eq_sound, text_eq_refl, Bool-cases, arith,
}
use agent_pool.Js.{Value, Values, Fields, own, items, mem_text, every_in}
use agent_pool.Orchestration.Work.Topology.{NodeShape}
use agent_pool.Orchestration.Work.Waiting.{ids_of, IsIn, mem_text-IsIn, Distinct}
use agent_pool.Orchestration.Work.Validation.{
  known_dependencies, all_known, check_nodes, shapes, validate_work,
}
use agent_pool.Orchestration.Work.Graph.{HasDistinctIds, validate_work-IsGraph}
use agent_pool.Orchestration.Work.Draining.{IsStuck}
use agent_pool.Orchestration.Work.Deadlock.{stuck-is_acyclic}

pub IsIn-mem_text :
    (x : Text) (ns : List NodeShape)
    → mem_text x (ids_of ns) ≡ true
    → (n : NodeShape) × IsIn n ns × (n.id ≡ x)
unfolding mem_text
IsIn-mem_text x [] m = absurd (ground (arith, m))
IsIn-mem_text x (n ∷ ns) m = elim (Bool-cases (text_eq n.id x)) [
  | inl here ↦ (n, inl refl, text_eq_sound n.id x here)
  | inr other ↦ let (k, i, e) = IsIn-mem_text x ns (ground (arith, m, other)) in (k, inr i, e)
]

-- Not passed, with dependencies that all have: what the ready frontier asks for.
abbrev pub is_ready : List Text → NodeShape → Bool
is_ready passed n = not (mem_text n.id passed) && every_in passed n.depends_on

ready_or_none :
    (passed : List Text) (ns : List NodeShape)
    → ((m : NodeShape) × IsIn m ns × (is_ready passed m ≡ true))
      ⊎ ((m : NodeShape) → IsIn m ns → is_ready passed m ≡ false)
ready_or_none passed [] = inr (λ m i. elim i [ ])
ready_or_none passed (n ∷ ns) = elim (Bool-cases (is_ready passed n)) [
  | inl ready ↦ inl (n, inl refl, ready)
  | inr waits ↦ elim (ready_or_none passed ns) [
    | inl (m, i, ready) ↦ inl (m, inr i, ready)
    | inr none_ready ↦ inr (λ m i. elim i [
      | inl e ↦ subst (λ k. is_ready passed k ≡ false) (sym e) waits
      | inr later ↦ none_ready m later
    ])
  ]
]

unmet :
    (passed ds : List Text)
    → every_in passed ds ≡ false
    → (d : Text) × (mem_text d ds ≡ true) × (mem_text d passed ≡ false)
unfolding every_in mem_text
unmet passed [] h = absurd (ground (arith, h))
unmet passed (d ∷ ds) h = elim (Bool-cases (mem_text d passed)) [
  | inr missing ↦ (d, ground (arith, text_eq_refl d), missing)
  | inl there ↦
      let (k, m, e) = unmet passed ds (ground (arith, h, there)) in (k, ground (arith, m), e)
]

known_dependencies-mem :
    (ids : List Text) (id d : Text) (ds : List Text)
    → known_dependencies ids id ds ≡ true
    → mem_text d ds ≡ true
    → mem_text d ids ≡ true
unfolding known_dependencies mem_text
known_dependencies-mem ids id d [] h m = absurd (ground (arith, m))
known_dependencies-mem ids id d (x ∷ ds) h m = elim (Bool-cases (text_eq x d)) [
  | inl same ↦ subst (λ t. mem_text t ids ≡ true) (text_eq_sound x d same) (ground (arith, h))
  | inr other ↦ known_dependencies-mem ids id d ds (ground (arith, h)) (ground (arith, m, other))
]

pub all_known-mem :
    (ids : List Text) (ns : List NodeShape) (n : NodeShape) (d : Text)
    → all_known ids ns ≡ true
    → IsIn n ns
    → mem_text d n.depends_on ≡ true
    → mem_text d ids ≡ true
unfolding all_known
all_known-mem ids [] n d h i m = elim i [ ]
all_known-mem ids (k ∷ ns) n d h (inl e) m =
    known_dependencies-mem ids k.id d k.depends_on (ground (arith, h))
      (subst (λ r. mem_text d r.depends_on ≡ true) e m)
all_known-mem ids (k ∷ ns) n d h (inr i) m = all_known-mem ids ns n d (ground (arith, h)) i m

-- A node that has not passed, where none is ready, waits for one that has not passed.
unready-IsStuck :
    (ns : List NodeShape) (passed : List Text)
    → all_known (ids_of ns) ns ≡ true
    → ((m : NodeShape) → IsIn m ns → is_ready passed m ≡ false)
    → IsStuck ns (λ x. mem_text x (ids_of ns) && not (mem_text x passed))
unready-IsStuck ns passed known none_ready x h =
    let (n, i, e) = IsIn-mem_text x ns (ground (arith, h)) in
    let open_ : mem_text n.id passed ≡ false =
      subst (λ t. mem_text t passed ≡ false) (sym e) (ground (arith, h)) in
    let (d, m, k) = unmet passed n.depends_on (ground (arith, none_ready n i, open_)) in
    (n, i, e, (d, m, ground (arith, k, all_known-mem (ids_of ns) ns n d known i m)))

pub HasDistinctIds-Distinct : (ns : List NodeShape) → HasDistinctIds ns → Distinct (ids_of ns)
HasDistinctIds-Distinct [] h = tt
HasDistinctIds-Distinct (n ∷ ns) h = (h.0, HasDistinctIds-Distinct ns h.1)

-- For work that passes validation and any list of passed ids: as long as a node has not passed,
-- some node of the work has not passed and has only dependencies that have.
pub validate_work_progress :
    (fs : Fields) (passed : List Text)
    → validate_work (Value.object true fs) ≡ none
    → (vs : Values) × (ns : List NodeShape) × (own fs (codes "nodes") ≡ Value.array vs)
      × (check_nodes [] (items vs) ≡ shapes ns)
      × ((n : NodeShape)
          → IsIn n ns
          → mem_text n.id passed ≡ false
          → (m : NodeShape) × IsIn m ns
            × (mem_text m.id passed ≡ false)
            × (every_in passed m.depends_on ≡ true))
validate_work_progress fs passed valid =
    let (vs, ns, shape, checked, distinct, known, acyclic) = validate_work-IsGraph fs valid in
    (
      vs,
      ns,
      shape,
      checked,
      λ n i open_. elim (ready_or_none passed ns) [
        | inl (m, j, ready) ↦
            let parts =
              &&-eq-true (not (mem_text m.id passed)) (every_in passed m.depends_on) ready in
            (m, j, ground (arith, parts.0), parts.1)
        | inr none_ready ↦ absurd (
            ground (
              arith,
              acyclic,
              stuck-is_acyclic ns (λ x. mem_text x (ids_of ns) && not (mem_text x passed)) n.id
                  (HasDistinctIds-Distinct ns distinct) (unready-IsStuck ns passed known none_ready)
                  (ground (arith, mem_text-IsIn n ns i, open_)),
            ))
      ],
    )
