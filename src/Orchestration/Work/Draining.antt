-- ===== src/Orchestration/Work/Draining.antt =====
-- src/domains/orchestration/sqlite-store.ts, the end of `validateWork`: the queue never holds a node of a
-- set whose nodes wait for each other.
use agent_pool.Prelude.{
  ℕ, zero, suc, ◌+◌, ◌≡◌, ◌≤◌, ◌<◌, inl, inr, sym, subst, Bool, true, false, List, [], ◌∷◌, some,
  Text, text_eq, text_eq_sound, text_eq_refl, length, Bool-cases, arith,
}
use agent_pool.Js.{mem_text}
use agent_pool.Orchestration.Work.Topology.{
  NodeShape, Degree, children, relax, drain, positive, relax-positive,
}
use agent_pool.Orchestration.Work.Waiting.{
  deg, remaining, remaining-count, ids_of, IsIn, Distinct, member-differs, count-children,
}
use agent_pool.Orchestration.Work.Stuck.{IsRelaxing, relax-IsRelaxing}

-- Each id of the set is the id of a node with a dependency in the set.
abbrev pub IsStuck : List NodeShape → (Text → Bool) → Type 0
IsStuck ns u =
    (x : Text)
    → u x ≡ true
    → (n : NodeShape) × IsIn n ns
      × (n.id ≡ x)
      × ((d : Text) × (mem_text d n.depends_on ≡ true) × (u d ≡ true))

remaining-positive :
    (done ds : List Text) (d : Text)
    → mem_text d ds ≡ true
    → mem_text d done ≡ false
    → 1 ≤ remaining done ds
unfolding mem_text
remaining-positive done [] d m h = absurd (ground (arith, m))
remaining-positive done (x ∷ ds) d m h = elim (Bool-cases (text_eq x d)) [
  | inl same ↦
      let missing : mem_text x done ≡ false =
        subst (λ t. mem_text t done ≡ false) (sym (text_eq_sound x d same)) h in
      ground (arith, missing)
  | inr other ↦ ground (arith, m, other, remaining-positive done ds d)
]

deg-positive : (es : List Degree) (x : Text) → 1 ≤ deg es x → 1 ≤ positive es
deg-positive [] x h = absurd (omega (arith, h))
deg-positive (e ∷ es) x h = ground (arith, h, deg-positive es x)

module _ (ns : List NodeShape) (distinct : Distinct (ids_of ns)) (u : Text → Bool)
    (stuck : IsStuck ns u) where
  -- What is in the set has dependencies left.
  stuck-deg :
      (done : List Text) (es : List Degree) (queue : List Text) (x : Text)
      → IsRelaxing ns done [] es queue
      → ((y : Text) → mem_text y done ≡ true → u y ≡ false)
      → u x ≡ true
      → 1 ≤ deg es x
  stuck-deg done es queue x r clean h =
      let (n, i, e, (d, m, k)) = stuck x h in
      let missing : mem_text d done ≡ false = elim (Bool-cases (mem_text d done)) [
        | inr other ↦ other
        | inl there ↦ absurd (ground (arith, clean d there, k))
      ] in
      subst (λ t. 1 ≤ deg es t) e
        (omega (arith, r.low n i, remaining-positive done n.depends_on d m missing))

  -- A node is taken from the queue: its children are to be told.
  taken-IsRelaxing :
      (done : List Text) (es : List Degree) (x : Text) (queue : List Text)
      → IsRelaxing ns done [] es (x ∷ queue)
      → IsRelaxing ns (x ∷ done) (children x ns) es queue
  unfolding mem_text
  taken-IsRelaxing done es x queue r =
      let fresh = r.apart x (ground (arith, text_eq_refl x)) in
      record {
        low = λ n i. omega (
          arith,
          r.low n i,
          remaining-count x done n.depends_on fresh,
          count-children x n ns distinct i,
        );
        settled = λ y m. r.settled y (ground (arith, m));
        gone = λ y m. elim (Bool-cases (text_eq x y)) [
          | inl same ↦ r.settled y (ground (arith, same))
          | inr other ↦ r.gone y (ground (arith, m, other))
        ];
        apart = λ y m.
            ground (arith, r.apart y (ground (arith, m)), member-differs x y queue r.distinct.0 m);
        distinct = r.distinct.1;
      }

  -- It is not in the set.
  taken-clean :
      (done : List Text) (es : List Degree) (x : Text) (queue : List Text)
      → IsRelaxing ns done [] es (x ∷ queue)
      → ((y : Text) → mem_text y done ≡ true → u y ≡ false)
      → (z : Text) → mem_text z (x ∷ done) ≡ true
      → u z ≡ false
  unfolding mem_text
  taken-clean done es x queue r clean z m = elim (Bool-cases (u z)) [
    | inr other ↦ other
    | inl member ↦ elim (Bool-cases (text_eq x z)) [
      | inl same ↦
          let none_left = r.settled z (ground (arith, same)) in
          absurd (omega (arith, none_left, stuck-deg done es (x ∷ queue) z r clean member))
      | inr later ↦ clean z (ground (arith, m, later))
    ]
  ]

  pub drain-short :
      (fuel : ℕ) (done : List Text) (es : List Degree) (queue : List Text) (k total : ℕ) (x : Text)
      → IsRelaxing ns done [] es queue
      → ((y : Text) → mem_text y done ≡ true → u y ≡ false)
      → u x ≡ true
      → drain fuel ns es queue k ≡ some total
      → total < k + (positive es + length queue)
  unfolding drain
  drain-short fuel done es [] k total x r clean h e =
      ground (arith, e, deg-positive es x (stuck-deg done es [] x r clean h))
  drain-short zero done es (y ∷ queue) k total x r clean h e = absurd (ground (arith, e))
  drain-short (suc f) done es (y ∷ queue) k total x r clean h e =
      let next = relax (children y ns) es queue in
      let rest =
        drain-short f (y ∷ done) next.0 next.1 (k + 1) total x
          (relax-IsRelaxing ns (y ∷ done) (children y ns) es queue
            (taken-IsRelaxing done es y queue r))
          (taken-clean done es y queue r clean) h e in
      omega (arith, rest, relax-positive (children y ns) es queue)
