-- ===== src/Orchestration/Work/Stuck.antt =====
-- src/domains/orchestration/sqlite-store.ts, the end of `validateWork`: a set of nodes that wait for
-- each other is never taken from the queue.
use agent_pool.Prelude.{
  ◌+◌, ◌≡◌, ◌≤◌, ◌⊎◌, inl, inr, refl, subst, true, false, List, [], ◌∷◌, ◌++◌, Text, text_eq,
  text_eq_sound, text_eq_refl, Bool-cases, if◌then◌else◌, arith,
}
use agent_pool.Js.{mem_text}
use agent_pool.Orchestration.Work.Topology.{NodeShape, Degree, decrement, relax}
use agent_pool.Orchestration.Work.Waiting.{
  text_eq_comm, deg, decrement-deg, decrement-freed, count, remaining, IsIn, Distinct,
}

mem_text-snoc-cases :
    (y c : Text) (q : List Text) → mem_text y (q ++ c ∷ []) ≡ true → (mem_text y q ≡ true) ⊎ (c ≡ y)
unfolding mem_text
mem_text-snoc-cases y c [] h = inr (text_eq_sound c y (ground (arith, h)))
mem_text-snoc-cases y c (x ∷ q) h = elim (Bool-cases (text_eq x y)) [
  | inl here ↦ inl (ground (arith, here))
  | inr there ↦ elim (mem_text-snoc-cases y c q (ground (arith, h, there))) [
    | inl m ↦ inl (ground (arith, m))
    | inr e ↦ inr e
  ]
]

mem_text-snoc-false :
    (y c : Text) (q : List Text)
    → mem_text y q ≡ false
    → text_eq c y ≡ false
    → mem_text y (q ++ c ∷ []) ≡ false
unfolding mem_text
mem_text-snoc-false y c [] h k = ground (arith, k)
mem_text-snoc-false y c (x ∷ q) h k = ground (arith, h, k, mem_text-snoc-false y c q)

Distinct-snoc :
    (c : Text) (q : List Text) → Distinct q → mem_text c q ≡ false → Distinct (q ++ c ∷ [])
unfolding mem_text
Distinct-snoc c [] d h = (refl, tt)
Distinct-snoc c (x ∷ q) d h = (
  mem_text-snoc-false x c q d.0 (ground (arith, h, text_eq_comm x c)),
  Distinct-snoc c q d.1 (ground (arith, h)),
)

-- While the children `cs` of the last node that is done are still to be told: a node's degree counts
-- at least the dependencies that are not done, and what is queued or done has none left.
pub record IsRelaxing (ns : List NodeShape) (done cs : List Text) (es : List Degree)
    (queue : List Text) : Type 0 where
  pub low : (n : NodeShape) → IsIn n ns → remaining done n.depends_on + count n.id cs ≤ deg es n.id
  pub settled : (y : Text) → mem_text y queue ≡ true → deg es y ≡ 0
  pub gone : (y : Text) → mem_text y done ≡ true → deg es y ≡ 0
  pub apart : (y : Text) → mem_text y queue ≡ true → mem_text y done ≡ false
  pub distinct : Distinct queue

-- What has degree 0 is not what is freed.
freed-apart :
    (c y : Text) (es : List Degree) → (decrement c es).1 ≡ true → deg es y ≡ 0 → text_eq c y ≡ false
freed-apart c y es f z = elim (Bool-cases (text_eq c y)) [
  | inr other ↦ other
  | inl same ↦
      let one : deg es y ≡ 1 =
        subst (λ t. deg es t ≡ 1) (text_eq_sound c y same) (decrement-freed c es f) in
      absurd (omega (arith, one, z))
]

-- Nothing of degree 0 gets another degree.
decrement-settled : (c y : Text) (es : List Degree) → deg es y ≡ 0 → deg (decrement c es).0 y ≡ 0
decrement-settled c y es z = ground (arith, decrement-deg c y es, z)

mem_text-apart :
    (c : Text) (xs : List Text) (es : List Degree)
    → (decrement c es).1 ≡ true
    → ((y : Text) → mem_text y xs ≡ true → deg es y ≡ 0)
    → mem_text c xs ≡ false
mem_text-apart c xs es f z = elim (Bool-cases (mem_text c xs)) [
  | inr other ↦ other
  | inl there ↦ absurd (ground (arith, z c there, decrement-freed c es f))
]

step-IsRelaxing :
    (ns : List NodeShape) (done : List Text) (c : Text) (cs : List Text) (es : List Degree)
    (queue : List Text)
    → IsRelaxing ns done (c ∷ cs) es queue
    → IsRelaxing ns done cs
        (decrement c es).0
        (if (decrement c es).1 then queue ++ c ∷ [] else queue)
step-IsRelaxing ns done c cs es queue r = elim (Bool-cases (decrement c es).1) [
  | inl freed ↦ rw freed (record {
    low = low;
    settled = λ y m. elim (mem_text-snoc-cases y c queue m) [
      | inl old ↦ decrement-settled c y es (r.settled y old)
      | inr e ↦ ground (
        arith,
        decrement-deg c y es,
        text_eq_refl c,
        subst (λ t. text_eq c t ≡ true) e (text_eq_refl c),
        subst (λ t. deg es t ≡ 1) e (decrement-freed c es freed),
      )
    ];
    gone = λ y m. decrement-settled c y es (r.gone y m);
    apart = λ y m. elim (mem_text-snoc-cases y c queue m) [
      | inl old ↦ r.apart y old
      | inr e ↦ subst (λ t. mem_text t done ≡ false) e (mem_text-apart c done es freed r.gone)
    ];
    distinct = Distinct-snoc c queue r.distinct (mem_text-apart c queue es freed r.settled);
  })
  | inr held ↦ rw held (record {
    low = low;
    settled = λ y m. decrement-settled c y es (r.settled y m);
    gone = λ y m. decrement-settled c y es (r.gone y m);
    apart = r.apart;
    distinct = r.distinct;
  })
]
  where
    low :
        (n : NodeShape)
        → IsIn n ns
        → remaining done n.depends_on + count n.id cs ≤ deg (decrement c es).0 n.id
    low n i = ground (arith, r.low n i, decrement-deg c n.id es)

pub relax-IsRelaxing :
    (ns : List NodeShape) (done cs : List Text) (es : List Degree) (queue : List Text)
    → IsRelaxing ns done cs es queue
    → IsRelaxing ns done [] (relax cs es queue).0 (relax cs es queue).1
unfolding relax
relax-IsRelaxing ns done [] es queue r = r
relax-IsRelaxing ns done (c ∷ cs) es queue r =
    relax-IsRelaxing ns done cs (decrement c es).0 _ (step-IsRelaxing ns done c cs es queue r)
