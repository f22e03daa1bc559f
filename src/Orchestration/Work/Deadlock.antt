-- ===== src/Orchestration/Work/Deadlock.antt =====
-- Before the search for cycles of src/domains/orchestration/sqlite-store.ts, `validateWork`: the
-- counts and the queue it starts from. Nodes that wait for each other keep it from the end.
use agent_pool.Prelude.{
  suc, ◌==◌, ◌≡◌, inl, inr, refl, ap, sym, subst, Bool, true, false, List, [], ◌∷◌, map, Text,
  text_eq_refl, select, length, Bool-cases, Option-cases, arith,
}
use agent_pool.Js.{mem_text}
use agent_pool.Orchestration.Work.Topology.{
  NodeShape, in_degrees, processed_nodes, start-length, length-in_degrees,
}
use agent_pool.Orchestration.Work.Waiting.{
  deg, remaining, ids_of, IsIn, mem_text-IsIn, Distinct, member-differs,
}
use agent_pool.Orchestration.Work.Stuck.{IsRelaxing}
use agent_pool.Orchestration.Work.Validation.{is_acyclic}
use agent_pool.Orchestration.Work.Draining.{IsStuck, drain-short}

remaining-none : (ds : List Text) → remaining [] ds ≡ length ds
unfolding mem_text
remaining-none [] = refl
remaining-none (d ∷ ds) = ap suc (remaining-none ds)

deg-in_degrees :
    (n : NodeShape) (ns : List NodeShape)
    → Distinct (ids_of ns)
    → IsIn n ns
    → deg (in_degrees ns) n.id ≡ length n.depends_on
unfolding in_degrees
deg-in_degrees n [] d i = elim i [ ]
deg-in_degrees n (m ∷ ms) d (inl e) =
    subst (λ k. deg (in_degrees (m ∷ ms)) k.id ≡ length k.depends_on) (sym e)
      (ground (arith, text_eq_refl m.id))
deg-in_degrees n (m ∷ ms) d (inr i) = ground (
  arith,
  member-differs m.id n.id (ids_of ms) d.0 (mem_text-IsIn n ms i),
  deg-in_degrees n ms d.1 i,
)

-- The ids of the nodes without dependencies.
abbrev start : List NodeShape → List Text
start ns = map (λ e. e.id) (select (λ e. e.degree == 0) (in_degrees ns))

start-member :
    (ns : List NodeShape) (y : Text) → mem_text y (start ns) ≡ true → mem_text y (ids_of ns) ≡ true
unfolding in_degrees select mem_text
start-member [] y m = m
start-member (n ∷ ns) y m = ground (arith, m, start-member ns y)

start-settled :
    (ns : List NodeShape) (y : Text)
    → Distinct (ids_of ns)
    → mem_text y (start ns) ≡ true
    → deg (in_degrees ns) y ≡ 0
unfolding in_degrees select mem_text
start-settled [] y d m = refl
start-settled (n ∷ ns) y d m =
    ground
      (arith, m, start-settled ns y d.1, start-member ns y, member-differs n.id y (ids_of ns) d.0)

start-fresh :
    (ns : List NodeShape) (x : Text)
    → mem_text x (ids_of ns) ≡ false
    → mem_text x (start ns) ≡ false
start-fresh ns x h = elim (Bool-cases (mem_text x (start ns))) [
  | inr other ↦ other
  | inl there ↦ absurd (ground (arith, h, start-member ns x there))
]

start-Distinct : (ns : List NodeShape) → Distinct (ids_of ns) → Distinct (start ns)
unfolding in_degrees select
start-Distinct [] d = tt
start-Distinct (n ∷ ns) d = elim (Bool-cases (length n.depends_on == 0)) [
  | inl free ↦ rw free (start-fresh ns n.id d.0, start-Distinct ns d.1)
  | inr waits ↦ rw waits (start-Distinct ns d.1)
]

start-IsRelaxing :
    (ns : List NodeShape) → Distinct (ids_of ns) → IsRelaxing ns [] [] (in_degrees ns) (start ns)
unfolding mem_text
start-IsRelaxing ns d = record {
  low = λ n i. omega (arith, remaining-none n.depends_on, deg-in_degrees n ns d i);
  settled = λ y m. start-settled ns y d m;
  gone = λ y m. absurd (ground (arith, m));
  apart = λ y m. refl;
  distinct = start-Distinct ns d;
}

-- Where nodes wait for each other, the search does not reach them all.
pub stuck-is_acyclic :
    (ns : List NodeShape) (u : Text → Bool) (x : Text)
    → Distinct (ids_of ns)
    → IsStuck ns u
    → u x ≡ true
    → is_acyclic ns ≡ false
unfolding is_acyclic processed_nodes mem_text
stuck-is_acyclic ns u x d stuck h = elim (Option-cases (processed_nodes ns)) [
  | inl none_found ↦ rw (is_acyclic, none_found) refl
  | inr (total, found) ↦
      let short =
        drain-short ns d u stuck (length ns) [] (in_degrees ns) (start ns) 0 total x
          (start-IsRelaxing ns d) (λ y m. absurd (ground (arith, m))) h found in
      rw (is_acyclic, found)
        (ground (arith, short, start-length (in_degrees ns), length-in_degrees ns))
]
