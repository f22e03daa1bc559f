-- ===== src/Orchestration/Work/Waiting.antt =====
-- src/domains/orchestration/sqlite-store.ts, the end of `validateWork`: what the search for a
-- dependency cycle keeps to, for nodes that wait for each other.
use agent_pool.Prelude.{
  ℕ, suc, ◌+◌, ◌-◌, ◌≡◌, ◌⊎◌, inl, inr, refl, ap, sym, subst, true, false, List, [], ◌∷◌, ◌++◌, map,
  Text, text_eq, text_eq_sound, text_eq_refl, Bool-cases, if◌then◌else◌, arith,
}
use agent_pool.Js.{mem_text}
use agent_pool.Orchestration.Work.Topology.{NodeShape, Degree, times, children, decrement}

pub text_eq_comm : (s t : Text) → text_eq s t ≡ text_eq t s
unfolding text_eq
text_eq_comm [] [] = refl
text_eq_comm [] (b ∷ t) = refl
text_eq_comm (a ∷ s) [] = refl
text_eq_comm (a ∷ s) (b ∷ t) = ground (arith, text_eq_comm s t)

-- Equal texts have the same tests.
pub text_eq_same : (s t x : Text) → text_eq s t ≡ true → text_eq s x ≡ text_eq t x
text_eq_same s t x h = ap (λ r. text_eq r x) (text_eq_sound s t h)

-- The degree of an id: that of its first entry.
abbrev pub deg : List Degree → Text → ℕ
deg [] x = 0
deg (e ∷ es) x = if text_eq e.id x then e.degree else deg es x

pub decrement-deg :
    (c x : Text) (es : List Degree)
    → deg (decrement c es).0 x ≡ (if text_eq c x then deg es x - 1 else deg es x)
unfolding decrement
decrement-deg c x [] = ground arith
decrement-deg c x (e ∷ es) = elim (Bool-cases (text_eq e.id c)) [
  | inl here ↦ ground (arith, here, text_eq_same e.id c x here)
  | inr there ↦ elim (Bool-cases (text_eq e.id x)) [
    | inl at_x ↦ ground (arith, there, at_x, text_eq_same e.id x c at_x, text_eq_comm x c)
    | inr elsewhere ↦ ground (arith, there, elsewhere, decrement-deg c x es)
  ]
]

pub decrement-freed : (c : Text) (es : List Degree) → (decrement c es).1 ≡ true → deg es c ≡ 1
unfolding decrement
decrement-freed c [] h = absurd (ground (arith, h))
decrement-freed c (e ∷ es) h = ground (arith, h, decrement-freed c es)

abbrev pub count : Text → List Text → ℕ
count x [] = 0
count x (y ∷ ys) = if text_eq y x then suc (count x ys) else count x ys

-- The dependencies that are not done.
abbrev pub remaining : List Text → List Text → ℕ
remaining done [] = 0
remaining done (d ∷ ds) = if mem_text d done then remaining done ds else suc (remaining done ds)

pub remaining-count :
    (x : Text) (done ds : List Text)
    → mem_text x done ≡ false
    → remaining (x ∷ done) ds + count x ds ≡ remaining done ds
unfolding mem_text
remaining-count x done [] h = refl
remaining-count x done (d ∷ ds) h = elim (Bool-cases (text_eq x d)) [
  | inl same ↦
      let missing : mem_text d done ≡ false =
        subst (λ t. mem_text t done ≡ false) (text_eq_sound x d same) h in
      ground (arith, same, missing, text_eq_comm x d, remaining-count x done ds h)
  | inr other ↦ ground (arith, other, text_eq_comm x d, remaining-count x done ds h)
]

pub count-append : (x : Text) (xs ys : List Text) → count x (xs ++ ys) ≡ count x xs + count x ys
count-append x [] ys = omega arith
count-append x (y ∷ xs) ys = ground (arith, count-append x xs ys)

pub count-times :
    (x y id : Text) (ds : List Text)
    → count y (times x id ds) ≡ (if text_eq id y then count x ds else 0)
count-times x y id [] = ground arith
count-times x y id (d ∷ ds) = ground (arith, count-times x y id ds)

abbrev pub ids_of : List NodeShape → List Text
ids_of ns = map (λ n. n.id) ns

abbrev pub IsIn : NodeShape → List NodeShape → Type 0
IsIn n [] = ⊥
IsIn n (m ∷ ms) = (n ≡ m) ⊎ IsIn n ms

pub mem_text-IsIn :
    (n : NodeShape) (ns : List NodeShape) → IsIn n ns → mem_text n.id (ids_of ns) ≡ true
unfolding mem_text
mem_text-IsIn n [] h = elim h [ ]
mem_text-IsIn n (m ∷ ms) (inl e) =
    subst (λ k. mem_text n.id (ids_of (k ∷ ms)) ≡ true) e (ground (arith, text_eq_refl n.id))
mem_text-IsIn n (m ∷ ms) (inr h) = ground (arith, mem_text-IsIn n ms h)

children-none :
    (x y : Text) (ns : List NodeShape)
    → mem_text y (ids_of ns) ≡ false
    → count y (children x ns) ≡ 0
unfolding children mem_text
children-none x y [] h = refl
children-none x y (n ∷ ns) h = ground (
  arith,
  h,
  count-append y (times x n.id n.depends_on) (children x ns),
  count-times x y n.id n.depends_on,
  children-none x y ns,
)

abbrev pub Distinct : List Text → Type 0
Distinct [] = Unit
Distinct (x ∷ xs) = (mem_text x xs ≡ false) × Distinct xs

-- Texts of which one is a member and the other is not differ.
pub member-differs :
    (x y : Text) (xs : List Text)
    → mem_text x xs ≡ false
    → mem_text y xs ≡ true
    → text_eq x y ≡ false
member-differs x y xs hx hy = elim (Bool-cases (text_eq x y)) [
  | inr other ↦ other
  | inl same ↦
      let there : mem_text x xs ≡ true =
        subst (λ t. mem_text t xs ≡ true) (sym (text_eq_sound x y same)) hy in
      absurd (ground (arith, hx, there))
]

-- A node is a child as often as the other is its dependency.
pub count-children :
    (x : Text) (n : NodeShape) (ns : List NodeShape)
    → Distinct (ids_of ns)
    → IsIn n ns
    → count n.id (children x ns) ≡ count x n.depends_on
unfolding children
count-children x n [] h i = elim i [ ]
count-children x n (m ∷ ms) h (inl e) =
    subst (λ k. count k.id (children x (m ∷ ms)) ≡ count x k.depends_on) (sym e)
      (ground (
        arith,
        count-append m.id (times x m.id m.depends_on) (children x ms),
        count-times x m.id m.id m.depends_on,
        children-none x m.id ms h.0,
        text_eq_refl m.id,
      ))
count-children x n (m ∷ ms) h (inr i) = ground (
  arith,
  count-append n.id (times x m.id m.depends_on) (children x ms),
  count-times x n.id m.id m.depends_on,
  count-children x n ms h.1 i,
  member-differs m.id n.id (ids_of ms) h.0 (mem_text-IsIn n ms i),
)
