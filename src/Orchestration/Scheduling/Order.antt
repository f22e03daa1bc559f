-- ===== src/Orchestration/Scheduling/Order.antt =====
-- src/domains/orchestration/contracts.ts: whom the empirical policy makes a node wait for.
use agent_pool.Prelude.{
  ℕ, ◌≡◌, refl, subst, sym, ◌∙◌, true, false, inl, inr, List, [], ◌∷◌, map, some, Text, text_eq,
  text_eq_sound, text_eq_refl, select, select_one, sort, js_le, js_le_total, js_le_antisym, Chain,
  sort-Chain, Bool-cases, Option-cases, arith,
}
use agent_pool.Orchestration.Scheduling.{
  ClassifiedOverlap, optimistic, serialize, conflicts, predecessor, decide, classify_self, classify,
}

predecessor_before :
    (n : Text) (xs : List Text) (b : Text)
    → Chain js_le xs
    → predecessor n xs ≡ some b
    → (js_le b n ≡ true) × (text_eq b n ≡ false)
unfolding predecessor
predecessor_before n [] b c e = ground arith
predecessor_before n (x ∷ []) b c e = ground arith
predecessor_before n (x ∷ y ∷ ys) b c e =
    ground (arith, predecessor_before n (y ∷ ys) b c.1, text_eq_sound y n)

decide_before :
    (n : Text) (os : List ClassifiedOverlap) (b : Text)
    → decide n os ≡ serialize b
    → (js_le b n ≡ true) × (text_eq b n ≡ false)
unfolding decide
decide_before n [] b e = ground arith
decide_before n (o ∷ os) b e =
    let ids = n ∷ map (λ x. x.node_id) (o ∷ os) in
    elim (Option-cases (predecessor n (sort js_le ids))) [
      | inl none_before ↦
          let optimist : decide n (o ∷ os) ≡ optimistic = rw (none_before, decide) refl in
          absurd (ground arith)
      | inr (x, before) ↦
          let result : decide n (o ∷ os) ≡ serialize x = rw (before, decide) refl in
          let same : x ≡ b = ground arith in
          subst (λ y. (js_le y n ≡ true) × (text_eq y n ≡ false)) same
            (predecessor_before n (sort js_le ids) x (sort-Chain js_le js_le_total ids) before)
    ]

classify_self_before :
    (min_confidence : ℕ) (n : Text) (self : ClassifiedOverlap) (overlaps : List ClassifiedOverlap)
    (b : Text)
    → classify_self min_confidence n self overlaps ≡ serialize b
    → (js_le b n ≡ true) × (text_eq b n ≡ false)
unfolding classify_self
classify_self_before min_confidence n self overlaps b e =
    ground (arith, decide_before n (select (conflicts min_confidence self n) overlaps) b)

strictly_before : (n b : Text) → (js_le b n ≡ true) × (text_eq b n ≡ false) → js_le n b ≡ false
strictly_before n b (before, apart) = elim (Bool-cases (js_le n b)) [
  | inr later ↦ later
  | inl other ↦
      let same : b ≡ n = js_le_antisym b n before other in
      let equal : text_eq b n ≡ true = subst (λ x. text_eq b x ≡ true) same (text_eq_refl b) in
      absurd (ground arith)
]

-- The empirical policy makes a node wait only for a node whose id comes strictly before its own in
-- the order of UTF-16 units.
pub classify-serialize :
    (min_confidence : ℕ) (n : Text) (overlaps : List ClassifiedOverlap) (b : Text)
    → classify min_confidence n overlaps ≡ serialize b
    → js_le n b ≡ false
unfolding classify
classify-serialize min_confidence n overlaps b e =
    elim (Option-cases (select_one (λ o. text_eq o.node_id n) overlaps)) [
      | inl absent ↦
          let optimist : classify min_confidence n overlaps ≡ optimistic =
            rw (absent, classify) refl in
          absurd (ground arith)
      | inr (self, found) ↦
          let result : classify min_confidence n overlaps
              ≡ classify_self min_confidence n self overlaps =
            rw (found, classify) refl in
          strictly_before n b
            (classify_self_before min_confidence n self overlaps b (sym result ∙ e))
    ]
