-- ===== src/Prelude/Sorting.antt =====
-- Stable sorting, and the two orders of texts: by UTF-16 code units (`Array.prototype.sort` and
-- `<`), and by code points (SQLite's ORDER BY, which compares the bytes of UTF-8).
use Prim.Native.Nat.{ℕ, ◌+◌}
use mathlib.Core.Path.{◌≡◌, refl, subst}
use mathlib.Core.Bool.{Bool, true, false, ◌&&◌, ◌||◌}
use mathlib.Core.List.{List, [], ◌∷◌, Perm}
use mathlib.Core.List.Perm
use mathlib.Core.Option.{none, some}
use native.Mathlib.Omega.{arith}
use agent_pool.Prelude.Tests.{ltb, leb, ◌==◌, if◌then◌else◌, Bool-cases}
use agent_pool.Prelude.Texts.{Text}
use agent_pool.Prelude.Rows.{select_one, or_else, is_some}
use agent_pool.Prelude.Everywhere.{All}
use mathlib.Core.Logic.{inl, inr}

module _ {ℓ} {A : Type ℓ} where
  unfoldable pub insert_sorted : (A → A → Bool) → A → List A → List A
  insert_sorted le x [] = x ∷ []
  insert_sorted le x (y ∷ ys) =
      let rest = insert_sorted le x ys in if le x y then x ∷ y ∷ ys else y ∷ rest

  unfoldable pub sort : (A → A → Bool) → List A → List A
  unfolding insert_sorted
  sort le [] = []
  sort le (x ∷ xs) = insert_sorted le x (sort le xs)

  insert_sorted-perm :
      (le : A → A → Bool) (x : A) (ys : List A) → Perm (insert_sorted le x ys) (x ∷ ys)
  unfolding insert_sorted
  insert_sorted-perm le x [] = Perm.refl (x ∷ [])
  insert_sorted-perm le x (y ∷ ys) = elim (Bool-cases (le x y)) [
    | inl before ↦ rw before (Perm.refl (x ∷ y ∷ ys))
    | inr after ↦
        rw after (Perm.trans (Perm.cons y (insert_sorted-perm le x ys)) (Perm.swap x y ys))
  ]

  pub sort-perm : (le : A → A → Bool) (xs : List A) → Perm (sort le xs) xs
  unfolding sort
  sort-perm le [] = Perm.refl []
  sort-perm le (x ∷ xs) =
      Perm.trans (insert_sorted-perm le x (sort le xs)) (Perm.cons x (sort-perm le xs))

  -- Sorting does not change which row a query finds first, if equal rows for the query are equal
  -- for the order.
  select_one-insert_sorted :
      (le : A → A → Bool) (q : A → Bool)
      → ((x y : A) → q x ≡ true → q y ≡ true → le x y ≡ true)
      → (x : A) (ys : List A)
      → select_one q (insert_sorted le x ys)
        ≡ or_else (if q x then some x else none) (select_one q ys)
  unfolding insert_sorted select_one
  select_one-insert_sorted le q same x [] = ground arith
  select_one-insert_sorted le q same x (y ∷ ys) =
      ground (arith, same x y, select_one-insert_sorted le q same x ys)

  pub select_one-sort :
      (le : A → A → Bool) (q : A → Bool)
      → ((x y : A) → q x ≡ true → q y ≡ true → le x y ≡ true)
      → (xs : List A) → select_one q (sort le xs) ≡ select_one q xs
  unfolding sort select_one
  select_one-sort le q same [] = refl
  select_one-sort le q same (x ∷ xs) =
      ground
        (arith, select_one-insert_sorted le q same x (sort le xs), select_one-sort le q same xs)

module _ {ℓ κ} {A : Type ℓ} (P : A → Type κ) where
  All-insert_sorted :
      (le : A → A → Bool) (x : A) (ys : List A) → P x → All P ys → All P (insert_sorted le x ys)
  unfolding insert_sorted
  All-insert_sorted le x [] h hs = (h, tt)
  All-insert_sorted le x (y ∷ ys) h hs = elim (Bool-cases (le x y)) [
    | inl before ↦ rw before (h, hs)
    | inr after ↦ rw after (hs.0, All-insert_sorted le x ys h hs.1)
  ]

  pub All-sort : (le : A → A → Bool) (xs : List A) → All P xs → All P (sort le xs)
  unfolding sort
  All-sort le [] hs = tt
  All-sort le (x ∷ xs) hs = All-insert_sorted le x (sort le xs) hs.0 (All-sort le xs hs.1)

module _ {ℓ} {A : Type ℓ} (q : A → Bool) where
  is_some-insert_sorted :
      (le : A → A → Bool) (x : A) (ys : List A)
      → is_some (select_one q (insert_sorted le x ys)) ≡ (q x || is_some (select_one q ys))
  unfolding insert_sorted select_one
  is_some-insert_sorted le x [] = ground arith
  is_some-insert_sorted le x (y ∷ ys) = ground (arith, is_some-insert_sorted le x ys)

  -- Sorting keeps whether a query finds a row.
  pub is_some-sort :
      (le : A → A → Bool) (xs : List A)
      → is_some (select_one q (sort le xs)) ≡ is_some (select_one q xs)
  unfolding sort select_one
  is_some-sort le [] = refl
  is_some-sort le (x ∷ xs) =
      ground (arith, is_some-insert_sorted le x (sort le xs), is_some-sort le xs)

module _ {ℓ} {A : Type ℓ} (le : A → A → Bool) where
  -- Each element is in order with the next.
  abbrev pub Chain : List A → Type 0
  Chain [] = Unit
  Chain (x ∷ []) = Unit
  Chain (x ∷ y ∷ ys) = (le x y ≡ true) × Chain (y ∷ ys)

  module _ (total : (x y : A) → le x y ≡ false → le y x ≡ true) where
    insert_sorted-Chain : (x : A) (ys : List A) → Chain ys → Chain (insert_sorted le x ys)
    unfolding insert_sorted
    insert_sorted-Chain x [] c = tt
    insert_sorted-Chain x (y ∷ []) c = elim (Bool-cases (le x y)) [
      | inl before ↦ rw before (before, tt)
      | inr after ↦ rw after (total x y after, tt)
    ]
    insert_sorted-Chain x (y ∷ z ∷ zs) c =
        let rest = insert_sorted-Chain x (z ∷ zs) c.1 in
        elim (Bool-cases (le x y)) [
          | inl before ↦ rw before (before, c)
          | inr after ↦ elim (Bool-cases (le x z)) [
            | inl here ↦ rw (after, here) (total x y after, (here, c.1))
            | inr later ↦
                let goes_on : insert_sorted le x (z ∷ zs) ≡ z ∷ insert_sorted le x zs =
                  rw later refl in
                rw (after, later) (c.0, subst Chain goes_on rest)
          ]
        ]

    pub sort-Chain : (xs : List A) → Chain (sort le xs)
    unfolding sort
    sort-Chain [] = tt
    sort-Chain (x ∷ xs) = insert_sorted-Chain x (sort le xs) (sort-Chain xs)

-- Texts in lexicographic order of their units, each unit ranked by `rank`.
lex_le : (ℕ → ℕ) → Text → Text → Bool
lex_le rank [] t = true
lex_le rank (a ∷ s) [] = false
lex_le rank (a ∷ s) (b ∷ t) =
    if ltb (rank a) (rank b) then true else rank a == rank b && lex_le rank s t

lex_le_refl : (rank : ℕ → ℕ) (s : Text) → lex_le rank s s ≡ true
unfolding lex_le
lex_le_refl rank [] = refl
lex_le_refl rank (a ∷ s) = ground (arith, lex_le_refl rank s)

-- Surrogates stand for the code points above all others.
abbrev code_point_rank : ℕ → ℕ
code_point_rank u = if leb 0xD800 u && leb u 0xDFFF then u + 65536 else u

unfoldable pub js_le : Text → Text → Bool
unfolding lex_le
js_le = lex_le (λ u. u)

unfoldable pub sql_le : Text → Text → Bool
unfolding lex_le
sql_le = lex_le code_point_rank

pub js_le_refl : (s : Text) → js_le s s ≡ true
unfolding js_le
js_le_refl s = lex_le_refl (λ u. u) s

pub sql_le_refl : (s : Text) → sql_le s s ≡ true
unfolding sql_le
sql_le_refl s = lex_le_refl code_point_rank s

-- Order by units is total and antisymmetric.
js_le_total_units : (s t : Text) → lex_le (λ u. u) s t ≡ false → lex_le (λ u. u) t s ≡ true
unfolding lex_le
js_le_total_units [] t h = ground arith
js_le_total_units (a ∷ s) [] h = refl
js_le_total_units (a ∷ s) (b ∷ t) h = ground (arith, js_le_total_units s t)

pub js_le_total : (s t : Text) → js_le s t ≡ false → js_le t s ≡ true
unfolding js_le
js_le_total s t h = js_le_total_units s t h

js_le_antisym_units : (s t : Text) → lex_le (λ u. u) s t ≡ true → lex_le (λ u. u) t s ≡ true → s ≡ t
unfolding lex_le
js_le_antisym_units [] [] h k = refl
js_le_antisym_units [] (b ∷ t) h k = ground arith
js_le_antisym_units (a ∷ s) [] h k = ground arith
js_le_antisym_units (a ∷ s) (b ∷ t) h k = ground (arith, js_le_antisym_units s t)

pub js_le_antisym : (s t : Text) → js_le s t ≡ true → js_le t s ≡ true → s ≡ t
unfolding js_le
js_le_antisym s t h k = js_le_antisym_units s t h k
