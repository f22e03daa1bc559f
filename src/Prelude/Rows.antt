-- ===== src/Prelude/Rows.antt =====
-- Statements on one table, over the list of its rows in the order of their insertion:
-- SELECT .. WHERE p, UPDATE .. SET f WHERE p, DELETE .. WHERE p, and INSERT at the end.
use mathlib.Core.Path.{◌≡◌, refl, subst}
use mathlib.Core.Logic.{inl, inr}
use mathlib.Core.Bool.{Bool, true, false, ◌&&◌}
use mathlib.Core.List.{List, [], ◌∷◌, ◌++◌}
use mathlib.Core.Option
use mathlib.Core.Option.{Option, none, some}
use native.Mathlib.Omega.{arith}
use agent_pool.Prelude.Tests.{if◌then◌else◌, Bool-cases}
use agent_pool.Prelude.Everywhere.{All}

module _ {ℓ} {R : Type ℓ} where
  unfoldable pub select_one : (R → Bool) → List R → Option R
  select_one p [] = none
  select_one p (r ∷ rs) = if p r then some r else select_one p rs

  unfoldable pub select : (R → Bool) → List R → List R
  select p [] = []
  select p (r ∷ rs) = let rest = select p rs in if p r then r ∷ rest else rest

  unfoldable pub update : (R → Bool) → (R → R) → List R → List R
  update p f [] = []
  update p f (r ∷ rs) = (if p r then f r else r) ∷ update p f rs

  unfoldable pub delete : (R → Bool) → List R → List R
  delete p [] = []
  delete p (r ∷ rs) = let rest = delete p rs in if p r then rest else r ∷ rest

  abbrev pub insert : R → List R → List R
  insert r rs = rs ++ r ∷ []

  abbrev pub is_some : Option R → Bool
  is_some none = false
  is_some (some r) = true

  abbrev pub or_else : Option R → Option R → Option R
  or_else (some r) o = some r
  or_else none o = o

module _ {ℓ} {R : Type ℓ} where
  pub select_one_holds :
      (p : R → Bool) (rs : List R) {r : R} → select_one p rs ≡ some r → p r ≡ true
  unfolding select_one
  select_one_holds p [] h = ground arith
  select_one_holds p (x ∷ rs) {r} h = ground (arith, select_one_holds p rs {r = r})

  -- What one query sees of a table after each kind of statement.
  pub select_one-insert :
      (q : R → Bool) (r : R) (rs : List R)
      → select_one q (insert r rs) ≡ or_else (select_one q rs) (if q r then some r else none)
  unfolding select_one
  select_one-insert q r [] = refl
  select_one-insert q r (x ∷ rs) = ground (arith, select_one-insert q r rs)

  pub select_one-update :
      (q p : R → Bool) (f : R → R)
      → ((r : R) → q (f r) ≡ q r)
      → (rs : List R)
      → select_one q (update p f rs) ≡ Option.map (λ r. if p r then f r else r) (select_one q rs)
  unfolding select_one update
  select_one-update q p f keep [] = refl
  select_one-update q p f keep (x ∷ rs) = ground (arith, keep x, select_one-update q p f keep rs)

  -- A query within the rows of another query asks for both.
  pub select_one-select :
      (q p : R → Bool) (rs : List R) → select_one q (select p rs) ≡ select_one (λ r. p r && q r) rs
  unfolding select_one select
  select_one-select q p [] = refl
  select_one-select q p (x ∷ rs) = ground (arith, select_one-select q p rs)

  pub select_one-delete_self : (p : R → Bool) (rs : List R) → select_one p (delete p rs) ≡ none
  unfolding select_one delete
  select_one-delete_self p [] = refl
  select_one-delete_self p (x ∷ rs) = ground (arith, select_one-delete_self p rs)

  pub select_one-delete_other :
      (q p : R → Bool)
      → ((r : R) → q r ≡ true → p r ≡ false)
      → (rs : List R) → select_one q (delete p rs) ≡ select_one q rs
  unfolding select_one delete
  select_one-delete_other q p apart [] = refl
  select_one-delete_other q p apart (x ∷ rs) =
      ground (arith, apart x, select_one-delete_other q p apart rs)

module _ {ℓ κ} {R : Type ℓ} (P : R → Type κ) where
  pub All-select_one :
      (q : R → Bool) (rs : List R) {r : R} → All P rs → select_one q rs ≡ some r → P r
  unfolding select_one
  All-select_one q [] h e = absurd (ground arith)
  All-select_one q (x ∷ rs) {r} h e = elim (Bool-cases (q x)) [
    | inl here ↦ let same : x ≡ r = ground arith in subst P same h.0
    | inr later ↦ All-select_one q rs h.1 (ground arith)
  ]

  pub All-update :
      (p : R → Bool) (f : R → R)
      → ((r : R) → p r ≡ true → P r → P (f r))
      → (rs : List R) → All P rs
      → All P (update p f rs)
  unfolding update
  All-update p f step [] h = tt
  All-update p f step (x ∷ rs) h = elim (Bool-cases (p x)) [
    | inl hit ↦ rw hit (step x hit h.0, All-update p f step rs h.1)
    | inr miss ↦ rw miss (h.0, All-update p f step rs h.1)
  ]

  pub All-delete : (p : R → Bool) (rs : List R) → All P rs → All P (delete p rs)
  unfolding delete
  All-delete p [] h = tt
  All-delete p (x ∷ rs) h = elim (Bool-cases (p x)) [
    | inl hit ↦ rw hit (All-delete p rs h.1)
    | inr miss ↦ rw miss (h.0, All-delete p rs h.1)
  ]
