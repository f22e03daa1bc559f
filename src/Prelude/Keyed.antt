-- ===== src/Prelude/Keyed.antt =====
-- Rows that are found by a text key, or by two: what a query by key sees after each statement.
use mathlib.Core.Path.{◌≡◌}
use mathlib.Core.Bool.{Bool}
use mathlib.Core.List.{List, [], ◌∷◌}
use mathlib.Core.Option
use mathlib.Core.Option.{Option, none, some}
use native.Mathlib.Omega.{arith}
use agent_pool.Prelude.Tests.{if◌then◌else◌}
use agent_pool.Prelude.Texts.{Text, text_eq, text_eq_iff}
use agent_pool.Prelude.Rows.{select_one, update, delete, insert, or_else, select_one-insert}

module _ {R : Type 0} (key : R → Text) where
  abbrev pub at : Text → R → Bool
  at k r = text_eq (key r) k

  pub find-insert :
      (k : Text) (r : R) (rs : List R)
      → select_one (at k) (insert r rs)
        ≡ or_else (select_one (at k) rs) (if text_eq (key r) k then some r else none)
  find-insert k r rs = select_one-insert (at k) r rs

  pub find-update :
      (k j : Text) (f : R → R)
      → ((r : R) → key (f r) ≡ key r)
      → (rs : List R)
      → select_one (at k) (update (at j) f rs)
        ≡ (if text_eq j k then Option.map f (select_one (at k) rs) else select_one (at k) rs)
  unfolding select_one update
  find-update k j f keep [] = ground arith
  find-update k j f keep (r ∷ rs) = ground (
    arith,
    keep r,
    text_eq_iff (key r) k,
    text_eq_iff (key r) j,
    text_eq_iff j k,
    find-update k j f keep rs,
  )

  pub find-delete :
      (k j : Text) (rs : List R)
      → select_one (at k) (delete (at j) rs) ≡ (if text_eq j k then none else select_one (at k) rs)
  unfolding select_one delete
  find-delete k j [] = ground arith
  find-delete k j (r ∷ rs) =
      ground
        (arith, text_eq_iff (key r) k, text_eq_iff (key r) j, text_eq_iff j k, find-delete k j rs)
