-- ===== src/WorkIntake/Targets.antt =====
-- src/domains/work-intake/unit-validation.ts: the patterns of repositories and branches. The negative
-- lookaheads are tests of the components between slashes.
use agent_pool.Prelude.{
  ℕ, ◌==◌, leb, Bool, true, false, ◌&&◌, ◌||◌, not, List, [], ◌∷◌, ◌++◌, Text, if◌then◌else◌,
}

-- `[A-Za-z0-9._-]`.
abbrev is_name_unit : ℕ → Bool
is_name_unit u =
    (leb 65 u && leb u 90)
    || (leb 97 u && leb u 122)
    || (leb 48 u && leb u 57)
    || u == 46
    || u == 95
    || u == 45

unfoldable pub all_name_units : Text → Bool
all_name_units [] = true
all_name_units (u ∷ s) = is_name_unit u && all_name_units s

unfoldable pub all_dots : Text → Bool
all_dots [] = true
all_dots (u ∷ s) = u == 46 && all_dots s

-- The components between slashes, with the one that is being read.
unfoldable pub components : Text → Text → List Text
components part [] = part ∷ []
components part (u ∷ s) =
    let next = components [] s in
    let same = components (part ++ u ∷ []) s in if u == 47 then part ∷ next else same

-- `.*\.\.` matches.
unfoldable pub has_two_dots : Text → Bool
has_two_dots [] = false
has_two_dots (u ∷ []) = false
has_two_dots (u ∷ v ∷ s) = (u == 46 && v == 46) || has_two_dots (v ∷ s)

abbrev starts_with_dash : Text → Bool
starts_with_dash [] = false
starts_with_dash (u ∷ s) = u == 45

-- `BRANCH_COMPONENT`. A component of no units is all dots, too.
unfoldable pub is_branch_component : Text → Bool
unfolding all_name_units all_dots
is_branch_component s = all_name_units s && not (all_dots s)

-- `REPO_SEGMENT`.
unfoldable pub is_repo_segment : Text → Bool
unfolding is_branch_component
is_repo_segment s = not (starts_with_dash s) && is_branch_component s

unfoldable pub all_components : List Text → Bool
unfolding is_branch_component
all_components [] = true
all_components (s ∷ ss) = is_branch_component s && all_components ss

unfoldable pub matches_repo : Text → Bool
unfolding components has_two_dots is_repo_segment
matches_repo s = elim (components [] s) [
  | [] ↦ false
  | owner ∷ [] ↦ false
  | owner ∷ name ∷ [] ↦ not (has_two_dots s) && is_repo_segment owner && is_repo_segment name
  | owner ∷ name ∷ more ∷ rest ↦ false
]

unfoldable pub matches_branch : Text → Bool
unfolding components has_two_dots all_components
matches_branch s =
    not (starts_with_dash s) && not (has_two_dots s) && all_components (components [] s)
