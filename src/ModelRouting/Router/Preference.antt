-- ===== src/ModelRouting/Router/Preference.antt =====
-- src/domains/model-routing-and-evaluation/model-router.ts: which model `selectForRole` selects.
use agent_pool.Prelude.{
  ℕ, ◌≡◌, ◌⊎◌, ◌+◌, refl, ap, subst, ◌∙◌, inl, inr, true, false, List, [], ◌∷◌, ◌++◌, none, some,
  Text, Bool-cases, Option-cases, arith, length, length-append,
}
use agent_pool.ModelRouting.ApprovedModels.{is_approved_id}
use agent_pool.ModelRouting.Router.{
  RoleConfig, RoutingPolicy, RoutingDecision, Pick, routed, failed, failure, routed-injective,
  Availability, has, candidates_of, picked, pick_available, pick_explicit, pick_candidate, decided,
  select_for_role, no_available_candidate,
}

-- None of these is available.
abbrev pub NoneAvailable : Availability → List Text → Type 0
NoneAvailable available [] = Unit
NoneAvailable available (id ∷ ids) = (has available id ≡ false) × NoneAvailable available ids

NoneAvailable-snoc :
    (available : Availability) (ids : List Text) (id : Text)
    → NoneAvailable available ids
    → has available id ≡ false
    → NoneAvailable available (ids ++ id ∷ [])
NoneAvailable-snoc available [] id h k = (k, tt)
NoneAvailable-snoc available (x ∷ xs) id h k = (h.0, NoneAvailable-snoc available xs id h.1 k)

-- The first candidate that is available, with those before it, which are not.
pub record IsFirst (available : Availability) (candidates : List Text) (p : Pick) : Type 0 where
  pub before : List Text
  pub later : List Text
  pub split : candidates ≡ before ++ p.selected ∷ later
  pub skipped : NoneAvailable available before
  pub is_available : has available p.selected ≡ true
  pub told : p ≡ picked (length before) p.selected before

append_assoc : (xs : List Text) (y : Text) (ys : List Text) → (xs ++ y ∷ []) ++ ys ≡ xs ++ y ∷ ys
append_assoc [] y ys = refl
append_assoc (x ∷ xs) y ys = ap (λ zs. x ∷ zs) (append_assoc xs y ys)

pick_available-IsFirst :
    (role : Text) (available : Availability) (before ids : List Text) (p : Pick)
    → NoneAvailable available before
    → pick_available role available (length before) before ids ≡ routed p
    → IsFirst available (before ++ ids) p
unfolding pick_available
pick_available-IsFirst role available before [] p h e = absurd (ground (arith, e))
pick_available-IsFirst role available before (id ∷ ids) p h e =
    elim (Bool-cases (has available id)) [
      | inl there ↦
          subst (IsFirst available (before ++ id ∷ ids))
            (routed-injective (picked (length before) id before) p (ground (arith, there, e)))
            (record {
              before = before;
              later = ids;
              split = refl;
              skipped = h;
              is_available = there;
              told = refl;
            })
      | inr missing ↦
          let size : length (before ++ id ∷ []) ≡ length before + 1 =
            length-append before (id ∷ []) in
          subst (λ xs. IsFirst available xs p) (append_assoc before id ids)
            (pick_available-IsFirst role available (before ++ id ∷ []) ids p
              (NoneAvailable-snoc available before id h missing)
              (ap (λ n. pick_available role available n (before ++ id ∷ []) ids) size
                ∙ ground (arith, missing, e)))
    ]

pick_available-cases :
    (role : Text) (available : Availability) (i : ℕ) (skipped ids : List Text)
    → (NoneAvailable available ids
        × (pick_available role available i skipped ids
            ≡ failed (failure no_available_candidate (some role) none)))
      ⊎ ((p : Pick) × (pick_available role available i skipped ids ≡ routed p))
unfolding pick_available
pick_available-cases role available i skipped [] = inl (tt, refl)
pick_available-cases role available i skipped (id ∷ ids) = elim (Bool-cases (has available id)) [
  | inl there ↦ inr (picked i id skipped, rw there refl)
  | inr missing ↦ elim (pick_available-cases role available (i + 1) (skipped ++ id ∷ []) ids) [
    | inl (others, e) ↦ inl ((missing, others), rw (missing, e) refl)
    | inr (p, e) ↦ inr (p, rw (missing, e) refl)
  ]
]

-- For a role with a configuration and no model asked for, the selection fails exactly as no
-- candidate is available, or it is the first available candidate, told with its index and with the
-- candidates skipped before it.
pub select_for_role-IsFirst :
    (policy : RoutingPolicy) (role : Text) (available : Availability) (config : RoleConfig)
    → policy.get_role_config role ≡ some config
    → (NoneAvailable available (candidates_of config)
        × (select_for_role policy role available none
            ≡ failed (failure no_available_candidate (some role) none)))
      ⊎ ((p : Pick) × IsFirst available (candidates_of config) p
          × (select_for_role policy role available none ≡ routed (decided role policy.version p)))
unfolding select_for_role pick_candidate
select_for_role-IsFirst policy role available config found =
    elim (pick_available-cases role available 0 [] (candidates_of config)) [
      | inl (missing, e) ↦ inl (missing, rw (select_for_role, pick_candidate, found, e) refl)
      | inr (p, e) ↦ inr (
        p,
        pick_available-IsFirst role available [] (candidates_of config) p tt e,
        rw (select_for_role, pick_candidate, found, e) refl,
      )
    ]

-- A model that was asked for is the one that is selected, and is approved and available.
pub select_for_role-explicit :
    (policy : RoutingPolicy) (role : Text) (available : Availability) (id : Text)
    (d : RoutingDecision)
    → select_for_role policy role available (some id) ≡ routed d
    → (d.selected_model ≡ id) × (is_approved_id id ≡ true) × (has available id ≡ true)
unfolding select_for_role pick_candidate pick_explicit
select_for_role-explicit policy role available id d e =
    elim (Option-cases (policy.get_role_config role)) [
      | inl missing ↦ absurd (ground (arith, e, missing))
      | inr (config, found) ↦ elim (Bool-cases (is_approved_id id)) [
        | inr bad ↦ absurd (ground (arith, e, found, bad))
        | inl known ↦ elim (Bool-cases (has available id)) [
          | inr missing ↦ absurd (ground (arith, e, found, known, missing))
          | inl there ↦ (ground (arith, e, found, known, there), known, there)
        ]
      ]
    ]
