-- ===== src/ModelRouting/Router.antt =====
-- src/domains/model-routing-and-evaluation/model-router.ts. The reason of a failure and the detail of
-- a rationale are told by their codes. Freezing and copying are the absence of writes.
pub mod Preference
pub mod Listing
use agent_pool.Prelude.{
  ℕ, ◌+◌, ltb, ◌-◌, ◌==◌, ◌≡◌, ap, Bool, true, false, ◌&&◌, ◌||◌, not, List, [], ◌∷◌, ◌++◌, Option,
  none, some, Text, codes, text_eq, if◌then◌else◌,
}
use agent_pool.Js.{Value, Values, Fields, items, own, mem_text}
use agent_pool.ModelRouting.ApprovedModels.{is_approved_id, get_provider, get_model_name}

pub record RoleConfig : Type 0 where
  pub primary : Text
  pub fallback : List Text

-- What the router reads of a `RoutingPolicy`.
pub record RoutingPolicy : Type 0 where
  pub version : ℕ
  pub get_role_config : Text → Option RoleConfig
  pub get_rank : Text → ℕ

pub data FailureCode : Type 0 where
  invalid_availability invalid_availability_entry missing_availability_full_id : FailureCode
  unapproved_availability_id inconsistent_availability_provider : FailureCode
  inconsistent_availability_model duplicate_availability_id unknown_role : FailureCode
  unapproved_explicit_model unavailable_explicit_model no_available_candidate : FailureCode
  missing_pair_policy pair_construction_failed no_valid_builder_evaluator_pair : FailureCode

pub record RoutingFailure : Type 0 where
  pub code : FailureCode
  pub role : Option Text
  pub requested_model : Option Text

abbrev pub failure : FailureCode → Option Text → Option Text → RoutingFailure
failure c r m = record { code = c; role = r; requested_model = m }

pub data RationaleCode : Type 0 where
  explicit_model_selected primary_selected fallback_selected : RationaleCode

pub record FallbackBehavior : Type 0 where
  pub primary_available : Bool
  pub selected_fallback_index : Option ℕ
  pub skipped_candidates : List Text

pub record Pick : Type 0 where
  pub selected : Text
  pub rationale : RationaleCode
  pub fallback : FallbackBehavior

pub record RoutingDecision : Type 0 where
  pub role : Text
  pub selected_model : Text
  pub policy_version : ℕ
  pub rationale : RationaleCode
  pub fallback_behavior : FallbackBehavior

-- A result, or a typed failure.
pub data Routed {ℓ} (A : Type ℓ) : Type ℓ where
  routed : A → Routed A
  failed : RoutingFailure → Routed A

-- The list of the ids that are available stands for the set, too.
abbrev pub Availability : Type 0
Availability = List Text

unfoldable pub has : Availability → Text → Bool
unfolding mem_text
has available id = mem_text id available

-- `field !== undefined && field !== part`.
abbrev differs : Value → Text → Bool
differs Value.undefined part = false
differs (Value.string s) part = not (text_eq s part)
differs _ part = true

-- An entry with an id, after those seen: the id, or a failure.
unfoldable pub check_id : List Text → Fields → Text → Routed Text
unfolding has get_provider get_model_name
check_id seen fs id =
    if not (is_approved_id id)
    then failed (failure unapproved_availability_id none none)
    else if differs (own fs (codes "provider")) (get_provider id)
    then failed (failure inconsistent_availability_provider none (some id))
    else if differs (own fs (codes "model")) (get_model_name id)
    then failed (failure inconsistent_availability_model none (some id))
    else if has seen id
    then failed (failure duplicate_availability_id none (some id))
    else routed id

unfoldable pub check_full_id : List Text → Fields → Value → Routed Text
unfolding check_id
check_full_id seen fs (Value.string id) = check_id seen fs id
check_full_id seen fs _ = failed (failure missing_availability_full_id none none)

unfoldable pub check_entry : List Text → Value → Routed Text
unfolding check_full_id
check_entry seen (Value.object p fs) = check_full_id seen fs (own fs (codes "fullId"))
check_entry seen _ = failed (failure invalid_availability_entry none none)

-- The loop over the entries, with `values` as they are pushed.
unfoldable pub check_entries : List Text → List Value → Routed Availability
unfolding check_entry
check_entries values [] = routed values
check_entries values (v ∷ vs) = elim (check_entry values v) [
  | failed f ↦ failed f
  | routed id ↦ check_entries (values ++ id ∷ []) vs
]

unfoldable pub validate_availability : Value → Routed Availability
unfolding check_entries items
validate_availability (Value.array vs) = check_entries [] (items vs)
validate_availability _ = failed (failure invalid_availability none none)

abbrev pub candidates_of : RoleConfig → List Text
candidates_of config = config.primary ∷ config.fallback

-- The pick of the candidate at index `i`.
abbrev pub picked : ℕ → Text → List Text → Pick
picked i id skipped = record {
  selected = id;
  rationale = if i == 0 then primary_selected else fallback_selected;
  fallback = record {
    primary_available = i == 0;
    selected_fallback_index = if i == 0 then none else some (i - 1);
    skipped_candidates = skipped;
  };
}

-- The loop over the candidates.
unfoldable pub pick_available : Text → Availability → ℕ → List Text → List Text → Routed Pick
unfolding has
pick_available role available i skipped [] =
    failed (failure no_available_candidate (some role) none)
pick_available role available i skipped (id ∷ ids) =
    let rest = pick_available role available (i + 1) (skipped ++ id ∷ []) ids in
    if has available id then routed (picked i id skipped) else rest

unfoldable pub pick_explicit : Text → Availability → Text → Routed Pick
unfolding has
pick_explicit role available id =
    if not (is_approved_id id)
    then failed (failure unapproved_explicit_model none none)
    else if not (has available id)
    then failed (failure unavailable_explicit_model (some role) (some id))
    else routed (record {
      selected = id;
      rationale = explicit_model_selected;
      fallback = record {
        primary_available = false;
        selected_fallback_index = none;
        skipped_candidates = [];
      };
    })

unfoldable pub pick_candidate : RoutingPolicy → Text → Availability → Option Text → Routed Pick
unfolding pick_available pick_explicit
pick_candidate policy role available explicit = elim (policy.get_role_config role) [
  | none ↦ failed (failure unknown_role none none)
  | some config ↦ elim explicit [
    | some id ↦ pick_explicit role available id
    | none ↦ pick_available role available 0 [] (candidates_of config)
  ]
]

-- `createRoutingDecision`.
abbrev pub decided : Text → ℕ → Pick → RoutingDecision
decided r v p = record {
  role = r;
  selected_model = p.selected;
  policy_version = v;
  rationale = p.rationale;
  fallback_behavior = p.fallback;
}

unfoldable pub select_for_role :
    RoutingPolicy → Text → Availability → Option Text → Routed RoutingDecision
unfolding pick_candidate
select_for_role policy role available explicit =
    elim (pick_candidate policy role available explicit) [
      | failed f ↦ failed f
      | routed p ↦ routed (decided role policy.version p)
    ]

pub routed-injective {ℓ} : {A : Type ℓ} (x y : A) → routed x ≡ routed y → x ≡ y
routed-injective x y e = ap (λ r. elim r [ routed z ↦ z | failed f ↦ x ]) e
