-- ===== src/WorkIntake/Units.antt =====
-- src/domains/work-intake/unit-validation.ts: the checks of one unit. A check that pushes onto the
-- list of violations is the list of what it pushes.
use agent_pool.Prelude.{
  ℕ, ◌+◌, ltb, leb, ◌==◌, Bool, true, false, ◌||◌, not, List, [], ◌∷◌, ◌++◌, Option, none, some,
  Text, codes, text_eq, length, take, decimal, if◌then◌else◌,
}
use agent_pool.Js.{Value, items, keys, own, mem_text, is_blank}
use agent_pool.WorkIntake.Contracts.{
  IntakeViolation, IntakeErrorCode, unknown_field, missing_field, invalid_field_type,
  field_too_long, missing_acceptance_criteria, self_dependency, duplicate_dependency, unit_fields,
  intake_limits,
}

abbrev pub forbidden_keys : List Text
forbidden_keys = codes "__proto__" ∷ codes "constructor" ∷ codes "prototype" ∷ []

abbrev pub violation : IntakeErrorCode → Text → Option Text → IntakeViolation
violation c p u = record { code = c; path = p; unit_id = u }

-- U+2026 is the ellipsis.
unfoldable pub echo_safe : Text → Text
echo_safe key = if leb (length key) 64 then key else take 64 key ++ 0x2026 ∷ []

-- The loop over the keys that are not fields.
unfoldable pub unknown_keys : List Text → Text → Option Text → List Text → List IntakeViolation
unfolding mem_text echo_safe
unknown_keys allowed path unit [] = []
unknown_keys allowed path unit (k ∷ ks) =
    let rest = unknown_keys allowed path unit ks in
    if mem_text k forbidden_keys || not (mem_text k allowed)
    then violation unknown_field (path ++ (codes "." ++ echo_safe k)) unit ∷ rest
    else rest

unfoldable pub check_string : Value → Text → ℕ → Option Text → List IntakeViolation
unfolding is_blank
check_string Value.undefined path max unit = violation missing_field path unit ∷ []
check_string (Value.string s) path max unit =
    if is_blank s
    then violation missing_field path unit ∷ []
    else if ltb max (length s)
    then violation field_too_long path unit ∷ []
    else []
check_string _ path max unit = violation invalid_field_type path unit ∷ []

-- `${path}[${index}]`.
abbrev pub indexed : Text → ℕ → Text
indexed path index = path ++ (codes "[" ++ (decimal index ++ codes "]"))

unfoldable pub check_criterion : Value → Text → Option Text → List IntakeViolation
unfolding is_blank
check_criterion (Value.string s) path unit =
    if is_blank s
    then violation missing_acceptance_criteria path unit ∷ []
    else if ltb intake_limits.max_criterion_length (length s)
    then violation field_too_long path unit ∷ []
    else []
check_criterion _ path unit = violation invalid_field_type path unit ∷ []

unfoldable pub check_criteria : ℕ → List Value → Text → Option Text → List IntakeViolation
unfolding check_criterion
check_criteria index [] path unit = []
check_criteria index (v ∷ vs) path unit =
    check_criterion v (indexed path index) unit ++ check_criteria (index + 1) vs path unit

unfoldable pub validate_acceptance_criteria : Value → Text → Option Text → List IntakeViolation
unfolding check_criteria items
validate_acceptance_criteria Value.undefined path unit =
    violation missing_acceptance_criteria path unit ∷ []
validate_acceptance_criteria (Value.array vs) path unit =
    if length (items vs) == 0
    then violation missing_acceptance_criteria path unit ∷ []
    else if ltb intake_limits.max_criteria_per_unit (length (items vs))
    then violation field_too_long path unit ∷ []
    else check_criteria 0 (items vs) path unit
validate_acceptance_criteria _ path unit = violation invalid_field_type path unit ∷ []

abbrev is_unit : Option Text → Text → Bool
is_unit none d = false
is_unit (some u) d = text_eq d u

-- The loop over the dependencies, with those seen.
unfoldable pub check_dependencies :
    ℕ → List Text → List Value → Text → Option Text → List IntakeViolation
unfolding is_blank mem_text
check_dependencies index seen [] path unit = []
check_dependencies index seen (Value.string d ∷ vs) path unit =
    let rest = check_dependencies (index + 1) seen vs path unit in
    let added = check_dependencies (index + 1) (d ∷ seen) vs path unit in
    if is_blank d
    then violation invalid_field_type (indexed path index) unit ∷ rest
    else if is_unit unit d
    then violation self_dependency (indexed path index) unit ∷ rest
    else if mem_text d seen
    then violation duplicate_dependency (indexed path index) unit ∷ rest
    else added
check_dependencies index seen (v ∷ vs) path unit =
    violation invalid_field_type (indexed path index) unit
    ∷ check_dependencies (index + 1) seen vs path unit

unfoldable pub validate_depends_on : Value → Text → Option Text → List IntakeViolation
unfolding check_dependencies items
validate_depends_on Value.undefined path unit = []
validate_depends_on (Value.array vs) path unit =
    if ltb intake_limits.max_dependencies_per_unit (length (items vs))
    then violation field_too_long path unit ∷ []
    else check_dependencies 0 [] (items vs) path unit
validate_depends_on _ path unit = violation invalid_field_type path unit ∷ []

-- `typeof rawId === 'string' ? rawId : undefined`.
abbrev pub id_of : Value → Option Text
id_of (Value.string s) = some s
id_of _ = none

unfoldable pub validate_unit_shape : Value → Text → List IntakeViolation
unfolding unknown_keys check_string validate_acceptance_criteria validate_depends_on
validate_unit_shape (Value.object true fs) path =
    let unit = id_of (own fs (codes "id")) in
    unknown_keys unit_fields path unit (keys fs)
    ++ (check_string (own fs (codes "id")) (path ++ codes ".id") intake_limits.max_id_length unit
        ++ (check_string (own fs (codes "intent")) (path ++ codes ".intent")
              intake_limits.max_intent_length unit
            ++ (check_string (own fs (codes "change_spec")) (path ++ codes ".change_spec")
                  intake_limits.max_change_spec_length unit
                ++ (validate_acceptance_criteria (own fs (codes "acceptance_criteria"))
                      (path ++ codes ".acceptance_criteria") unit
                    ++ validate_depends_on (own fs (codes "depends_on"))
                        (path ++ codes ".depends_on") unit))))
validate_unit_shape _ path = violation invalid_field_type path none ∷ []
