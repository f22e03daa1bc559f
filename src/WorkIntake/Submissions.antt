-- ===== src/WorkIntake/Submissions.antt =====
-- src/domains/work-intake/unit-validation.ts: `validateSubmission`.
pub mod Cases
pub mod Sound
use agent_pool.Prelude.{
  ℕ, ◌+◌, ltb, leb, ◌==◌, Bool, true, false, ◌&&◌, ◌||◌, not, List, [], ◌∷◌, ◌++◌, map, Option,
  none, some, Text, codes, text_eq, length, take, sort, js_le, or_else, if◌then◌else◌,
}
use agent_pool.Js.{Value, Values, Fields, items, keys, own, mem_text, is_undefined}
use agent_pool.WorkIntake.Contracts.{
  DirectTaskUnit, SubmissionShape, single_unit, hand_authored_dag, IntakeViolation, code_text,
  malformed_body, unknown_field, invalid_field_type, invalid_field_format, payload_too_large,
  too_many_units, ambiguous_submission_shape, empty_submission, duplicate_unit_id,
  unknown_dependency, dependency_cycle, single_unit_has_dependencies, submission_fields,
  intake_limits,
}
use agent_pool.WorkIntake.Targets.{matches_repo, matches_branch}
use agent_pool.WorkIntake.Units.{
  violation, unknown_keys, check_string, indexed, validate_unit_shape,
}
use agent_pool.WorkIntake.Ordering.{find_unorderable_units}
use agent_pool.Orchestration.Work.Topology.{NodeShape}

pub record ValidatedSubmission : Type 0 where
  pub repo : Text
  pub branch : Text
  pub units : List DirectTaskUnit
  pub shape : SubmissionShape

pub data SubmissionValidation : Type 0 where
  valid : ValidatedSubmission → SubmissionValidation
  invalid : List IntakeViolation → SubmissionValidation

-- By path, then by code. Two violations with one path and one code have one message.
abbrev violation_le : IntakeViolation → IntakeViolation → Bool
violation_le a b =
    if text_eq a.path b.path
    then js_le (code_text a.code) (code_text b.code)
    else js_le a.path b.path

abbrev pub max_reported_violations : ℕ
max_reported_violations = 100

unfoldable pub sort_violations : List IntakeViolation → List IntakeViolation
sort_violations vs = take max_reported_violations (sort violation_le vs)

-- A value that was checked to be a string, or an array of them.
abbrev pub text_of : Value → Text
text_of (Value.string s) = s
text_of _ = []

abbrev pub texts_of : Value → Option (List Text)
texts_of (Value.array vs) = some (map text_of (items vs))
texts_of _ = none

abbrev pub list_of : Option (List Text) → List Text
list_of none = []
list_of (some xs) = xs

-- `rawUnits as DirectTaskUnit[]`.
unfoldable pub unit_of : Value → DirectTaskUnit
unfolding own items
unit_of (Value.object p fs) = record {
  id = text_of (own fs (codes "id"));
  intent = text_of (own fs (codes "intent"));
  change_spec = text_of (own fs (codes "change_spec"));
  acceptance_criteria = list_of (texts_of (own fs (codes "acceptance_criteria")));
  depends_on = texts_of (own fs (codes "depends_on"));
}
unit_of _ = record {
  id = [];
  intent = [];
  change_spec = [];
  acceptance_criteria = [];
  depends_on = none;
}

-- A string field, and its pattern where it is well formed.
unfoldable pub check_target : Value → Text → ℕ → (Text → Bool) → List IntakeViolation
unfolding check_string
check_target v path max pattern = elim (check_string v path max none) [
  | x ∷ xs ↦ x ∷ xs
  | [] ↦ if pattern (text_of v) then [] else violation invalid_field_format path none ∷ []
]

unfoldable pub check_envelope : Fields → List IntakeViolation
unfolding unknown_keys check_target
check_envelope fs =
    unknown_keys submission_fields (codes "$") none (keys fs)
    ++ (check_target (own fs (codes "repo")) (codes "$.repo") intake_limits.max_repo_length
          matches_repo
        ++ check_target (own fs (codes "branch")) (codes "$.branch") intake_limits.max_branch_length
            matches_branch)

-- The check that a single unit names no dependencies.
unfoldable pub check_no_edges : Value → List IntakeViolation
check_no_edges (Value.object true fs) = elim (own fs (codes "depends_on")) [
  | Value.array vs ↦
      if ltb 0 (length (items vs))
      then violation single_unit_has_dependencies (codes "$.unit.depends_on") none ∷ []
      else []
  | Value.undefined ↦ []
  | Value.null ↦ []
  | Value.bool b ↦ []
  | Value.number n ↦ []
  | Value.other_number n ↦ []
  | Value.string s ↦ []
  | Value.object p gs ↦ []
]
check_no_edges _ = []

unfoldable pub check_units : ℕ → List Value → List IntakeViolation
unfolding validate_unit_shape
check_units index [] = []
check_units index (v ∷ vs) =
    validate_unit_shape v (indexed (codes "$.units") index) ++ check_units (index + 1) vs

unfoldable pub sum_lengths : List Text → ℕ
sum_lengths [] = 0
sum_lengths (s ∷ ss) = length s + sum_lengths ss

-- `measureContent`, without the repository and the branch.
unfoldable pub measure_units : List DirectTaskUnit → ℕ
unfolding sum_lengths
measure_units [] = 0
measure_units (u ∷ us) =
    length u.id
    + length u.intent
    + length u.change_spec
    + sum_lengths u.acceptance_criteria
    + sum_lengths (list_of u.depends_on)
    + measure_units us

unfoldable pub measure_content : List DirectTaskUnit → Fields → ℕ
unfolding measure_units
measure_content units fs =
    length (text_of (own fs (codes "repo")))
    + length (text_of (own fs (codes "branch")))
    + measure_units units

abbrev pub is_single : SubmissionShape → Bool
is_single single_unit = true
is_single hand_authored_dag = false

abbrev unit_path : SubmissionShape → ℕ → Text
unit_path single_unit index = codes "$.unit"
unit_path hand_authored_dag index = indexed (codes "$.units") index

-- The ids seen so far, and the units that repeat one.
unfoldable pub duplicate_ids :
    SubmissionShape → ℕ → List Text → List DirectTaskUnit → List IntakeViolation
unfolding mem_text
duplicate_ids shape index seen [] = []
duplicate_ids shape index seen (u ∷ us) =
    let skipped = duplicate_ids shape (index + 1) seen us in
    let added = duplicate_ids shape (index + 1) (u.id ∷ seen) us in
    if mem_text u.id seen
    then violation duplicate_unit_id (unit_path shape index ++ codes ".id") (some u.id) ∷ skipped
    else added

unfoldable pub unknown_edges : List Text → Text → Text → ℕ → List Text → List IntakeViolation
unfolding mem_text
unknown_edges ids id path edge [] = []
unknown_edges ids id path edge (d ∷ ds) =
    let rest = unknown_edges ids id path (edge + 1) ds in
    if mem_text d ids
    then rest
    else violation unknown_dependency (indexed path edge) (some id) ∷ rest

unfoldable pub unknown_dependencies :
    SubmissionShape → List Text → ℕ → List DirectTaskUnit → List IntakeViolation
unfolding unknown_edges
unknown_dependencies shape ids index [] = []
unknown_dependencies shape ids index (u ∷ us) =
    unknown_edges ids u.id (unit_path shape index ++ codes ".depends_on") 0 (list_of u.depends_on)
    ++ unknown_dependencies shape ids (index + 1) us

abbrev pub shape_of_unit : DirectTaskUnit → NodeShape
shape_of_unit u = record { id = u.id; depends_on = list_of u.depends_on }

abbrev base_path : SubmissionShape → Text
base_path single_unit = codes "$.unit"
base_path hand_authored_dag = codes "$.units"

-- The violations of the last check. The search always ends.
unfoldable pub cycle_violations : SubmissionShape → List DirectTaskUnit → List IntakeViolation
unfolding find_unorderable_units
cycle_violations shape units = elim (find_unorderable_units (map shape_of_unit units)) [
  | none ↦ []
  | some [] ↦ []
  | some (x ∷ xs) ↦ violation dependency_cycle (base_path shape) none ∷ []
]

-- `violations.length > 0`, and what then is returned.
unfoldable pub unless : List IntakeViolation → SubmissionValidation → SubmissionValidation
unfolding sort_violations
unless [] next = next
unless (x ∷ xs) next = invalid (sort_violations (x ∷ xs))

-- The checks across units, once each of them is well formed.
unfoldable pub check_across : Fields → SubmissionShape → List DirectTaskUnit → SubmissionValidation
unfolding unless duplicate_ids unknown_dependencies cycle_violations
check_across fs shape units = unless (duplicate_ids shape 0 [] units) (
    unless (unknown_dependencies shape (map (λ u. u.id) units) 0 units) (
      unless (cycle_violations shape units) (
        valid (record {
          repo = text_of (own fs (codes "repo"));
          branch = text_of (own fs (codes "branch"));
          units = units;
          shape = shape;
        }))))

unfoldable pub check_content : Fields → SubmissionShape → List DirectTaskUnit → SubmissionValidation
unfolding measure_content check_across
check_content fs shape units =
    if ltb intake_limits.max_total_content_chars (measure_content units fs)
    then invalid (violation payload_too_large (codes "$") none ∷ [])
    else check_across fs shape units

unfoldable pub validate_single : Fields → List IntakeViolation → Value → SubmissionValidation
unfolding unless check_no_edges check_content
validate_single fs found v =
    unless (found ++ (validate_unit_shape v (codes "$.unit") ++ check_no_edges v))
      (check_content fs single_unit (unit_of v ∷ []))

unfoldable pub validate_array : Fields → List IntakeViolation → Value → SubmissionValidation
unfolding unless check_units check_content
validate_array fs found (Value.array vs) =
    if length (items vs) == 0
    then invalid (sort_violations (found ++ violation empty_submission (codes "$.units") none ∷ []))
    else if ltb intake_limits.max_units (length (items vs))
    then invalid (sort_violations (found ++ violation too_many_units (codes "$.units") none ∷ []))
    else unless (found ++ check_units 0 (items vs))
        (check_content fs hand_authored_dag (map unit_of (items vs)))
validate_array fs found v =
    invalid (sort_violations (found ++ violation invalid_field_type (codes "$.units") none ∷ []))

unfoldable pub validate_submission : Value → SubmissionValidation
unfolding check_envelope validate_single validate_array sort_violations
validate_submission (Value.object true fs) =
    let found = check_envelope fs in
    let unit = own fs (codes "unit") in
    let units = own fs (codes "units") in
    if not (is_undefined unit) && not (is_undefined units)
    then invalid
        (sort_violations (found ++ violation ambiguous_submission_shape (codes "$") none ∷ []))
    else if is_undefined unit && is_undefined units
    then invalid (sort_violations (found ++ violation empty_submission (codes "$") none ∷ []))
    else if not (is_undefined unit)
    then validate_single fs found unit
    else validate_array fs found units
validate_submission _ = invalid (violation malformed_body (codes "$") none ∷ [])
