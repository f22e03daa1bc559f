-- ===== src/WorkIntake/Submissions/Cases.antt =====
-- src/domains/work-intake/unit-validation.ts, `validateSubmission`: the ways a submission is refused or
-- passes.
use agent_pool.Prelude.{
  suc, ◌==◌, ◌≡◌, ◌≤◌, inl, inr, refl, ap, List, [], ◌∷◌, map, none, codes, length, length-take,
  arith, if◌then◌else◌, not, ◌&&◌, Bool, true, false, Bool-cases, ltb,
}
use agent_pool.Js.{is_undefined, Value, Fields, own, items}
use agent_pool.WorkIntake.Contracts.{
  IntakeViolation, malformed_body, payload_too_large, DirectTaskUnit, SubmissionShape, single_unit,
  hand_authored_dag, intake_limits,
}
use agent_pool.WorkIntake.Units.{violation}
use agent_pool.WorkIntake.Submissions.{
  ValidatedSubmission, SubmissionValidation, valid, invalid, sort_violations,
  max_reported_violations, unless, duplicate_ids, unknown_dependencies, cycle_violations,
  check_across, check_content, check_envelope, validate_single, validate_array, validate_submission,
  measure_content, text_of, unit_of,
}

pub length-map {ℓ κ} :
    {A : Type ℓ} {B : Type κ} (f : A → B) (vs : List A) → length (map f vs) ≡ length vs
length-map f [] = refl
length-map f (v ∷ vs) = ap suc (length-map f vs)

sort_violations-length :
    (vs : List IntakeViolation) → length (sort_violations vs) ≤ max_reported_violations
unfolding sort_violations
sort_violations-length vs = length-take max_reported_violations _

unless_cases :
    (P : SubmissionValidation → Type 0) (vs : List IntakeViolation) (o : SubmissionValidation)
    → P (invalid (sort_violations vs))
    → (vs ≡ [] → P o)
    → P (unless vs o)
unfolding unless
unless_cases P [] o refused passed = passed refl
unless_cases P (x ∷ xs) o refused passed = refused

pub valid-injective : (v w : ValidatedSubmission) → valid v ≡ valid w → v ≡ w
valid-injective v w e = ap (λ o. elim o [ valid u ↦ u | invalid vs ↦ v ]) e

if_cases :
    (P : SubmissionValidation → Type 0) (b : Bool) (x y : SubmissionValidation)
    → P x
    → P y
    → P (if b then x else y)
if_cases P true x y h k = h
if_cases P false x y h k = k

-- What passes the checks across units, and how a submission is refused.
module _ (P : SubmissionValidation → Type 0)
    (refused : (vs : List IntakeViolation) → length vs ≤ max_reported_violations → P (invalid vs))
    (passed : (fs : Fields) (shape : SubmissionShape) (units : List DirectTaskUnit)
      → 1 ≤ length units
      → length units ≤ intake_limits.max_units
      → measure_content units fs ≤ intake_limits.max_total_content_chars
      → duplicate_ids shape 0 [] units ≡ []
      → unknown_dependencies shape (map (λ u. u.id) units) 0 units ≡ []
      → cycle_violations shape units ≡ []
      → P (
          valid (record {
            repo = text_of (own fs (codes "repo"));
            branch = text_of (own fs (codes "branch"));
            units = units;
            shape = shape;
          }))) where
  refused_sorted : (vs : List IntakeViolation) → P (invalid (sort_violations vs))
  refused_sorted vs = refused (sort_violations vs) (sort_violations-length vs)

  check_content_cases :
      (fs : Fields) (shape : SubmissionShape) (units : List DirectTaskUnit)
      → 1 ≤ length units
      → length units ≤ intake_limits.max_units
      → P (check_content fs shape units)
  unfolding check_content check_across
  check_content_cases fs shape units some_units few =
      elim (Bool-cases (ltb intake_limits.max_total_content_chars (measure_content units fs))) [
        | inl large ↦
            rw large (refused (violation payload_too_large (codes "$") none ∷ []) (omega arith))
        | inr fits ↦ rw fits (
            unless_cases P (duplicate_ids shape 0 [] units) _ (refused_sorted _) (λ distinct.
              unless_cases P (unknown_dependencies shape (map (λ u. u.id) units) 0 units) _
                (refused_sorted _)
                (λ known.
                  unless_cases P (cycle_violations shape units) _ (refused_sorted _) (λ acyclic.
                    passed fs shape units some_units few (ground arith) distinct known acyclic))))
      ]

  validate_single_cases :
      (fs : Fields) (found : List IntakeViolation) (v : Value) → P (validate_single fs found v)
  unfolding validate_single
  validate_single_cases fs found v =
      unless_cases P _ _ (refused_sorted _)
        (λ fine. check_content_cases fs single_unit (unit_of v ∷ []) (omega arith) (omega arith))

  validate_array_cases :
      (fs : Fields) (found : List IntakeViolation) (v : Value) → P (validate_array fs found v)
  unfolding validate_array
  validate_array_cases fs found (Value.array vs) = elim (Bool-cases (length (items vs) == 0)) [
    | inl none_given ↦ rw none_given (refused_sorted _)
    | inr given ↦ elim (Bool-cases (ltb intake_limits.max_units (length (items vs)))) [
      | inl many ↦ rw (given, many) (refused_sorted _)
      | inr few ↦
          rw (given, few)
            (unless_cases P _ _ (refused_sorted _) (λ fine.
              check_content_cases fs hand_authored_dag (map unit_of (items vs))
                (ground (arith, length-map unit_of (items vs)))
                (ground (arith, length-map unit_of (items vs)))))
    ]
  ]
  validate_array_cases fs found v = refused_sorted _

  pub validate_submission_cases : (v : Value) → P (validate_submission v)
  unfolding validate_submission
  validate_submission_cases (Value.object true fs) =
      let unit = own fs (codes "unit") in
      let units = own fs (codes "units") in
      if_cases P (not (is_undefined unit) && not (is_undefined units)) _ _ (refused_sorted _) (
        if_cases P (is_undefined unit && is_undefined units) _ _ (refused_sorted _) (
          if_cases P (not (is_undefined unit)) _ _
            (validate_single_cases fs (check_envelope fs) unit)
            (validate_array_cases fs (check_envelope fs) units)))
  validate_submission_cases v =
      refused (violation malformed_body (codes "$") none ∷ []) (omega arith)
