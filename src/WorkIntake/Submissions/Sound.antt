-- ===== src/WorkIntake/Submissions/Sound.antt =====
-- src/domains/work-intake/unit-validation.ts, `validateSubmission`: what a submission that passes is, and
-- how many violations one that fails is told.
use agent_pool.Prelude.{
  ℕ, ◌+◌, ◌==◌, ◌≡◌, ◌≤◌, inl, inr, refl, subst, List, [], ◌∷◌, ◌++◌, map, some, Text, length,
  arith, true, false, Bool-cases, ltb, select, sort, insert_sorted, js_le,
}
use agent_pool.Js.{Value, mem_text}
use agent_pool.WorkIntake.Contracts.{
  IntakeViolation, DirectTaskUnit, SubmissionShape, intake_limits,
}
use agent_pool.WorkIntake.Ordering.{Ordered, order_units, find_unorderable_units}
use agent_pool.WorkIntake.Ordering.Finishes.{order_units_finishes}
use agent_pool.Orchestration.Work.Topology.{Degree, positive}
use agent_pool.WorkIntake.Submissions.{
  ValidatedSubmission, SubmissionValidation, valid, invalid, max_reported_violations, duplicate_ids,
  unknown_edges, unknown_dependencies, shape_of_unit, cycle_violations, validate_submission,
  measure_content, measure_units, list_of,
}
use agent_pool.WorkIntake.Submissions.Cases.{length-map, valid-injective, validate_submission_cases}

-- At most so many violations are reported.
abbrev pub IsBrief : SubmissionValidation → Type 0
IsBrief (valid v) = Unit
IsBrief (invalid vs) = length vs ≤ max_reported_violations

-- A submission that fails validation is told of at most 100 violations.
pub validate_submission-IsBrief : (v : Value) → IsBrief (validate_submission v)
validate_submission-IsBrief =
    validate_submission_cases IsBrief (λ vs few. few) (λ fs shape units a b c d e f. tt)

-- No id of the units is among those seen, and no two are equal.
abbrev pub IsDistinctFrom : List Text → List DirectTaskUnit → Type 0
IsDistinctFrom seen [] = Unit
IsDistinctFrom seen (u ∷ us) = (mem_text u.id seen ≡ false) × IsDistinctFrom (u.id ∷ seen) us

abbrev pub AllMember : List Text → List Text → Type 0
AllMember ids [] = Unit
AllMember ids (d ∷ ds) = (mem_text d ids ≡ true) × AllMember ids ds

-- Each dependency of a unit is one of the ids.
abbrev pub IsKnownTo : List Text → List DirectTaskUnit → Type 0
IsKnownTo ids [] = Unit
IsKnownTo ids (u ∷ us) = AllMember ids (list_of u.depends_on) × IsKnownTo ids us

duplicate_ids-IsDistinctFrom :
    (shape : SubmissionShape) (i : ℕ) (seen : List Text) (us : List DirectTaskUnit)
    → duplicate_ids shape i seen us ≡ []
    → IsDistinctFrom seen us
unfolding duplicate_ids
duplicate_ids-IsDistinctFrom shape i seen [] e = tt
duplicate_ids-IsDistinctFrom shape i seen (u ∷ us) e = elim (Bool-cases (mem_text u.id seen)) [
  | inl twice ↦ absurd (ground (arith, e, twice))
  | inr fresh ↦ (
    fresh,
    duplicate_ids-IsDistinctFrom shape (i + 1) (u.id ∷ seen) us (ground (arith, e, fresh)),
  )
]

unknown_edges-AllMember :
    (ids : List Text) (id path : Text) (i : ℕ) (ds : List Text)
    → unknown_edges ids id path i ds ≡ []
    → AllMember ids ds
unfolding unknown_edges
unknown_edges-AllMember ids id path i [] e = tt
unknown_edges-AllMember ids id path i (d ∷ ds) e = elim (Bool-cases (mem_text d ids)) [
  | inl known ↦ (known, unknown_edges-AllMember ids id path (i + 1) ds (ground (arith, e, known)))
  | inr other ↦ absurd (ground (arith, e, other))
]

append-empty : (xs ys : List IntakeViolation) → xs ++ ys ≡ [] → (xs ≡ []) × (ys ≡ [])
append-empty [] ys e = (refl, e)
append-empty (x ∷ xs) ys e = absurd (ground (arith, e))

unknown_dependencies-IsKnownTo :
    (shape : SubmissionShape) (ids : List Text) (i : ℕ) (us : List DirectTaskUnit)
    → unknown_dependencies shape ids i us ≡ []
    → IsKnownTo ids us
unfolding unknown_dependencies
unknown_dependencies-IsKnownTo shape ids i [] e = tt
unknown_dependencies-IsKnownTo shape ids i (u ∷ us) e =
    let (here, rest) = append-empty _ _ e in
    (
      unknown_edges-AllMember ids u.id _ 0 (list_of u.depends_on) here,
      unknown_dependencies-IsKnownTo shape ids (i + 1) us rest,
    )

-- No unit waits for ever: the search orders them all.
abbrev pub IsOrderable : List DirectTaskUnit → Type 0
IsOrderable us =
    (o : Ordered) × (order_units (map shape_of_unit us) ≡ some o) × (o.ordered ≡ length us)

length-insert_sorted :
    (x : Text) (ys : List Text) → ltb 0 (length (insert_sorted js_le x ys)) ≡ true
unfolding insert_sorted
length-insert_sorted x [] = refl
length-insert_sorted x (y ∷ ys) = ground arith

none_waiting :
    (es : List Degree)
    → sort js_le (map (λ e. e.id) (select (λ e. ltb 0 e.degree) es)) ≡ []
    → positive es ≡ 0
unfolding select sort
none_waiting [] h = refl
none_waiting (e ∷ es) h = elim (Bool-cases (ltb 0 e.degree)) [
  | inr free ↦ ground (arith, free, none_waiting es, h)
  | inl waits ↦ absurd (
      ground (
        arith,
        h,
        waits,
        length-insert_sorted e.id (sort js_le (map (λ e. e.id) (select (λ e. ltb 0 e.degree) es))),
      ))
]

cycle_violations_empty :
    (shape : SubmissionShape) (us : List DirectTaskUnit) (xs : List Text)
    → find_unorderable_units (map shape_of_unit us) ≡ some xs
    → cycle_violations shape us ≡ []
    → xs ≡ []
unfolding cycle_violations
cycle_violations_empty shape us [] e h = refl
cycle_violations_empty shape us (x ∷ xs) e h = absurd (ground (arith, e, h))

cycle_violations-IsOrderable :
    (shape : SubmissionShape) (us : List DirectTaskUnit)
    → cycle_violations shape us ≡ []
    → IsOrderable us
unfolding find_unorderable_units
cycle_violations-IsOrderable shape us h =
    let (o, found, count) = order_units_finishes (map shape_of_unit us) in
    let size = length-map shape_of_unit us in
    elim (Bool-cases (o.ordered == length (map shape_of_unit us))) [
      | inl all ↦ (o, found, ground (arith, all, size))
      | inr fewer ↦
          let waiting = sort js_le (map (λ e. e.id) (select (λ e. ltb 0 e.degree) o.degrees)) in
          (
            o,
            found,
            ground (
              arith,
              count,
              size,
              none_waiting o.degrees (
                  cycle_violations_empty shape us waiting
                    (rw (found, find_unorderable_units, fewer) refl) h),
            ),
          )
    ]

-- What the intake may rely on.
pub record IsSound (v : ValidatedSubmission) : Type 0 where
  pub some_units : 1 ≤ length v.units
  pub few_units : length v.units ≤ intake_limits.max_units
  pub small :
      length v.repo + length v.branch + measure_units v.units
      ≤ intake_limits.max_total_content_chars
  pub distinct : IsDistinctFrom [] v.units
  pub known : IsKnownTo (map (λ u. u.id) v.units) v.units
  pub orderable : IsOrderable v.units

-- A submission that passes validation has between 1 and 500 units with at most 1,000,000 units of
-- text, no two with one id, each dependency the id of one of them, and the search from those
-- without dependencies orders them all.
pub validate_submission-IsSound :
    (body : Value) (v : ValidatedSubmission) → validate_submission body ≡ valid v → IsSound v
unfolding measure_content
validate_submission-IsSound body v =
    validate_submission_cases (λ o. o ≡ valid v → IsSound v)
      (λ vs few e. absurd (ground (arith, e)))
      (λ fs shape units some_units few small distinct known acyclic e.
        let sound : IsSound _ = record {
          some_units = some_units;
          few_units = few;
          small = small;
          distinct = duplicate_ids-IsDistinctFrom shape 0 [] units distinct;
          known = unknown_dependencies-IsKnownTo shape _ 0 units known;
          orderable = cycle_violations-IsOrderable shape units acyclic;
        } in
        subst IsSound (valid-injective _ v e) sound)
      body
