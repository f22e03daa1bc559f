-- ===== src/Orchestration/Store/Artifacts/Revisions.antt =====
-- src/domains/orchestration/sqlite-store.ts: the revisions of the artifacts of one attempt and phase.
use agent_pool.Prelude.{
  ℕ, suc, ◌+◌, ◌<◌, leb, ◌≡◌, sym, ap, ◌∙◌, subst, Bool, true, inl, inr, List, [], ◌∷◌, some, Text,
  text_eq_refl, text_eq_sound, select, select_one, insert, length, sort, insert_sorted, Bool-cases,
  arith, if◌then◌else◌,
}
use agent_pool.Orchestration.Store.Schema.{Db, PhaseArtifact, ok}
use agent_pool.Orchestration.Store.Artifacts.{
  ArtifactInput, artifact_at, max_revision, new_artifact, artifact_recorded, record_phase_artifact,
  get_latest_phase_artifact,
}

-- The greatest revision of every attempt and phase is how many artifacts they have.
abbrev pub IsNumbered : List PhaseArtifact → Type 0
IsNumbered rows = (a p : Text) → max_revision a p rows ≡ length (select (artifact_at a p) rows)

max_revision-insert :
    (a p : Text) (row : PhaseArtifact) (rows : List PhaseArtifact)
    → max_revision a p (insert row rows) ≡ (
        if artifact_at a p row
        then if leb (max_revision a p rows) row.revision
          then row.revision
          else max_revision a p rows
        else max_revision a p rows)
unfolding max_revision
max_revision-insert a p row [] = ground arith
max_revision-insert a p row (r ∷ rows) = ground (arith, max_revision-insert a p row rows)

length-select-insert :
    (q : PhaseArtifact → Bool) (row : PhaseArtifact) (rows : List PhaseArtifact)
    → length (select q (insert row rows)) ≡ length (select q rows) + (if q row then 1 else 0)
unfolding select
length-select-insert q row [] = ground arith
length-select-insert q row (r ∷ rows) = ground (arith, length-select-insert q row rows)

abbrev newer_first : PhaseArtifact → PhaseArtifact → Bool
newer_first x y = leb y.revision x.revision

older_behind :
    (r row : PhaseArtifact) (ys : List PhaseArtifact)
    → r.revision < row.revision
    → select_one (λ x. true) ys ≡ some row
    → select_one (λ x. true) (insert_sorted newer_first r ys) ≡ some row
unfolding select_one insert_sorted
older_behind r row [] h e = ground arith
older_behind r row (y ∷ ys) h e =
    let same : y ≡ row = ground arith in
    let newer : r.revision < y.revision = subst (λ z. r.revision < z.revision) (sym same) h in
    ground (arith, e)

-- The row with the greatest revision comes first.
greatest_first :
    (a p : Text) (row : PhaseArtifact) (rows : List PhaseArtifact)
    → artifact_at a p row ≡ true
    → max_revision a p rows < row.revision
    → select_one
        (λ r. true)
        (sort (λ x y. leb y.revision x.revision) (select (artifact_at a p) (insert row rows)))
      ≡ some row
unfolding max_revision select select_one sort
greatest_first a p row [] mine h = ground arith
greatest_first a p row (r ∷ rows) mine h =
    let rest = select (artifact_at a p) (insert row rows) in
    let later = greatest_first a p row rows mine (ground arith) in
    elim (Bool-cases (artifact_at a p r)) [
      | inr other ↦ rw other later
      | inl own ↦ rw own (older_behind r row (sort newer_first rest) (ground arith) later)
    ]

module _ (db db' : Db) (i : ArtifactInput) (now : ℕ) (row : PhaseArtifact)
    (recorded : record_phase_artifact db i now ≡ (db', ok row)) where
  row_recorded :
      (db' ≡ artifact_recorded db row)
      × (row ≡ new_artifact i (max_revision i.attempt_id i.phase db.artifacts + 1) now)
  unfolding record_phase_artifact
  row_recorded = ground arith

  numbered_after :
      (a p : Text)
      → max_revision a p db.artifacts ≡ length (select (artifact_at a p) db.artifacts)
      → max_revision a p (insert row db.artifacts)
        ≡ length (select (artifact_at a p) (insert row db.artifacts))
  unfolding new_artifact
  numbered_after a p numbered =
      let made = row_recorded.1 in
      let largest = max_revision-insert a p row db.artifacts in
      let longer = length-select-insert (artifact_at a p) row db.artifacts in
      elim (Bool-cases (artifact_at a p row)) [
        | inr other ↦ ground (arith, largest, longer, numbered)
        | inl own ↦
            let here : row.attempt_id ≡ a = text_eq_sound row.attempt_id a (ground arith) in
            let there : row.phase ≡ p = text_eq_sound row.phase p (ground arith) in
            let at_a : i.attempt_id ≡ a = sym (ap (λ r. r.attempt_id) made) ∙ here in
            let at_p : i.phase ≡ p = sym (ap (λ r. r.phase) made) ∙ there in
            let next : row.revision ≡ max_revision a p db.artifacts + 1 =
              ap (λ r. r.revision) made
              ∙ (ap (λ x. max_revision x i.phase db.artifacts + 1) at_a
                  ∙ ap (λ x. max_revision a x db.artifacts + 1) at_p) in
            ground (arith, largest, longer, numbered, next)
      ]

  -- Where the greatest revision of every attempt and phase is how many artifacts they have, a
  -- recorded artifact gets the next revision of its attempt and phase and is the latest of their
  -- artifacts, and the greatest revisions are again the numbers of artifacts.
  pub record_phase_artifact_next :
      IsNumbered db.artifacts
      → (row.revision ≡ suc (length (select (artifact_at i.attempt_id i.phase) db.artifacts)))
        × (get_latest_phase_artifact db' i.attempt_id i.phase ≡ some row)
        × IsNumbered db'.artifacts
  unfolding get_latest_phase_artifact artifact_recorded new_artifact
  record_phase_artifact_next numbered =
      let (after, made) = row_recorded in
      let next : row.revision ≡ max_revision i.attempt_id i.phase db.artifacts + 1 =
        ap (λ r. r.revision) made in
      let mine : artifact_at i.attempt_id i.phase row ≡ true =
        subst (λ r. artifact_at i.attempt_id i.phase r ≡ true) (sym made)
          (ground (arith, text_eq_refl i.attempt_id, text_eq_refl i.phase)) in
      (
        omega (arith, next, numbered i.attempt_id i.phase),
        subst (λ d. get_latest_phase_artifact d i.attempt_id i.phase ≡ some row) (sym after)
            (greatest_first i.attempt_id i.phase row db.artifacts mine (omega (arith, next))),
        subst (λ d. IsNumbered d.artifacts) (sym after) (λ a p. numbered_after a p (numbered a p)),
      )
