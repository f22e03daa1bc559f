-- ===== src/Orchestration/Store/Artifacts.antt =====
-- src/domains/orchestration/sqlite-store.ts and contracts.ts: `recordPhaseArtifact`, its queries, and
-- the safe artifact locators. `now` is `new Date()`.
pub mod Revisions
use agent_pool.Prelude.{
  ℕ, zero, suc, ◌+◌, ◌==◌, ltb, leb, Bool, true, false, ◌&&◌, ◌||◌, not, List, [], ◌∷◌, ◌++◌,
  Option, none, some, Text, codes, text_eq, select, select_one, insert, is_some, length, sort,
  if◌then◌else◌,
}
use agent_pool.Js.{Value, mem_text, is_non_empty_string}
use agent_pool.Orchestration.Contracts.{
  max_id_length, max_digest_length, max_path_length, invalid_result,
}
use agent_pool.Orchestration.Store.Schema.{
  Db, PhaseArtifact, Result, ok, err, log, phase_artifact_recorded, AttemptRecord,
}
use agent_pool.Orchestration.Store.Attempts.{find_attempt}

abbrev pub crafts_phases : List Text
crafts_phases = codes "C" ∷ codes "R" ∷ codes "A" ∷ codes "F" ∷ codes "T" ∷ codes "S" ∷ []

abbrev pub phase_artifact_statuses : List Text
phase_artifact_statuses = codes "passed" ∷ codes "needs_fix" ∷ codes "failed" ∷ codes "blocked" ∷ []

-- `/[\u0000-\u001f]/.test(value)`.
unfoldable pub has_control : Text → Bool
has_control [] = false
has_control (u ∷ s) = ltb u 32 || has_control s

abbrev is_letter : ℕ → Bool
is_letter u = (leb 65 u && leb u 90) || (leb 97 u && leb u 122)

-- A leading `/` or `\`, or a drive letter.
unfoldable pub is_absolute : Text → Bool
is_absolute [] = false
is_absolute (u ∷ []) = u == 47 || u == 92
is_absolute (u ∷ v ∷ s) = u == 47 || u == 92 || (is_letter u && v == 58)

-- `value.split(/[/\\]/)`, with the part that is being read.
unfoldable pub split_path : Text → Text → List Text
split_path part [] = part ∷ []
split_path part (u ∷ s) =
    let next = split_path [] s in
    let same = split_path (part ++ u ∷ []) s in if u == 47 || u == 92 then part ∷ next else same

unfoldable pub is_safe_artifact_locator : Text → Bool
unfolding has_control is_absolute split_path
is_safe_artifact_locator s =
    is_non_empty_string max_path_length (Value.string s)
    && not (has_control s)
    && not (is_absolute s)
    && not (mem_text (codes "..") (split_path [] s))

abbrev pub artifact_at : Text → Text → PhaseArtifact → Bool
artifact_at a p r = text_eq r.attempt_id a && text_eq r.phase p

-- COALESCE(MAX(revision), 0), of the rows of one attempt and phase.
unfoldable pub max_revision : Text → Text → List PhaseArtifact → ℕ
max_revision a p [] = 0
max_revision a p (r ∷ rs) =
    let rest = max_revision a p rs in
    if artifact_at a p r then (if leb rest r.revision then r.revision else rest) else rest

pub record ArtifactInput : Type 0 where
  pub attempt_id : Text
  pub phase : Text
  pub status : Text
  pub content_hash : Text
  pub artifact_path : Text

unfoldable pub valid_artifact : ArtifactInput → Bool
valid_artifact i =
    is_non_empty_string max_id_length (Value.string i.attempt_id)
    && mem_text i.phase crafts_phases
    && mem_text i.status phase_artifact_statuses
    && is_non_empty_string max_digest_length (Value.string i.content_hash)
    && is_safe_artifact_locator i.artifact_path

unfoldable pub new_artifact : ArtifactInput → ℕ → ℕ → PhaseArtifact
new_artifact i revision now = record {
  attempt_id = i.attempt_id;
  phase = i.phase;
  revision = revision;
  status = i.status;
  content_hash = i.content_hash;
  artifact_path = i.artifact_path;
  created_at = now;
}

-- The committed transaction, with its audit row.
unfoldable pub artifact_recorded : Db → PhaseArtifact → Db
artifact_recorded db row =
    log (phase_artifact_recorded row.attempt_id row.phase row.revision)
      (record db { artifacts = insert row db.artifacts })

-- The row refers to an attempt (FOREIGN KEY), or the insert throws.
unfoldable pub record_phase_artifact : Db → ArtifactInput → ℕ → Db × Result PhaseArtifact
unfolding valid_artifact new_artifact max_revision artifact_recorded
record_phase_artifact db i now =
    let row = new_artifact i (max_revision i.attempt_id i.phase db.artifacts + 1) now in
    if not (valid_artifact i)
    then (db, err invalid_result)
    else if not (is_some (find_attempt db i.attempt_id))
    then (db, err invalid_result)
    else (artifact_recorded db row, ok row)

-- ORDER BY revision.
unfoldable pub get_phase_artifact_revisions : Db → Text → Text → List PhaseArtifact
get_phase_artifact_revisions db a p =
    sort (λ x y. leb x.revision y.revision) (select (artifact_at a p) db.artifacts)

-- ORDER BY revision DESC LIMIT 1.
unfoldable pub get_latest_phase_artifact : Db → Text → Text → Option PhaseArtifact
get_latest_phase_artifact db a p =
    select_one (λ r. true)
      (sort (λ x y. leb y.revision x.revision) (select (artifact_at a p) db.artifacts))

unfoldable pub count_phase_artifacts_for_attempt : Db → Text → ℕ
count_phase_artifacts_for_attempt db a =
    if is_non_empty_string max_id_length (Value.string a)
    then length (select (λ r. text_eq r.attempt_id a) db.artifacts)
    else 0
