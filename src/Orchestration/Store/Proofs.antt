-- ===== src/Orchestration/Store/Proofs.antt =====
-- src/domains/orchestration/sqlite-store.ts: `recordProofResult`, and
-- pool-proof-persistence.ts: `normalizeProofResultInput`. `locale_le` is the order of
-- `localeCompare`; a date is its milliseconds, and is finite.
pub mod Kept
use agent_pool.Prelude.{
  ℕ, ◌==◌, ltb, leb, Bool, true, false, ◌&&◌, ◌||◌, not, List, [], ◌∷◌, ◌++◌, Option, none, some,
  Text, text_eq, option_text_eq, select, select_one, insert, is_some, length, sort, sql_le,
  if◌then◌else◌,
}
use agent_pool.Js.{Value, mem_text, is_non_empty_string}
use agent_pool.ModelRouting.ApprovedModels.{is_approved_model_id}
use agent_pool.Orchestration.Contracts.{
  max_id_length, max_result_id_length, max_version_length, invalid_result, result_identity_mismatch,
  conflicting_proof_result,
}
use agent_pool.Orchestration.Store.Schema.{
  Db, Outcome, outcome_eq, AttemptRecord, ProofResult, ProofCheck, Result, ok, err, log,
  proof_result_recorded, proof_result_replay_no_op,
}
use agent_pool.Orchestration.Store.Attempts.{find_attempt, find_routing}

pub record Check : Type 0 where
  pub name : Text
  pub passed : Bool

pub record ProofInput : Type 0 where
  pub attempt_id : Text
  pub result_id : Text
  pub node_id : Text
  pub builder_model : Text
  pub status : Outcome
  pub commit_sha : Option Text
  pub failure_code : Option Text
  pub started_at : ℕ
  pub finished_at : ℕ
  pub checks : List Check

-- `[0-9a-f]`.
abbrev is_hex : ℕ → Bool
is_hex u = (leb 48 u && leb u 57) || (leb 97 u && leb u 102)

unfoldable pub all_hex : Text → Bool
all_hex [] = true
all_hex (u ∷ s) = is_hex u && all_hex s

-- `/^[0-9a-f]{40}$/`.
abbrev pub is_commit_sha : Text → Bool
is_commit_sha s = length s == 40 && all_hex s

-- Which of the commit and the failure code each status has.
unfoldable pub valid_terminal : Outcome → Option Text → Option Text → Bool
unfolding all_hex
valid_terminal Outcome.passed (some sha) none = is_commit_sha sha
valid_terminal Outcome.failed none (some code) =
    is_non_empty_string max_version_length (Value.string code)
valid_terminal _ _ _ = false

-- The loop over the checks, with the names seen.
unfoldable pub valid_checks : List Text → List Check → Bool
valid_checks seen [] = true
valid_checks seen (c ∷ cs) =
    let rest = valid_checks (seen ++ c.name ∷ []) cs in
    ltb 0 (length c.name) && leb (length c.name) 200 && not (mem_text c.name seen) && rest

unfoldable pub valid_proof : ProofInput → Bool
unfolding valid_terminal valid_checks
valid_proof i =
    is_non_empty_string max_id_length (Value.string i.attempt_id)
    && is_non_empty_string max_result_id_length (Value.string i.result_id)
    && is_non_empty_string max_id_length (Value.string i.node_id)
    && is_approved_model_id (Value.string i.builder_model)
    && valid_terminal i.status i.commit_sha i.failure_code
    && leb i.started_at i.finished_at
    && ltb 0 (length i.checks)
    && valid_checks [] i.checks

abbrev pub proof_at : Text → ProofResult → Bool
proof_at a r = text_eq r.attempt_id a

abbrev pub check_at : Text → ProofCheck → Bool
check_at a c = text_eq c.attempt_id a

unfoldable pub find_proof : Db → Text → Option ProofResult
find_proof db a = select_one (proof_at a) db.proofs

unfoldable pub find_checks : Db → Text → List ProofCheck
find_checks db a = select (check_at a) db.checks

unfoldable pub new_proof : ProofInput → ProofResult
new_proof i = record {
  attempt_id = i.attempt_id;
  result_id = i.result_id;
  node_id = i.node_id;
  builder_model = i.builder_model;
  status = i.status;
  commit_sha = i.commit_sha;
  failure_code = i.failure_code;
  started_at = i.started_at;
  finished_at = i.finished_at;
}

unfoldable pub same_proof : ProofResult → ProofInput → Bool
same_proof e i =
    text_eq e.result_id i.result_id
    && text_eq e.node_id i.node_id
    && text_eq e.builder_model i.builder_model
    && outcome_eq e.status i.status
    && option_text_eq e.commit_sha i.commit_sha
    && option_text_eq e.failure_code i.failure_code
    && e.started_at == i.started_at
    && e.finished_at == i.finished_at

abbrev pub bool_eq : Bool → Bool → Bool
bool_eq true b = b
bool_eq false b = not b

-- The two lists have equal lengths, and agree entry by entry.
unfoldable pub same_checks : List ProofCheck → List Check → Bool
same_checks [] [] = true
same_checks (e ∷ es) (c ∷ cs) =
    text_eq e.check_name c.name && bool_eq e.passed c.passed && same_checks es cs
same_checks _ _ = false

abbrev check_key : Text → Text → ProofCheck → Bool
check_key a n c = text_eq c.attempt_id a && text_eq c.check_name n

-- PRIMARY KEY (attempt_id, check_name).
unfoldable pub insert_checks : Text → List Check → List ProofCheck → Option (List ProofCheck)
insert_checks a [] rows = some rows
insert_checks a (c ∷ cs) rows =
    let row : ProofCheck = record { attempt_id = a; check_name = c.name; passed = c.passed } in
    let rest = insert_checks a cs (insert row rows) in
    if is_some (select_one (check_key a c.name) rows) then none else rest

-- The committed transaction, with its audit row.
unfoldable pub proof_recorded : Db → ProofInput → List ProofCheck → Db
unfolding new_proof
proof_recorded db i checks =
    log (proof_result_recorded i.attempt_id i.result_id)
      (record db { proofs = insert (new_proof i) db.proofs; checks = checks })

unfoldable pub record_new_proof : Db → ProofInput → Db × Result (Unit {0})
unfolding insert_checks proof_recorded
record_new_proof db i = elim (insert_checks i.attempt_id i.checks db.checks) [
  | none ↦ (db, err invalid_result)
  | some checks ↦ (proof_recorded db i checks, ok tt)
]

module _ (locale_le : Text → Text → Bool) where
  -- The stored checks in the order of the database, the given ones in that of the locale.
  unfoldable pub is_replay : Db → ProofResult → ProofInput → Bool
  unfolding same_proof same_checks find_checks
  is_replay db existing i =
      same_proof existing i
      && same_checks (sort (λ x y. sql_le x.check_name y.check_name) (find_checks db i.attempt_id))
          (sort (λ x y. locale_le x.name y.name) i.checks)

  unfoldable pub record_proof_for : Db → ProofInput → AttemptRecord → Db × Result (Unit {0})
  unfolding is_replay record_new_proof find_proof
  record_proof_for db i attempt =
      if not (text_eq attempt.node_id i.node_id)
      then (db, err result_identity_mismatch)
      else elim (find_routing db i.attempt_id) [
        | none ↦ (db, err result_identity_mismatch)
        | some routing ↦
            if not (text_eq routing.builder_model i.builder_model)
            then (db, err result_identity_mismatch)
            else elim (find_proof db i.attempt_id) [
              | none ↦ record_new_proof db i
              | some existing ↦
                  if is_replay db existing i
                  then (log (proof_result_replay_no_op i.attempt_id i.result_id) db, ok tt)
                  else (db, err conflicting_proof_result)
            ]
      ]

  unfoldable pub record_proof_result : Db → ProofInput → Db × Result (Unit {0})
  unfolding valid_proof record_proof_for
  record_proof_result db i =
      if not (valid_proof i)
      then (db, err invalid_result)
      else elim (find_attempt db i.attempt_id) [
        | none ↦ (db, err invalid_result)
        | some attempt ↦ record_proof_for db i attempt
      ]

-- `normalizeProofResultInput`; `none` is the exception.
unfoldable pub normalize_proof_result_input : ProofInput → Option ProofInput
normalize_proof_result_input i = elim i.status [
  | Outcome.passed ↦ if is_some i.commit_sha && not (is_some i.failure_code) then some i else none
  | Outcome.failed ↦
      if not (is_some i.commit_sha)
        && (elim i.failure_code [ none ↦ false | some c ↦ ltb 0 (length c) ])
      then some i
      else none
]

pub record Conflict : Type 0 where
  pub has_conflict : Bool
  pub existing_result_id : Option Text

unfoldable pub has_conflicting_proof_result : Db → Text → Text → Conflict
unfolding find_proof
has_conflicting_proof_result db a r =
    if not (is_non_empty_string max_id_length (Value.string a))
      || not (is_non_empty_string max_result_id_length (Value.string r))
    then record { has_conflict = false; existing_result_id = none }
    else elim (find_proof db a) [
      | none ↦ record { has_conflict = false; existing_result_id = none }
      | some row ↦ record {
        has_conflict = not (text_eq row.result_id r);
        existing_result_id = some row.result_id;
      }
    ]
