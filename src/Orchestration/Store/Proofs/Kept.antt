-- ===== src/Orchestration/Store/Proofs/Kept.antt =====
-- src/domains/orchestration/sqlite-store.ts: the outcomes of `recordProofResult`.
use agent_pool.Prelude.{
  ◌≡◌, Bool, true, inl, inr, none, some, List, Text, text_eq, Option-cases, Bool-cases, arith,
}
use agent_pool.Orchestration.Contracts.{
  ErrorCode, invalid_result, result_identity_mismatch, conflicting_proof_result,
}
use agent_pool.Orchestration.Store.Schema.{
  Db, AttemptRecord, ProofResult, ProofCheck, Result, ok, err, log, proof_result_replay_no_op,
}
use agent_pool.Orchestration.Store.Attempts.{find_attempt, find_routing}
use agent_pool.Orchestration.Store.Proofs.{
  ProofInput, valid_proof, find_proof, insert_checks, proof_recorded, record_new_proof, is_replay,
  record_proof_for, record_proof_result,
}

-- The outcomes of the method, as a case rule.
module _ (locale_le : Text → Text → Bool) (db : Db) (i : ProofInput)
    (P : Db × Result (Unit {0}) → Type 0) (refused : (c : ErrorCode) → P (db, err c))
    (again : (r : ProofResult)
      → find_proof db i.attempt_id ≡ some r
      → is_replay locale_le db r i ≡ true
      → P (log (proof_result_replay_no_op i.attempt_id i.result_id) db, ok tt))
    (recorded : (checks : List ProofCheck)
      → valid_proof i ≡ true
      → find_proof db i.attempt_id ≡ none
      → P (proof_recorded db i checks, ok tt)) where
  record_new_proof_cases :
      valid_proof i ≡ true → find_proof db i.attempt_id ≡ none → P (record_new_proof db i)
  unfolding record_new_proof
  record_new_proof_cases valid fresh =
      elim (Option-cases (insert_checks i.attempt_id i.checks db.checks)) [
        | inl broken ↦ rw (broken, record_new_proof) (refused invalid_result)
        | inr (checks, e) ↦ rw (e, record_new_proof) (recorded checks valid fresh)
      ]

  record_proof_for_cases :
      (attempt : AttemptRecord) → valid_proof i ≡ true → P (record_proof_for locale_le db i attempt)
  unfolding record_proof_for
  record_proof_for_cases attempt valid = elim (Bool-cases (text_eq attempt.node_id i.node_id)) [
    | inr other ↦ rw other (refused result_identity_mismatch)
    | inl same ↦ elim (Option-cases (find_routing db i.attempt_id)) [
      | inl absent ↦ rw (same, absent, record_proof_for) (refused result_identity_mismatch)
      | inr (routing, e) ↦ elim (Option-cases (find_proof db i.attempt_id)) [
        | inl fresh ↦
            rw (same, e, record_proof_for, fresh)
              (ground (arith, refused result_identity_mismatch, record_new_proof_cases valid fresh))
        | inr (r, found) ↦
            rw (same, e, record_proof_for, found)
              (ground (
                arith,
                refused result_identity_mismatch,
                refused conflicting_proof_result,
                again r found,
              ))
      ]
    ]
  ]

  pub record_proof_result_cases : P (record_proof_result locale_le db i)
  unfolding record_proof_result
  record_proof_result_cases = elim (Bool-cases (valid_proof i)) [
    | inr bad ↦ rw bad (refused invalid_result)
    | inl valid ↦ elim (Option-cases (find_attempt db i.attempt_id)) [
      | inl absent ↦ rw (valid, absent, record_proof_result) (refused invalid_result)
      | inr (attempt, e) ↦ rw (valid, e, record_proof_result) (record_proof_for_cases attempt valid)
    ]
  ]
