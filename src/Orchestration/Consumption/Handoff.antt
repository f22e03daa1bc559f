-- ===== src/Orchestration/Consumption/Handoff.antt =====
-- src/domains/orchestration/attempt-dispatch.ts: the tests that an envelope passes in
-- `consumeQueueEnvelope`.
use agent_pool.Prelude.{
  ◌≡◌, refl, sym, ◌∙◌, ap, true, not, ◌||◌, inl, inr, some, Text, text_eq, text_eq_sound,
  Option-cases, Bool-cases, arith, if◌then◌else◌,
}
use agent_pool.Js.{Value}
use agent_pool.Orchestration.Contracts.{
  ApprovedNode, QueueEnvelope, validate_queue_envelope, queue_envelope_invalid, node_not_found,
  work_not_found,
}
use agent_pool.Orchestration.Store.Schema.{Db, AttemptRecord, ok, err}
use agent_pool.Orchestration.Store.Nodes.{get_approved_node}
use agent_pool.Orchestration.Store.Works.{get_work, WorkTarget}
use agent_pool.Orchestration.Store.Attempts.{find_attempt_by_job}
use agent_pool.Orchestration.Consumption.{
  AttemptContract, project_attempt_contract, envelope_of, is_dispatchable, names_attempt,
  is_valid_contract, hand_off, rehydrate, consume_for, consume_queue_envelope,
}

module _ (db : Db) where
  -- The contract is the valid projection of a node and a work of the store.
  abbrev pub Projected : AttemptRecord → AttemptContract → Type 0
  Projected attempt c =
      (node : ApprovedNode) × (work : WorkTarget) × (get_approved_node db attempt.work_id
          attempt.node_id
        ≡ some node)
      × (get_work db attempt.work_id ≡ some work)
      × (is_valid_contract c attempt work ≡ true)
      × (c
          ≡ project_attempt_contract node attempt.work_id attempt.attempt_id attempt.attempt_number
              work.repo work.branch)

  abbrev pub OfAttempt : QueueEnvelope → AttemptContract → Type 0
  OfAttempt ev c =
      (attempt : AttemptRecord) × (find_attempt_by_job db ev.job_id ≡ some attempt)
      × (names_attempt ev attempt ≡ true)
      × (is_dispatchable attempt ≡ true)
      × Projected attempt c

  hand_off-Projected :
      (attempt : AttemptRecord) (node : ApprovedNode) (work : WorkTarget) (c : AttemptContract)
      → get_approved_node db attempt.work_id attempt.node_id ≡ some node
      → get_work db attempt.work_id ≡ some work
      → hand_off attempt node work ≡ ok c
      → Projected attempt c
  unfolding hand_off
  hand_off-Projected attempt node work c at_node at_work e =
      let made =
        project_attempt_contract node attempt.work_id attempt.attempt_id attempt.attempt_number
          work.repo work.branch in
      elim (Bool-cases (is_valid_contract made attempt work)) [
        | inl valid ↦
            let result : hand_off attempt node work ≡ ok made = rw valid refl in
            let same : made ≡ c = ground (arith, sym result ∙ e) in
            (
              node,
              work,
              at_node,
              at_work,
              ap (λ x. is_valid_contract x attempt work) (sym same) ∙ valid,
              sym same,
            )
        | inr bad ↦
            let result : hand_off attempt node work ≡ err queue_envelope_invalid = rw bad refl in
            absurd (ground (arith, sym result ∙ e))
      ]

  rehydrate-Projected :
      (attempt : AttemptRecord) (c : AttemptContract)
      → rehydrate db attempt ≡ ok c
      → Projected attempt c
  unfolding rehydrate
  rehydrate-Projected attempt c e =
      elim (Option-cases (get_approved_node db attempt.work_id attempt.node_id)) [
        | inl absent ↦
            let result : rehydrate db attempt ≡ err node_not_found = rw (absent, rehydrate) refl in
            absurd (ground (arith, sym result ∙ e))
        | inr (node, at_node) ↦ elim (Option-cases (get_work db attempt.work_id)) [
          | inl absent ↦
              let result : rehydrate db attempt ≡ err work_not_found =
                rw (at_node, absent, rehydrate) refl in
              absurd (ground (arith, sym result ∙ e))
          | inr (work, at_work) ↦
              let result : rehydrate db attempt ≡ hand_off attempt node work =
                rw (at_node, at_work, rehydrate) refl in
              hand_off-Projected attempt node work c at_node at_work (sym result ∙ e)
        ]
      ]

  checked :
      (ev : QueueEnvelope) (c : AttemptContract)
      → consume_for db ev ≡ ok c
      → (attempt : AttemptRecord) → find_attempt_by_job db ev.job_id ≡ some attempt
      → (names_attempt ev attempt ≡ true)
        × (is_dispatchable attempt ≡ true)
        × (rehydrate db attempt ≡ ok c)
  unfolding consume_for
  checked ev c e attempt found =
      let tests : consume_for db ev ≡ (
          if not (names_attempt ev attempt)
          then err queue_envelope_invalid
          else if not (is_dispatchable attempt)
          then err queue_envelope_invalid
          else rehydrate db attempt) =
        rw (found, consume_for) refl in
      let given = sym tests ∙ e in
      elim (Bool-cases (names_attempt ev attempt)) [
        | inr other ↦ absurd (ground (arith, given))
        | inl named ↦ elim (Bool-cases (is_dispatchable attempt)) [
          | inr settled ↦ absurd (ground (arith, given))
          | inl still ↦ (named, still, ground (arith, given))
        ]
      ]

  consume_for-OfAttempt :
      (ev : QueueEnvelope) (c : AttemptContract) → consume_for db ev ≡ ok c → OfAttempt ev c
  unfolding consume_for
  consume_for-OfAttempt ev c e = elim (Option-cases (find_attempt_by_job db ev.job_id)) [
    | inl absent ↦
        let result : consume_for db ev ≡ err queue_envelope_invalid =
          rw (absent, consume_for) refl in
        absurd (ground (arith, sym result ∙ e))
    | inr (attempt, found) ↦
        let (named, open_still, again) = checked ev c e attempt found in
        (attempt, found, named, open_still, rehydrate-Projected attempt c again)
  ]

  pub consumed :
      (envelope : Value) (n a : Text) (c : AttemptContract)
      → consume_queue_envelope db envelope n a ≡ ok c
      → ((envelope_of envelope).node_id ≡ n)
        × ((envelope_of envelope).attempt_id ≡ a)
        × OfAttempt (envelope_of envelope) c
  unfolding consume_queue_envelope
  consumed envelope n a c e =
      let ev = envelope_of envelope in
      elim (Option-cases (validate_queue_envelope envelope)) [
        | inr (code, bad) ↦
            let result : consume_queue_envelope db envelope n a ≡ err code =
              rw (bad, consume_queue_envelope) refl in
            absurd (ground (arith, sym result ∙ e))
        | inl valid ↦
            let tests : consume_queue_envelope db envelope n a ≡ (
                if not (text_eq ev.node_id n) || not (text_eq ev.attempt_id a)
                then err queue_envelope_invalid
                else consume_for db ev) =
              rw (valid, consume_queue_envelope) refl in
            let given = sym tests ∙ e in
            elim (Bool-cases (text_eq ev.node_id n)) [
              | inr other ↦ absurd (ground (arith, given))
              | inl at_n ↦ elim (Bool-cases (text_eq ev.attempt_id a)) [
                | inr other ↦ absurd (ground (arith, given))
                | inl at_a ↦ (
                  text_eq_sound ev.node_id n at_n,
                  text_eq_sound ev.attempt_id a at_a,
                  consume_for-OfAttempt ev c (ground (arith, given)),
                )
              ]
            ]
      ]
