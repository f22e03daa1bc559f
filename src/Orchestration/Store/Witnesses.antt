-- ===== src/Orchestration/Store/Witnesses.antt =====
-- The theorems about the store of src/domains/orchestration/sqlite-store.ts at a small history.
use agent_pool.Prelude.{arith, ◌<◌, ◌≡◌, ◌⊎◌, refl, none, some, List, [], ◌∷◌, codes}
use agent_pool.Orchestration.Lifecycle.{NodeState}
use agent_pool.Orchestration.Contracts.{ErrorCode, invalid_result, direct_task}
use agent_pool.Orchestration.Store.Schema.{NodeRecord, ok, err, log, result_duplicate_ignored}
use agent_pool.Orchestration.Store.Nodes.{find_node}
use agent_pool.Orchestration.Store.Leases.{Claimed}
use agent_pool.Orchestration.Store.Results.{
  new_accepted, find_accepted, accept_result, complete_authorized_result,
}
use agent_pool.Orchestration.Store.Views.{view, Inv}
use agent_pool.Orchestration.Store.Calls.{Call, completes, releases, run}
use agent_pool.Orchestration.Store.History.{run-Inv}
use agent_pool.Orchestration.Store.Finality.{run_terminal, run_versions}
use agent_pool.Orchestration.Store.Fencing.{
  Grants, claim_lease-generations, accept_result-superseded,
}
use agent_pool.Orchestration.Store.Conflicts.{IsSameResult, accept_result-conflict}
use agent_pool.Orchestration.Store.ExactlyOnce.{
  Acceptance, accept_result-Acceptance, accept_result-replay, run-accepted,
  complete_authorized_result-once,
}
use agent_pool.Orchestration.Store.Samples.{
  identity, work, node, attempt, imported, opening, opened, leased, lapse, released, result_at,
  accepted_db, completed_db, everything,
}

imported-Inv : Inv imported
unfolding everything view
imported-Inv a = record { routed = tt; current = tt; owned = tt; backed = tt }

opened-Inv : Inv opened
unfolding opened
opened-Inv = run-Inv identity opening imported imported-Inv

run-Inv_example : Inv (run identity imported opening)
run-Inv_example = run-Inv identity opening imported imported-Inv

abbrev first : Claimed
first = record { generation = 1; token = codes "t" }

abbrev second : Claimed
second = record { generation = 2; token = codes "u" }

first-Grants : Grants identity opened attempt leased first
unfolding everything
first-Grants = (codes "p", codes "t", 30, 10, refl)

second-Grants : Grants identity (run identity leased lapse) attempt released second
unfolding everything
second-Grants = (codes "q", codes "u", 80, 50, refl)

claim_lease-generations_example : 1 < 2
claim_lease-generations_example =
    claim_lease-generations identity opened leased released attempt lapse first second first-Grants
      second-Grants

unsettled : find_accepted released attempt ≡ none
unfolding everything
unsettled = refl

accept_result-superseded_example :
    (code : ErrorCode) × (accept_result identity released (result_at 1 (codes "t")) 60
      ≡ (released, err code))
accept_result-superseded_example =
    accept_result-superseded identity opened leased released attempt lapse first second
      (result_at 1 (codes "t")) 60 opened-Inv first-Grants second-Grants refl refl unsettled

accepted_now : accept_result identity released (result_at 2 (codes "u")) 60 ≡ (accepted_db, ok tt)
unfolding everything
accepted_now = refl

accept_result-Acceptance_example :
    Acceptance identity released (result_at 2 (codes "u")) 60 accepted_db
accept_result-Acceptance_example =
    accept_result-Acceptance identity released (result_at 2 (codes "u")) 60 accepted_db unsettled
      accepted_now

accept_result-replay_example :
    accept_result identity accepted_db (result_at 2 (codes "u")) 70
    ≡ (log (result_duplicate_ignored attempt (codes "res")) accepted_db, ok tt)
accept_result-replay_example =
    accept_result-replay identity released (result_at 2 (codes "u")) 60 accepted_db 70 accepted_now

is_other : IsSameResult (new_accepted (result_at 2 (codes "u")) 60) (result_at 3 (codes "u")) → ⊥
unfolding everything
is_other same = absurd (ground (arith, same.generation))

accept_result-conflict_example :
    (code : ErrorCode) × (accept_result identity
        (run identity accepted_db (completes work node attempt ∷ []))
        (result_at 3 (codes "u"))
        60
      ≡ (run identity accepted_db (completes work node attempt ∷ []), err code))
unfolding everything
accept_result-conflict_example =
    accept_result-conflict identity accepted_db (completes work node attempt ∷ [])
      (result_at 3 (codes "u")) 60 (new_accepted (result_at 2 (codes "u")) 60) refl is_other

run-accepted_example :
    find_accepted (run identity accepted_db (completes work node attempt ∷ [])) attempt
    ≡ some (new_accepted (result_at 2 (codes "u")) 60)
unfolding everything
run-accepted_example =
    run-accepted identity (completes work node attempt ∷ []) accepted_db attempt
      (new_accepted (result_at 2 (codes "u")) 60) refl

abbrev passed_node : NodeRecord
passed_node = record {
  work_id = work;
  node_id = node;
  state = NodeState.passed;
  version = 4;
  intent = codes "i";
  change_spec = codes "c";
  acceptance_criteria = codes "x" ∷ [];
  depends_on = [];
  criteria_origin_source = direct_task;
  criteria_origin_source_id = codes "s";
}

completed_now :
    complete_authorized_result accepted_db work node attempt ≡ (completed_db, ok passed_node)
unfolding everything
completed_now = refl

abbrev afterwards : List Call
afterwards = releases attempt (codes "q") (codes "u") ∷ []

complete_authorized_result-once_example :
    complete_authorized_result (run identity completed_db afterwards) work node attempt
    ≡ (run identity completed_db afterwards, err invalid_result)
complete_authorized_result-once_example =
    complete_authorized_result-once identity accepted_db completed_db work node attempt passed_node
      afterwards work node completed_now

run_terminal_example : find_node (run identity completed_db afterwards) work node ≡ some passed_node
unfolding everything
run_terminal_example = run_terminal identity work node afterwards completed_db passed_node refl refl

run_versions_example :
    (r : NodeRecord) × (find_node
        (run identity accepted_db (completes work node attempt ∷ []))
        work
        node
      ≡ some r)
    × ((r ≡ record passed_node { state = NodeState.in_progress; version = 3 }) ⊎ (3 < r.version))
unfolding everything
run_versions_example =
    run_versions identity work node (completes work node attempt ∷ []) accepted_db
      (record passed_node { state = NodeState.in_progress; version = 3 }) refl
