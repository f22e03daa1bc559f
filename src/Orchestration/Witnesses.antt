-- ===== src/Orchestration/Witnesses.antt =====
-- The theorems about src/domains/orchestration at small inputs. The queue takes every job, and the
-- resolver always answers the same builder.
use mathlib.Core.List.{Mem, mem-cons_self}
use agent_pool.Js.{Values, own}
use agent_pool.Orchestration.Work.Acyclicity.{IsAcyclicGraph, validate_work-IsAcyclicGraph}
use agent_pool.Orchestration.Work.Topology.{NodeShape}
use agent_pool.Orchestration.Work.Waiting.{IsIn}
use agent_pool.Orchestration.Work.Progress.{validate_work_progress}
use agent_pool.Orchestration.Work.Validation.{check_nodes, shapes}
use agent_pool.Js.{items, mem_text, every_in}
use agent_pool.Js.{Value, Fields}
use agent_pool.Orchestration.Consumption.{AttemptContract, project_attempt_contract, envelope_of}
use agent_pool.Orchestration.Consumption.Delivery.{
  IsHandedOver, consume_queue_envelope-IsHandedOver,
}
use agent_pool.Orchestration.Store.Schema.{Outcome, AttemptState, LeaseRecord, err}
use agent_pool.Orchestration.Store.Proofs.{ProofInput, record_proof_result, find_proof, new_proof}
use agent_pool.Orchestration.Store.ProofHistory.{IsSameProof, record_proof_result-conflict}
use agent_pool.Orchestration.Samples.{everything_consumed}
use agent_pool.Orchestration.Store.Samples.{opened, leased}
use agent_pool.Prelude.{
  ℕ, suc, arith, ◌≡◌, refl, Bool, true, false, Option, none, some, List, [], ◌∷◌, Text, codes, All,
  select, length, js_le,
}
use agent_pool.Orchestration.Contracts.{
  ApprovedNode, ErrorCode, QueueEnvelope, ResolvedBuilderRouting, direct_task,
}
use agent_pool.Orchestration.Frontier.{frontier_entry, compute_ready_frontier}
use agent_pool.Orchestration.Frontier.Unblocked.{compute_ready_frontier_complete}
use agent_pool.Orchestration.Identifiers.{derive_attempt_id, derive_job_id}
use agent_pool.Orchestration.Store.Nodes.{list_nodes}
use agent_pool.Orchestration.Dispatch.Reports.{AreAnswers, dispatch_ready_frontier-AreAnswers}
use agent_pool.Orchestration.Dispatch.{
  Entry, dispatched, dispatch_ready_frontier, approved_nodes, passed_ids,
}
use agent_pool.Orchestration.Dispatch.Safety.{WasReady, dispatch_ready_frontier-WasReady}
use agent_pool.Orchestration.Reconciliation.{reconcile}
use agent_pool.Orchestration.Reconciliation.Expiry.{reconcile_keeps, reconcile_ends}
use agent_pool.Orchestration.Store.Leases.{find_lease}
use agent_pool.Orchestration.Scheduling.{ClassifiedOverlap}
use agent_pool.Orchestration.Scheduling.Order.{classify-serialize}
use agent_pool.Orchestration.Work.Topology.{processed_nodes, processed_nodes_finishes}
use agent_pool.Orchestration.Work.{ApprovedWork}
use agent_pool.Orchestration.Store.Schema.{
  Db, PhaseArtifact, AttemptRecord, created, result_accepted, with_state, ok,
}
use agent_pool.Orchestration.Store.Works.{ImportedWork}
use agent_pool.Orchestration.Store.Attempts.{find_attempt}
use agent_pool.Orchestration.Store.Leases.{release_lease}
use agent_pool.Orchestration.Store.Artifacts.{
  ArtifactInput, artifact_at, record_phase_artifact, get_latest_phase_artifact,
}
use agent_pool.Orchestration.Store.Artifacts.Revisions.{IsNumbered, record_phase_artifact_next}
use agent_pool.Orchestration.Store.Imports.{import_approved_work}
use agent_pool.Orchestration.Store.Imports.Replay.{import_approved_work-again}
use agent_pool.Orchestration.Store.Calls.{releases, run}
use agent_pool.Orchestration.Store.Reopening.{release_lease_reopens}
use agent_pool.Orchestration.Samples.{
  everything_dispatched, everything_scheduled, everything_imported, everything_recorded,
}
use agent_pool.Orchestration.Store.Samples as Samples
use agent_pool.Orchestration.Store.Samples.{
  identity, work, node, attempt, imported, accepted_db, everything,
}

abbrev takes : QueueEnvelope → Bool
takes e = true

abbrev removes : Text → Bool
removes job = true

abbrev kimi : ResolvedBuilderRouting
kimi = record { builder = codes "moonshot/kimi-k3"; policy_version = 1 }

abbrev resolves : Text → Text → Text → Option ResolvedBuilderRouting
resolves w n a = some kimi

abbrev unblocked : Text → Option Text
unblocked n = none

abbrev listed : Db
listed = record imported {
  works =
      record {
        work_id = work;
        origin = direct_task;
        repo = codes "r";
        branch = codes "b";
        payload_hash = codes "h";
        approval_id = none;
        approved_at = none;
        approved_head = none;
        version = 1;
      }
      ∷ [];
}

abbrev first_attempt : Text
first_attempt = derive_attempt_id work node 1

dispatch_ready_frontier-WasReady_example :
    All
      (WasReady listed work unblocked)
      (dispatched first_attempt (derive_job_id first_attempt) ∷ [])
unfolding everything_dispatched
dispatch_ready_frontier-WasReady_example =
    dispatch_ready_frontier-WasReady listed work takes resolves 5 unblocked js_le
      (dispatched first_attempt (derive_job_id first_attempt) ∷ []) refl

dispatch_ready_frontier-AreAnswers_example :
    (entries : List Entry) × ((dispatch_ready_frontier takes resolves 5 work js_le listed
        unblocked).1
      ≡ some entries)
    × AreAnswers
        (dispatch_ready_frontier takes resolves 5 work js_le listed unblocked).0
        work
        (select
          (λ f. f.ready_after_scheduling)
          (compute_ready_frontier js_le
            (approved_nodes listed work (list_nodes listed work))
            (passed_ids (list_nodes listed work))
            unblocked))
        entries
unfolding everything_dispatched
dispatch_ready_frontier-AreAnswers_example =
    dispatch_ready_frontier-AreAnswers takes resolves 5 work js_le listed unblocked refl

abbrev plan : ApprovedNode
plan = record {
  id = codes "m";
  intent = codes "i";
  change_spec = codes "c";
  acceptance_criteria = codes "x" ∷ [];
  depends_on = node ∷ [];
  criteria_origin_source = direct_task;
  criteria_origin_source_id = codes "s";
}

compute_ready_frontier_complete_example :
    Mem
      (frontier_entry unblocked plan)
      (compute_ready_frontier js_le (plan ∷ []) (node ∷ []) unblocked)
unfolding everything_dispatched
compute_ready_frontier_complete_example =
    compute_ready_frontier_complete (node ∷ []) unblocked js_le plan (plan ∷ []) mem-cons_self refl
      (refl, tt)

abbrev touching : Text → ClassifiedOverlap
touching n = record {
  node_id = n;
  confidence = 90;
  likely_touched_units = codes "u" ∷ [];
  shared_surfaces = [];
}

classify-serialize_example : js_le (codes "m") (codes "k") ≡ false
unfolding everything_scheduled
classify-serialize_example =
    classify-serialize 80 (codes "m") (touching (codes "m") ∷ touching (codes "k") ∷ []) (codes "k")
      refl

processed_nodes_finishes_example :
    (n : ℕ) × (processed_nodes (
        record { id = codes "a"; depends_on = codes "b" ∷ [] }
        ∷ record { id = codes "b"; depends_on = [] }
        ∷ [])
      ≡ some n)
processed_nodes_finishes_example = processed_nodes_finishes (
    record { id = codes "a"; depends_on = codes "b" ∷ [] }
    ∷ record { id = codes "b"; depends_on = [] }
    ∷ [])

abbrev artifact : ArtifactInput
artifact = record {
  attempt_id = attempt;
  phase = codes "R";
  status = codes "passed";
  content_hash = codes "h";
  artifact_path = codes "out/r.md";
}

abbrev stored_artifact : PhaseArtifact
stored_artifact = record {
  attempt_id = attempt;
  phase = codes "R";
  revision = 1;
  status = codes "passed";
  content_hash = codes "h";
  artifact_path = codes "out/r.md";
  created_at = 61;
}

unfoldable after_artifact : Db
unfolding everything
after_artifact = (record_phase_artifact accepted_db artifact 61).0

record_phase_artifact_next_example :
    (1 ≡ suc (length (select (artifact_at attempt (codes "R")) accepted_db.artifacts)))
    × (get_latest_phase_artifact after_artifact attempt (codes "R") ≡ some stored_artifact)
    × IsNumbered after_artifact.artifacts
unfolding everything everything_recorded after_artifact
record_phase_artifact_next_example =
    record_phase_artifact_next accepted_db after_artifact artifact 61 stored_artifact refl
      (λ a p. refl)

abbrev small : ApprovedWork
small = record {
  work_id = work;
  origin = direct_task;
  repo = codes "r";
  branch = codes "b";
  payload_hash = codes "h";
  approval_id = none;
  approved_at = none;
  approved_head = none;
  nodes = record plan { depends_on = [] } ∷ [];
}

abbrev named : ApprovedWork → Text
named w = w.work_id

unfoldable after_import : Db
unfolding import_approved_work
after_import = (import_approved_work identity named small Samples.imported).0

abbrev answer : ImportedWork
answer = record { work_id = work; version = 1 }

import_approved_work-again_example :
    import_approved_work identity named small after_import ≡ (after_import, ok answer)
unfolding everything_imported after_import
import_approved_work-again_example =
    import_approved_work-again identity named small Samples.imported after_import answer refl

-- The lease of the accepted attempt is still there, and its owner may release it.
abbrev settled_attempt : AttemptRecord
settled_attempt = record {
  attempt_id = attempt;
  work_id = work;
  node_id = node;
  attempt_number = 1;
  state = result_accepted;
  job_id = some (codes "j");
  created_at = 5;
  lease_generation = 2;
}

unfoldable reopened : Db
unfolding everything
reopened = (release_lease identity accepted_db attempt (codes "q") (codes "u")).0

release_lease_reopens_example :
    find_attempt reopened attempt ≡ some (with_state created settled_attempt)
unfolding everything reopened
release_lease_reopens_example =
    release_lease_reopens identity accepted_db reopened attempt (codes "q") (codes "u")
      settled_attempt refl refl

abbrev proof_input : ProofInput
proof_input = record {
  attempt_id = attempt;
  result_id = codes "res";
  node_id = node;
  builder_model = codes "moonshot/kimi-k3";
  status = Outcome.failed;
  commit_sha = none;
  failure_code = some (codes "tests");
  started_at = 61;
  finished_at = 62;
  checks = record { name = codes "unit"; passed = false } ∷ [];
}

unfoldable proved : Db
unfolding everything
proved = (record_proof_result js_le accepted_db proof_input).0

abbrev lease_of_p : LeaseRecord
lease_of_p = record {
  attempt_id = attempt;
  generation = 1;
  owner = codes "p";
  token_digest = codes "t";
  issued_at = 10;
  expires_at = 30;
}

reconcile_keeps_example : find_lease (reconcile takes removes leased 20).0 attempt ≡ some lease_of_p
unfolding everything
reconcile_keeps_example =
    reconcile_keeps takes removes leased 20 attempt lease_of_p refl (omega arith)

reconcile_ends_example : find_lease (reconcile takes removes leased 40).0 attempt ≡ none
unfolding everything
reconcile_ends_example =
    reconcile_ends takes removes leased 40 attempt lease_of_p refl
      (record settled_attempt { state = AttemptState.leased; lease_generation = 1 }) refl refl
      (λ e. refl) (omega arith)

abbrev later_input : ProofInput
later_input = record proof_input { finished_at = 63 }

is_later : IsSameProof (new_proof proof_input) later_input → ⊥
unfolding new_proof
is_later same = absurd (ground (arith, same.finished_at))

record_proof_result-conflict_example :
    (find_proof (run identity proved (releases attempt (codes "q") (codes "u") ∷ [])) attempt
      ≡ some (new_proof proof_input))
    × ((code : ErrorCode) × (record_proof_result js_le
            (run identity proved (releases attempt (codes "q") (codes "u") ∷ []))
            later_input
          ≡ (run identity proved (releases attempt (codes "q") (codes "u") ∷ []), err code)))
unfolding everything proved record_proof_result find_proof
record_proof_result-conflict_example =
    record_proof_result-conflict js_le later_input (new_proof proof_input) is_later identity proved
      (releases attempt (codes "q") (codes "u") ∷ []) refl

abbrev envelope : Value
envelope = Value.object true (
    Fields.field (codes "job_id") (Value.string (codes "j")) (
      Fields.field (codes "attempt_id") (Value.string attempt) (
        Fields.field (codes "node_id") (Value.string node)
          (Fields.field (codes "work_id") (Value.string work) Fields.stop))))

unfoldable opened_listed : Db
unfolding everything
opened_listed = record opened { works = listed.works }

abbrev handed : AttemptContract
handed =
    project_attempt_contract (record plan { id = node; depends_on = [] }) work attempt 1 (codes "r")
      (codes "b")

consume_queue_envelope-IsHandedOver_example :
    IsHandedOver opened_listed (envelope_of envelope) node attempt handed
unfolding everything_consumed opened_listed
consume_queue_envelope-IsHandedOver_example =
    consume_queue_envelope-IsHandedOver opened_listed envelope node attempt handed refl

abbrev shape_fields : Text → Values → Fields
shape_fields id dependencies = Fields.field (codes "id") (Value.string id) (
    Fields.field (codes "intent") (Value.string (codes "i")) (
      Fields.field (codes "change_spec") (Value.string (codes "c")) (
        Fields.field (codes "acceptance_criteria")
          (Value.array (Values.item (Value.string (codes "x")) Values.end))
          (Fields.field (codes "depends_on") (Value.array dependencies) (
            Fields.field (codes "criteria_origin_source") (Value.string (codes "direct_task")) (
              Fields.field (codes "criteria_origin_source_id") (Value.string (codes "s"))
                Fields.stop))))))

abbrev work_fields : Fields
work_fields = Fields.field (codes "work_id") (Value.string (codes "w")) (
    Fields.field (codes "origin") (Value.string (codes "direct_task")) (
      Fields.field (codes "repo") (Value.string (codes "r")) (
        Fields.field (codes "branch") (Value.string (codes "b")) (
          Fields.field (codes "payload_hash") (Value.string (codes "h")) (
            Fields.field (codes "nodes")
              (Value.array (
                Values.item (Value.object true (shape_fields (codes "m") Values.end)) (
                  Values.item
                    (Value.object true (
                      shape_fields (codes "n") (Values.item (Value.string (codes "m")) Values.end)))
                    Values.end)))
              Fields.stop)))))

validate_work-IsAcyclicGraph_example :
    (vs : Values) × (ns : List NodeShape) × (own work_fields (codes "nodes") ≡ Value.array vs)
    × (check_nodes [] (items vs) ≡ shapes ns)
    × IsAcyclicGraph ns
unfolding everything_imported
validate_work-IsAcyclicGraph_example = validate_work-IsAcyclicGraph work_fields refl

validate_work_progress_example :
    (vs : Values) × (ns : List NodeShape) × (own work_fields (codes "nodes") ≡ Value.array vs)
    × (check_nodes [] (items vs) ≡ shapes ns)
    × ((n : NodeShape)
        → IsIn n ns
        → mem_text n.id (codes "m" ∷ []) ≡ false
        → (m : NodeShape) × IsIn m ns
          × (mem_text m.id (codes "m" ∷ []) ≡ false)
          × (every_in (codes "m" ∷ []) m.depends_on ≡ true))
unfolding everything_imported
validate_work_progress_example = validate_work_progress work_fields (codes "m" ∷ []) refl
