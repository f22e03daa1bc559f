-- ===== src/AgentExecution/WorkspaceLifecycle.antt =====
-- src/domains/agent-execution/workspace-lifecycle.ts. Times are natural numbers of milliseconds, and
-- `none` is a clock that is not finite. The reason of a decision is told by the decision, its state
-- and its mark.
pub mod Bounded
use agent_pool.Prelude.{
  ℕ, ◌+◌, ◌*◌, ltb, leb, Bool, true, false, ◌&&◌, not, Option, none, some, Text, codes, text_eq,
  if◌then◌else◌,
}
use agent_pool.Js.{is_blank}

pub data CleanupState : Type 0 where
  ready extracting audit_complete audit_incomplete : CleanupState

pub data Decision : Type 0 where
  destroy wait : Decision

pub record CleanupDecision : Type 0 where
  pub decision : Decision
  pub state : CleanupState
  pub audit_incomplete : Bool

-- What `markAuditComplete` reads of a retention record.
pub record AuditRecord : Type 0 where
  pub extraction_status : Text
  pub attempt_id : Text
  pub transcript_object_id : Text
  pub redaction_status : Text

pub data LifecycleFailure : Type 0 where
  transcript_step_out_of_order cleanup_blocked_pending_extraction : LifecycleFailure

pub record Lifecycle : Type 0 where
  pub attempt_id : Text
  pub deadline : ℕ
  pub state : CleanupState
  pub failure_reason : Option Text

abbrev pub default_quarantine_ms : ℕ
default_quarantine_ms = 900000

abbrev pub max_quarantine_ms : ℕ
max_quarantine_ms = 3600000

abbrev quarantine : Option ℕ → ℕ
quarantine none = default_quarantine_ms
quarantine (some ms) = ms

-- `none` is a failure: the bound is out of range, or the start is not finite.
unfoldable pub create_lifecycle : Text → Option ℕ → Option ℕ → Option Lifecycle
create_lifecycle attempt none ms = none
create_lifecycle attempt (some started_at) ms =
    if ltb max_quarantine_ms (quarantine ms)
    then none
    else some (record {
      attempt_id = attempt;
      deadline = started_at + quarantine ms;
      state = ready;
      failure_reason = none;
    })

abbrev is_ready : CleanupState → Bool
is_ready ready = true
is_ready s = false

abbrev is_extracting : CleanupState → Bool
is_extracting extracting = true
is_extracting s = false

abbrev pub is_complete : CleanupState → Bool
is_complete audit_complete = true
is_complete s = false

abbrev is_incomplete : CleanupState → Bool
is_incomplete audit_incomplete = true
is_incomplete s = false

-- The new lifecycle and no failure, or the failure.
unfoldable pub begin_extraction : Lifecycle → Lifecycle × Option LifecycleFailure
begin_extraction l =
    if is_ready l.state
    then (record l { state = extracting }, none)
    else (l, some transcript_step_out_of_order)

abbrev pub is_verified : Text → Option AuditRecord → Bool
is_verified attempt none = false
is_verified attempt (some r) =
    text_eq r.extraction_status (codes "audit_complete")
    && text_eq r.attempt_id attempt
    && not (is_blank r.transcript_object_id)
    && text_eq r.redaction_status (codes "redacted")

unfoldable pub mark_audit_complete :
    Lifecycle → Option AuditRecord → Lifecycle × Option LifecycleFailure
unfolding is_blank text_eq
mark_audit_complete l proof =
    if not (is_extracting l.state)
    then (l, some transcript_step_out_of_order)
    else if not (is_verified l.attempt_id proof)
    then (l, some cleanup_blocked_pending_extraction)
    else (record l { state = audit_complete }, none)

unfoldable pub mark_audit_incomplete : Lifecycle → Text → Lifecycle × Option LifecycleFailure
mark_audit_incomplete l reason =
    if not (is_extracting l.state)
    then (l, some transcript_step_out_of_order)
    else (record l { state = audit_incomplete; failure_reason = some reason }, none)

unfoldable pub evaluate_cleanup : Lifecycle → Option ℕ → CleanupDecision
evaluate_cleanup l none = record {
  decision = destroy;
  state = l.state;
  audit_incomplete = not (is_complete l.state);
}
evaluate_cleanup l (some now) =
    if is_complete l.state
    then record { decision = destroy; state = l.state; audit_incomplete = false }
    else if leb l.deadline now
    then record { decision = destroy; state = l.state; audit_incomplete = true }
    else record { decision = wait; state = l.state; audit_incomplete = is_incomplete l.state }
