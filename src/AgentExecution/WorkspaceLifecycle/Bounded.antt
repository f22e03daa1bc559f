-- ===== src/AgentExecution/WorkspaceLifecycle/Bounded.antt =====
-- src/domains/agent-execution/workspace-lifecycle.ts: every workspace is destroyed, and none before its
-- transcript is safe or its time is up.
use agent_pool.Prelude.{ℕ, ◌+◌, ◌≤◌, ◌<◌, ◌≡◌, refl, ◌∙◌, ap, false, Option, some, Text, arith}
use agent_pool.AgentExecution.WorkspaceLifecycle.{
  destroy, wait, AuditRecord, Lifecycle, max_quarantine_ms, is_complete, create_lifecycle,
  begin_extraction, is_verified, mark_audit_complete, mark_audit_incomplete, evaluate_cleanup,
}

-- A call that changes the lifecycle, where the retention records that are shown to it have the
-- property `P`.
pub data Step (P : Option AuditRecord → Type 0) : Lifecycle → Lifecycle → Type 0 where
  begins : (l : Lifecycle) → Step P l (begin_extraction l).0
  completes :
      (l : Lifecycle) (proof : Option AuditRecord)
      → P proof
      → Step P l (mark_audit_complete l proof).0
  fails : (l : Lifecycle) (reason : Text) → Step P l (mark_audit_incomplete l reason).0

-- Calls, one after the other.
pub data Steps (P : Option AuditRecord → Type 0) : Lifecycle → Lifecycle → Type 0 where
  done : (l : Lifecycle) → Steps P l l
  then_step : (l m n : Lifecycle) → Step P l m → Steps P m n → Steps P l n

module _ (P : Option AuditRecord → Type 0) where
  Step-deadline : (l m : Lifecycle) → Step P l m → m.deadline ≡ l.deadline
  unfolding begin_extraction mark_audit_complete mark_audit_incomplete
  Step-deadline l m (begins _) = ground arith
  Step-deadline l m (completes _ proof h) = ground arith
  Step-deadline l m (fails _ reason) = ground arith

  Steps-deadline : (l m : Lifecycle) → Steps P l m → m.deadline ≡ l.deadline
  Steps-deadline l m (done _) = refl
  Steps-deadline l n (then_step _ k _ step steps) =
      Steps-deadline k n steps ∙ Step-deadline l k step

create_lifecycle-deadline :
    (attempt : Text) (started_at : ℕ) (ms : Option ℕ) (l : Lifecycle)
    → create_lifecycle attempt (some started_at) ms ≡ some l
    → l.deadline ≤ started_at + max_quarantine_ms
unfolding create_lifecycle
create_lifecycle-deadline attempt started_at ms l e = ground (arith, e)

-- An hour after an attempt started, the cleanup of its workspace decides to destroy it, whatever
-- quarantine was configured and whatever calls were made in between.
pub evaluate_cleanup-destroy :
    (P : Option AuditRecord → Type 0) (attempt : Text) (started_at now : ℕ) (ms : Option ℕ)
    (l m : Lifecycle)
    → create_lifecycle attempt (some started_at) ms ≡ some l
    → Steps P l m
    → started_at + max_quarantine_ms ≤ now
    → (evaluate_cleanup m (some now)).decision ≡ destroy
unfolding evaluate_cleanup
evaluate_cleanup-destroy P attempt started_at now ms l m created steps late = ground (
  arith,
  create_lifecycle-deadline attempt started_at ms l created,
  Steps-deadline P l m steps,
  late,
)

-- A record that does not show that the transcript of the attempt is safe.
abbrev pub IsUnverified : Text → Option AuditRecord → Type 0
IsUnverified attempt proof = is_verified attempt proof ≡ false

Step-pending :
    (attempt : Text) (l m : Lifecycle)
    → Step (IsUnverified attempt) l m
    → l.attempt_id ≡ attempt
    → is_complete l.state ≡ false
    → (m.attempt_id ≡ attempt) × (is_complete m.state ≡ false)
unfolding begin_extraction mark_audit_complete mark_audit_incomplete
Step-pending attempt l m (begins _) of_attempt h = ground (arith, of_attempt, h)
Step-pending attempt l m (completes _ proof bad) of_attempt h =
    let same : is_verified l.attempt_id proof ≡ false =
      ap (λ t. is_verified t proof) of_attempt ∙ bad in
    ground (arith, of_attempt, h, same)
Step-pending attempt l m (fails _ reason) of_attempt h = ground (arith, of_attempt, h)

Steps-pending :
    (attempt : Text) (l m : Lifecycle)
    → Steps (IsUnverified attempt) l m
    → l.attempt_id ≡ attempt
    → is_complete l.state ≡ false
    → is_complete m.state ≡ false
Steps-pending attempt l m (done _) of_attempt h = h
Steps-pending attempt l n (then_step _ k _ step steps) of_attempt h =
    let (of_attempt', h') = Step-pending attempt l k step of_attempt h in
    Steps-pending attempt k n steps of_attempt' h'

create_lifecycle-ready :
    (attempt : Text) (started_at : ℕ) (ms : Option ℕ) (l : Lifecycle)
    → create_lifecycle attempt (some started_at) ms ≡ some l
    → (l.attempt_id ≡ attempt) × (is_complete l.state ≡ false)
unfolding create_lifecycle
create_lifecycle-ready attempt started_at ms l e = ground (arith, e)

-- Before the deadline of an attempt, its workspace is kept after any calls in which no verified
-- retention record of the attempt was shown.
pub evaluate_cleanup-wait :
    (attempt : Text) (started_at now : ℕ) (ms : Option ℕ) (l m : Lifecycle)
    → create_lifecycle attempt (some started_at) ms ≡ some l
    → Steps (IsUnverified attempt) l m
    → now < l.deadline
    → (evaluate_cleanup m (some now)).decision ≡ wait
unfolding evaluate_cleanup
evaluate_cleanup-wait attempt started_at now ms l m created steps early =
    let (of_attempt, pending) = create_lifecycle-ready attempt started_at ms l created in
    ground (
      arith,
      Steps-pending attempt l m steps of_attempt pending,
      Steps-deadline (IsUnverified attempt) l m steps,
      early,
    )
