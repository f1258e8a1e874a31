-- ===== src/Domain/TaskAttempt.antt =====
-- agent_company_os/domain/task_attempt.py: one attempt at a Task, and its lifecycle.
use nebula_os.Prelude.{
  ℕ, String, Bool, true, false, Option, none, some, ltb, ◌==◌, same_bool, if◌then◌else◌,
}
use nebula_os.Domain.Errors.{
  Result, ok, invalid_state_transition, invariant_violation, raise_if, ◌>>=◌, ◌>>◌,
}
use nebula_os.Domain.Validation.{
  DateTime, Version, initial, next, clean_required_text, require_utc, require_monotonic_time,
  check_time?, check_text?,
}
use nebula_os.Domain.Transitions.{TransitionResult, SubjectType, check_transition}

pub data TaskAttemptStatus : Type 0 where
  created running succeeded failed cancelled : TaskAttemptStatus

abbrev pub status_value : TaskAttemptStatus → String
status_value created = "created"
status_value running = "running"
status_value succeeded = "succeeded"
status_value failed = "failed"
status_value cancelled = "cancelled"

-- `status in terminal_statuses()`
abbrev pub is_terminal : TaskAttemptStatus → Bool
is_terminal created = false
is_terminal running = false
is_terminal _ = true

pub record TaskAttempt : Type 0 where
  pub id : String
  pub workspace_id : String
  pub task_id : String
  pub execution_id : String
  pub ordinal : ℕ
  pub previous_attempt_id : Option String
  pub status : TaskAttemptStatus
  pub version : Version
  pub created_at : DateTime
  pub updated_at : DateTime
  pub started_at : Option DateTime
  pub ended_at : Option DateTime
  pub failure_reason : Option String

-- `target in _ALLOWED[source]`
abbrev pub allowed : (source target : TaskAttemptStatus) → Bool
allowed created running = true
allowed created cancelled = true
allowed running succeeded = true
allowed running failed = true
allowed running cancelled = true
allowed _ _ = false

abbrev pub is_none : Option String → Bool
is_none none = true
is_none (some s) = false

-- `TaskAttempt.__post_init__`
unfoldable pub check : TaskAttempt → Result TaskAttempt
check a = do
  raise_if (ltb a.ordinal 1) (invariant_violation "task_attempt_ordinal_positive")
  raise_if (if same_bool (a.ordinal == 1) (is_none a.previous_attempt_id) then false else true)
      (invariant_violation "task_attempt_retry_link_matches_ordinal")
  require_utc a.created_at
  require_utc a.updated_at
  check_time? a.started_at
  check_time? a.ended_at
  check_text? a.failure_reason
  ok a

unfoldable pub create :
    (attempt_id workspace_id task_id execution_id : String)
    → (ordinal : ℕ) → (previous_attempt_id : Option String) → DateTime
    → Result TaskAttempt
create attempt_id workspace_id task_id execution_id ordinal previous_attempt_id created_at =
    check (record {
      id = attempt_id;
      workspace_id = workspace_id;
      task_id = task_id;
      execution_id = execution_id;
      ordinal = ordinal;
      previous_attempt_id = previous_attempt_id;
      status = created;
      version = initial;
      created_at = created_at;
      updated_at = created_at;
      started_at = none;
      ended_at = none;
      failure_reason = none;
    })

abbrev pub is_running : TaskAttemptStatus → Bool
is_running running = true
is_running _ = false

abbrev pub is_failed : TaskAttemptStatus → Bool
is_failed failed = true
is_failed _ = false

unfoldable pub transition :
    TaskAttempt
    → TaskAttemptStatus
    → (transition_id : String) → DateTime
    → (reason : String) → Result (TransitionResult TaskAttempt)
transition a target transition_id at reason = do
  raise_if (if allowed a.status target then false else true)
      (invalid_state_transition "TaskAttempt" a.id (status_value a.status) (status_value target))
  require_monotonic_time a.updated_at at
  updated ← check (record a {
    status = target;
    version = next a.version;
    updated_at = at;
    started_at = if is_running target then some at else a.started_at;
    ended_at = if is_terminal target then some at else a.ended_at;
    failure_reason = if is_failed target then some reason else a.failure_reason;
  })
  recorded ← check_transition (record {
    id = transition_id;
    workspace_id = a.workspace_id;
    subject_type = SubjectType.task_attempt;
    subject_id = a.id;
    previous_status = status_value a.status;
    new_status = status_value target;
    reason = reason;
    from_version = a.version;
    to_version = next a.version;
    occurred_at = at;
  })
  ok (record { entity = updated; transition = recorded })

unfoldable pub start : TaskAttempt → String → DateTime → Result (TransitionResult TaskAttempt)
unfolding transition
start a transition_id at = transition a running transition_id at "start"

unfoldable pub succeed : TaskAttempt → String → DateTime → Result (TransitionResult TaskAttempt)
unfolding transition
succeed a transition_id at = transition a succeeded transition_id at "result_accepted"

unfoldable pub fail :
    TaskAttempt → String → DateTime → (reason : String) → Result (TransitionResult TaskAttempt)
unfolding transition
fail a transition_id at reason = do
  cleaned ← clean_required_text reason
  transition a failed transition_id at reason

unfoldable pub cancel : TaskAttempt → String → DateTime → Result (TransitionResult TaskAttempt)
unfolding transition
cancel a transition_id at = transition a cancelled transition_id at "cancel"
