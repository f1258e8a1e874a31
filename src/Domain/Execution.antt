-- ===== src/Domain/Execution.antt =====
-- agent_company_os/domain/execution.py: bounded execution bookkeeping.
use nebula_os.Prelude.{ℕ, String, Bool, true, false, Option, none, some, ltb, if◌then◌else◌}
use nebula_os.Domain.Errors.{
  Result, ok, invalid_state_transition, invariant_violation, raise_if, ◌>>=◌, ◌>>◌,
}
use nebula_os.Domain.Validation.{
  DateTime, Version, initial, next, clean_required_text, require_utc, require_monotonic_time,
  check_time?, check_text?,
}
use nebula_os.Domain.Transitions.{TransitionResult, SubjectType, check_transition}

pub data ExecutionStatus : Type 0 where
  created running waiting succeeded failed cancelled : ExecutionStatus

abbrev pub status_value : ExecutionStatus → String
status_value created = "created"
status_value running = "running"
status_value waiting = "waiting"
status_value succeeded = "succeeded"
status_value failed = "failed"
status_value cancelled = "cancelled"

-- `status in terminal_statuses()`
abbrev pub is_terminal : ExecutionStatus → Bool
is_terminal succeeded = true
is_terminal failed = true
is_terminal cancelled = true
is_terminal _ = false

pub record ExecutionBounds : Type 0 where
  pub max_task_attempts : ℕ

-- The constructor of `ExecutionBounds`.
unfoldable pub execution_bounds : ℕ → Result ExecutionBounds
execution_bounds n = do
  raise_if (ltb n 1) (invariant_violation "execution_max_task_attempts_positive")
  ok (record { max_task_attempts = n })

pub record Execution : Type 0 where
  pub id : String
  pub workspace_id : String
  pub goal_id : String
  pub initiated_by : String
  pub bounds : ExecutionBounds
  pub retry_of : Option String
  pub status : ExecutionStatus
  pub version : Version
  pub created_at : DateTime
  pub updated_at : DateTime
  pub started_at : Option DateTime
  pub ended_at : Option DateTime
  pub failure_reason : Option String

-- `target in _ALLOWED[source]`
abbrev pub allowed : (source target : ExecutionStatus) → Bool
allowed created running = true
allowed created cancelled = true
allowed running waiting = true
allowed running succeeded = true
allowed running failed = true
allowed running cancelled = true
allowed waiting running = true
allowed waiting failed = true
allowed waiting cancelled = true
allowed _ _ = false

-- `Execution.__post_init__`
unfoldable pub check : Execution → Result Execution
check x = do
  initiator ← clean_required_text x.initiated_by
  require_utc x.created_at
  require_utc x.updated_at
  check_time? x.started_at
  check_time? x.ended_at
  check_text? x.failure_reason
  ok x

unfoldable pub create :
    (execution_id workspace_id goal_id initiated_by : String)
    → ExecutionBounds
    → (retry_of : Option String) → DateTime
    → Result Execution
create execution_id workspace_id goal_id initiated_by bounds retry_of created_at = do
  initiator ← clean_required_text initiated_by
  check (record {
    id = execution_id;
    workspace_id = workspace_id;
    goal_id = goal_id;
    initiated_by = initiator;
    bounds = bounds;
    retry_of = retry_of;
    status = created;
    version = initial;
    created_at = created_at;
    updated_at = created_at;
    started_at = none;
    ended_at = none;
    failure_reason = none;
  })

abbrev pub is_running : ExecutionStatus → Bool
is_running running = true
is_running _ = false

abbrev pub is_failed : ExecutionStatus → Bool
is_failed failed = true
is_failed _ = false

-- `at if self.started_at is None and target is RUNNING else self.started_at`
abbrev pub started : Option DateTime → ExecutionStatus → DateTime → Option DateTime
started none target at = if is_running target then some at else none
started (some t) target at = some t

unfoldable pub transition :
    Execution
    → ExecutionStatus
    → (transition_id : String) → DateTime
    → (reason : String) → Result (TransitionResult Execution)
transition x target transition_id at reason = do
  raise_if (if allowed x.status target then false else true)
      (invalid_state_transition "Execution" x.id (status_value x.status) (status_value target))
  require_monotonic_time x.updated_at at
  updated ← check (record x {
    status = target;
    version = next x.version;
    updated_at = at;
    started_at = started x.started_at target at;
    ended_at = if is_terminal target then some at else x.ended_at;
    failure_reason = if is_failed target then some reason else x.failure_reason;
  })
  recorded ← check_transition (record {
    id = transition_id;
    workspace_id = x.workspace_id;
    subject_type = SubjectType.execution;
    subject_id = x.id;
    previous_status = status_value x.status;
    new_status = status_value target;
    reason = reason;
    from_version = x.version;
    to_version = next x.version;
    occurred_at = at;
  })
  ok (record { entity = updated; transition = recorded })

unfoldable pub start : Execution → String → DateTime → Result (TransitionResult Execution)
unfolding transition
start x transition_id at = transition x running transition_id at "start"

unfoldable pub wait : Execution → String → DateTime → Result (TransitionResult Execution)
unfolding transition
wait x transition_id at = transition x waiting transition_id at "wait"

unfoldable pub resume : Execution → String → DateTime → Result (TransitionResult Execution)
unfolding transition
resume x transition_id at = transition x running transition_id at "resume"

unfoldable pub succeed : Execution → String → DateTime → Result (TransitionResult Execution)
unfolding transition
succeed x transition_id at = transition x succeeded transition_id at "complete"

unfoldable pub fail :
    Execution → String → DateTime → (reason : String) → Result (TransitionResult Execution)
unfolding transition
fail x transition_id at reason = do
  cleaned ← clean_required_text reason
  transition x failed transition_id at reason

unfoldable pub cancel : Execution → String → DateTime → Result (TransitionResult Execution)
unfolding transition
cancel x transition_id at = transition x cancelled transition_id at "cancel"
