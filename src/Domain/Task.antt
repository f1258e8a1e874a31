-- ===== src/Domain/Task.antt =====
-- agent_company_os/domain/task.py: the Task aggregate and its lifecycle.
use nebula_os.Prelude.{String, Bool, true, false, List, if◌then◌else◌}
use nebula_os.Domain.Errors.{Result, ok, invalid_state_transition, raise_if, ◌>>=◌, ◌>>◌}
use nebula_os.Domain.Validation.{
  DateTime, Version, initial, next, clean_required_text, clean_required_texts, require_utc,
  require_monotonic_time,
}
use nebula_os.Domain.Transitions.{TransitionResult, SubjectType, check_transition}

pub data TaskStatus : Type 0 where
  proposed ready in_progress blocked completed failed cancelled : TaskStatus

abbrev pub status_value : TaskStatus → String
status_value proposed = "proposed"
status_value ready = "ready"
status_value in_progress = "in_progress"
status_value blocked = "blocked"
status_value completed = "completed"
status_value failed = "failed"
status_value cancelled = "cancelled"

pub record Task : Type 0 where
  pub id : String
  pub workspace_id : String
  pub goal_id : String
  pub title : String
  pub acceptance_criteria : List String
  pub status : TaskStatus
  pub version : Version
  pub created_at : DateTime
  pub updated_at : DateTime

-- `target in _ALLOWED[source]`
abbrev pub allowed : (source target : TaskStatus) → Bool
allowed proposed ready = true
allowed proposed cancelled = true
allowed ready in_progress = true
allowed ready cancelled = true
allowed in_progress completed = true
allowed in_progress ready = true
allowed in_progress blocked = true
allowed in_progress failed = true
allowed in_progress cancelled = true
allowed blocked ready = true
allowed blocked failed = true
allowed blocked cancelled = true
allowed _ _ = false

-- `Task.__post_init__`
unfoldable pub check : Task → Result Task
check t = do
  title ← clean_required_text t.title
  criteria ← clean_required_texts t.acceptance_criteria
  require_utc t.created_at
  require_utc t.updated_at
  ok t

unfoldable pub create :
    (task_id workspace_id goal_id title : String) (acceptance_criteria : List String)
    → DateTime
    → Result Task
create task_id workspace_id goal_id title acceptance_criteria created_at = do
  title' ← clean_required_text title
  criteria' ← clean_required_texts acceptance_criteria
  check (record {
    id = task_id;
    workspace_id = workspace_id;
    goal_id = goal_id;
    title = title';
    acceptance_criteria = criteria';
    status = proposed;
    version = initial;
    created_at = created_at;
    updated_at = created_at;
  })

unfoldable pub transition :
    Task
    → TaskStatus
    → (transition_id : String) → DateTime
    → (reason : String) → Result (TransitionResult Task)
transition t target transition_id at reason = do
  raise_if (if allowed t.status target then false else true)
      (invalid_state_transition "Task" t.id (status_value t.status) (status_value target))
  require_monotonic_time t.updated_at at
  updated ← check (record t { status = target; version = next t.version; updated_at = at })
  recorded ← check_transition (record {
    id = transition_id;
    workspace_id = t.workspace_id;
    subject_type = SubjectType.task;
    subject_id = t.id;
    previous_status = status_value t.status;
    new_status = status_value target;
    reason = reason;
    from_version = t.version;
    to_version = next t.version;
    occurred_at = at;
  })
  ok (record { entity = updated; transition = recorded })

abbrev pub ready_reason : TaskStatus → String
ready_reason proposed = "accept_work_definition"
ready_reason _ = "retry_ready"

unfoldable pub mark_ready : Task → String → DateTime → Result (TransitionResult Task)
unfolding transition
mark_ready t transition_id at = transition t ready transition_id at (ready_reason t.status)

unfoldable pub start : Task → String → DateTime → Result (TransitionResult Task)
unfolding transition
start t transition_id at = transition t in_progress transition_id at "start_attempt"

unfoldable pub complete : Task → String → DateTime → Result (TransitionResult Task)
unfolding transition
complete t transition_id at = transition t completed transition_id at "accept_result"

unfoldable pub block : Task → String → DateTime → Result (TransitionResult Task)
unfolding transition
block t transition_id at = transition t blocked transition_id at "block"

unfoldable pub fail : Task → String → DateTime → Result (TransitionResult Task)
unfolding transition
fail t transition_id at = transition t failed transition_id at "close_unsuccessful"

unfoldable pub cancel : Task → String → DateTime → Result (TransitionResult Task)
unfolding transition
cancel t transition_id at = transition t cancelled transition_id at "cancel"
