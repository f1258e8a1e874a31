-- ===== src/Service/Create.antt =====
-- The commands of `DomainService` (agent_company_os/application/service.py) that create an entity.
use nebula_os.Prelude.{
  ℕ, ◌+◌, String, Bool, true, false, Option, List, length, leb, any, if◌then◌else◌,
}
use nebula_os.Domain.Errors.{ok, invariant_violation, raise_if}
use nebula_os.Domain.Transitions.{SubjectType}
use nebula_os.Domain.Events.{EventType}
use nebula_os.Domain.Workspace
use nebula_os.Domain.Workspace.{Workspace}
use nebula_os.Domain.Goal
use nebula_os.Domain.Goal.{Goal}
use nebula_os.Domain.Task
use nebula_os.Domain.Task.{Task}
use nebula_os.Domain.TaskAttempt
use nebula_os.Domain.TaskAttempt.{TaskAttempt}
use nebula_os.Domain.Execution
use nebula_os.Domain.Execution.{Execution}
use nebula_os.Store.Tables.{
  get_workspace, get_goal, get_task, get_execution, attempts_for_task, attempts_for_execution,
  same_workspace, is_open, last_id,
}
use nebula_os.Store.Kinds.{workspace_kind, goal_kind, task_kind, attempt_kind, execution_kind}
use nebula_os.Store.Ops.{differs}
use nebula_os.Service.Common.{add_entity}
use nebula_os.Service.Retry.{check_retry}
use nebula_os.Service.Session.{
  Ports, Command, lift, query, transaction, read_clock, draw, ◌>>=◌, ◌>>◌,
}

pub record CreateGoalCommand : Type 0 where
  pub workspace_id : String
  pub objective : String
  pub acceptance_criteria : List String
  pub constraints : List String

pub record CreateTaskCommand : Type 0 where
  pub workspace_id : String
  pub goal_id : String
  pub title : String
  pub acceptance_criteria : List String

pub record CreateExecutionCommand : Type 0 where
  pub workspace_id : String
  pub goal_id : String
  pub initiated_by : String
  pub max_task_attempts : ℕ
  pub retry_of : Option String

pub record CreateTaskAttemptCommand : Type 0 where
  pub workspace_id : String
  pub task_id : String
  pub execution_id : String

-- `goal.status is not GoalStatus.ACTIVE`
abbrev pub is_inactive : Goal → Bool
is_inactive g = elim g.status [ Goal.active ↦ false | _ ↦ true ]

abbrev pub is_in_progress : Task → Bool
is_in_progress t = elim t.status [ Task.in_progress ↦ true | _ ↦ false ]

module _ (p : Ports) where
  unfoldable pub create_workspace : (name : String) → Command Workspace
  create_workspace name = transaction do
    at ← read_clock p
    id ← draw p.workspace_id
    w ← lift (Workspace.create id name at)
    add_entity p workspace_kind w EventType.workspace_created SubjectType.workspace

  unfoldable pub create_goal : CreateGoalCommand → Command Goal
  create_goal c = transaction do
    owner ← query (λ s. get_workspace s.tables c.workspace_id)
    at ← read_clock p
    id ← draw p.goal_id
    g ← lift (Goal.create id c.workspace_id c.objective c.constraints c.acceptance_criteria at)
    add_entity p goal_kind g EventType.goal_created SubjectType.goal

  unfoldable pub create_task : CreateTaskCommand → Command Task
  create_task c = transaction do
    owner ← query (λ s. get_workspace s.tables c.workspace_id)
    g ← query (λ s. get_goal s.tables c.goal_id)
    lift (same_workspace "Task.goal" c.workspace_id g.workspace_id)
    lift (raise_if (is_inactive g) (invariant_violation "task_creation_requires_active_goal"))
    at ← read_clock p
    id ← draw p.task_id
    t ← lift (Task.create id c.workspace_id c.goal_id c.title c.acceptance_criteria at)
    add_entity p task_kind t EventType.task_created SubjectType.task

  unfoldable pub create_execution : CreateExecutionCommand → Command Execution
  create_execution c = transaction do
    owner ← query (λ s. get_workspace s.tables c.workspace_id)
    g ← query (λ s. get_goal s.tables c.goal_id)
    lift (same_workspace "Execution.goal" c.workspace_id g.workspace_id)
    lift (raise_if (is_inactive g) (invariant_violation "execution_creation_requires_active_goal"))
    query (check_retry c.workspace_id g c.retry_of)
    at ← read_clock p
    id ← draw p.execution_id
    bounds ← lift (Execution.execution_bounds c.max_task_attempts)
    x ← lift (Execution.create id c.workspace_id c.goal_id c.initiated_by bounds c.retry_of at)
    add_entity p execution_kind x EventType.execution_created SubjectType.execution

  unfoldable pub create_task_attempt : CreateTaskAttemptCommand → Command TaskAttempt
  create_task_attempt c = transaction do
    owner ← query (λ s. get_workspace s.tables c.workspace_id)
    t ← query (λ s. get_task s.tables c.task_id)
    x ← query (λ s. get_execution s.tables c.execution_id)
    lift (same_workspace "TaskAttempt.task" c.workspace_id t.workspace_id)
    lift (same_workspace "TaskAttempt.execution" c.workspace_id x.workspace_id)
    lift (
        raise_if (differs t.goal_id x.goal_id)
          (invariant_violation "task_attempt_task_and_execution_share_goal"))
    lift (
        raise_if (if is_in_progress t then false else true)
          (invariant_violation "task_attempt_creation_requires_in_progress_task"))
    lift (
        raise_if (if Execution.is_running x.status then false else true)
          (invariant_violation "task_attempt_creation_requires_running_execution"))
    existing ← query (λ s. ok (attempts_for_task s.tables t.id))
    lift (raise_if (any is_open existing) (invariant_violation "one_non_terminal_attempt_per_task"))
    siblings ← query (λ s. ok (attempts_for_execution s.tables x.id))
    lift (
        raise_if (leb x.bounds.max_task_attempts (length siblings))
          (invariant_violation "execution_task_attempt_bound"))
    at ← read_clock p
    id ← draw p.task_attempt_id
    a ← lift (
        TaskAttempt.create id c.workspace_id c.task_id c.execution_id (length existing + 1)
          (last_id existing) at)
    add_entity p attempt_kind a EventType.task_attempt_created SubjectType.task_attempt
