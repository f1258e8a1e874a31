-- ===== src/Service/Guards.antt =====
-- The commands of `DomainService` (agent_company_os/application/service.py) that move an entity on in
-- its lifecycle: what they check between the version and the transition.
use nebula_os.Prelude.{String, Bool, true, false, ◌||◌, List, any, is_nil, if◌then◌else◌}
use nebula_os.Domain.Errors.{Result, ok, invariant_violation, raise_if, ◌>>◌}
use nebula_os.Domain.Events.{EventType}
use nebula_os.Domain.Goal.{Goal}
use nebula_os.Domain.Task
use nebula_os.Domain.Task.{Task}
use nebula_os.Domain.TaskAttempt
use nebula_os.Domain.TaskAttempt.{TaskAttempt}
use nebula_os.Domain.Execution.{Execution}
use nebula_os.Store.Tables.{
  get_goal, get_task, get_task_attempt, get_execution, tasks_for_goal, attempts_for_execution,
  same_workspace, is_open,
}
use nebula_os.Store.Ops.{Store, differs}

abbrev pub goal_of : Store → String → Result Goal
goal_of s id = get_goal s.tables id

abbrev pub task_of : Store → String → Result Task
task_of s id = get_task s.tables id

abbrev pub attempt_of : Store → String → Result TaskAttempt
attempt_of s id = get_task_attempt s.tables id

abbrev pub execution_of : Store → String → Result Execution
execution_of s id = get_execution s.tables id

abbrev pub no_guard : {E : Type 0} → Store → E → Result (Unit {0})
no_guard s e = ok tt

-- `not tasks or any(task.status is not COMPLETED for task in tasks)`
abbrev pub is_incomplete : Task → Bool
is_incomplete t = elim t.status [ Task.completed ↦ false | _ ↦ true ]

abbrev pub unfinished : List Task → Bool
unfinished ts = is_nil ts || any is_incomplete ts

unfoldable pub satisfaction_guard : Store → Goal → Result (Unit {0})
satisfaction_guard s g =
    raise_if (unfinished (tasks_for_goal s.tables g.id))
      (invariant_violation "goal_satisfaction_requires_all_tasks_completed")

abbrev pub is_succeeded : TaskAttempt → Bool
is_succeeded a = elim a.status [ TaskAttempt.succeeded ↦ true | _ ↦ false ]

-- The checks of `complete_task` on the attempt, once the version has been found right.
unfoldable pub completion_guard : TaskAttempt → Store → Task → Result (Unit {0})
completion_guard a s t = do
  same_workspace "Task.attempt" t.workspace_id a.workspace_id
  raise_if (differs a.task_id t.id || (if is_succeeded a then false else true))
      (invariant_violation "task_completion_requires_its_succeeded_attempt")

unfoldable pub success_guard : Store → Execution → Result (Unit {0})
success_guard s x = do
  let attempts = attempts_for_execution s.tables x.id
  raise_if (unfinished (tasks_for_goal s.tables x.goal_id))
      (invariant_violation "execution_success_requires_all_goal_tasks_completed")
  raise_if (any is_open attempts)
      (invariant_violation "execution_success_requires_terminal_attempts")

abbrev pub ready_event : Task → EventType
ready_event t = elim t.status [
  | Task.proposed ↦ EventType.task_ready
  | _ ↦ EventType.task_retry_ready
]
