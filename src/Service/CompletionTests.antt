-- ===== src/Service/CompletionTests.antt =====
-- A goal that is worked on to its end, and the theorems on completion at its last three calls.
use nebula_os.Prelude.{
  ℕ, ◌+◌, ◌≡◌, refl, some, none, List, [], ◌∷◌, ◌++◌, values, lookup, insert, arith,
}
use nebula_os.Domain.Errors.{ok, err, invariant_violation, version_conflict}
use nebula_os.Domain.Validation.{
  ahead, strip, clean_required_text, clean_optional_texts, clean_required_texts, require_utc,
  require_monotonic_time, DateTime,
}
use nebula_os.Domain.Events.{check_event}
use nebula_os.Service.Stale.{failure, IsStale, failure-IsStale}
use nebula_os.Service.Runs.{satisfy_goal}
use nebula_os.Domain.Transitions.{check_transition}
use nebula_os.Domain.Workspace
use nebula_os.Domain.Goal
use nebula_os.Domain.Goal.{Goal}
use nebula_os.Domain.Task
use nebula_os.Domain.Task.{Task}
use nebula_os.Domain.TaskAttempt
use nebula_os.Domain.TaskAttempt.{TaskAttempt}
use nebula_os.Domain.Execution
use nebula_os.Domain.Execution.{Execution}
use nebula_os.Store.Tables.{
  workspace_references, goal_references, task_references, execution_references, attempt_references,
  attempt_parents, sort_by_ordinal,
}
use nebula_os.Store.Ops.{
  add, save, check_save, check_versions, check_step, mismatched, append_event, append_transition,
  audit_matches, validate_event, validate_transition,
}
use nebula_os.Service.Common.{change, add_entity, audit_event, expect_version, save_result}
use nebula_os.Service.Retry.{check_retry}
use nebula_os.Service.Guards.{
  goal_of, task_of, attempt_of, execution_of, satisfaction_guard, completion_guard, success_guard,
}
use nebula_os.Service.Session.{Session, transaction, ◌>>=◌, read_clock, draw, write}
use nebula_os.Service.Create
use nebula_os.Service.Changes
use nebula_os.Service.Runs.{
  Call, create_workspace, create_goal, create_task, create_execution, create_task_attempt,
  activate_goal, ready_task, start_task, start_execution, start_task_attempt, succeed_task_attempt,
  complete_task, succeed_execution, call, run, new_session,
}
use nebula_os.Service.Rules.{
  IsDone, NoneOpen, Succeeded, satisfy_goal-IsDone, succeed_execution-IsDone,
  complete_task-Succeeded,
}
use nebula_os.Service.Tests.{label, ports}

-- A workspace, an active goal, a task, a running execution, and an attempt that has succeeded.
abbrev work : List Call
work =
    create_workspace "acme"
    ∷ create_goal (record {
      workspace_id = label 0;
      objective = "Write";
      acceptance_criteria = "grounded" ∷ [];
      constraints = [];
    })
    ∷ activate_goal (label 2) 1
    ∷ create_task (record {
      workspace_id = label 0;
      goal_id = label 2;
      title = "Research";
      acceptance_criteria = "sources" ∷ [];
    })
    ∷ ready_task (label 6) 1
    ∷ start_task (label 6) 2
    ∷ create_execution (record {
      workspace_id = label 0;
      goal_id = label 2;
      initiated_by = "operator";
      max_task_attempts = 2;
      retry_of = none;
    })
    ∷ start_execution (label 12) 1
    ∷ create_task_attempt
        (record { workspace_id = label 0; task_id = label 6; execution_id = label 12 })
    ∷ start_task_attempt (label 16) 1
    ∷ succeed_task_attempt (label 16) 2
    ∷ []

worked : Session
worked = run ports work (new_session ports)

completed : Session
completed = run ports (work ++ complete_task (label 6) (label 16) 3 ∷ []) (new_session ports)

succeeded : Session
succeeded =
    run ports (work ++ complete_task (label 6) (label 16) 3 ∷ succeed_execution (label 12) 2 ∷ [])
      (new_session ports)

-- What the calls compute through.
steps : Unit {0}
unfolding run call Create.create_workspace Create.create_goal Create.create_task
    Create.create_execution Create.create_task_attempt Changes.activate_goal Changes.ready_task
    Changes.start_task Changes.start_execution transaction values lookup insert ◌>>=◌ change
    add_entity audit_event expect_version save_result read_clock draw write strip
    clean_required_text clean_optional_texts clean_required_texts require_utc require_monotonic_time
    check_event check_transition Workspace.create Workspace.check Goal.create Goal.check
    Goal.activate Task.create Task.check Task.mark_ready Task.start Execution.create Execution.check
    Execution.execution_bounds Execution.start TaskAttempt.create TaskAttempt.check check_retry add
    save check_save check_versions check_step mismatched append_event append_transition
    audit_matches validate_event validate_transition workspace_references goal_references
    task_references execution_references attempt_references attempt_parents sort_by_ordinal
    TaskAttempt.start TaskAttempt.succeed Task.complete Execution.succeed Goal.satisfy
    Changes.start_task_attempt Changes.succeed_task_attempt Changes.complete_task
    Changes.succeed_execution Changes.satisfy_goal satisfaction_guard completion_guard success_guard
    worked completed succeeded
steps = tt

abbrev time : ℕ → DateTime
time n = record { instant = n; zone = ahead 0 }

abbrev done_task : Task
done_task = record {
  id = label 6;
  workspace_id = label 0;
  goal_id = label 2;
  title = "Research";
  acceptance_criteria = "sources" ∷ [];
  status = Task.completed;
  version = 4;
  created_at = time 6;
  updated_at = time 22;
}

abbrev done_execution : Execution
done_execution = record {
  id = label 12;
  workspace_id = label 0;
  goal_id = label 2;
  initiated_by = "operator";
  bounds = record { max_task_attempts = 2 };
  retry_of = none;
  status = Execution.succeeded;
  version = 3;
  created_at = time 12;
  updated_at = time 24;
  started_at = some (time 14);
  ended_at = some (time 24);
  failure_reason = none;
}

abbrev done_goal : Goal
done_goal = record {
  id = label 2;
  workspace_id = label 0;
  objective = "Write";
  constraints = [];
  acceptance_criteria = "grounded" ∷ [];
  status = Goal.satisfied;
  version = 3;
  created_at = time 2;
  updated_at = time 26;
}

task_returns : (Changes.complete_task ports (label 6) (label 16) 3 worked).0 ≡ ok done_task
unfolding steps
task_returns = refl

execution_returns : (Changes.succeed_execution ports (label 12) 2 completed).0 ≡ ok done_execution
unfolding steps
execution_returns = refl

goal_returns : (Changes.satisfy_goal ports (label 2) 2 succeeded).0 ≡ ok done_goal
unfolding steps
goal_returns = refl

-- With the task in progress, neither the execution nor the goal may be completed.
early_refused :
    (Changes.satisfy_goal ports (label 2) 2 worked).0
    ≡ err (invariant_violation "goal_satisfaction_requires_all_tasks_completed")
unfolding steps
early_refused = refl

complete_task-Succeeded_example :
    (t : Task) × (task_of worked.store (label 6) ≡ ok t)
    × (t.version ≡ 3)
    × ((a : TaskAttempt) × (attempt_of worked.store (label 16) ≡ ok a) × Succeeded t a)
    × (done_task.status ≡ Task.completed)
    × (done_task.version ≡ t.version + 1)
complete_task-Succeeded_example =
    complete_task-Succeeded ports worked (label 6) (label 16) 3 done_task task_returns

succeed_execution-IsDone_example :
    (x : Execution) × (execution_of completed.store (label 12) ≡ ok x)
    × (x.version ≡ 2)
    × IsDone completed.store x.goal_id
    × NoneOpen completed.store x.id
    × (done_execution.status ≡ Execution.succeeded)
    × (done_execution.version ≡ x.version + 1)
succeed_execution-IsDone_example =
    succeed_execution-IsDone ports completed (label 12) 2 done_execution execution_returns

satisfy_goal-IsDone_example :
    (g : Goal) × (goal_of succeeded.store (label 2) ≡ ok g)
    × (g.version ≡ 2)
    × IsDone succeeded.store g.id
    × (done_goal.status ≡ Goal.satisfied)
    × (done_goal.version ≡ g.version + 1)
satisfy_goal-IsDone_example = satisfy_goal-IsDone ports succeeded (label 2) 2 done_goal goal_returns

abbrev active_goal : Goal
active_goal = record done_goal { status = Goal.active; version = 2; updated_at = time 4 }

goal_found : goal_of succeeded.store (label 2) ≡ ok active_goal
unfolding steps
goal_found = refl

-- A caller who has seen the goal as it was created.
failure-IsStale_example :
    failure ports (satisfy_goal (label 2) 1) succeeded
    ≡ (some (version_conflict "Goal" (label 2) 1 2), succeeded)
unfolding IsStale
failure-IsStale_example =
    failure-IsStale ports (satisfy_goal (label 2) 1) succeeded
      (version_conflict "Goal" (label 2) 1 2)
      (active_goal, goal_found, (λ h. absurd (ground arith)), refl)
