-- ===== src/Domain/Lifecycle/Tests.antt =====
-- The lifecycles at small inputs.
use nebula_os.Prelude.{ℕ, ◌+◌, ◌≤◌, ◌≡◌, ◌↔◌, refl, true, none, some, List, [], ◌∷◌, length}
use nebula_os.Domain.Errors.{ok, is_ok}
use nebula_os.Domain.Validation.{
  DateTime, ahead, strip, clean_required_text, clean_required_texts, require_utc,
  require_monotonic_time, opaque_id,
}
use nebula_os.Domain.Goal
use nebula_os.Domain.Goal.{Goal}
use nebula_os.Domain.Task
use nebula_os.Domain.Task.{Task}
use nebula_os.Domain.TaskAttempt
use nebula_os.Domain.TaskAttempt.{TaskAttempt}
use nebula_os.Domain.Execution
use nebula_os.Domain.Execution.{Execution}
use nebula_os.Domain.Lifecycle.Defs.{Request, history, IsChain}
use nebula_os.Domain.Lifecycle.Goals
use nebula_os.Domain.Lifecycle.Tasks
use nebula_os.Domain.Lifecycle.Attempts
use nebula_os.Domain.Lifecycle.Executions

abbrev at : ℕ → DateTime
at n = record { instant = n; zone = ahead 0 }

abbrev goal : Goal
goal = record {
  id = "g";
  workspace_id = "w";
  objective = "brief";
  constraints = [];
  acceptance_criteria = "grounded" ∷ [];
  status = Goal.draft;
  version = 1;
  created_at = at 1;
  updated_at = at 1;
}

abbrev task : Task
task = record {
  id = "t";
  workspace_id = "w";
  goal_id = "g";
  title = "Research";
  acceptance_criteria = "sources" ∷ [];
  status = Task.proposed;
  version = 1;
  created_at = at 1;
  updated_at = at 1;
}

abbrev attempt : TaskAttempt
attempt = record {
  id = "a";
  workspace_id = "w";
  task_id = "t";
  execution_id = "x";
  ordinal = 1;
  previous_attempt_id = none;
  status = TaskAttempt.running;
  version = 2;
  created_at = at 1;
  updated_at = at 2;
  started_at = some (at 2);
  ended_at = none;
  failure_reason = none;
}

abbrev execution : Execution
execution = record {
  id = "x";
  workspace_id = "w";
  goal_id = "g";
  initiated_by = "operator";
  bounds = record { max_task_attempts = 2 };
  retry_of = none;
  status = Execution.running;
  version = 2;
  created_at = at 1;
  updated_at = at 2;
  started_at = some (at 2);
  ended_at = none;
  failure_reason = none;
}

abbrev task_requests : List (Request Tasks.TaskOp)
task_requests =
    record { op = Tasks.mark_ready; transition_id = "1"; at = at 2 }
    ∷ record { op = Tasks.complete; transition_id = "2"; at = at 3 }
    ∷ record { op = Tasks.start; transition_id = "3"; at = at 4 }
    ∷ []

abbrev attempt_requests : List (Request Attempts.TaskAttemptOp)
attempt_requests = record { op = Attempts.fail "no sources"; transition_id = "1"; at = at 5 } ∷ []

abbrev execution_requests : List (Request Executions.ExecutionOp)
execution_requests =
    record { op = Executions.wait; transition_id = "1"; at = at 5 }
    ∷ record { op = Executions.resume; transition_id = "2"; at = at 6 }
    ∷ []

task_accepts_example : (is_ok (Tasks.apply Tasks.mark_ready task "1" (at 2)) ≡ true) ↔ (
    (Task.allowed Task.proposed Task.ready ≡ true) × (require_monotonic_time (at 1) (at 2) ≡ ok tt))
unfolding Task.check clean_required_text strip clean_required_texts require_utc opaque_id
task_accepts_example = Tasks.task_accepts Tasks.mark_ready task "1" (at 2) refl refl

goal_accepts_example : (is_ok (Goals.apply Goals.activate goal "1" (at 2)) ≡ true) ↔ (
    (Goal.allowed Goal.draft Goal.active ≡ true) × (require_monotonic_time (at 1) (at 2) ≡ ok tt))
unfolding Goal.check clean_required_text strip clean_required_texts require_utc opaque_id
goal_accepts_example = Goals.goal_accepts Goals.activate goal "1" (at 2) refl refl

attempt_accepts_example :
    (is_ok (Attempts.apply (Attempts.fail "no sources") attempt "1" (at 5)) ≡ true) ↔ (
      (TaskAttempt.allowed TaskAttempt.running TaskAttempt.failed ≡ true)
      × (require_monotonic_time (at 2) (at 5) ≡ ok tt)
      × (is_ok (clean_required_text "no sources") ≡ true))
unfolding TaskAttempt.check require_utc opaque_id strip
attempt_accepts_example =
    Attempts.attempt_accepts (Attempts.fail "no sources") attempt "1" (at 5) refl refl

execution_accepts_example :
    (is_ok (Executions.apply Executions.wait execution "1" (at 5)) ≡ true) ↔ (
      (Execution.allowed Execution.running Execution.waiting ≡ true)
      × (require_monotonic_time (at 2) (at 5) ≡ ok tt)
      × (true ≡ true))
unfolding Execution.check clean_required_text require_utc opaque_id strip
execution_accepts_example =
    Executions.execution_accepts Executions.wait execution "1" (at 5) refl refl

task_history_example :
    IsChain "t" "proposed" 1
      (history Tasks.task_lifecycle task_requests task).1
      (Task.status_value (history Tasks.task_lifecycle task_requests task).0.status)
      (history Tasks.task_lifecycle task_requests task).0.version
    × ((history Tasks.task_lifecycle task_requests task).0.version
        ≡ 1 + length (history Tasks.task_lifecycle task_requests task).1)
    × (1 ≤ (history Tasks.task_lifecycle task_requests task).0.updated_at.instant)
task_history_example = Tasks.task_history task_requests task

attempt_history_example :
    IsChain "a" "running" 2
      (history Attempts.attempt_lifecycle attempt_requests attempt).1
      (TaskAttempt.status_value
        (history Attempts.attempt_lifecycle attempt_requests attempt).0.status)
      (history Attempts.attempt_lifecycle attempt_requests attempt).0.version
    × ((history Attempts.attempt_lifecycle attempt_requests attempt).0.version
        ≡ 2 + length (history Attempts.attempt_lifecycle attempt_requests attempt).1)
    × (2 ≤ (history Attempts.attempt_lifecycle attempt_requests attempt).0.updated_at.instant)
attempt_history_example = Attempts.attempt_history attempt_requests attempt

execution_history_example :
    IsChain "x" "running" 2
      (history Executions.execution_lifecycle execution_requests execution).1
      (Execution.status_value
        (history Executions.execution_lifecycle execution_requests execution).0.status)
      (history Executions.execution_lifecycle execution_requests execution).0.version
    × ((history Executions.execution_lifecycle execution_requests execution).0.version
        ≡ 2 + length (history Executions.execution_lifecycle execution_requests execution).1)
    × (2
        ≤ (history Executions.execution_lifecycle execution_requests
            execution).0.updated_at.instant)
execution_history_example = Executions.execution_history execution_requests execution

task_history-terminal_example :
    history Tasks.task_lifecycle task_requests (record task { status = Task.failed })
    ≡ (record task { status = Task.failed }, [])
task_history-terminal_example =
    Tasks.task_history-terminal task_requests (record task { status = Task.failed }) refl
