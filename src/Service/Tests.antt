-- ===== src/Service/Tests.antt =====
-- Runs of the service on small inputs, and the theorems about it at concrete calls.
use Prim.Native.Char.{Char}
use nebula_os.Prelude.{
  ℕ, zero, suc, String, ◌≡◌, refl, none, List, [], ◌∷◌, length, values, lookup, insert,
}
use nebula_os.Domain.Validation.{
  ahead, strip, clean_required_text, clean_optional_texts, clean_required_texts, require_utc,
  require_monotonic_time,
}
use nebula_os.Domain.Events.{check_event}
use nebula_os.Domain.Transitions.{check_transition}
use nebula_os.Domain.Workspace
use nebula_os.Domain.Goal
use nebula_os.Domain.Task
use nebula_os.Domain.TaskAttempt
use nebula_os.Domain.Execution
use nebula_os.Store.Tables.{
  workspace_references, goal_references, task_references, execution_references, attempt_references,
  attempt_parents, sort_by_ordinal,
}
use nebula_os.Store.Ops.{
  add, save, check_save, check_versions, check_step, mismatched, append_event, append_transition,
  audit_matches, validate_event, validate_transition,
}
use nebula_os.Service.Common.{change, add_entity, audit_event, expect_version, save_result}
use nebula_os.Service.Retry.{check_retry}
use nebula_os.Store.Audit.{IsAudited}
use nebula_os.Store.References.Kept.{IsConnected}
use nebula_os.Store.Limits.{IsLimited}
use nebula_os.Service.Session.{Ports, transaction, ◌>>=◌, read_clock, draw, write}
use nebula_os.Service.Create
use nebula_os.Service.Changes
use nebula_os.Service.Runs.{
  Call, create_workspace, create_goal, create_task, create_execution, create_task_attempt,
  activate_goal, ready_task, start_task, start_execution, call, IsAtomic, call-IsAtomic, run,
  new_session, run-IsLimited, run-IsConnected, run-IsAudited,
}

-- A generator that draws "i", "ii", "iii" and so on, and a clock that ticks in UTC.
abbrev pub label : ℕ → String
label zero = "i"
label (suc n) = String.◌∷◌ (let c : Char = "i" in c) (label n)

abbrev pub ports : Ports
ports = record {
  now = λ n. record { instant = n; zone = ahead 0 };
  workspace_id = label;
  goal_id = label;
  task_id = label;
  task_attempt_id = label;
  execution_id = label;
  event_id = label;
  state_transition_id = label;
}

-- A workspace, an active goal, a task in progress, a running execution for two attempts, and two
-- requests for an attempt, the second of which is refused while the first is open.
abbrev calls : List Call
calls =
    create_workspace "acme"
    ∷ create_goal (record {
      workspace_id = label 0;
      objective = " Write the brief ";
      acceptance_criteria = "grounded" ∷ [];
      constraints = [];
    })
    ∷ activate_goal (label 2) 1
    ∷ create_task (record {
      workspace_id = label 0;
      goal_id = label 2;
      title = "Research";
      acceptance_criteria = "sources" ∷ [];
    })
    ∷ ready_task (label 6) 1
    ∷ start_task (label 6) 2
    ∷ create_execution (record {
      workspace_id = label 0;
      goal_id = label 2;
      initiated_by = "operator";
      max_task_attempts = 2;
      retry_of = none;
    })
    ∷ start_execution (label 12) 1
    ∷ create_task_attempt
        (record { workspace_id = label 0; task_id = label 6; execution_id = label 12 })
    ∷ create_task_attempt
        (record { workspace_id = label 0; task_id = label 6; execution_id = label 12 })
    ∷ []

-- What a run computes through.
program : Unit {0}
unfolding run call Create.create_workspace Create.create_goal Create.create_task
    Create.create_execution Create.create_task_attempt Changes.activate_goal Changes.ready_task
    Changes.start_task Changes.start_execution transaction values lookup insert ◌>>=◌ change
    add_entity audit_event expect_version save_result read_clock draw write strip
    clean_required_text clean_optional_texts clean_required_texts require_utc require_monotonic_time
    check_event check_transition Workspace.create Workspace.check Goal.create Goal.check
    Goal.activate Task.create Task.check Task.mark_ready Task.start Execution.create Execution.check
    Execution.execution_bounds Execution.start TaskAttempt.create TaskAttempt.check check_retry add
    save check_save check_versions check_step mismatched append_event append_transition
    audit_matches validate_event validate_transition workspace_references goal_references
    task_references execution_references attempt_references attempt_parents sort_by_ordinal
program = tt

-- The run above leaves one attempt.
run_attempts : length (values (run ports calls (new_session ports)).store.tables.attempts) ≡ 1
unfolding program
run_attempts = refl

run-IsLimited_example : IsLimited (run ports calls (new_session ports)).store
run-IsLimited_example = run-IsLimited ports calls

run-IsConnected_example : IsConnected (run ports calls (new_session ports)).store
run-IsConnected_example = run-IsConnected ports calls

run-IsAudited_example : IsAudited (run ports calls (new_session ports)).store
run-IsAudited_example = run-IsAudited ports calls

call-IsAtomic_example : IsAtomic ports (start_task (label 6) 2)
call-IsAtomic_example = call-IsAtomic ports (start_task (label 6) 2)
