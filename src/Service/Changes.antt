-- ===== src/Service/Changes.antt =====
-- The commands of `DomainService` (agent_company_os/application/service.py) that move an entity on in
-- its lifecycle.
use nebula_os.Prelude.{String}
use nebula_os.Domain.Validation.{Version}
use nebula_os.Domain.Events.{EventType}
use nebula_os.Domain.Goal
use nebula_os.Domain.Goal.{Goal}
use nebula_os.Domain.Task
use nebula_os.Domain.Task.{Task}
use nebula_os.Domain.TaskAttempt
use nebula_os.Domain.TaskAttempt.{TaskAttempt}
use nebula_os.Domain.Execution
use nebula_os.Domain.Execution.{Execution}
use nebula_os.Store.Kinds.{goal_kind, task_kind, attempt_kind, execution_kind}
use nebula_os.Service.Common.{change}
use nebula_os.Service.Guards.{
  goal_of, task_of, attempt_of, execution_of, no_guard, satisfaction_guard, completion_guard,
  success_guard, ready_event,
}
use nebula_os.Service.Session.{Ports, Command, query, transaction, ◌>>=◌}

module _ (p : Ports) where
  unfoldable pub activate_goal : String → Version → Command Goal
  activate_goal goal_id expected_version = transaction (
      change p goal_kind goal_of no_guard Goal.activate (λ g. EventType.goal_activated) goal_id
        expected_version)

  unfoldable pub satisfy_goal : String → Version → Command Goal
  satisfy_goal goal_id expected_version = transaction (
      change p goal_kind goal_of satisfaction_guard Goal.satisfy (λ g. EventType.goal_satisfied)
        goal_id expected_version)

  unfoldable pub close_goal_unsatisfied : String → Version → Command Goal
  close_goal_unsatisfied goal_id expected_version = transaction (
      change p goal_kind goal_of no_guard Goal.close_unsatisfied
        (λ g. EventType.goal_closed_unsatisfied) goal_id expected_version)

  unfoldable pub cancel_goal : String → Version → Command Goal
  cancel_goal goal_id expected_version = transaction (
      change p goal_kind goal_of no_guard Goal.cancel (λ g. EventType.goal_cancelled) goal_id
        expected_version)

  unfoldable pub ready_task : String → Version → Command Task
  ready_task task_id expected_version =
      transaction
        (change p task_kind task_of no_guard Task.mark_ready ready_event task_id expected_version)

  unfoldable pub start_task : String → Version → Command Task
  start_task task_id expected_version = transaction (
      change p task_kind task_of no_guard Task.start (λ t. EventType.task_started) task_id
        expected_version)

  -- The task is looked up before the attempt, and then again, with the same result, in `change`.
  unfoldable pub complete_task : (task_id attempt_id : String) → Version → Command Task
  complete_task task_id attempt_id expected_version = transaction do
    t ← query (λ s. task_of s task_id)
    a ← query (λ s. attempt_of s attempt_id)
    change p task_kind task_of (completion_guard a) Task.complete (λ t. EventType.task_completed)
        task_id expected_version

  unfoldable pub fail_task : String → Version → Command Task
  fail_task task_id expected_version = transaction (
      change p task_kind task_of no_guard Task.fail (λ t. EventType.task_failed) task_id
        expected_version)

  unfoldable pub cancel_task : String → Version → Command Task
  cancel_task task_id expected_version = transaction (
      change p task_kind task_of no_guard Task.cancel (λ t. EventType.task_cancelled) task_id
        expected_version)

  unfoldable pub start_execution : String → Version → Command Execution
  start_execution execution_id expected_version = transaction (
      change p execution_kind execution_of no_guard Execution.start
        (λ x. EventType.execution_started) execution_id expected_version)

  unfoldable pub wait_execution : String → Version → Command Execution
  wait_execution execution_id expected_version = transaction (
      change p execution_kind execution_of no_guard Execution.wait
        (λ x. EventType.execution_waiting) execution_id expected_version)

  unfoldable pub resume_execution : String → Version → Command Execution
  resume_execution execution_id expected_version = transaction (
      change p execution_kind execution_of no_guard Execution.resume
        (λ x. EventType.execution_resumed) execution_id expected_version)

  unfoldable pub succeed_execution : String → Version → Command Execution
  succeed_execution execution_id expected_version = transaction (
      change p execution_kind execution_of success_guard Execution.succeed
        (λ x. EventType.execution_succeeded) execution_id expected_version)

  unfoldable pub cancel_execution : String → Version → Command Execution
  cancel_execution execution_id expected_version = transaction (
      change p execution_kind execution_of no_guard Execution.cancel
        (λ x. EventType.execution_cancelled) execution_id expected_version)

  unfoldable pub fail_execution : String → Version → (reason : String) → Command Execution
  fail_execution execution_id expected_version reason = transaction (
      change p execution_kind execution_of no_guard (λ x id at. Execution.fail x id at reason)
        (λ x. EventType.execution_failed) execution_id expected_version)

  unfoldable pub start_task_attempt : String → Version → Command TaskAttempt
  start_task_attempt attempt_id expected_version = transaction (
      change p attempt_kind attempt_of no_guard TaskAttempt.start
        (λ a. EventType.task_attempt_started) attempt_id expected_version)

  unfoldable pub succeed_task_attempt : String → Version → Command TaskAttempt
  succeed_task_attempt attempt_id expected_version = transaction (
      change p attempt_kind attempt_of no_guard TaskAttempt.succeed
        (λ a. EventType.task_attempt_succeeded) attempt_id expected_version)

  unfoldable pub cancel_task_attempt : String → Version → Command TaskAttempt
  cancel_task_attempt attempt_id expected_version = transaction (
      change p attempt_kind attempt_of no_guard TaskAttempt.cancel
        (λ a. EventType.task_attempt_cancelled) attempt_id expected_version)

  unfoldable pub fail_task_attempt : String → Version → (reason : String) → Command TaskAttempt
  fail_task_attempt attempt_id expected_version reason = transaction (
      change p attempt_kind attempt_of no_guard (λ a id at. TaskAttempt.fail a id at reason)
        (λ a. EventType.task_attempt_failed) attempt_id expected_version)
