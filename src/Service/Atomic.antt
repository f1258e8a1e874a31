-- ===== src/Service/Atomic.antt =====
-- Every command of `DomainService` (agent_company_os/application/service.py) is all or nothing.
use nebula_os.Prelude.{String}
use nebula_os.Domain.Errors.{Result}
use nebula_os.Domain.Validation.{DateTime, Version}
use nebula_os.Domain.Events.{EventType}
use nebula_os.Domain.Transitions.{SubjectType, TransitionResult}
use nebula_os.Store.Ops.{Store}
use nebula_os.Store.Steps.{
  Sort, Entity, kind, of_workspace, of_goal, of_task, of_attempt, of_execution,
}
use nebula_os.Service.Session.{Ports}
use nebula_os.Service.Common.{audit_event, add_entity, save_result, change}
use nebula_os.Service.Create.{
  CreateGoalCommand, CreateTaskCommand, CreateExecutionCommand, CreateTaskAttemptCommand,
  create_workspace, create_goal, create_task, create_execution, create_task_attempt,
}
use nebula_os.Service.Changes
use nebula_os.Service.Effects.{
  Reads, Writes, Commits, effect_rules, Writes-bind, Writes-add, Writes-save, Commits-transaction,
}

module _ (p : Ports) where
  Reads-audit_event :
      (w : String) (e : EventType) (t : SubjectType) (i : String) (v : Version)
      → Reads (audit_event p w e t i v)
  unfolding audit_event
  Reads-audit_event w e t i v = search effect_rules

  Writes-add_entity :
      (a : Sort) (e : Entity a) (et : EventType) (st : SubjectType)
      → Writes (add_entity p (kind a) e et st)
  unfolding add_entity
  Writes-add_entity a e et st =
      Writes-bind _ _ (Reads-audit_event _ _ _ _ _) (λ event. Writes-add a e event)

  Writes-save_result :
      (a : Sort) (r : TransitionResult (Entity a)) (v : Version) (e : EventType)
      → Writes (save_result p (kind a) r v e)
  unfolding save_result
  Writes-save_result a r v e =
      Writes-bind _ _ (Reads-audit_event _ _ _ _ _)
        (λ event. Writes-save a r.entity v r.transition event)

  Writes-change :
      (a : Sort) (get : Store → String → Result (Entity a))
      (guard : Store → Entity a → Result (Unit {0}))
      (operation : Entity a → String → DateTime → Result (TransitionResult (Entity a)))
      (event_type : Entity a → EventType) (id : String) (v : Version)
      → Writes (change p (kind a) get guard operation event_type id v)
  unfolding change
  Writes-change a get guard operation event_type id v =
      search (effect_rules, Writes-save_result) depth 12

  pub create_workspace-Commits : (name : String) → Commits (create_workspace p name)
  unfolding create_workspace
  create_workspace-Commits name =
      Commits-transaction _ (search (effect_rules, Writes-add_entity of_workspace) depth 12)

  pub create_goal-Commits : (c : CreateGoalCommand) → Commits (create_goal p c)
  unfolding create_goal
  create_goal-Commits c =
      Commits-transaction _ (search (effect_rules, Writes-add_entity of_goal) depth 30)

  pub create_task-Commits : (c : CreateTaskCommand) → Commits (create_task p c)
  unfolding create_task
  create_task-Commits c =
      Commits-transaction _ (search (effect_rules, Writes-add_entity of_task) depth 30)

  pub create_execution-Commits : (c : CreateExecutionCommand) → Commits (create_execution p c)
  unfolding create_execution
  create_execution-Commits c =
      Commits-transaction _ (search (effect_rules, Writes-add_entity of_execution) depth 30)

  pub create_task_attempt-Commits :
      (c : CreateTaskAttemptCommand) → Commits (create_task_attempt p c)
  unfolding create_task_attempt
  create_task_attempt-Commits c =
      Commits-transaction _ (search (effect_rules, Writes-add_entity of_attempt) depth 30)

  pub activate_goal-Commits : (id : String) (v : Version) → Commits (Changes.activate_goal p id v)
  unfolding Changes.activate_goal
  activate_goal-Commits id v = Commits-transaction _ (Writes-change of_goal _ _ _ _ id v)

  pub satisfy_goal-Commits : (id : String) (v : Version) → Commits (Changes.satisfy_goal p id v)
  unfolding Changes.satisfy_goal
  satisfy_goal-Commits id v = Commits-transaction _ (Writes-change of_goal _ _ _ _ id v)

  pub close_goal_unsatisfied-Commits :
      (id : String) (v : Version) → Commits (Changes.close_goal_unsatisfied p id v)
  unfolding Changes.close_goal_unsatisfied
  close_goal_unsatisfied-Commits id v = Commits-transaction _ (Writes-change of_goal _ _ _ _ id v)

  pub cancel_goal-Commits : (id : String) (v : Version) → Commits (Changes.cancel_goal p id v)
  unfolding Changes.cancel_goal
  cancel_goal-Commits id v = Commits-transaction _ (Writes-change of_goal _ _ _ _ id v)

  pub ready_task-Commits : (id : String) (v : Version) → Commits (Changes.ready_task p id v)
  unfolding Changes.ready_task
  ready_task-Commits id v = Commits-transaction _ (Writes-change of_task _ _ _ _ id v)

  pub start_task-Commits : (id : String) (v : Version) → Commits (Changes.start_task p id v)
  unfolding Changes.start_task
  start_task-Commits id v = Commits-transaction _ (Writes-change of_task _ _ _ _ id v)

  pub complete_task-Commits :
      (id attempt_id : String) (v : Version) → Commits (Changes.complete_task p id attempt_id v)
  unfolding Changes.complete_task
  complete_task-Commits id attempt_id v =
      Commits-transaction _ (search (effect_rules, Writes-change of_task) depth 12)

  pub fail_task-Commits : (id : String) (v : Version) → Commits (Changes.fail_task p id v)
  unfolding Changes.fail_task
  fail_task-Commits id v = Commits-transaction _ (Writes-change of_task _ _ _ _ id v)

  pub cancel_task-Commits : (id : String) (v : Version) → Commits (Changes.cancel_task p id v)
  unfolding Changes.cancel_task
  cancel_task-Commits id v = Commits-transaction _ (Writes-change of_task _ _ _ _ id v)

  pub start_execution-Commits :
      (id : String) (v : Version) → Commits (Changes.start_execution p id v)
  unfolding Changes.start_execution
  start_execution-Commits id v = Commits-transaction _ (Writes-change of_execution _ _ _ _ id v)

  pub wait_execution-Commits : (id : String) (v : Version) → Commits (Changes.wait_execution p id v)
  unfolding Changes.wait_execution
  wait_execution-Commits id v = Commits-transaction _ (Writes-change of_execution _ _ _ _ id v)

  pub resume_execution-Commits :
      (id : String) (v : Version) → Commits (Changes.resume_execution p id v)
  unfolding Changes.resume_execution
  resume_execution-Commits id v = Commits-transaction _ (Writes-change of_execution _ _ _ _ id v)

  pub succeed_execution-Commits :
      (id : String) (v : Version) → Commits (Changes.succeed_execution p id v)
  unfolding Changes.succeed_execution
  succeed_execution-Commits id v = Commits-transaction _ (Writes-change of_execution _ _ _ _ id v)

  pub cancel_execution-Commits :
      (id : String) (v : Version) → Commits (Changes.cancel_execution p id v)
  unfolding Changes.cancel_execution
  cancel_execution-Commits id v = Commits-transaction _ (Writes-change of_execution _ _ _ _ id v)

  pub fail_execution-Commits :
      (id : String) (v : Version) (reason : String) → Commits (Changes.fail_execution p id v reason)
  unfolding Changes.fail_execution
  fail_execution-Commits id v reason =
      Commits-transaction _ (Writes-change of_execution _ _ _ _ id v)

  pub start_task_attempt-Commits :
      (id : String) (v : Version) → Commits (Changes.start_task_attempt p id v)
  unfolding Changes.start_task_attempt
  start_task_attempt-Commits id v = Commits-transaction _ (Writes-change of_attempt _ _ _ _ id v)

  pub succeed_task_attempt-Commits :
      (id : String) (v : Version) → Commits (Changes.succeed_task_attempt p id v)
  unfolding Changes.succeed_task_attempt
  succeed_task_attempt-Commits id v = Commits-transaction _ (Writes-change of_attempt _ _ _ _ id v)

  pub cancel_task_attempt-Commits :
      (id : String) (v : Version) → Commits (Changes.cancel_task_attempt p id v)
  unfolding Changes.cancel_task_attempt
  cancel_task_attempt-Commits id v = Commits-transaction _ (Writes-change of_attempt _ _ _ _ id v)

  pub fail_task_attempt-Commits :
      (id : String) (v : Version) (reason : String)
      → Commits (Changes.fail_task_attempt p id v reason)
  unfolding Changes.fail_task_attempt
  fail_task_attempt-Commits id v reason =
      Commits-transaction _ (Writes-change of_attempt _ _ _ _ id v)
