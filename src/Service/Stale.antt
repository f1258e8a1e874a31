-- ===== src/Service/Stale.antt =====
-- Callers of `DomainService` (agent_company_os/application/service.py) that have seen another version of an
-- entity than the stored one.
use nebula_os.Prelude.{String, ◌≡◌, ◌≢◌, refl, Option, none, some, arith}
use nebula_os.Domain.Errors.{DomainError, Result, ok, err, version_conflict}
use nebula_os.Domain.Validation.{DateTime, Version}
use nebula_os.Domain.Transitions.{TransitionResult}
use nebula_os.Domain.Events.{EventType}
use nebula_os.Domain.Task
use nebula_os.Domain.TaskAttempt.{TaskAttempt}
use nebula_os.Store.Kinds.{Kind, goal_kind, task_kind, attempt_kind, execution_kind}
use nebula_os.Store.Ops.{Store}
use nebula_os.Service.Session.{Ports, Session, transaction, ◌>>=◌}
use nebula_os.Service.Common.{change}
use nebula_os.Service.Guards.{goal_of, task_of, attempt_of, execution_of, completion_guard}
use nebula_os.Service.Create
use nebula_os.Service.Changes
use nebula_os.Service.Results.{change-conflict}
use nebula_os.Service.Runs.{
  Call, create_workspace, create_goal, create_task, create_execution, create_task_attempt,
  complete_task, fail_execution, fail_task_attempt, activate_goal, satisfy_goal,
  close_goal_unsatisfied, cancel_goal, ready_task, start_task, fail_task, cancel_task,
  start_execution, wait_execution, resume_execution, succeed_execution, cancel_execution,
  start_task_attempt, succeed_task_attempt, cancel_task_attempt,
}

-- The error that a command raises, if it does, and the session that it leaves.
abbrev pub error_of : {A : Type 0} → Result A × Session → Option DomainError × Session
error_of (ok a, s) = (none, s)
error_of (err e, s) = (some e, s)

-- The entity is stored with another version than the expected one, and the error says so.
abbrev pub StaleAt :
    {E : Type 0}
    → Kind E
    → (get : Store → String → Result E) → (id : String) → (expected : Version) → Store
    → DomainError
    → Type 0
StaleAt {E} k get id expected s error =
    (x : E) × (get s id ≡ ok x)
    × (k.version x ≢ expected)
    × (error ≡ version_conflict k.entity_type (k.id x) expected (k.version x))

-- The call names such an entity. The attempt that `complete_task` looks up before it compares the
-- versions is stored.
unfoldable pub IsStale : Call → Store → DomainError → Type 0
IsStale (create_workspace name) s e = ⊥
IsStale (create_goal c) s e = ⊥
IsStale (create_task c) s e = ⊥
IsStale (create_execution c) s e = ⊥
IsStale (create_task_attempt c) s e = ⊥
IsStale (complete_task id attempt_id v) s e =
    StaleAt task_kind task_of id v s e × ((a : TaskAttempt) × (attempt_of s attempt_id ≡ ok a))
IsStale (fail_execution id v reason) s e = StaleAt execution_kind execution_of id v s e
IsStale (fail_task_attempt id v reason) s e = StaleAt attempt_kind attempt_of id v s e
IsStale (activate_goal id v) s e = StaleAt goal_kind goal_of id v s e
IsStale (satisfy_goal id v) s e = StaleAt goal_kind goal_of id v s e
IsStale (close_goal_unsatisfied id v) s e = StaleAt goal_kind goal_of id v s e
IsStale (cancel_goal id v) s e = StaleAt goal_kind goal_of id v s e
IsStale (ready_task id v) s e = StaleAt task_kind task_of id v s e
IsStale (start_task id v) s e = StaleAt task_kind task_of id v s e
IsStale (fail_task id v) s e = StaleAt task_kind task_of id v s e
IsStale (cancel_task id v) s e = StaleAt task_kind task_of id v s e
IsStale (start_execution id v) s e = StaleAt execution_kind execution_of id v s e
IsStale (wait_execution id v) s e = StaleAt execution_kind execution_of id v s e
IsStale (resume_execution id v) s e = StaleAt execution_kind execution_of id v s e
IsStale (succeed_execution id v) s e = StaleAt execution_kind execution_of id v s e
IsStale (cancel_execution id v) s e = StaleAt execution_kind execution_of id v s e
IsStale (start_task_attempt id v) s e = StaleAt attempt_kind attempt_of id v s e
IsStale (succeed_task_attempt id v) s e = StaleAt attempt_kind attempt_of id v s e
IsStale (cancel_task_attempt id v) s e = StaleAt attempt_kind attempt_of id v s e

module _ (p : Ports) where
  -- The call, with the error that it raises.
  unfoldable pub failure : Call → Session → Option DomainError × Session
  failure (create_workspace name) s = error_of (Create.create_workspace p name s)
  failure (create_goal c) s = error_of (Create.create_goal p c s)
  failure (create_task c) s = error_of (Create.create_task p c s)
  failure (create_execution c) s = error_of (Create.create_execution p c s)
  failure (create_task_attempt c) s = error_of (Create.create_task_attempt p c s)
  failure (complete_task id attempt_id v) s = error_of (Changes.complete_task p id attempt_id v s)
  failure (fail_execution id v reason) s = error_of (Changes.fail_execution p id v reason s)
  failure (fail_task_attempt id v reason) s = error_of (Changes.fail_task_attempt p id v reason s)
  failure (activate_goal id v) s = error_of (Changes.activate_goal p id v s)
  failure (satisfy_goal id v) s = error_of (Changes.satisfy_goal p id v s)
  failure (close_goal_unsatisfied id v) s = error_of (Changes.close_goal_unsatisfied p id v s)
  failure (cancel_goal id v) s = error_of (Changes.cancel_goal p id v s)
  failure (ready_task id v) s = error_of (Changes.ready_task p id v s)
  failure (start_task id v) s = error_of (Changes.start_task p id v s)
  failure (fail_task id v) s = error_of (Changes.fail_task p id v s)
  failure (cancel_task id v) s = error_of (Changes.cancel_task p id v s)
  failure (start_execution id v) s = error_of (Changes.start_execution p id v s)
  failure (wait_execution id v) s = error_of (Changes.wait_execution p id v s)
  failure (resume_execution id v) s = error_of (Changes.resume_execution p id v s)
  failure (succeed_execution id v) s = error_of (Changes.succeed_execution p id v s)
  failure (cancel_execution id v) s = error_of (Changes.cancel_execution p id v s)
  failure (start_task_attempt id v) s = error_of (Changes.start_task_attempt p id v s)
  failure (succeed_task_attempt id v) s = error_of (Changes.succeed_task_attempt p id v s)
  failure (cancel_task_attempt id v) s = error_of (Changes.cancel_task_attempt p id v s)

  refused :
      {E : Type 0} (k : Kind E) (get : Store → String → Result E)
      (guard : Store → E → Result (Unit {0}))
      (operation : E → String → DateTime → Result (TransitionResult E)) (event_type : E → EventType)
      (id : String) (expected : Version) (s : Session) (error : DomainError)
      → StaleAt k get id expected s.store error
      → error_of (transaction (change p k get guard operation event_type id expected) s)
        ≡ (some error, s)
  refused k get guard operation event_type id expected s error (x, found, differs, same) =
      let e = change-conflict p k get guard operation event_type id expected s x found differs in
      rw (e, same) refl

  -- When both are stored, `complete_task` comes to its version.
  complete_task-change :
      (id attempt_id : String) (v : Version) (s : Session) (t : Task.Task) (a : TaskAttempt)
      → task_of s.store id ≡ ok t
      → attempt_of s.store attempt_id ≡ ok a
      → Changes.complete_task p id attempt_id v s
        ≡ transaction
            (change p task_kind task_of
              (completion_guard a)
              Task.complete
              (λ x. EventType.task_completed)
              id
              v)
            s
  unfolding Changes.complete_task transaction ◌>>=◌
  complete_task-change id attempt_id v s t a found known = ground arith

  -- Whatever command moves an entity on, when the entity is stored with another version than the caller
  -- expects, and for `complete_task` the attempt it names is stored, then the command raises a version
  -- conflict with the expected and the stored version, and leaves the store, the clock and the
  -- generator of identifiers as they were.
  pub failure-IsStale :
      (c : Call) (s : Session) (error : DomainError)
      → IsStale c s.store error
      → failure c s ≡ (some error, s)
  unfolding failure IsStale Changes.fail_execution Changes.fail_task_attempt Changes.activate_goal
      Changes.satisfy_goal Changes.close_goal_unsatisfied Changes.cancel_goal Changes.ready_task
      Changes.start_task Changes.fail_task Changes.cancel_task Changes.start_execution
      Changes.wait_execution Changes.resume_execution Changes.succeed_execution
      Changes.cancel_execution Changes.start_task_attempt Changes.succeed_task_attempt
      Changes.cancel_task_attempt
  failure-IsStale (create_workspace name) s e h = absurd h
  failure-IsStale (create_goal c) s e h = absurd h
  failure-IsStale (create_task c) s e h = absurd h
  failure-IsStale (create_execution c) s e h = absurd h
  failure-IsStale (create_task_attempt c) s e h = absurd h
  failure-IsStale (complete_task id attempt_id v) s e (stale, (a, known)) =
      rw (complete_task-change id attempt_id v s stale.0 a stale.1 known) (
        refused task_kind task_of (completion_guard a) Task.complete (λ x. EventType.task_completed)
          id v s e stale)
  failure-IsStale (fail_execution id v reason) s e h =
      refused execution_kind execution_of _ _ _ id v s e h
  failure-IsStale (fail_task_attempt id v reason) s e h =
      refused attempt_kind attempt_of _ _ _ id v s e h
  failure-IsStale (activate_goal id v) s e h = refused goal_kind goal_of _ _ _ id v s e h
  failure-IsStale (satisfy_goal id v) s e h = refused goal_kind goal_of _ _ _ id v s e h
  failure-IsStale (close_goal_unsatisfied id v) s e h = refused goal_kind goal_of _ _ _ id v s e h
  failure-IsStale (cancel_goal id v) s e h = refused goal_kind goal_of _ _ _ id v s e h
  failure-IsStale (ready_task id v) s e h = refused task_kind task_of _ _ _ id v s e h
  failure-IsStale (start_task id v) s e h = refused task_kind task_of _ _ _ id v s e h
  failure-IsStale (fail_task id v) s e h = refused task_kind task_of _ _ _ id v s e h
  failure-IsStale (cancel_task id v) s e h = refused task_kind task_of _ _ _ id v s e h
  failure-IsStale (start_execution id v) s e h =
      refused execution_kind execution_of _ _ _ id v s e h
  failure-IsStale (wait_execution id v) s e h = refused execution_kind execution_of _ _ _ id v s e h
  failure-IsStale (resume_execution id v) s e h =
      refused execution_kind execution_of _ _ _ id v s e h
  failure-IsStale (succeed_execution id v) s e h =
      refused execution_kind execution_of _ _ _ id v s e h
  failure-IsStale (cancel_execution id v) s e h =
      refused execution_kind execution_of _ _ _ id v s e h
  failure-IsStale (start_task_attempt id v) s e h = refused attempt_kind attempt_of _ _ _ id v s e h
  failure-IsStale (succeed_task_attempt id v) s e h =
      refused attempt_kind attempt_of _ _ _ id v s e h
  failure-IsStale (cancel_task_attempt id v) s e h =
      refused attempt_kind attempt_of _ _ _ id v s e h
