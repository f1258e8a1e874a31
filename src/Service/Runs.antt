-- ===== src/Service/Runs.antt =====
-- Every sequence of commands of `DomainService` (agent_company_os/application/service.py), refused ones
-- included, keeps the invariants of the store.
use nebula_os.Prelude.{
  String, ◌≡◌, refl, Bool, true, false, inl, inr, Bool-cases, List, [], ◌∷◌, subst, sym,
}
use nebula_os.Domain.Errors.{is_ok}
use nebula_os.Domain.Validation.{Version}
use nebula_os.Store.Ops.{empty_store}
use nebula_os.Store.Steps.{Write, Reachable, start, step}
use nebula_os.Store.Audit.{IsAudited, Reachable-IsAudited}
use nebula_os.Store.References.Kept.{IsConnected, Reachable-IsConnected}
use nebula_os.Store.Limits.{IsLimited}
use nebula_os.Store.Attempts.{Reachable-IsLimited}
use nebula_os.Service.Session.{Ports, Session, Command}
use nebula_os.Service.Create
use nebula_os.Service.Create.{
  CreateGoalCommand, CreateTaskCommand, CreateExecutionCommand, CreateTaskAttemptCommand,
}
use nebula_os.Service.Changes
use nebula_os.Service.Effects.{Commits}
use nebula_os.Service.Atomic

-- A call of a command, with its arguments.
pub data Call : Type 0 where
  create_workspace : (name : String) → Call
  create_goal : CreateGoalCommand → Call
  create_task : CreateTaskCommand → Call
  create_execution : CreateExecutionCommand → Call
  create_task_attempt : CreateTaskAttemptCommand → Call
  complete_task : (task_id attempt_id : String) → Version → Call
  fail_execution fail_task_attempt : (id : String) → Version → (reason : String) → Call
  activate_goal satisfy_goal close_goal_unsatisfied cancel_goal ready_task start_task fail_task
        cancel_task start_execution wait_execution resume_execution succeed_execution
        cancel_execution start_task_attempt succeed_task_attempt cancel_task_attempt :
      (id : String) → Version → Call

-- The store that the call leaves, the time and the identifiers that it used up, and whether it returned.
outcome : {A : Type 0} → Command A → Session → Bool × Session
outcome m s = (is_ok (m s).0, (m s).1)

module _ (p : Ports) where
  unfoldable pub call : Call → Session → Bool × Session
  unfolding outcome
  call (create_workspace name) = outcome (Create.create_workspace p name)
  call (create_goal c) = outcome (Create.create_goal p c)
  call (create_task c) = outcome (Create.create_task p c)
  call (create_execution c) = outcome (Create.create_execution p c)
  call (create_task_attempt c) = outcome (Create.create_task_attempt p c)
  call (complete_task id attempt_id v) = outcome (Changes.complete_task p id attempt_id v)
  call (fail_execution id v reason) = outcome (Changes.fail_execution p id v reason)
  call (fail_task_attempt id v reason) = outcome (Changes.fail_task_attempt p id v reason)
  call (activate_goal id v) = outcome (Changes.activate_goal p id v)
  call (satisfy_goal id v) = outcome (Changes.satisfy_goal p id v)
  call (close_goal_unsatisfied id v) = outcome (Changes.close_goal_unsatisfied p id v)
  call (cancel_goal id v) = outcome (Changes.cancel_goal p id v)
  call (ready_task id v) = outcome (Changes.ready_task p id v)
  call (start_task id v) = outcome (Changes.start_task p id v)
  call (fail_task id v) = outcome (Changes.fail_task p id v)
  call (cancel_task id v) = outcome (Changes.cancel_task p id v)
  call (start_execution id v) = outcome (Changes.start_execution p id v)
  call (wait_execution id v) = outcome (Changes.wait_execution p id v)
  call (resume_execution id v) = outcome (Changes.resume_execution p id v)
  call (succeed_execution id v) = outcome (Changes.succeed_execution p id v)
  call (cancel_execution id v) = outcome (Changes.cancel_execution p id v)
  call (start_task_attempt id v) = outcome (Changes.start_task_attempt p id v)
  call (succeed_task_attempt id v) = outcome (Changes.succeed_task_attempt p id v)
  call (cancel_task_attempt id v) = outcome (Changes.cancel_task_attempt p id v)

  -- A call returns and has made one write, or raises and has left the store as it was.
  pub record IsAtomic (c : Call) : Type 0 where
    pub returns : (s : Session) → (call c s).0 ≡ true → Write s.store (call c s).1.store
    pub raises : (s : Session) → (call c s).0 ≡ false → (call c s).1.store ≡ s.store

  commits :
      {A : Type 0} (m : Command A) (c : Call)
      → ((s : Session) → call c s ≡ outcome m s)
      → Commits m
      → IsAtomic c
  unfolding outcome
  commits m c e k = record {
    returns = λ s. subst (λ o. o.0 ≡ true → Write s.store o.1.store) (sym (e s)) (k.returns s);
    raises = λ s. subst (λ o. o.0 ≡ false → o.1.store ≡ s.store) (sym (e s)) (k.raises s);
  }

  -- Every call is all or nothing.
  pub call-IsAtomic : (c : Call) → IsAtomic c
  unfolding call
  call-IsAtomic (create_workspace name) =
      commits _ _ (λ s. refl) (Atomic.create_workspace-Commits p name)
  call-IsAtomic (create_goal c) = commits _ _ (λ s. refl) (Atomic.create_goal-Commits p c)
  call-IsAtomic (create_task c) = commits _ _ (λ s. refl) (Atomic.create_task-Commits p c)
  call-IsAtomic (create_execution c) = commits _ _ (λ s. refl) (Atomic.create_execution-Commits p c)
  call-IsAtomic (create_task_attempt c) =
      commits _ _ (λ s. refl) (Atomic.create_task_attempt-Commits p c)
  call-IsAtomic (complete_task id attempt_id v) =
      commits _ _ (λ s. refl) (Atomic.complete_task-Commits p id attempt_id v)
  call-IsAtomic (fail_execution id v reason) =
      commits _ _ (λ s. refl) (Atomic.fail_execution-Commits p id v reason)
  call-IsAtomic (fail_task_attempt id v reason) =
      commits _ _ (λ s. refl) (Atomic.fail_task_attempt-Commits p id v reason)
  call-IsAtomic (activate_goal id v) = commits _ _ (λ s. refl) (Atomic.activate_goal-Commits p id v)
  call-IsAtomic (satisfy_goal id v) = commits _ _ (λ s. refl) (Atomic.satisfy_goal-Commits p id v)
  call-IsAtomic (close_goal_unsatisfied id v) =
      commits _ _ (λ s. refl) (Atomic.close_goal_unsatisfied-Commits p id v)
  call-IsAtomic (cancel_goal id v) = commits _ _ (λ s. refl) (Atomic.cancel_goal-Commits p id v)
  call-IsAtomic (ready_task id v) = commits _ _ (λ s. refl) (Atomic.ready_task-Commits p id v)
  call-IsAtomic (start_task id v) = commits _ _ (λ s. refl) (Atomic.start_task-Commits p id v)
  call-IsAtomic (fail_task id v) = commits _ _ (λ s. refl) (Atomic.fail_task-Commits p id v)
  call-IsAtomic (cancel_task id v) = commits _ _ (λ s. refl) (Atomic.cancel_task-Commits p id v)
  call-IsAtomic (start_execution id v) =
      commits _ _ (λ s. refl) (Atomic.start_execution-Commits p id v)
  call-IsAtomic (wait_execution id v) =
      commits _ _ (λ s. refl) (Atomic.wait_execution-Commits p id v)
  call-IsAtomic (resume_execution id v) =
      commits _ _ (λ s. refl) (Atomic.resume_execution-Commits p id v)
  call-IsAtomic (succeed_execution id v) =
      commits _ _ (λ s. refl) (Atomic.succeed_execution-Commits p id v)
  call-IsAtomic (cancel_execution id v) =
      commits _ _ (λ s. refl) (Atomic.cancel_execution-Commits p id v)
  call-IsAtomic (start_task_attempt id v) =
      commits _ _ (λ s. refl) (Atomic.start_task_attempt-Commits p id v)
  call-IsAtomic (succeed_task_attempt id v) =
      commits _ _ (λ s. refl) (Atomic.succeed_task_attempt-Commits p id v)
  call-IsAtomic (cancel_task_attempt id v) =
      commits _ _ (λ s. refl) (Atomic.cancel_task_attempt-Commits p id v)

  -- One call after another, whether they return or raise.
  unfoldable pub run : List Call → Session → Session
  run [] s = s
  run (c ∷ cs) s = run cs (call c s).1

  call-Reachable : (c : Call) (s : Session) → Reachable s.store → Reachable (call c s).1.store
  call-Reachable c s h = elim (Bool-cases (call c s).0) [
    | inl returned ↦ step h ((call-IsAtomic c).returns s returned)
    | inr raised ↦ subst Reachable (sym ((call-IsAtomic c).raises s raised)) h
  ]

  run-Reachable : (cs : List Call) (s : Session) → Reachable s.store → Reachable (run cs s).store
  unfolding run
  run-Reachable [] s h = h
  run-Reachable (c ∷ cs) s h = run-Reachable cs (call c s).1 (call-Reachable c s h)

  -- A new service, over an empty store.
  abbrev pub new_session : Session
  new_session = record { store = empty_store; readings = 0; drawn = 0 }

  -- Whatever calls are made of a new service, its event log is complete and exact.
  pub run-IsAudited : (cs : List Call) → IsAudited (run cs new_session).store
  run-IsAudited cs = Reachable-IsAudited _ (run-Reachable cs new_session start)

  -- Whatever calls are made of a new service, the parents of every entity are stored.
  pub run-IsConnected : (cs : List Call) → IsConnected (run cs new_session).store
  run-IsConnected cs = Reachable-IsConnected _ (run-Reachable cs new_session start)

  -- Whatever calls are made of a new service, the limits on attempts hold.
  pub run-IsLimited : (cs : List Call) → IsLimited (run cs new_session).store
  run-IsLimited cs = Reachable-IsLimited _ (run-Reachable cs new_session start)
