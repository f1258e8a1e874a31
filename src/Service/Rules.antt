-- ===== src/Service/Rules.antt =====
-- The rules of `DomainService` (agent_company_os/application/service.py) on completion: what holds of the
-- store when `satisfy_goal`, `complete_task` and `succeed_execution` return.
use nebula_os.Prelude.{
  String, ◌+◌, ◌≤◌, true, false, ◌≡◌, ◌∙◌, some, List, [], ◌∷◌, All, All-lookup, keep-All, lookup,
  values, ap, any, length, str_eq, eq_iff, arith,
}
use nebula_os.Domain.Errors.{ok}
use nebula_os.Domain.Validation.{Version}
use nebula_os.Domain.Lifecycle.Goals
use nebula_os.Domain.Lifecycle.Tasks
use nebula_os.Domain.Lifecycle.Executions
use nebula_os.Domain.Events.{EventType}
use nebula_os.Domain.Goal
use nebula_os.Domain.Goal.{Goal}
use nebula_os.Domain.Task
use nebula_os.Domain.Task.{Task}
use nebula_os.Domain.TaskAttempt
use nebula_os.Domain.TaskAttempt.{TaskAttempt}
use nebula_os.Domain.Execution
use nebula_os.Domain.Execution.{Execution}
use nebula_os.Store.Tables.{tasks_for_goal, attempts_for_execution, is_open}
use nebula_os.Store.Kinds.{goal_kind, task_kind, execution_kind}
use nebula_os.Store.Ops.{Store}
use nebula_os.Service.Session.{Ports, Session, Command, query, ◌>>=◌}
use nebula_os.Service.Common.{change}
use nebula_os.Service.Guards.{
  goal_of, task_of, attempt_of, execution_of, unfinished, is_incomplete, satisfaction_guard,
  completion_guard, success_guard,
}
use nebula_os.Service.Changes.{satisfy_goal, complete_task, succeed_execution}
use nebula_os.Service.Results.{change-Performed, transaction-returned, query-returned}

-- The goal has a task, and each stored task of it is completed.
pub record IsDone (s : Store) (goal_id : String) : Type 0 where
  pub some_task : 1 ≤ length (tasks_for_goal s.tables goal_id)
  pub completed :
      (k : String) (t : Task)
      → lookup k s.tables.tasks ≡ some t
      → t.goal_id ≡ goal_id
      → t.status ≡ Task.completed

completed-status : (t : Task) → is_incomplete t ≡ false → t.status ≡ Task.completed
completed-status t h = ground arith

any-is_incomplete :
    (ts : List Task) → any is_incomplete ts ≡ false → All (λ t. t.status ≡ Task.completed) ts
any-is_incomplete [] h = tt
any-is_incomplete (t ∷ ts) h =
    (completed-status t (ground arith), any-is_incomplete ts (ground arith))

unfinished-cases :
    (ts : List Task)
    → unfinished ts ≡ false
    → (1 ≤ length ts) × All (λ t. t.status ≡ Task.completed) ts
unfinished-cases [] h = absurd (cc)
unfinished-cases (t ∷ ts) h = (omega arith, any-is_incomplete (t ∷ ts) h)

unfinished-IsDone :
    (s : Store) (goal_id : String)
    → unfinished (tasks_for_goal s.tables goal_id) ≡ false
    → IsDone s goal_id
unfinished-IsDone s goal_id h =
    let (some_task, completed) = unfinished-cases (tasks_for_goal s.tables goal_id) h in
    record {
      some_task = some_task;
      completed = λ k t found own.
          All-lookup (λ x. str_eq x.goal_id goal_id ≡ true → x.status ≡ Task.completed) k t
            s.tables.tasks
            (keep-All (λ x. x.status ≡ Task.completed) (λ x. str_eq x.goal_id goal_id)
              (values s.tables.tasks) completed)
            found ((eq_iff t.goal_id goal_id).1 own);
    }

-- No stored attempt of the execution is open.
abbrev pub NoneOpen : Store → (execution_id : String) → Type 0
NoneOpen s execution_id =
    (k : String) (a : TaskAttempt)
    → lookup k s.tables.attempts ≡ some a
    → a.execution_id ≡ execution_id
    → TaskAttempt.is_terminal a.status ≡ true

any-is_open :
    (as' : List TaskAttempt)
    → any is_open as' ≡ false
    → All (λ a. TaskAttempt.is_terminal a.status ≡ true) as'
any-is_open [] h = tt
any-is_open (a ∷ as') h = (ground arith, any-is_open as' (ground arith))

any-NoneOpen :
    (s : Store) (execution_id : String)
    → any is_open (attempts_for_execution s.tables execution_id) ≡ false
    → NoneOpen s execution_id
any-NoneOpen s execution_id h k a found own =
    All-lookup
      (λ x. str_eq x.execution_id execution_id ≡ true → TaskAttempt.is_terminal x.status ≡ true) k a
      s.tables.attempts
      (keep-All (λ x. TaskAttempt.is_terminal x.status ≡ true)
        (λ x. str_eq x.execution_id execution_id) (values s.tables.attempts)
        (any-is_open (attempts_for_execution s.tables execution_id) h))
      found ((eq_iff a.execution_id execution_id).1 own)

satisfaction_guard-IsDone : (s : Store) (g : Goal) → satisfaction_guard s g ≡ ok tt → IsDone s g.id
unfolding satisfaction_guard
satisfaction_guard-IsDone s g h = unfinished-IsDone s g.id (ground arith)

success_guard-IsDone :
    (s : Store) (x : Execution) → success_guard s x ≡ ok tt → IsDone s x.goal_id × NoneOpen s x.id
unfolding success_guard
success_guard-IsDone s x h =
    (unfinished-IsDone s x.goal_id (ground arith), any-NoneOpen s x.id (ground arith))

-- The attempt is one of the task, and has succeeded.
pub record Succeeded (t : Task) (a : TaskAttempt) : Type 0 where
  pub of_task : a.task_id ≡ t.id
  pub in_workspace : a.workspace_id ≡ t.workspace_id
  pub status : a.status ≡ TaskAttempt.succeeded

completion_guard-Succeeded :
    (a : TaskAttempt) (s : Store) (t : Task) → completion_guard a s t ≡ ok tt → Succeeded t a
unfolding completion_guard
completion_guard-Succeeded a s t h = record {
  of_task = ground (arith, eq_iff a.task_id t.id);
  in_workspace = ground (arith, eq_iff t.workspace_id a.workspace_id);
  status = ground arith;
}

module _ (p : Ports) (s : Session) where
  -- A goal is satisfied from the version that the caller has seen, when all its tasks are done.
  pub satisfy_goal-IsDone :
      (goal_id : String) (expected : Version) (g' : Goal)
      → (satisfy_goal p goal_id expected s).0 ≡ ok g'
      → (g : Goal) × (goal_of s.store goal_id ≡ ok g)
        × (g.version ≡ expected)
        × IsDone s.store g.id
        × (g'.status ≡ Goal.satisfied)
        × (g'.version ≡ g.version + 1)
  unfolding satisfy_goal Goal.satisfy
  satisfy_goal-IsDone goal_id expected g' h =
      let done =
        change-Performed p goal_kind goal_of satisfaction_guard Goal.satisfy
          (λ g. EventType.goal_satisfied) goal_id expected s g' (transaction-returned _ s g' h) in
      let moved = Goals.transition-Transitioned done.entity _ _ _ _ done.result done.done in
      let same = done.returned ∙ moved.entity in
      (
        done.entity,
        done.found,
        done.version,
        satisfaction_guard-IsDone s.store done.entity done.permitted,
        ap (λ (g : Goal). g.status) same,
        ap (λ (g : Goal). g.version) same,
      )

  -- An execution succeeds when all tasks of its goal are done and all its attempts have ended.
  pub succeed_execution-IsDone :
      (execution_id : String) (expected : Version) (x' : Execution)
      → (succeed_execution p execution_id expected s).0 ≡ ok x'
      → (x : Execution) × (execution_of s.store execution_id ≡ ok x)
        × (x.version ≡ expected)
        × IsDone s.store x.goal_id
        × NoneOpen s.store x.id
        × (x'.status ≡ Execution.succeeded)
        × (x'.version ≡ x.version + 1)
  unfolding succeed_execution Execution.succeed
  succeed_execution-IsDone execution_id expected x' h =
      let done =
        change-Performed p execution_kind execution_of success_guard Execution.succeed
          (λ x. EventType.execution_succeeded) execution_id expected s x'
          (transaction-returned _ s x' h) in
      let moved = Executions.transition-Transitioned done.entity _ _ _ _ done.result done.done in
      let same = done.returned ∙ moved.entity in
      let facts = success_guard-IsDone s.store done.entity done.permitted in
      (
        done.entity,
        done.found,
        done.version,
        facts.0,
        facts.1,
        ap (λ (x : Execution). x.status) same,
        ap (λ (x : Execution). x.version) same,
      )

  -- A task is completed by an attempt of its own that has succeeded.
  pub complete_task-Succeeded :
      (task_id attempt_id : String) (expected : Version) (t' : Task)
      → (complete_task p task_id attempt_id expected s).0 ≡ ok t'
      → (t : Task) × (task_of s.store task_id ≡ ok t)
        × (t.version ≡ expected)
        × ((a : TaskAttempt) × (attempt_of s.store attempt_id ≡ ok a) × Succeeded t a)
        × (t'.status ≡ Task.completed)
        × (t'.version ≡ t.version + 1)
  unfolding complete_task Task.complete
  complete_task-Succeeded task_id attempt_id expected t' h =
      let completion : TaskAttempt → Command Task = λ a.
        change p task_kind task_of (completion_guard a) Task.complete
          (λ t. EventType.task_completed) task_id expected in
      let (t, known, h') =
        query-returned (λ s. task_of s task_id)
          (λ t. query (λ s. attempt_of s attempt_id) >>= completion) s t'
          (transaction-returned _ s t' h) in
      let (a, attempt, h'') = query-returned (λ s. attempt_of s attempt_id) completion s t' h' in
      let done =
        change-Performed p task_kind task_of (completion_guard a) Task.complete
          (λ t. EventType.task_completed) task_id expected s t' h'' in
      let moved = Tasks.transition-Transitioned done.entity _ _ _ _ done.result done.done in
      let same = done.returned ∙ moved.entity in
      (
        done.entity,
        done.found,
        done.version,
        (a, attempt, completion_guard-Succeeded a s.store done.entity done.permitted),
        ap (λ (t : Task). t.status) same,
        ap (λ (t : Task). t.version) same,
      )
