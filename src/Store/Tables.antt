-- ===== src/Store/Tables.antt =====
-- The dictionaries of `InMemoryDomainStore` (agent_company_os/adapters/in_memory.py), the queries
-- over them, and the checks of `_references` for each entity.
use nebula_os.Prelude.{
  ◌+◌, String, Bool, true, false, ◌||◌, Option, none, some, List, [], ◌∷◌, Dict, lookup, values,
  leb, ◌==◌, str_eq, any, keep, length, last?, if◌then◌else◌,
}
use nebula_os.Domain.Errors.{
  Result, ok, err, entity_not_found, workspace_mismatch, invariant_violation, raise_if, ◌>>=◌, ◌>>◌,
}
use nebula_os.Domain.Workspace.{Workspace}
use nebula_os.Domain.Goal.{Goal}
use nebula_os.Domain.Task.{Task}
use nebula_os.Domain.TaskAttempt
use nebula_os.Domain.TaskAttempt.{TaskAttempt}
use nebula_os.Domain.Execution.{Execution}

pub record Tables : Type 0 where
  pub workspaces : Dict Workspace
  pub goals : Dict Goal
  pub tasks : Dict Task
  pub attempts : Dict TaskAttempt
  pub executions : Dict Execution

-- What `_get` does with the result of the look-up.
abbrev pub found {ℓ} : {E : Type ℓ} → (entity_type id : String) → Option E → Result E
found entity_type id none = err (entity_not_found entity_type id)
found entity_type id (some e) = ok e

abbrev pub get_workspace : Tables → String → Result Workspace
get_workspace t id = found "Workspace" id (lookup id t.workspaces)

abbrev pub get_goal : Tables → String → Result Goal
get_goal t id = found "Goal" id (lookup id t.goals)

abbrev pub get_task : Tables → String → Result Task
get_task t id = found "Task" id (lookup id t.tasks)

abbrev pub get_task_attempt : Tables → String → Result TaskAttempt
get_task_attempt t id = found "TaskAttempt" id (lookup id t.attempts)

abbrev pub get_execution : Tables → String → Result Execution
get_execution t id = found "Execution" id (lookup id t.executions)

abbrev pub tasks_for_goal : Tables → String → List Task
tasks_for_goal t goal_id = keep (λ x. str_eq x.goal_id goal_id) (values t.tasks)

-- One step of the stable sort by `ordinal`.
unfoldable pub insert_by_ordinal : TaskAttempt → List TaskAttempt → List TaskAttempt
insert_by_ordinal a [] = a ∷ []
insert_by_ordinal a (b ∷ bs) =
    let later = insert_by_ordinal a bs in if leb a.ordinal b.ordinal then a ∷ b ∷ bs else b ∷ later

-- `sorted(attempts, key=lambda item: item.ordinal)`
unfoldable pub sort_by_ordinal : List TaskAttempt → List TaskAttempt
unfolding insert_by_ordinal
sort_by_ordinal [] = []
sort_by_ordinal (a ∷ as') = insert_by_ordinal a (sort_by_ordinal as')

abbrev pub of_task : String → TaskAttempt → Bool
of_task task_id a = str_eq a.task_id task_id

abbrev pub of_execution : String → TaskAttempt → Bool
of_execution execution_id a = str_eq a.execution_id execution_id

abbrev pub attempts_for_task : Tables → String → List TaskAttempt
attempts_for_task t task_id = sort_by_ordinal (keep (of_task task_id) (values t.attempts))

abbrev pub attempts_for_execution : Tables → String → List TaskAttempt
attempts_for_execution t execution_id = keep (of_execution execution_id) (values t.attempts)

-- `attempt.status not in TaskAttempt.terminal_statuses()`
abbrev pub is_open : TaskAttempt → Bool
is_open a = if TaskAttempt.is_terminal a.status then false else true

-- `existing[-1].id if existing else None`
abbrev pub last_id : List TaskAttempt → Option String
last_id as' = elim (last? as') [ none ↦ none | some a ↦ some a.id ]

-- Equality of `None` or an identifier.
abbrev pub same_id? : Option String → Option String → Bool
same_id? none none = true
same_id? none (some b) = false
same_id? (some a) none = false
same_id? (some a) (some b) = str_eq a b

abbrev pub same_workspace : (relationship expected actual : String) → Result (Unit {0})
same_workspace relationship expected actual =
    raise_if (if str_eq expected actual then false else true)
      (workspace_mismatch relationship expected actual)

-- `_references`, by the class of the entity.
unfoldable pub workspace_references : Tables → Workspace → Result (Unit {0})
workspace_references t w = ok tt

unfoldable pub goal_references : Tables → Goal → Result (Unit {0})
goal_references t g = do owner ← get_workspace t g.workspace_id; ok tt

unfoldable pub task_references : Tables → Task → Result (Unit {0})
task_references t x = do
  owner ← get_workspace t x.workspace_id
  goal ← get_goal t x.goal_id
  same_workspace "parent" x.workspace_id goal.workspace_id

unfoldable pub execution_references : Tables → Execution → Result (Unit {0})
execution_references t x = do
  owner ← get_workspace t x.workspace_id
  goal ← get_goal t x.goal_id
  same_workspace "parent" x.workspace_id goal.workspace_id

-- The checks of an attempt against its task and its execution.
unfoldable pub attempt_parents : Tables → TaskAttempt → Task → Execution → Result (Unit {0})
attempt_parents t a task execution = do
  raise_if (if str_eq task.goal_id execution.goal_id then false else true)
      (invariant_violation "attempt_parents_share_goal")
  let existing = attempts_for_task t task.id
  raise_if (any is_open existing) (invariant_violation "one_non_terminal_attempt_per_task")
  raise_if
      ((if a.ordinal == length existing + 1 then false else true)
        || (if same_id? a.previous_attempt_id (last_id existing) then false else true))
      (invariant_violation "attempt_lineage")
  raise_if (leb execution.bounds.max_task_attempts (length (attempts_for_execution t execution.id)))
      (invariant_violation "execution_task_attempt_bound")
  same_workspace "parent" a.workspace_id task.workspace_id
  same_workspace "parent" a.workspace_id execution.workspace_id

unfoldable pub attempt_references : Tables → TaskAttempt → Result (Unit {0})
attempt_references t a = do
  owner ← get_workspace t a.workspace_id
  task ← get_task t a.task_id
  execution ← get_execution t a.execution_id
  attempt_parents t a task execution
