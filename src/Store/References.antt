-- ===== src/Store/References.antt =====
-- Referential integrity of the in-memory store (agent_company_os/adapters/in_memory.py, `_references`):
-- every entity lies under its own identifier, and its parents are there, in the same workspace.
pub mod Checked
pub mod Kept
use nebula_os.Prelude.{String, ◌≡◌, refl, true, lookup, some, arith, eq_iff}
use nebula_os.Domain.Workspace.{Workspace}
use nebula_os.Domain.Goal.{Goal}
use nebula_os.Domain.Task.{Task}
use nebula_os.Domain.Execution.{Execution}
use nebula_os.Store.Ops.{Store}
use nebula_os.Store.Steps.{
  Sort, of_workspace, of_goal, of_task, of_attempt, of_execution, Entity, kind, table,
}

-- The goal of a task or an execution is there, in the same workspace.
pub record ServesGoal (s : Store) (goal_id workspace_id : String) : Type 0 where
  pub goal : Goal
  pub stored : lookup goal_id s.tables.goals ≡ some goal
  pub together : goal.workspace_id ≡ workspace_id

-- The task and the execution of an attempt are there, in the same workspace and for the same goal.
pub record Attempts (s : Store) (task_id execution_id workspace_id : String) : Type 0 where
  pub task : Task
  pub execution : Execution
  pub stored_task : lookup task_id s.tables.tasks ≡ some task
  pub stored_execution : lookup execution_id s.tables.executions ≡ some execution
  pub task_together : task.workspace_id ≡ workspace_id
  pub execution_together : execution.workspace_id ≡ workspace_id
  pub one_goal : task.goal_id ≡ execution.goal_id

abbrev pub IsOwned : Store → (workspace_id : String) → Type 0
IsOwned s workspace_id = (w : Workspace) × (lookup workspace_id s.tables.workspaces ≡ some w)

-- The parents of an entity are there.
abbrev pub HasParents : (a : Sort) → Store → Entity a → Type 0
HasParents of_workspace s w = Unit
HasParents of_goal s g = IsOwned s g.workspace_id
HasParents of_task s x = IsOwned s x.workspace_id × ServesGoal s x.goal_id x.workspace_id
HasParents of_attempt s a =
    IsOwned s a.workspace_id × Attempts s a.task_id a.execution_id a.workspace_id
HasParents of_execution s x = IsOwned s x.workspace_id × ServesGoal s x.goal_id x.workspace_id

-- The fields that make a later version of an entity serve wherever the earlier one did.
abbrev pub Serves : (a : Sort) → Entity a → Entity a → Type 0
Serves of_workspace v w = Unit
Serves of_goal g h = h.workspace_id ≡ g.workspace_id
Serves of_task x y = (y.workspace_id ≡ x.workspace_id) × (y.goal_id ≡ x.goal_id)
Serves of_attempt a b = Unit
Serves of_execution x y = (y.workspace_id ≡ x.workspace_id) × (y.goal_id ≡ x.goal_id)

pub Serves-refl : (a : Sort) (e : Entity a) → Serves a e e
Serves-refl of_workspace e = tt
Serves-refl of_goal e = refl
Serves-refl of_task e = (refl, refl)
Serves-refl of_attempt e = tt
Serves-refl of_execution e = (refl, refl)

pub Serves-same_definition :
    (a : Sort) (e f : Entity a) → (kind a).same_definition e f ≡ true → Serves a e f
Serves-same_definition of_workspace e f h = tt
Serves-same_definition of_goal e f h = ground (arith, eq_iff e.workspace_id f.workspace_id)
Serves-same_definition of_task e f h =
    ground (arith, eq_iff e.workspace_id f.workspace_id, eq_iff e.goal_id f.goal_id)
Serves-same_definition of_attempt e f h = tt
Serves-same_definition of_execution e f h =
    ground (arith, eq_iff e.workspace_id f.workspace_id, eq_iff e.goal_id f.goal_id)

-- What was stored is still stored, in a version that serves as well.
abbrev pub Extends : Store → Store → Type 0
Extends s s' =
    (a : Sort) (id : String) (e : Entity a)
    → lookup id (table a s) ≡ some e
    → (f : Entity a) × (lookup id (table a s') ≡ some f) × Serves a e f
