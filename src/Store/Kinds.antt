-- ===== src/Store/Kinds.antt =====
-- What `_add` and `_save` of agent_company_os/adapters/in_memory.py read of an entity, by its class.
use nebula_os.Prelude.{String, Bool, true, false, ◌&&◌, Dict, ◌==◌, str_eq, texts_eq}
use nebula_os.Domain.Errors.{Result}
use nebula_os.Domain.Validation.{DateTime, Version, same_time}
use nebula_os.Domain.Workspace.{Workspace}
use nebula_os.Domain.Goal
use nebula_os.Domain.Goal.{Goal}
use nebula_os.Domain.Task
use nebula_os.Domain.Task.{Task}
use nebula_os.Domain.TaskAttempt
use nebula_os.Domain.TaskAttempt.{TaskAttempt}
use nebula_os.Domain.Execution
use nebula_os.Domain.Execution.{Execution}
use nebula_os.Store.Tables.{
  Tables, same_id?, workspace_references, goal_references, task_references, execution_references,
  attempt_references,
}

pub record Kind (E : Type 0) : Type 0 where
  pub entity_type : String
  -- `_subject_type(entity)`
  pub subject_type : String
  -- `isinstance(entity, Workspace)`
  pub is_workspace : Bool
  pub id : E → String
  -- `_workspace(entity)`
  pub workspace : E → String
  pub version : E → Version
  pub status_value : E → String
  pub updated_at : E → DateTime
  -- The target's status is among those that `_ALLOWED` gives for the source's.
  pub legal : (source target : E) → Bool
  -- The fields outside `mutable` are equal.
  pub same_definition : E → E → Bool
  pub references : Tables → E → Result (Unit {0})
  -- The dictionary that the entity lives in.
  pub table : Tables → Dict E
  pub with_table : Tables → Dict E → Tables

-- No workspace is ever saved, and its class has no `_ALLOWED`.
abbrev pub workspace_kind : Kind Workspace
workspace_kind = record {
  entity_type = "Workspace";
  subject_type = "workspace";
  is_workspace = true;
  id = λ w. w.id;
  workspace = λ w. w.id;
  version = λ w. w.version;
  status_value = λ w. "active";
  updated_at = λ w. w.updated_at;
  legal = λ a b. false;
  same_definition =
      λ a b. str_eq a.id b.id && str_eq a.name b.name && same_time a.created_at b.created_at;
  references = workspace_references;
  table = λ t. t.workspaces;
  with_table = λ t d. record t { workspaces = d };
}

abbrev pub goal_kind : Kind Goal
goal_kind = record {
  entity_type = "Goal";
  subject_type = "goal";
  is_workspace = false;
  id = λ g. g.id;
  workspace = λ g. g.workspace_id;
  version = λ g. g.version;
  status_value = λ g. Goal.status_value g.status;
  updated_at = λ g. g.updated_at;
  legal = λ a b. Goal.allowed a.status b.status;
  same_definition = λ a b.
      str_eq a.id b.id
      && str_eq a.workspace_id b.workspace_id
      && str_eq a.objective b.objective
      && texts_eq a.constraints b.constraints
      && texts_eq a.acceptance_criteria b.acceptance_criteria
      && same_time a.created_at b.created_at;
  references = goal_references;
  table = λ t. t.goals;
  with_table = λ t d. record t { goals = d };
}

abbrev pub task_kind : Kind Task
task_kind = record {
  entity_type = "Task";
  subject_type = "task";
  is_workspace = false;
  id = λ x. x.id;
  workspace = λ x. x.workspace_id;
  version = λ x. x.version;
  status_value = λ x. Task.status_value x.status;
  updated_at = λ x. x.updated_at;
  legal = λ a b. Task.allowed a.status b.status;
  same_definition = λ a b.
      str_eq a.id b.id
      && str_eq a.workspace_id b.workspace_id
      && str_eq a.goal_id b.goal_id
      && str_eq a.title b.title
      && texts_eq a.acceptance_criteria b.acceptance_criteria
      && same_time a.created_at b.created_at;
  references = task_references;
  table = λ t. t.tasks;
  with_table = λ t d. record t { tasks = d };
}

abbrev pub attempt_kind : Kind TaskAttempt
attempt_kind = record {
  entity_type = "TaskAttempt";
  subject_type = "task_attempt";
  is_workspace = false;
  id = λ a. a.id;
  workspace = λ a. a.workspace_id;
  version = λ a. a.version;
  status_value = λ a. TaskAttempt.status_value a.status;
  updated_at = λ a. a.updated_at;
  legal = λ a b. TaskAttempt.allowed a.status b.status;
  same_definition = λ a b.
      str_eq a.id b.id
      && str_eq a.workspace_id b.workspace_id
      && str_eq a.task_id b.task_id
      && str_eq a.execution_id b.execution_id
      && (a.ordinal == b.ordinal)
      && same_id? a.previous_attempt_id b.previous_attempt_id
      && same_time a.created_at b.created_at;
  references = attempt_references;
  table = λ t. t.attempts;
  with_table = λ t d. record t { attempts = d };
}

abbrev pub execution_kind : Kind Execution
execution_kind = record {
  entity_type = "Execution";
  subject_type = "execution";
  is_workspace = false;
  id = λ x. x.id;
  workspace = λ x. x.workspace_id;
  version = λ x. x.version;
  status_value = λ x. Execution.status_value x.status;
  updated_at = λ x. x.updated_at;
  legal = λ a b. Execution.allowed a.status b.status;
  same_definition = λ a b.
      str_eq a.id b.id
      && str_eq a.workspace_id b.workspace_id
      && str_eq a.goal_id b.goal_id
      && str_eq a.initiated_by b.initiated_by
      && (a.bounds.max_task_attempts == b.bounds.max_task_attempts)
      && same_id? a.retry_of b.retry_of
      && same_time a.created_at b.created_at;
  references = execution_references;
  table = λ t. t.executions;
  with_table = λ t d. record t { executions = d };
}
