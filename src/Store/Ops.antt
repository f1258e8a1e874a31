-- ===== src/Store/Ops.antt =====
-- `InMemoryDomainStore` of agent_company_os/adapters/in_memory.py: its state and its two writes.
-- Each write makes all its checks before it changes anything, so a refusal leaves the store as it
-- was, and is an error without a state.
use nebula_os.Prelude.{
  String, Bool, true, false, ◌||◌, Option, none, some, List, [], ◌∷◌, ◌++◌, lookup, insert, values,
  ◌==◌, str_eq, mem_text, keep, if◌then◌else◌,
}
use nebula_os.Domain.Errors.{
  Result, ok, workspace_mismatch, version_conflict, invariant_violation, raise_if, ◌>>=◌, ◌>>◌,
}
use nebula_os.Domain.Validation.{Version, initial, next, same_time}
use nebula_os.Domain.Transitions.{StateTransition, subject_value}
use nebula_os.Domain.Events.{Event}
use nebula_os.Domain.Workspace.{Workspace}
use nebula_os.Domain.Goal.{Goal}
use nebula_os.Domain.Task.{Task}
use nebula_os.Domain.TaskAttempt.{TaskAttempt}
use nebula_os.Domain.Execution.{Execution}
use nebula_os.Store.Tables.{Tables, found, get_workspace}
use nebula_os.Store.Kinds.{Kind, workspace_kind, goal_kind, task_kind, attempt_kind, execution_kind}

-- The lists of audit records, and the sets of the identifiers in use.
pub record AuditLog : Type 0 where
  pub events : List Event
  pub event_ids : List String
  pub transitions : List StateTransition
  pub transition_ids : List String

pub record Store : Type 0 where
  pub tables : Tables
  pub log : AuditLog

-- `InMemoryDomainStore()`
abbrev pub empty_store : Store
empty_store = record {
  tables = record { workspaces = []; goals = []; tasks = []; attempts = []; executions = [] };
  log = record { events = []; event_ids = []; transitions = []; transition_ids = [] };
}

unfoldable pub append_event : Event → AuditLog → AuditLog
append_event e l = record l { events = l.events ++ e ∷ []; event_ids = e.id ∷ l.event_ids }

unfoldable pub append_transition : StateTransition → AuditLog → AuditLog
append_transition t l = record l {
  transitions = l.transitions ++ t ∷ [];
  transition_ids = t.id ∷ l.transition_ids;
}

unfoldable pub validate_event : Event → AuditLog → Result (Unit {0})
validate_event e l = raise_if (mem_text e.id l.event_ids) (invariant_violation "event_id_unique")

unfoldable pub validate_transition : StateTransition → AuditLog → Result (Unit {0})
validate_transition t l =
    raise_if (mem_text t.id l.transition_ids) (invariant_violation "state_transition_id_unique")

-- `a != b`
abbrev pub differs : String → String → Bool
differs a b = if str_eq a b then false else true

abbrev pub differs_version : Version → Version → Bool
differs_version a b = if a == b then false else true

module _ {E : Type 0} (k : Kind E) where
  unfoldable pub audit_matches : E → Event → Result (Unit {0})
  audit_matches e event = do
    raise_if (differs (k.workspace e) event.workspace_id)
        (workspace_mismatch "Event.subject" (k.workspace e) event.workspace_id)
    raise_if
        (differs event.subject_id (k.id e)
          || differs_version event.entity_version (k.version e)
          || differs (subject_value event.subject_type) k.subject_type)
        (invariant_violation "event_matches_entity")

  abbrev pub is_present : Option E → Bool
  is_present none = false
  is_present (some e) = true

  -- `_add`
  unfoldable pub add : E → Event → Store → Result Store
  unfolding validate_event audit_matches append_event
  add e event s = do
    raise_if (is_present (lookup (k.id e) (k.table s.tables)))
        (invariant_violation "entity_id_unique")
    validate_event event s.log
    audit_matches e event
    k.references s.tables e
    raise_if (differs_version (k.version e) initial)
        (invariant_violation "creation_requires_initial_version")
    ok (record {
      tables = k.with_table s.tables (insert (k.id e) e (k.table s.tables));
      log = append_event event s.log;
    })

  -- The first checks of `_save`, given the entity that is stored: the versions and the subjects.
  unfoldable pub check_versions :
      (current e : E) → (expected_version : Version) → StateTransition → Event → Result (Unit {0})
  check_versions current e expected_version transition event = do
    raise_if (differs_version (k.version current) expected_version)
        (version_conflict k.entity_type (k.id e) expected_version (k.version current))
    raise_if (differs_version (k.version e) (next expected_version))
        (invariant_violation "save_requires_one_version_increment")
    raise_if (differs transition.subject_id (k.id e))
        (invariant_violation "transition_subject_matches_entity")
    raise_if
        (differs_version transition.from_version expected_version
          || differs_version transition.to_version (k.version e))
        (invariant_violation "transition_versions_match_entity")
    raise_if
        (differs event.subject_id (k.id e) || differs_version event.entity_version (k.version e))
        (invariant_violation "event_subject_and_version_match_entity")

  -- The transition does not describe the step.
  unfoldable pub mismatched : (current e : E) → StateTransition → Event → Bool
  mismatched current e transition event =
      differs transition.workspace_id (k.workspace e)
      || differs (subject_value transition.subject_type) (subject_value event.subject_type)
      || differs transition.previous_status (k.status_value current)
      || differs transition.new_status (k.status_value e)
      || (if same_time transition.occurred_at (k.updated_at e) then false else true)

  -- Its last checks: the step is legal, the definition stays, and the transition describes the step.
  unfoldable pub check_step : (current e : E) → StateTransition → Event → Result (Unit {0})
  check_step current e transition event = do
    raise_if k.is_workspace (invariant_violation "workspace_mutation_not_supported")
    raise_if (if k.legal current e then false else true)
        (invariant_violation "persisted_transition_must_be_legal")
    raise_if (if k.same_definition current e then false else true)
        (invariant_violation "historical_definition_is_immutable")
    raise_if (mismatched current e transition event)
        (invariant_violation "transition_matches_entity")

  -- All checks of `_save`.
  unfoldable pub check_save :
      (current e : E)
      → (expected_version : Version) → StateTransition
      → Event
      → AuditLog
      → Result (Unit {0})
  check_save current e expected_version transition event l = do
    check_versions current e expected_version transition event
    validate_transition transition l
    validate_event event l
    audit_matches e event
    check_step current e transition event

  -- `_save`
  unfoldable pub save :
      E → (expected_version : Version) → StateTransition → Event → Store → Result Store
  unfolding check_save append_event append_transition
  save e expected_version transition event s = do
    current ← found k.entity_type (k.id e) (lookup (k.id e) (k.table s.tables))
    check_save current e expected_version transition event s.log
    ok (record {
      tables = k.with_table s.tables (insert (k.id e) e (k.table s.tables));
      log = append_event event (append_transition transition s.log);
    })

abbrev pub add_workspace : Workspace → Event → Store → Result Store
add_workspace = add workspace_kind

abbrev pub add_goal : Goal → Event → Store → Result Store
add_goal = add goal_kind

abbrev pub add_task : Task → Event → Store → Result Store
add_task = add task_kind

abbrev pub add_task_attempt : TaskAttempt → Event → Store → Result Store
add_task_attempt = add attempt_kind

abbrev pub add_execution : Execution → Event → Store → Result Store
add_execution = add execution_kind

abbrev pub save_goal : Goal → Version → StateTransition → Event → Store → Result Store
save_goal = save goal_kind

abbrev pub save_task : Task → Version → StateTransition → Event → Store → Result Store
save_task = save task_kind

abbrev pub save_task_attempt :
    TaskAttempt → Version → StateTransition → Event → Store → Result Store
save_task_attempt = save attempt_kind

abbrev pub save_execution : Execution → Version → StateTransition → Event → Store → Result Store
save_execution = save execution_kind

-- Queries of the whole store.
abbrev pub workspaces : Store → List Workspace
workspaces s = values s.tables.workspaces

unfoldable pub goals : Store → String → Result (List Goal)
goals s workspace_id = do
  owner ← get_workspace s.tables workspace_id
  ok (keep (λ g. str_eq g.workspace_id workspace_id) (values s.tables.goals))

unfoldable pub executions : Store → String → Result (List Execution)
executions s workspace_id = do
  owner ← get_workspace s.tables workspace_id
  ok (keep (λ x. str_eq x.workspace_id workspace_id) (values s.tables.executions))

unfoldable pub task_attempts : Store → String → Result (List TaskAttempt)
task_attempts s workspace_id = do
  owner ← get_workspace s.tables workspace_id
  ok (keep (λ a. str_eq a.workspace_id workspace_id) (values s.tables.attempts))

-- `workspace_id is None or item.workspace_id == workspace_id`
abbrev pub in_scope : Option String → String → Bool
in_scope none w = true
in_scope (some v) w = str_eq w v

abbrev pub events : Store → Option String → List Event
events s scope = keep (λ e. in_scope scope e.workspace_id) s.log.events

abbrev pub transitions : Store → Option String → List StateTransition
transitions s scope = keep (λ t. in_scope scope t.workspace_id) s.log.transitions
