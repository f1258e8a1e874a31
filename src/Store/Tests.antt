-- ===== src/Store/Tests.antt =====
-- A store with a workspace and a goal, and two saves of the goal.
use nebula_os.Prelude.{ℕ, String, ◌≡◌, refl, [], ◌∷◌, lookup, insert}
use nebula_os.Domain.Errors.{Result, ok, err, version_conflict}
use nebula_os.Domain.Validation.{DateTime, ahead}
use nebula_os.Domain.Transitions.{StateTransition, SubjectType}
use nebula_os.Domain.Events.{Event, EventType}
use nebula_os.Domain.Goal
use nebula_os.Domain.Goal.{Goal}
use nebula_os.Domain.Workspace
use nebula_os.Domain.Workspace.{Workspace}
use nebula_os.Store.Ops.{
  Store, empty_store, add_workspace, add_goal, save_goal, add, save, check_save, check_versions,
  check_step, mismatched, append_event, append_transition, audit_matches, validate_event,
  validate_transition,
}
use nebula_os.Store.Tables.{workspace_references, goal_references}
use nebula_os.Store.Steps.{of_goal}
use nebula_os.Store.Conflicts.{save-save}

abbrev at : ℕ → DateTime
at n = record { instant = n; zone = ahead 0 }

abbrev event : String → SubjectType → String → ℕ → EventType → Event
event id subject_type subject_id version event_type = record {
  id = id;
  workspace_id = "w";
  event_type = event_type;
  subject_type = subject_type;
  subject_id = subject_id;
  entity_version = version;
  occurred_at = at version;
  metadata = [];
  schema_version = 1;
}

abbrev acme : Workspace
acme = record {
  id = "w";
  name = "acme";
  status = Workspace.active;
  version = 1;
  created_at = at 0;
  updated_at = at 0;
}

abbrev draft_goal : Goal
draft_goal = record {
  id = "g";
  workspace_id = "w";
  objective = "brief";
  constraints = [];
  acceptance_criteria = "grounded" ∷ [];
  status = Goal.draft;
  version = 1;
  created_at = at 1;
  updated_at = at 1;
}

abbrev active_goal : Goal
active_goal = record draft_goal { status = Goal.active; version = 2; updated_at = at 2 }

abbrev activation : StateTransition
activation = record {
  id = "t";
  workspace_id = "w";
  subject_type = SubjectType.goal;
  subject_id = "g";
  previous_status = "draft";
  new_status = "active";
  reason = "activate";
  from_version = 1;
  to_version = 2;
  occurred_at = at 2;
}

abbrev activated : Event
activated = event "e3" SubjectType.goal "g" 2 EventType.goal_activated

abbrev or_empty : Result Store → Store
or_empty (ok s) = s
or_empty (err e) = empty_store

-- Each write on top of the one before.
abbrev two_entities : Store
two_entities = or_empty (
    add_goal draft_goal (event "e2" SubjectType.goal "g" 1 EventType.goal_created) (
      or_empty (
        add_workspace acme (event "e1" SubjectType.workspace "w" 1 EventType.workspace_created)
          empty_store)))

abbrev after_save : Store
after_save = or_empty (save_goal active_goal 1 activation activated two_entities)

save_accepted : save_goal active_goal 1 activation activated two_entities ≡ ok after_save
unfolding add save lookup insert check_save check_versions check_step mismatched append_event
    append_transition audit_matches validate_event validate_transition workspace_references
    goal_references
save_accepted = refl

save-save_example :
    save_goal
      (record draft_goal { status = Goal.cancelled; version = 2 })
      1
      activation
      activated
      after_save
    ≡ err (version_conflict "Goal" "g" 1 2)
save-save_example =
    save-save of_goal active_goal (record draft_goal { status = Goal.cancelled; version = 2 }) 1
      activation activation activated activated two_entities after_save save_accepted refl
