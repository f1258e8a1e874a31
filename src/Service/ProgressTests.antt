-- ===== src/Service/ProgressTests.antt =====
-- A goal that is activated, and the map that a run goes through.
use nebula_os.Prelude.{◌≡◌, refl, List, [], ◌∷◌, lookup}
use nebula_os.Domain.Errors.{ok}
use nebula_os.Domain.Validation.{
  ahead, strip, strip_start, strip_end, strip_all, clean_required_text, clean_optional_texts,
  clean_required_texts, require_utc, require_monotonic_time, opaque_id,
}
use nebula_os.Domain.Goal
use nebula_os.Domain.Goal.{Goal}
use nebula_os.Domain.Lifecycle.Goals.{activate}
use nebula_os.Service.Session.{Session}
use nebula_os.Service.Runs.{Call, create_workspace, create_goal, new_session, run}
use nebula_os.Service.Accepted.{goal_command, moved}
use nebula_os.Service.Progress.{goal_command-progress}
use nebula_os.Service.Abstract.{view, Course, run-Course}
use nebula_os.Service.Tests.{ports, label}

abbrev draft_goal : Goal
draft_goal = record {
  id = "g";
  workspace_id = "w";
  objective = "brief";
  constraints = [];
  acceptance_criteria = "grounded" ∷ [];
  status = Goal.draft;
  version = 1;
  created_at = record { instant = 0; zone = ahead 0 };
  updated_at = record { instant = 0; zone = ahead 0 };
}

abbrev with_goal : Session
with_goal = record {
  store = record {
    tables = record {
      workspaces = [];
      goals = ("g", draft_goal) ∷ [];
      tasks = [];
      attempts = [];
      executions = [];
    };
    log = record { events = []; event_ids = []; transitions = []; transition_ids = [] };
  };
  readings = 1;
  drawn = 0;
}

goal_command-progress_example :
    (goal_command ports activate "g" 1 with_goal).0 ≡ ok (moved activate draft_goal (ports.now 1))
unfolding lookup Goal.check strip strip_start strip_end strip_all clean_required_text
    clean_optional_texts clean_required_texts require_utc require_monotonic_time opaque_id
goal_command-progress_example = goal_command-progress ports activate draft_goal with_goal (record {
  stored = refl;
  checked = refl;
  named = refl;
  legal = refl;
  permitted = refl;
  timely = refl;
  recorded_at = refl;
  fresh = refl;
  fresh' = refl;
})

abbrev two_calls : List Call
two_calls =
    create_workspace "acme"
    ∷ create_goal (record {
      workspace_id = label 0;
      objective = "brief";
      acceptance_criteria = "grounded" ∷ [];
      constraints = [];
    })
    ∷ []

run-Course_example :
    Course (view (new_session ports).store) (view (run ports two_calls (new_session ports)).store)
run-Course_example = run-Course ports two_calls (new_session ports)
