-- ===== src/Domain/Goal.antt =====
-- agent_company_os/domain/goal.py: the Goal aggregate and its lifecycle.
use nebula_os.Prelude.{String, Bool, true, false, List, if◌then◌else◌}
use nebula_os.Domain.Errors.{Result, ok, invalid_state_transition, raise_if, ◌>>=◌, ◌>>◌}
use nebula_os.Domain.Validation.{
  DateTime, Version, initial, next, clean_required_text, clean_required_texts, clean_optional_texts,
  require_utc, require_monotonic_time,
}
use nebula_os.Domain.Transitions.{TransitionResult, SubjectType, check_transition}

pub data GoalStatus : Type 0 where
  draft active satisfied closed_unsatisfied cancelled : GoalStatus

abbrev pub status_value : GoalStatus → String
status_value draft = "draft"
status_value active = "active"
status_value satisfied = "satisfied"
status_value closed_unsatisfied = "closed_unsatisfied"
status_value cancelled = "cancelled"

pub record Goal : Type 0 where
  pub id : String
  pub workspace_id : String
  pub objective : String
  pub constraints : List String
  pub acceptance_criteria : List String
  pub status : GoalStatus
  pub version : Version
  pub created_at : DateTime
  pub updated_at : DateTime

-- `target in _ALLOWED[source]`
abbrev pub allowed : (source target : GoalStatus) → Bool
allowed draft active = true
allowed draft cancelled = true
allowed active satisfied = true
allowed active closed_unsatisfied = true
allowed active cancelled = true
allowed _ _ = false

-- `Goal.__post_init__`
unfoldable pub check : Goal → Result Goal
check g = do
  objective ← clean_required_text g.objective
  constraints ← clean_optional_texts g.constraints
  criteria ← clean_required_texts g.acceptance_criteria
  require_utc g.created_at
  require_utc g.updated_at
  ok g

unfoldable pub create :
    (goal_id workspace_id objective : String) (constraints acceptance_criteria : List String)
    → DateTime
    → Result Goal
create goal_id workspace_id objective constraints acceptance_criteria created_at = do
  objective' ← clean_required_text objective
  constraints' ← clean_optional_texts constraints
  criteria' ← clean_required_texts acceptance_criteria
  check (record {
    id = goal_id;
    workspace_id = workspace_id;
    objective = objective';
    constraints = constraints';
    acceptance_criteria = criteria';
    status = draft;
    version = initial;
    created_at = created_at;
    updated_at = created_at;
  })

unfoldable pub transition :
    Goal
    → GoalStatus
    → (transition_id : String) → DateTime
    → (reason : String) → Result (TransitionResult Goal)
transition g target transition_id at reason = do
  raise_if (if allowed g.status target then false else true)
      (invalid_state_transition "Goal" g.id (status_value g.status) (status_value target))
  require_monotonic_time g.updated_at at
  updated ← check (record g { status = target; version = next g.version; updated_at = at })
  recorded ← check_transition (record {
    id = transition_id;
    workspace_id = g.workspace_id;
    subject_type = SubjectType.goal;
    subject_id = g.id;
    previous_status = status_value g.status;
    new_status = status_value target;
    reason = reason;
    from_version = g.version;
    to_version = next g.version;
    occurred_at = at;
  })
  ok (record { entity = updated; transition = recorded })

unfoldable pub activate : Goal → String → DateTime → Result (TransitionResult Goal)
unfolding transition
activate g transition_id at = transition g active transition_id at "activate"

unfoldable pub satisfy : Goal → String → DateTime → Result (TransitionResult Goal)
unfolding transition
satisfy g transition_id at = transition g satisfied transition_id at "accept_outcome"

unfoldable pub close_unsatisfied : Goal → String → DateTime → Result (TransitionResult Goal)
unfolding transition
close_unsatisfied g transition_id at =
    transition g closed_unsatisfied transition_id at "close_without_satisfaction"

unfoldable pub cancel : Goal → String → DateTime → Result (TransitionResult Goal)
unfolding transition
cancel g transition_id at = transition g cancelled transition_id at "cancel"
