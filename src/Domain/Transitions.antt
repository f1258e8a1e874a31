-- ===== src/Domain/Transitions.antt =====
-- agent_company_os/domain/transitions.py: the append-only records of lifecycle transitions.
use nebula_os.Prelude.{String, true, false, ◌==◌, if◌then◌else◌}
use nebula_os.Domain.Errors.{Result, ok, invariant_violation, raise_if, ◌>>=◌, ◌>>◌}
use nebula_os.Domain.Validation.{DateTime, Version, next, clean_required_text, require_utc}

pub data SubjectType : Type 0 where
  organization_graph agent_message message_thread handoff orchestration_run : SubjectType
  orchestration_plan delegation memory_candidate memory_entry knowledge_source : SubjectType
  agent_run goal task task_attempt execution workspace : SubjectType

-- `subject_type.value`
abbrev pub subject_value : SubjectType → String
subject_value organization_graph = "OrganizationGraph"
subject_value agent_message = "agent_message"
subject_value message_thread = "message_thread"
subject_value handoff = "handoff"
subject_value orchestration_run = "orchestration_run"
subject_value orchestration_plan = "orchestration_plan"
subject_value delegation = "delegation"
subject_value memory_candidate = "memory_candidate"
subject_value memory_entry = "memory_entry"
subject_value knowledge_source = "knowledge_source"
subject_value agent_run = "agent_run"
subject_value goal = "goal"
subject_value task = "task"
subject_value task_attempt = "task_attempt"
subject_value execution = "execution"
subject_value workspace = "workspace"

pub record StateTransition : Type 0 where
  pub id : String
  pub workspace_id : String
  pub subject_type : SubjectType
  pub subject_id : String
  pub previous_status : String
  pub new_status : String
  pub reason : String
  pub from_version : Version
  pub to_version : Version
  pub occurred_at : DateTime

-- `StateTransition.__post_init__`
unfoldable pub check_transition : StateTransition → Result StateTransition
check_transition t = do
  subject ← clean_required_text t.subject_id
  previous ← clean_required_text t.previous_status
  new ← clean_required_text t.new_status
  reason ← clean_required_text t.reason
  require_utc t.occurred_at
  raise_if (if t.to_version == next t.from_version then false else true)
      (invariant_violation "transition_version_increment")
  ok t

pub record TransitionResult {ℓ} (A : Type ℓ) : Type ℓ where
  pub entity : A
  pub transition : StateTransition
