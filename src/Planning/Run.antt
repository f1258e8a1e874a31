-- ===== src/Planning/Run.antt =====
-- Orchestration runs (agent_company_os/domain/orchestration.py, `OrchestrationRun`). The fields
-- `organization` and `source_department`, which its methods do not read or change, are left out.
use nebula_os.Prelude.{
  ℤ, ◌+ℤ◌, exceeds_limit, String, Bool, true, false, ◌||◌, Option, none, some, str_eq, same_bool,
  if◌then◌else◌,
}
use nebula_os.Domain.Errors.{
  Result, ok, invalid_state_transition, invariant_violation, raise_if, ◌>>◌,
}
use nebula_os.Domain.Validation.{DateTime, Version, next, require_utc}
use nebula_os.Planning.Policy.{OrchestrationPolicy}

pub data OrchestrationStatus : Type 0 where
  planning running waiting completed failed cancelled : OrchestrationStatus

abbrev pub status_value : OrchestrationStatus → String
status_value planning = "planning"
status_value running = "running"
status_value waiting = "waiting"
status_value completed = "completed"
status_value failed = "failed"
status_value cancelled = "cancelled"

abbrev pub is_terminal : OrchestrationStatus → Bool
is_terminal planning = false
is_terminal running = false
is_terminal waiting = false
is_terminal completed = true
is_terminal failed = true
is_terminal cancelled = true

pub record OrchestrationRun : Type 0 where
  pub id : String
  pub workspace_id : String
  pub goal_id : String
  pub strategy_id : String
  pub strategy_version : String
  pub policy : OrchestrationPolicy
  pub created_at : DateTime
  pub status : OrchestrationStatus
  pub version : Version
  pub plan_id : Option String
  pub current_plan_version : Option Version
  pub execution_id : Option String
  pub replan_count : ℤ
  pub agent_run_count : ℤ
  pub failed_attempt_count : ℤ
  pub escalation_reason : Option String
  pub ended_at : Option DateTime

-- `self.ended_at is not None`
abbrev pub has_ended : Option DateTime → Bool
has_ended none = false
has_ended (some t) = true

-- `OrchestrationRun.__post_init__`
unfoldable pub check_run : OrchestrationRun → Result OrchestrationRun
check_run r = do
  require_utc r.created_at
  raise_if (if same_bool (is_terminal r.status) (has_ended r.ended_at) then false else true)
      (invariant_violation "orchestration_terminal_time")
  raise_if
      (exceeds_limit r.replan_count r.policy.max_replans
        || exceeds_limit r.agent_run_count r.policy.max_agent_runs)
      (invariant_violation "orchestration_budget_exceeded")
  ok r

-- `target in allowed.get(self.status, set())`
abbrev pub allowed : (source target : OrchestrationStatus) → Bool
allowed planning running = true
allowed planning waiting = true
allowed planning failed = true
allowed planning cancelled = true
allowed running planning = true
allowed running waiting = true
allowed running completed = true
allowed running failed = true
allowed running cancelled = true
allowed waiting running = true
allowed waiting planning = true
allowed waiting failed = true
allowed waiting cancelled = true
allowed _ _ = false

-- The arguments of `evolve`. The deltas are integers of either sign, which no check excludes.
pub record Evolution : Type 0 where
  pub at : DateTime
  pub status : Option OrchestrationStatus
  pub plan_id : Option String
  pub plan_version : Option Version
  pub execution_id : Option String
  pub replan_delta : ℤ
  pub agent_run_delta : ℤ
  pub failed_delta : ℤ
  pub escalation_reason : Option String

-- `given or current`
abbrev pub given_or : {A : Type 0} → Option A → A → A
given_or none current = current
given_or (some a) current = a

abbrev pub given_or? : {A : Type 0} → Option A → Option A → Option A
given_or? none current = current
given_or? (some a) current = some a

-- The run that `replace` makes, before it is checked.
abbrev pub evolved : OrchestrationRun → Evolution → OrchestrationRun
evolved r e =
    let target = given_or e.status r.status in
    record r {
      status = target;
      version = next r.version;
      plan_id = given_or? e.plan_id r.plan_id;
      current_plan_version = given_or? e.plan_version r.current_plan_version;
      execution_id = given_or? e.execution_id r.execution_id;
      replan_count = r.replan_count +ℤ e.replan_delta;
      agent_run_count = r.agent_run_count +ℤ e.agent_run_delta;
      failed_attempt_count = r.failed_attempt_count +ℤ e.failed_delta;
      escalation_reason = e.escalation_reason;
      ended_at = if is_terminal target then some e.at else none;
    }

unfoldable pub evolve : OrchestrationRun → Evolution → Result OrchestrationRun
unfolding check_run
evolve r e = do
  let target = given_or e.status r.status
  raise_if
      (if str_eq (status_value target) (status_value r.status)
        then false
        else if allowed r.status target
        then false
        else true)
      (invalid_state_transition "OrchestrationRun" r.id (status_value r.status)
        (status_value target))
  require_utc e.at
  check_run (evolved r e)
