-- ===== src/Communication/Handoffs.antt =====
-- Handoffs between agents and their lifecycle (agent_company_os/domain/communication.py,
-- `HandoffRequest`).
use nebula_os.Prelude.{
  ℕ, String, Bool, true, false, ◌&&◌, ◌||◌, Option, some, List, ltb, leb, ◌==◌, length, same_bool,
  if◌then◌else◌,
}
use nebula_os.Domain.Errors.{
  Result, ok, invalid_state_transition, invariant_violation, raise_if, ◌>>◌,
}
use nebula_os.Domain.Validation.{DateTime, Version, next, require_utc}
use nebula_os.Communication.Data.{
  HandoffRequestPayload, CommunicationReference, is_given, is_filled,
}

pub data HandoffStatus : Type 0 where
  requested accepted rejected completed failed timed_out cancelled : HandoffStatus

abbrev pub status_value : HandoffStatus → String
status_value requested = "requested"
status_value accepted = "accepted"
status_value rejected = "rejected"
status_value completed = "completed"
status_value failed = "failed"
status_value timed_out = "timed_out"
status_value cancelled = "cancelled"

pub record HandoffRequest : Type 0 where
  pub id : String
  pub workspace_id : String
  pub orchestration_run_id : String
  pub sender_agent_run_id : String
  pub sender_definition_id : String
  pub sender_definition_version : Version
  pub source_task_id : String
  pub source_delegation_id : String
  pub payload : HandoffRequestPayload
  pub references : List CommunicationReference
  pub depth : ℕ
  pub created_at : DateTime
  pub deadline : DateTime
  pub policy_version : String
  pub parent_handoff_id : Option String
  pub status : HandoffStatus
  pub version : Version
  pub recipient_definition_id : Option String
  pub recipient_definition_version : Option Version
  pub resulting_delegation_id : Option String
  pub result_reference : Option String
  pub ended_at : Option DateTime
  pub status_reason : Option String
  pub schema_version : ℕ

abbrev pub is_terminal : HandoffStatus → Bool
is_terminal requested = false
is_terminal accepted = false
is_terminal status = true

abbrev pub is_completed : HandoffStatus → Bool
is_completed completed = true
is_completed status = false

abbrev pub requires_delegation : HandoffStatus → Bool
requires_delegation accepted = true
requires_delegation completed = true
requires_delegation status = false

abbrev pub forbids_delegation : HandoffStatus → Bool
forbids_delegation requested = true
forbids_delegation rejected = true
forbids_delegation status = false

abbrev pub needs_reason : HandoffStatus → Bool
needs_reason requested = false
needs_reason accepted = false
needs_reason completed = false
needs_reason status = true

-- The times, and "handoff_schema".
unfoldable pub check_schema : HandoffRequest → Result (Unit {0})
check_schema h = do
  require_utc h.created_at
  require_utc h.deadline
  raise_if
      ((if h.schema_version == 1 then false else true)
        || leb h.deadline.instant h.created_at.instant
        || (if leb 1 h.depth && leb h.depth 5 then false else true)
        || ltb 20 (length h.references)
        || (if same_bool (is_given h.recipient_definition_id)
              (is_given h.recipient_definition_version)
            then false
            else true))
      (invariant_violation "handoff_schema")

-- The rest of `HandoffRequest.__post_init__`: the status and what it binds.
unfoldable pub check_status : HandoffRequest → Result (Unit {0})
check_status h = do
  raise_if
      ((requires_delegation h.status
          && (if is_given h.resulting_delegation_id then false else true))
        || (forbids_delegation h.status && is_given h.resulting_delegation_id))
      (invariant_violation "handoff_delegation_binding")
  raise_if
      (if same_bool (is_completed h.status) (is_filled h.result_reference) then false else true)
      (invariant_violation "handoff_result_binding")
  raise_if (if same_bool (is_terminal h.status) (is_given h.ended_at) then false else true)
      (invariant_violation "handoff_terminal_time")
  raise_if (needs_reason h.status && (if is_filled h.status_reason then false else true))
      (invariant_violation "handoff_status_reason")

-- `HandoffRequest.__post_init__`
unfoldable pub check_handoff : HandoffRequest → Result HandoffRequest
unfolding check_schema check_status
check_handoff h = do check_schema h; check_status h; ok h

abbrev pub is_requested : HandoffStatus → Bool
is_requested requested = true
is_requested status = false

abbrev pub accepted_by : HandoffRequest → String → Version → String → HandoffRequest
accepted_by h definition_id definition_version delegation_id = record h {
  status = accepted;
  version = next h.version;
  recipient_definition_id = some definition_id;
  recipient_definition_version = some definition_version;
  resulting_delegation_id = some delegation_id;
}

-- `HandoffRequest.accept`
unfoldable pub accept :
    HandoffRequest
    → (definition_id : String) → Version
    → (delegation_id : String) → Result HandoffRequest
unfolding check_handoff
accept h definition_id definition_version delegation_id = do
  raise_if (if is_requested h.status then false else true)
      (invalid_state_transition "HandoffRequest" h.id (status_value h.status) "accept")
  check_handoff (accepted_by h definition_id definition_version delegation_id)

-- `status in allowed.get(self.status, set())`
abbrev pub allowed : (source target : HandoffStatus) → Bool
allowed requested rejected = true
allowed requested timed_out = true
allowed requested cancelled = true
allowed accepted completed = true
allowed accepted failed = true
allowed accepted timed_out = true
allowed accepted cancelled = true
allowed source target = false

abbrev pub finished :
    HandoffRequest → HandoffStatus → DateTime → (reason result : Option String) → HandoffRequest
finished h status at reason result = record h {
  status = status;
  version = next h.version;
  result_reference = result;
  ended_at = some at;
  status_reason = reason;
}

-- `HandoffRequest.finish`
unfoldable pub finish :
    HandoffRequest
    → HandoffStatus
    → DateTime
    → (reason result : Option String) → Result HandoffRequest
unfolding check_handoff
finish h status at reason result = do
  raise_if (if allowed h.status status then false else true)
      (invalid_state_transition "HandoffRequest" h.id (status_value h.status) (status_value status))
  require_utc at
  check_handoff (finished h status at reason result)
