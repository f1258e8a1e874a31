-- ===== src/Communication/Messages.antt =====
-- Messages of agents and their lifecycle (agent_company_os/domain/communication.py, `AgentMessage`).
use nebula_os.Prelude.{
  ℕ, String, Bool, true, false, ◌&&◌, ◌||◌, Option, none, some, List, ltb, leb, ◌==◌, length,
  same_bool, distinct_by, if◌then◌else◌,
}
use nebula_os.Domain.Errors.{
  Result, ok, invalid_state_transition, invariant_violation, raise_if, ◌>>=◌, ◌>>◌,
}
use nebula_os.Domain.Validation.{DateTime, Version, next, clean_required_text, require_utc}
use nebula_os.Planning.Plan.{text_length}
use nebula_os.Communication.Data.{
  MessageKind, information, request, response, handoff_request, handoff_accept, handoff_reject,
  handoff_result, MessagePayload, information_payload, request_payload, response_payload,
  handoff_request_payload, handoff_result_payload, CommunicationReference, same_reference, is_given,
  is_filled,
}

pub data MessageStatus : Type 0 where
  created delivered consumed rejected cancelled timed_out : MessageStatus

abbrev pub status_value : MessageStatus → String
status_value created = "created"
status_value delivered = "delivered"
status_value consumed = "consumed"
status_value rejected = "rejected"
status_value cancelled = "cancelled"
status_value timed_out = "timed_out"

abbrev pub is_terminal : MessageStatus → Bool
is_terminal created = false
is_terminal delivered = false
is_terminal consumed = true
is_terminal rejected = true
is_terminal cancelled = true
is_terminal timed_out = true

pub record AgentMessage : Type 0 where
  pub id : String
  pub workspace_id : String
  pub orchestration_run_id : String
  pub thread_id : String
  pub sender_agent_run_id : String
  pub sender_definition_id : String
  pub sender_definition_version : Version
  pub recipient_agent_run_id : String
  pub recipient_definition_id : String
  pub recipient_definition_version : Version
  pub sender_task_id : String
  pub sender_delegation_id : String
  pub recipient_task_id : String
  pub recipient_delegation_id : String
  pub kind : MessageKind
  pub payload : MessagePayload
  pub references : List CommunicationReference
  pub correlation_id : String
  pub created_at : DateTime
  pub deadline : DateTime
  pub policy_version : String
  pub in_reply_to : Option String
  pub status : MessageStatus
  pub version : Version
  pub delivered_at : Option DateTime
  pub ended_at : Option DateTime
  pub status_reason : Option String
  pub schema_version : ℕ

-- `isinstance(self.payload, expected)`
abbrev pub is_expected : MessageKind → MessagePayload → Bool
is_expected information (information_payload summary items) = true
is_expected request (request_payload type' question expected work) = true
is_expected response (response_payload summary items) = true
is_expected handoff_request (handoff_request_payload p) = true
is_expected handoff_accept (information_payload summary items) = true
is_expected handoff_reject (information_payload summary items) = true
is_expected handoff_result (handoff_result_payload summary reference) = true
is_expected kind payload = false

-- The times and texts, and "agent_message_schema".
unfoldable pub check_schema : AgentMessage → Result (Unit {0})
check_schema m = do
  require_utc m.created_at
  require_utc m.deadline
  correlation ← clean_required_text m.correlation_id
  policy ← clean_required_text m.policy_version
  raise_if
      ((if m.schema_version == 1 then false else true)
        || leb m.deadline.instant m.created_at.instant
        || ltb 128 (text_length m.correlation_id)
        || ltb 20 (length m.references)
        || (if distinct_by same_reference m.references then false else true)
        || (if is_expected m.kind m.payload then false else true))
      (invariant_violation "agent_message_schema")

abbrev pub needs_delivery : MessageStatus → Bool
needs_delivery delivered = true
needs_delivery consumed = true
needs_delivery status = false

abbrev pub forbids_delivery : MessageStatus → Bool
forbids_delivery created = true
forbids_delivery rejected = true
forbids_delivery status = false

abbrev pub needs_reason : MessageStatus → Bool
needs_reason rejected = true
needs_reason cancelled = true
needs_reason timed_out = true
needs_reason status = false

-- The rest of `AgentMessage.__post_init__`: the status and its times and reason.
unfoldable pub check_status : AgentMessage → Result (Unit {0})
check_status m = do
  raise_if (needs_delivery m.status && (if is_given m.delivered_at then false else true))
      (invariant_violation "message_delivery_time")
  raise_if (forbids_delivery m.status && is_given m.delivered_at)
      (invariant_violation "message_delivery_time")
  raise_if (if same_bool (is_terminal m.status) (is_given m.ended_at) then false else true)
      (invariant_violation "message_terminal_time")
  raise_if (if same_bool (needs_reason m.status) (is_filled m.status_reason) then false else true)
      (invariant_violation "message_status_reason")

-- `AgentMessage.__post_init__`
unfoldable pub check_message : AgentMessage → Result AgentMessage
unfolding check_schema check_status
check_message m = do check_schema m; check_status m; ok m

-- `status in allowed.get(self.status, set())`
abbrev pub allowed : (source target : MessageStatus) → Bool
allowed created delivered = true
allowed created rejected = true
allowed created cancelled = true
allowed created timed_out = true
allowed delivered consumed = true
allowed delivered cancelled = true
allowed delivered timed_out = true
allowed source target = false

-- `at if status is MessageStatus.DELIVERED else self.delivered_at`
abbrev pub delivery_time : MessageStatus → DateTime → Option DateTime → Option DateTime
delivery_time delivered at before = some at
delivery_time status at before = before

abbrev pub evolved : AgentMessage → MessageStatus → DateTime → Option String → AgentMessage
evolved m status at reason = record m {
  status = status;
  version = next m.version;
  delivered_at = delivery_time status at m.delivered_at;
  ended_at = if is_terminal status then some at else none;
  status_reason = reason;
}

-- `AgentMessage.evolve`
unfoldable pub evolve :
    AgentMessage → MessageStatus → DateTime → Option String → Result AgentMessage
unfolding check_message
evolve m status at reason = do
  raise_if (if allowed m.status status then false else true)
      (invalid_state_transition "AgentMessage" m.id (status_value m.status) (status_value status))
  require_utc at
  check_message (evolved m status at reason)

pub record MessageContextItem : Type 0 where
  pub message_id : String
  pub sender_agent_run_id : String
  pub sender_definition_id : String
  pub sender_definition_version : Version
  pub kind : MessageKind
  pub payload : MessagePayload
  pub references : List CommunicationReference
  pub correlation_id : String
  pub created_at : DateTime
  pub trust : String

pub record AgentMessageContext : Type 0 where
  pub workspace_id : String
  pub recipient_agent_run_id : String
  pub messages : List MessageContextItem
  pub policy_version : String
  pub captured_at : DateTime
  pub schema_version : ℕ

-- `AgentMessageContext.__post_init__`
unfoldable pub check_context : AgentMessageContext → Result AgentMessageContext
check_context c = do
  require_utc c.captured_at
  raise_if ((if c.schema_version == 1 then false else true) || ltb 20 (length c.messages))
      (invariant_violation "message_context_bound")
  ok c
