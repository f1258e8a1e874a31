-- ===== src/Domain/Events.antt =====
-- agent_company_os/domain/events.py: the immutable audit events.
use nebula_os.Prelude.{
  ℕ, String, true, false, List, [], ◌∷◌, map, ◌==◌, all_distinct, if◌then◌else◌,
}
use nebula_os.Domain.Errors.{Result, ok, invariant_violation, raise_if, ◌>>=◌, ◌>>◌}
use nebula_os.Domain.Validation.{DateTime, Version, clean_required_text, require_utc}
use nebula_os.Domain.Transitions.{SubjectType}

pub data EventType : Type 0 where
  orchestration_child_reconciled recovery_detected recovery_lookup recovery_receipt_reconciled :
      EventType
  recovery_parent_reconciled action_intent_created action_intent_cancelled approval_requested :
      EventType
  approval_granted approval_rejected approval_revoked approval_expired approval_consumed : EventType
  action_execution_authorized action_execution_denied organization_graph_version_created : EventType
  organization_graph_activated agent_message_created agent_message_delivered : EventType
  agent_message_rejected agent_message_consumed handoff_requested handoff_accepted : EventType
  handoff_rejected handoff_completed handoff_failed communication_timeout orchestration_started :
      EventType
  plan_proposed plan_rejected plan_accepted plan_materialized task_delegated : EventType
  delegation_rejected replan_requested replan_completed orchestration_completed : EventType
  orchestration_failed orchestration_cancelled memory_candidate_created memory_review_requested :
      EventType
  memory_candidate_rejected memory_promoted memory_revoked memory_superseded memory_retrieved :
      EventType
  memory_context_pack_created knowledge_source_published knowledge_source_disabled : EventType
  knowledge_query_executed knowledge_query_rejected evidence_pack_created : EventType
  tool_invocation_started tool_request_rejected tool_receipt_recorded tool_result_observed :
      EventType
  agent_run_started model_invocation_requested model_invocation_failed model_decision_received :
      EventType
  model_decision_rejected action_requested action_accepted observation_recorded : EventType
  agent_waiting_for_context agent_run_resumed agent_run_completed agent_run_failed : EventType
  agent_run_cancelled workspace_created goal_created goal_activated goal_satisfied : EventType
  goal_closed_unsatisfied goal_cancelled task_created task_ready task_started task_completed :
      EventType
  task_retry_ready task_blocked task_unblocked task_failed task_cancelled task_attempt_created :
      EventType
  task_attempt_started task_attempt_succeeded task_attempt_failed task_attempt_cancelled : EventType
  execution_created execution_started execution_waiting execution_resumed execution_succeeded :
      EventType
  execution_failed execution_cancelled : EventType

pub record Event : Type 0 where
  pub id : String
  pub workspace_id : String
  pub event_type : EventType
  pub subject_type : SubjectType
  pub subject_id : String
  pub entity_version : Version
  pub occurred_at : DateTime
  pub metadata : List (String × String)
  pub schema_version : ℕ

check_metadata : List (String × String) → Result (Unit {0})
check_metadata [] = ok tt
check_metadata ((key, value) ∷ rest) =
    let others = check_metadata rest in
    do k ← clean_required_text key; v ← clean_required_text value; others

-- `Event.__post_init__`
unfoldable pub check_event : Event → Result Event
unfolding check_metadata
check_event e = do
  subject ← clean_required_text e.subject_id
  require_utc e.occurred_at
  raise_if (if e.schema_version == 1 then false else true)
      (invariant_violation "event_schema_version_supported")
  raise_if (if all_distinct (map (λ m. m.0) e.metadata) then false else true)
      (invariant_violation "event_metadata_keys_unique")
  check_metadata e.metadata
  ok e
