-- ===== src/Communication/Tests.antt =====
-- A message and a handoff through their lives.
use nebula_os.Prelude.{ℕ, refl, none, some, List, [], ◌∷◌}
use nebula_os.Domain.Courses.{course}
use nebula_os.Domain.Validation.{
  DateTime, ahead, strip, strip_start, strip_end, clean_required_text, require_utc,
}
use nebula_os.Communication.Data.{information, information_payload}
use nebula_os.Communication.Messages
use nebula_os.Communication.Messages.{AgentMessage, check_message}
use nebula_os.Communication.Handoffs
use nebula_os.Communication.Handoffs.{HandoffRequest, check_handoff}
use nebula_os.Communication.MessageCourse.{Evolution, evolve_by, course-Kept, Kept}
use nebula_os.Communication.HandoffCourse.{
  HandoffCall, accept_by, finish_as, handoff_call, course-HandoffKept, HandoffKept,
}

abbrev noon : ℕ → DateTime
noon n = record { instant = n; zone = ahead 0 }

abbrev sent : AgentMessage
sent = record {
  id = "m";
  workspace_id = "w";
  orchestration_run_id = "o";
  thread_id = "t";
  sender_agent_run_id = "r";
  sender_definition_id = "d";
  sender_definition_version = 1;
  recipient_agent_run_id = "s";
  recipient_definition_id = "e";
  recipient_definition_version = 1;
  sender_task_id = "x";
  sender_delegation_id = "y";
  recipient_task_id = "z";
  recipient_delegation_id = "v";
  kind = information;
  payload = information_payload "done" [];
  references = [];
  correlation_id = "c";
  created_at = noon 1;
  deadline = noon 9;
  policy_version = "p";
  in_reply_to = none;
  status = Messages.created;
  version = 1;
  delivered_at = none;
  ended_at = none;
  status_reason = none;
  schema_version = 1;
}

-- It is delivered, consumed, and then refuses to be cancelled.
abbrev evolutions : List Evolution
evolutions =
    record { status = Messages.delivered; at = noon 2; reason = none }
    ∷ record { status = Messages.consumed; at = noon 3; reason = none }
    ∷ record { status = Messages.cancelled; at = noon 4; reason = some "late" }
    ∷ []

course-Kept_example : Kept sent (course evolve_by evolutions sent)
unfolding check_message Messages.check_schema Messages.check_status strip strip_start strip_end
    clean_required_text require_utc
course-Kept_example = course-Kept evolutions sent refl

abbrev handoff : HandoffRequest
handoff = record {
  id = "h";
  workspace_id = "w";
  orchestration_run_id = "o";
  sender_agent_run_id = "r";
  sender_definition_id = "d";
  sender_definition_version = 1;
  source_task_id = "x";
  source_delegation_id = "y";
  payload = record {
    reason_code = "skill";
    summary = "translate";
    target_requirements = record {
      capabilities = [];
      tool_ids = [];
      knowledge_source_ids = [];
      memory_scopes = [];
      min_autonomy = 0;
      capability_ids = [];
      required_department = none;
      preferred_department = none;
      organizational_role = none;
    };
  };
  references = [];
  depth = 1;
  created_at = noon 1;
  deadline = noon 9;
  policy_version = "p";
  parent_handoff_id = none;
  status = Handoffs.requested;
  version = 1;
  recipient_definition_id = none;
  recipient_definition_version = none;
  resulting_delegation_id = none;
  result_reference = none;
  ended_at = none;
  status_reason = none;
  schema_version = 1;
}

-- It is accepted and completed; a second acceptance is refused.
abbrev calls : List HandoffCall
calls =
    accept_by "e" 1 "g"
    ∷ accept_by "f" 1 "k"
    ∷ finish_as Handoffs.completed (noon 5) none (some "result")
    ∷ []

course-HandoffKept_example : HandoffKept handoff (course handoff_call calls handoff)
unfolding check_handoff Handoffs.check_schema Handoffs.check_status require_utc
course-HandoffKept_example = course-HandoffKept calls handoff refl
