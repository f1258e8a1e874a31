-- ===== src/Communication/Data.antt =====
-- Policies, payloads, references and threads (agent_company_os/domain/communication.py).
use nebula_os.Prelude.{
  ℕ, ◌+◌, String, Bool, true, false, ◌&&◌, ◌||◌, Option, none, some, List, [], ◌∷◌, ltb, leb, any,
  length, is_nil, str_eq, all_distinct, distinct_by, if◌then◌else◌,
}
use nebula_os.Domain.Errors.{Result, ok, invariant_violation, raise_if, ◌>>=◌, ◌>>◌}
use nebula_os.Domain.Validation.{
  DateTime, Version, is_empty, strip, clean_required_text, require_utc,
}
use nebula_os.Planning.Plan.{AgentRequirements, text_length}

pub data MessageKind : Type 0 where
  information request response handoff_request handoff_accept handoff_reject handoff_result :
      MessageKind

abbrev pub kind_value : MessageKind → String
kind_value information = "information"
kind_value request = "request"
kind_value response = "response"
kind_value handoff_request = "handoff_request"
kind_value handoff_accept = "handoff_accept"
kind_value handoff_reject = "handoff_reject"
kind_value handoff_result = "handoff_result"

pub data ThreadStatus : Type 0 where
  open_thread closed cancelled : ThreadStatus

pub data ReferenceKind : Type 0 where
  task_result tool_receipt evidence_pack memory_context_pack : ReferenceKind

abbrev pub reference_value : ReferenceKind → String
reference_value task_result = "task_result"
reference_value tool_receipt = "tool_receipt"
reference_value evidence_pack = "evidence_pack"
reference_value memory_context_pack = "memory_context_pack"

pub record CommunicationPolicy : Type 0 where
  pub max_message_chars : ℕ
  pub max_payload_items : ℕ
  pub max_references : ℕ
  pub max_messages_per_thread : ℕ
  pub max_messages_per_agent_run : ℕ
  pub max_messages_per_run : ℕ
  pub max_handoff_depth : ℕ
  pub max_handoffs_per_task : ℕ
  pub max_requests_per_task : ℕ
  pub max_context_messages : ℕ
  pub response_timeout_seconds : ℕ
  pub allowed_kinds : List MessageKind
  pub allowed_reference_kinds : List ReferenceKind
  pub allowed_recipient_roles : List String
  pub version : String

abbrev pub policy_bounds : CommunicationPolicy → List (ℕ × ℕ)
policy_bounds p =
    (p.max_message_chars, 8000)
    ∷ (p.max_payload_items, 25)
    ∷ (p.max_references, 20)
    ∷ (p.max_messages_per_thread, 100)
    ∷ (p.max_messages_per_agent_run, 100)
    ∷ (p.max_messages_per_run, 250)
    ∷ (p.max_handoff_depth, 5)
    ∷ (p.max_handoffs_per_task, 10)
    ∷ (p.max_requests_per_task, 25)
    ∷ (p.max_context_messages, 20)
    ∷ (p.response_timeout_seconds, 3600)
    ∷ []

-- `not items or len(set(items)) != len(items)`
abbrev pub is_bad_allowlist : {A : Type 0} → (A → String) → List A → Bool
is_bad_allowlist value items =
    is_nil items || (if distinct_by (λ a b. str_eq (value a) (value b)) items then false else true)

-- `CommunicationPolicy.__post_init__`
unfoldable pub check_policy : CommunicationPolicy → Result CommunicationPolicy
check_policy p = do
  raise_if
      (any (λ (value, hard). if leb 1 value && leb value hard then false else true)
        (policy_bounds p))
      (invariant_violation "communication_policy_bounds")
  raise_if
      (is_bad_allowlist kind_value p.allowed_kinds
        || is_bad_allowlist reference_value p.allowed_reference_kinds)
      (invariant_violation "communication_policy_allowlist")
  raise_if
      ((if all_distinct p.allowed_recipient_roles then false else true)
        || any (λ role. is_empty role || ltb 64 (text_length role)) p.allowed_recipient_roles)
      (invariant_violation "communication_role_allowlist")
  cleaned ← clean_required_text p.version
  ok p

pub record HandoffRequestPayload : Type 0 where
  pub reason_code : String
  pub summary : String
  pub target_requirements : AgentRequirements

pub data MessagePayload : Type 0 where
  information_payload response_payload : (summary : String) (items : List String) → MessagePayload
  request_payload :
      (request_type question expected_response : String) (substantial_work : Bool) → MessagePayload
  handoff_request_payload : HandoffRequestPayload → MessagePayload
  handoff_result_payload : (summary task_result_reference : String) → MessagePayload

-- `_payload_text`
unfoldable pub payload_text : (primary : String) (items : List String) → Result (Unit {0})
payload_text primary items = do
  cleaned ← clean_required_text primary
  raise_if
      (ltb 2000 (text_length primary)
        || ltb 25 (length items)
        || any (λ item. is_empty (strip item) || ltb 2000 (text_length item)) items)
      (invariant_violation "message_payload_bounds")

-- `__post_init__` of the payloads
unfoldable pub check_payload : MessagePayload → Result (Unit {0})
unfolding payload_text
check_payload (information_payload summary items) = payload_text summary items
check_payload (response_payload summary items) = payload_text summary items
check_payload (request_payload request_type question expected_response substantial_work) =
    payload_text request_type (question ∷ expected_response ∷ [])
check_payload (handoff_request_payload p) = payload_text p.reason_code (p.summary ∷ [])
check_payload (handoff_result_payload summary task_result_reference) =
    payload_text summary (task_result_reference ∷ [])

-- `sum(len(item) for item in items)`
abbrev pub total_chars : List String → ℕ
total_chars [] = 0
total_chars (item ∷ items) = text_length item + total_chars items

unfoldable pub payload_chars : MessagePayload → ℕ
payload_chars (information_payload summary items) = text_length summary + total_chars items
payload_chars (response_payload summary items) = text_length summary + total_chars items
payload_chars (request_payload request_type question expected_response substantial_work) =
    text_length request_type + text_length question + text_length expected_response
payload_chars (handoff_request_payload p) = text_length p.reason_code + text_length p.summary
payload_chars (handoff_result_payload summary task_result_reference) =
    text_length summary + text_length task_result_reference

unfoldable pub payload_item_count : MessagePayload → ℕ
payload_item_count (information_payload summary items) = length items
payload_item_count (response_payload summary items) = length items
payload_item_count (request_payload request_type question expected_response substantial_work) = 1
payload_item_count (handoff_request_payload p) = 1
payload_item_count (handoff_result_payload summary task_result_reference) = 1

pub record CommunicationReference : Type 0 where
  pub kind : ReferenceKind
  pub reference_id : String
  pub workspace_id : String
  pub source_agent_run_id : String

-- `CommunicationReference.__post_init__`
unfoldable pub check_reference : CommunicationReference → Result CommunicationReference
check_reference r = do
  cleaned ← clean_required_text r.reference_id
  raise_if (ltb 256 (text_length r.reference_id))
      (invariant_violation "communication_reference_bound")
  ok r

-- `(ref.kind, ref.reference_id)`, compared
abbrev pub same_reference : CommunicationReference → CommunicationReference → Bool
same_reference a b =
    str_eq (reference_value a.kind) (reference_value b.kind) && str_eq a.reference_id b.reference_id

pub record MessageThread : Type 0 where
  pub id : String
  pub workspace_id : String
  pub orchestration_run_id : String
  pub subject : String
  pub created_by : String
  pub created_at : DateTime
  pub status : ThreadStatus
  pub version : Version

-- `MessageThread.__post_init__`
unfoldable pub check_thread : MessageThread → Result MessageThread
check_thread t = do
  cleaned ← clean_required_text t.subject
  require_utc t.created_at
  raise_if (ltb 160 (text_length t.subject)) (invariant_violation "message_thread_subject_bound")
  ok t

-- `value is not None`
abbrev pub is_given : {A : Type 0} → Option A → Bool
is_given none = false
is_given (some value) = true

-- `bool(text)`
abbrev pub is_filled : Option String → Bool
is_filled none = false
is_filled (some s) = if is_empty s then false else true
