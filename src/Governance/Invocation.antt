-- ===== src/Governance/Invocation.antt =====
-- Tool invocations (agent_company_os/domain/tools.py, `ToolInvocation`).
use Prim.Native.Char.{code}
use nebula_os.Prelude.{
  ℕ, ◌≤◌, String, Bool, true, false, ◌&&◌, ◌||◌, ◌≡◌, refl, Option, none, some, List, ltb, leb,
  ◌==◌, str_eq, same_bool, if◌then◌else◌, arith,
}
use nebula_os.Domain.Errors.{Result, ok, invariant_violation, raise_if, ◌>>◌}
use nebula_os.Domain.Validation.{DateTime, Version, next, require_utc}
use nebula_os.Planning.Plan.{text_length}
use nebula_os.Governance.Tools.{ToolVersion}

pub data ToolError : Type 0 where
  rejected validation_error unauthorized not_found timeout rate_limited upstream_unavailable :
      ToolError
  malformed_output cancelled internal_executor_error output_too_large stale_result : ToolError

pub data ToolInvocationStatus : Type 0 where
  running succeeded failed cancelled : ToolInvocationStatus

pub data ToolInput : Type 0 where
  company_lookup_input : (company_name : String) → ToolInput
  source_lookup_input : (source_id : String) (keys : List String) → ToolInput
  fixture_message_input : (destination message : String) → ToolInput

pub record ToolInvocation : Type 0 where
  pub id : String
  pub workspace_id : String
  pub run_id : String
  pub action_id : String
  pub task_attempt_id : String
  pub execution_id : String
  pub tool_version : ToolVersion
  pub validated_input : ToolInput
  pub request_fingerprint : String
  pub run_version : Version
  pub parent_versions : List Version
  pub registry_revision : ℕ
  pub started_at : DateTime
  pub version : Version
  pub status : ToolInvocationStatus
  pub ended_at : Option DateTime
  pub error_code : Option ToolError

abbrev pub is_running : ToolInvocationStatus → Bool
is_running s = elim s [ ToolInvocationStatus.running ↦ true | _ ↦ false ]

-- `status in (FAILED, CANCELLED)`
abbrev pub has_failed : ToolInvocationStatus → Bool
has_failed s = elim s [
  | ToolInvocationStatus.running ↦ false
  | ToolInvocationStatus.succeeded ↦ false
  | ToolInvocationStatus.failed ↦ true
  | ToolInvocationStatus.cancelled ↦ true
]

abbrev pub is_some {ℓ} : {A : Type ℓ} → Option A → Bool
is_some none = false
is_some (some a) = true

-- Every character is one of `0123456789abcdef`.
abbrev pub is_hex : String → Bool
is_hex String.[] = true
is_hex (String.◌∷◌ c s) =
    ((leb b'0' (code c) && leb (code c) b'9') || (leb b'a' (code c) && leb (code c) b'f'))
    && is_hex s

-- The check of `ended_at`, where there is one.
unfoldable pub check_end : (started_at : DateTime) → Option DateTime → Result (Unit {0})
check_end started_at none = ok tt
check_end started_at (some t) = do
  require_utc t
  raise_if (ltb t.instant started_at.instant) (invariant_violation "tool_time_order")

unfoldable pub check_digest : String → Result (Unit {0})
check_digest digest =
    raise_if (if text_length digest == 64 && is_hex digest then false else true)
      (invariant_violation "tool_request_digest")

-- `ToolInvocation.__post_init__`
unfoldable pub check_invocation : ToolInvocation → Result ToolInvocation
check_invocation i = do
  require_utc i.started_at
  raise_if (same_bool (is_running i.status) (is_some i.ended_at))
      (invariant_violation "tool_terminal_end_time")
  raise_if (if str_eq i.tool_version.definition.workspace_id i.workspace_id then false else true)
      (invariant_violation "tool_invocation_scope")
  check_end i.started_at i.ended_at
  raise_if (if same_bool (has_failed i.status) (is_some i.error_code) then false else true)
      (invariant_violation "tool_failure_reason")
  check_digest i.request_fingerprint
  ok i

-- The status that `finish` gives.
abbrev pub finished_status : Option ToolError → ToolInvocationStatus
finished_status none = ToolInvocationStatus.succeeded
finished_status (some e) = elim e [
  | ToolError.cancelled ↦ ToolInvocationStatus.cancelled
  | _ ↦ ToolInvocationStatus.failed
]

abbrev pub finished : ToolInvocation → DateTime → Option ToolError → ToolInvocation
finished i at error = record i {
  status = finished_status error;
  ended_at = some at;
  error_code = error;
  version = next i.version;
}

unfoldable pub finish :
    ToolInvocation → (at : DateTime) → (error : Option ToolError) → Result ToolInvocation
finish i at error = do
  raise_if (if is_running i.status then false else true)
      (invariant_violation "terminal_tool_invocation_immutable")
  require_utc at
  raise_if (ltb at.instant i.started_at.instant) (invariant_violation "tool_time_order")
  check_invocation (finished i at error)

status_fits : (error : Option ToolError) → has_failed (finished_status error) ≡ is_some error
status_fits none = refl
status_fits (some e) = ground arith

pub finished_ended : (error : Option ToolError) → is_running (finished_status error) ≡ false
finished_ended none = refl
finished_ended (some e) = ground arith

-- The result of a timely finish passes its check.
pub finished_passes :
    (i : ToolInvocation) (at : DateTime) (error : Option ToolError)
    → check_invocation i ≡ ok i
    → require_utc at ≡ ok tt
    → i.started_at.instant ≤ at.instant
    → check_invocation (finished i at error) ≡ ok (finished i at error)
unfolding check_invocation check_end
finished_passes i at error h utc later = ground (arith, status_fits error, finished_ended error)
