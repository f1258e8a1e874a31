-- ===== src/Governance/FinishingTests.antt =====
-- An invocation of a tool that is rejected by the other side.
use nebula_os.Prelude.{◌≤◌, ◌≡◌, refl, ◌↔◌, true, false, not, none, some, []}
use nebula_os.Domain.Errors.{ok, err, invariant_violation}
use nebula_os.Domain.Validation.{require_utc, strip, strip_start, strip_end}
use nebula_os.Governance.Example.{at, sender}
use nebula_os.Governance.Invocation.{
  ToolError, ToolInvocation, ToolInvocationStatus, fixture_message_input, is_running,
  check_invocation, check_end, check_digest, finish, finished,
}
use nebula_os.Governance.Finishing.{IsFinished, finish_accepts, finish-finish}
use nebula_os.Governance.Receipt.{
  ToolReceipt, ToolObservationData, check_retries, check_tool_version, check_receipt,
  check_observation,
}
use nebula_os.Governance.Receipts.{outcome_of, check_receipt-finish}

abbrev sending : ToolInvocation
sending = record {
  id = "call";
  workspace_id = "w";
  run_id = "run";
  action_id = "action";
  task_attempt_id = "a";
  execution_id = "x";
  tool_version = sender;
  validated_input = fixture_message_input "outbox" "hello";
  request_fingerprint = "0123456789abcdef0123456789abcdef0123456789abcdef0123456789abcdef";
  run_version = 1;
  parent_versions = [];
  registry_revision = 0;
  started_at = at 1;
  version = 1;
  status = ToolInvocationStatus.running;
  ended_at = none;
  error_code = none;
}

sending_checked : check_invocation sending ≡ ok sending
unfolding check_invocation check_end check_digest require_utc
sending_checked = refl

rejection :
    finish sending (at 2) (some ToolError.rejected)
    ≡ ok (finished sending (at 2) (some ToolError.rejected))
unfolding finish check_invocation check_end check_digest require_utc
rejection = refl

finish_accepts_example :
    (finish sending (at 2) (some ToolError.rejected)
      ≡ ok (finished sending (at 2) (some ToolError.rejected)))
    ↔ ((is_running sending.status ≡ true)
        × (require_utc (at 2) ≡ ok tt)
        × (1 ≤ 2)
        × IsFinished sending
            (at 2)
            (some ToolError.rejected)
            (finished sending (at 2) (some ToolError.rejected)))
finish_accepts_example =
    finish_accepts sending (at 2) (some ToolError.rejected) sending_checked
      (finished sending (at 2) (some ToolError.rejected))

finish-finish_example :
    finish (finished sending (at 2) (some ToolError.rejected)) (at 3) none
    ≡ err (invariant_violation "terminal_tool_invocation_immutable")
finish-finish_example =
    finish-finish sending (finished sending (at 2) (some ToolError.rejected)) (at 2)
      (some ToolError.rejected) rejection (at 3) none

sender_checked : check_tool_version sender ≡ ok sender
unfolding check_tool_version strip strip_start strip_end
sender_checked = refl

slow_refused :
    check_tool_version (record sender { timeout_seconds = 31 })
    ≡ err (invariant_violation "tool_limit_range")
unfolding check_tool_version
slow_refused = refl

retries_refused : check_retries 1 ≡ err (invariant_violation "stage3_no_automatic_retries")
unfolding check_retries
retries_refused = refl

abbrev receipt : ToolReceipt
receipt = record {
  id = "receipt";
  invocation = finished sending (at 2) (some ToolError.rejected);
  output = none;
  input_bytes = 40;
  output_bytes = 0;
  remote_outcome = "observed_failure";
  schema_version = 1;
}

receipt_checked : check_receipt receipt ≡ ok receipt
unfolding check_receipt
receipt_checked = refl

check_receipt-finish_example : (check_receipt receipt ≡ ok receipt) ↔ (
    (receipt.schema_version ≡ 1)
    × (false ≡ not true)
    × (1 ≤ 40)
    × (40 ≤ 2048)
    × (0 ≤ 8192)
    × (receipt.remote_outcome ≡ outcome_of (some ToolError.rejected)))
check_receipt-finish_example =
    check_receipt-finish sending (at 2) (some ToolError.rejected) receipt rejection

abbrev observation : ToolObservationData
observation = record {
  receipt_id = none;
  tool_id = "send";
  tool_version = some 1;
  error_code = none;
  facts = [];
  notes = "";
}

unproved_refused :
    check_observation observation ≡ err (invariant_violation "tool_success_requires_receipt")
unfolding check_observation
unproved_refused = refl
