-- ===== src/Governance/Receipt.antt =====
-- The contracts of tools and what is kept of their calls (agent_company_os/domain/tools.py,
-- `RetryPolicy`, `ToolVersion`, `ToolOutput`, `ToolReceipt` and `ToolObservationData`; `Fact` of
-- domain/agent.py). `max_retries` of a tool version is the field of its retry policy.
use nebula_os.Prelude.{
  ℕ, String, Bool, true, false, ◌&&◌, ◌||◌, Option, none, some, List, [], ◌∷◌, ltb, leb, ◌==◌,
  str_eq, same_bool, any, length, if◌then◌else◌,
}
use nebula_os.Domain.Errors.{Result, ok, invariant_violation, raise_if, ◌>>◌}
use nebula_os.Domain.Validation.{Version, strip, is_empty}
use nebula_os.Planning.Plan.{text_length}
use nebula_os.Governance.Tools.{
  ExecutorKind, ToolVersion, send_fixture_message, company_lookup, source_lookup,
}
use nebula_os.Governance.Invocation.{
  ToolError, ToolInvocation, ToolInvocationStatus, is_running, is_some,
}

-- `RetryPolicy.__post_init__`
unfoldable pub check_retries : (max_retries : ℕ) → Result ℕ
check_retries max_retries = do
  raise_if (if max_retries == 0 then false else true)
      (invariant_violation "stage3_no_automatic_retries")
  ok max_retries

-- The text `f"{self.executor_kind.value}.v1"`.
abbrev pub input_contract : ExecutorKind → String
input_contract send_fixture_message = "send_fixture_message.v1"
input_contract company_lookup = "company_lookup.v1"
input_contract source_lookup = "source_lookup.v1"

-- `not 1 <= value <= maximum`
abbrev pub exceeds : ℕ × ℕ → Bool
exceeds (value, maximum) = if leb 1 value && leb value maximum then false else true

-- `ToolVersion.__post_init__`
unfoldable pub check_tool_version : ToolVersion → Result ToolVersion
check_tool_version t = do
  raise_if
      (if str_eq t.input_schema (input_contract t.executor_kind)
          && str_eq t.output_schema "facts.v1"
        then false
        else true)
      (invariant_violation "unsupported_tool_contract")
  raise_if
      (any exceeds
        ((t.timeout_seconds, 30) ∷ (t.max_input_bytes, 4096) ∷ (t.max_output_bytes, 16384) ∷ []))
      (invariant_violation "tool_limit_range")
  raise_if (if str_eq t.trust "trusted_runtime_fixture" then false else true)
      (invariant_violation "stage3_fixture_trust_only")
  raise_if
      (any (λ text. is_empty (strip text) || ltb 500 (text_length text))
        (t.definition.name ∷ t.definition.description ∷ []))
      (invariant_violation "tool_description_size")
  ok t

pub record Fact : Type 0 where
  pub key : String
  pub value : String
  pub source_id : String

pub record ToolOutput : Type 0 where
  pub subject : String
  pub facts : List Fact
  pub notes : String

pub record ToolReceipt : Type 0 where
  pub id : String
  pub invocation : ToolInvocation
  pub output : Option ToolOutput
  pub input_bytes : ℕ
  pub output_bytes : ℕ
  pub remote_outcome : String
  pub schema_version : ℕ

abbrev pub has_succeeded : ToolInvocationStatus → Bool
has_succeeded s = elim s [
  | ToolInvocationStatus.running ↦ false
  | ToolInvocationStatus.succeeded ↦ true
  | ToolInvocationStatus.failed ↦ false
  | ToolInvocationStatus.cancelled ↦ false
]

-- `self.invocation.error_code is ToolError.REJECTED`
abbrev pub was_rejected : Option ToolError → Bool
was_rejected none = false
was_rejected (some e) = elim e [ ToolError.rejected ↦ true | _ ↦ false ]

-- The outcome that a receipt has to name.
abbrev pub outcome : Option ToolOutput → Option ToolError → String
outcome (some o) error = "observed"
outcome none error = if was_rejected error then "observed_failure" else "unknown"

-- `ToolReceipt.__post_init__`
unfoldable pub check_receipt : ToolReceipt → Result ToolReceipt
check_receipt r = do
  raise_if (is_running r.invocation.status || (if r.schema_version == 1 then false else true))
      (invariant_violation "receipt_requires_terminal_invocation")
  raise_if
      (if same_bool (has_succeeded r.invocation.status) (is_some r.output) then false else true)
      (invariant_violation "receipt_success_requires_validated_output")
  raise_if
      ((if ltb 0 r.input_bytes && leb r.input_bytes r.invocation.tool_version.max_input_bytes
          then false
          else true)
        || (if leb r.output_bytes r.invocation.tool_version.max_output_bytes then false else true)
        || (if str_eq r.remote_outcome (outcome r.output r.invocation.error_code)
            then false
            else true))
      (invariant_violation "receipt_metadata_contract")
  ok r

pub record ToolObservationData : Type 0 where
  pub receipt_id : Option String
  pub tool_id : String
  pub tool_version : Option Version
  pub error_code : Option ToolError
  pub facts : List Fact
  pub notes : String

-- `ToolObservationData.__post_init__`
unfoldable pub check_observation : ToolObservationData → Result ToolObservationData
check_observation o = do
  raise_if (ltb 5 (length o.facts) || ltb 512 (text_length o.notes))
      (invariant_violation "tool_observation_bounds")
  raise_if
      ((if is_some o.error_code then false else true)
        && (if is_some o.receipt_id then false else true))
      (invariant_violation "tool_success_requires_receipt")
  raise_if (is_some o.error_code && ltb 0 (length o.facts))
      (invariant_violation "failed_tool_has_no_evidence")
  ok o
