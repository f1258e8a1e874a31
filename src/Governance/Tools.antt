-- ===== src/Governance/Tools.antt =====
-- The tools that an action names (agent_company_os/domain/tools.py), and when two are equal.
use nebula_os.Prelude.{ℕ, String, Bool, ◌&&◌, ◌==◌, str_eq}
use nebula_os.Domain.Validation.{Version}

pub data ToolRisk : Type 0 where
  read_only internal_write external_write high_risk : ToolRisk

abbrev pub risk_value : ToolRisk → String
risk_value read_only = "read_only"
risk_value internal_write = "internal_write"
risk_value external_write = "external_write"
risk_value high_risk = "high_risk"

pub data ExecutorKind : Type 0 where
  send_fixture_message company_lookup source_lookup : ExecutorKind

abbrev pub executor_value : ExecutorKind → String
executor_value send_fixture_message = "send_fixture_message"
executor_value company_lookup = "company_lookup"
executor_value source_lookup = "source_lookup"

pub record ToolGrant : Type 0 where
  pub tool_id : String
  pub version : Version

pub record ToolDefinition : Type 0 where
  pub id : String
  pub workspace_id : String
  pub name : String
  pub description : String
  pub risk : ToolRisk

pub record ToolVersion : Type 0 where
  pub definition : ToolDefinition
  pub version : Version
  pub executor_kind : ExecutorKind
  pub input_schema : String
  pub output_schema : String
  pub timeout_seconds : ℕ
  pub max_input_bytes : ℕ
  pub max_output_bytes : ℕ
  pub max_retries : ℕ
  pub trust : String

-- `ToolVersion.grant`
abbrev pub grant : ToolVersion → ToolGrant
grant t = record { tool_id = t.definition.id; version = t.version }

abbrev pub same_grant : ToolGrant → ToolGrant → Bool
same_grant a b = str_eq a.tool_id b.tool_id && a.version == b.version

abbrev pub same_definition : ToolDefinition → ToolDefinition → Bool
same_definition a b =
    str_eq a.id b.id
    && str_eq a.workspace_id b.workspace_id
    && str_eq a.name b.name
    && str_eq a.description b.description
    && str_eq (risk_value a.risk) (risk_value b.risk)

unfoldable pub same_tool : ToolVersion → ToolVersion → Bool
same_tool a b =
    same_definition a.definition b.definition
    && a.version == b.version
    && str_eq (executor_value a.executor_kind) (executor_value b.executor_kind)
    && str_eq a.input_schema b.input_schema
    && str_eq a.output_schema b.output_schema
    && a.timeout_seconds == b.timeout_seconds
    && a.max_input_bytes == b.max_input_bytes
    && a.max_output_bytes == b.max_output_bytes
    && a.max_retries == b.max_retries
    && str_eq a.trust b.trust
