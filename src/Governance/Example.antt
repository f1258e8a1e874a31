-- ===== src/Governance/Example.antt =====
-- A message that needs an approval, and the stores around it
-- (agent_company_os/application/governance.py).
use nebula_os.Prelude.{ℕ, String, true, false, none, some, [], ◌∷◌}
use nebula_os.Domain.Validation.{DateTime, ahead}
use nebula_os.Domain.Events.{EventType}
use nebula_os.Domain.Workspace
use nebula_os.Domain.Workspace.{Workspace}
use nebula_os.Store.Ops.{empty_store}
use nebula_os.Governance.Tools.{ToolVersion, external_write, send_fixture_message}
use nebula_os.Governance.Policy.{ApprovalPolicy, ReviewerPrincipal, required}
use nebula_os.Governance.Action.{ApprovalDecision, DecisionKind, GovernedAction}
use nebula_os.Governance.Records.{RuntimeStore, AgentRun}
use nebula_os.Governance.Log.{Stamp, event_of}

abbrev pub at : ℕ → DateTime
at n = record { instant = n; zone = ahead 0 }

abbrev pub reviewer : ReviewerPrincipal
reviewer = record { id = "r"; workspace_id = "w" }

abbrev pub sender : ToolVersion
sender = record {
  definition = record {
    id = "send";
    workspace_id = "w";
    name = "send";
    description = "a message";
    risk = external_write;
  };
  version = 1;
  executor_kind = send_fixture_message;
  input_schema = "send_fixture_message.v1";
  output_schema = "facts.v1";
  timeout_seconds = 3;
  max_input_bytes = 2048;
  max_output_bytes = 8192;
  max_retries = 0;
  trust = "trusted_runtime_fixture";
}

abbrev policy : ApprovalPolicy
policy = record {
  workspace_id = "w";
  version = 1;
  tools = record { tool_id = "send"; version = 1 } ∷ [];
  destinations = "desk" ∷ [];
  reviewers = reviewer ∷ [];
  bounded_execute = false;
  enabled = true;
  expiry_seconds = 30;
}

abbrev pub message : GovernedAction
message = record {
  intent = record {
    id = "intent";
    workspace_id = "w";
    run_id = "run";
    action_id = "action";
    goal_id = "g";
    task_id = "t";
    execution_id = "x";
    tool = sender;
    arguments_json = "[]";
    destination = "desk";
    fingerprint = "abc";
    policy = policy;
    effect = required;
    created_at = at 0;
    expires_at = at 100;
  };
  request =
      some (record {
        intent_id = "intent";
        fingerprint = "abc";
        expires_at = at 100;
        preview = "send";
      });
  decisions = [];
  cancelled = false;
  invocation_id = none;
  consumed = false;
  version = 1;
}

abbrev approval : ApprovalDecision
approval = record {
  intent_id = "intent";
  fingerprint = "abc";
  policy_version = 1;
  kind = DecisionKind.approved;
  reviewer = some reviewer;
  at = at 2;
  reason = "";
}

abbrev pub approved_message : GovernedAction
approved_message = record message { decisions = approval ∷ []; version = 2 }

abbrev pub claimed_message : GovernedAction
claimed_message = record approved_message { invocation_id = some "call"; version = 3 }

abbrev acme : Workspace
acme = record {
  id = "w";
  name = "acme";
  status = Workspace.active;
  version = 1;
  created_at = at 0;
  updated_at = at 0;
}

abbrev run : AgentRun
run = record {
  id = "run";
  workspace_id = "w";
  goal_id = "g";
  task_id = "t";
  execution_id = "x";
  version = 1;
}

-- A run and its action, and no governed action yet.
abbrev pub runtime : RuntimeStore
runtime = record {
  store = record empty_store {
    tables = record empty_store.tables { workspaces = ("w", acme) ∷ [] };
  };
  runs = ("run", run) ∷ [];
  actions = ("action", record { id = "action"; workspace_id = "w"; run_id = "run" }) ∷ [];
  log = [];
  policies = ("w", policy) ∷ [];
  governed = [];
}

abbrev pub stamp : String → Stamp
stamp id = record { event_id = id; at = at 3 }

-- The store after the preparation, after the approval, and after the claim.
abbrev pub prepared_store : RuntimeStore
prepared_store = record runtime { governed = ("intent", message) ∷ [] }

abbrev pub approved_store : RuntimeStore
approved_store = record runtime {
  governed = ("intent", approved_message) ∷ [];
  log = event_of approved_message EventType.approval_granted (stamp "d") run ∷ [];
}

abbrev pub claimed_store : RuntimeStore
claimed_store = record approved_store {
  governed = ("intent", claimed_message) ∷ [];
  log =
      event_of approved_message EventType.approval_granted (stamp "d") run
      ∷ event_of claimed_message EventType.action_execution_authorized (stamp "e") run
      ∷ [];
}
