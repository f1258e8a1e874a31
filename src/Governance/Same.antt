-- ===== src/Governance/Same.antt =====
-- Equality of intents, requests and decisions (agent_company_os/domain/governance.py), as dataclasses have it.
use nebula_os.Prelude.{Bool, true, false, ◌&&◌, Option, none, some, ◌==◌, str_eq}
use nebula_os.Domain.Validation.{same_time}
use nebula_os.Governance.Tools.{same_tool}
use nebula_os.Governance.Policy.{effect_value, ReviewerPrincipal, same_reviewer, same_policy}
use nebula_os.Governance.Action.{ActionIntent, ApprovalRequest, ApprovalDecision, kind_value}

-- `a == b`, for intents, requests and decisions. An intent is compared in two halves.
unfoldable pub same_lineage : ActionIntent → ActionIntent → Bool
same_lineage a b =
    str_eq a.id b.id
    && str_eq a.workspace_id b.workspace_id
    && str_eq a.run_id b.run_id
    && str_eq a.action_id b.action_id
    && str_eq a.goal_id b.goal_id
    && str_eq a.task_id b.task_id
    && str_eq a.execution_id b.execution_id

unfoldable pub same_content : ActionIntent → ActionIntent → Bool
same_content a b =
    same_tool a.tool b.tool
    && str_eq a.arguments_json b.arguments_json
    && str_eq a.destination b.destination
    && str_eq a.fingerprint b.fingerprint
    && same_policy a.policy b.policy
    && str_eq (effect_value a.effect) (effect_value b.effect)
    && same_time a.created_at b.created_at
    && same_time a.expires_at b.expires_at

unfoldable pub same_intent : ActionIntent → ActionIntent → Bool
same_intent a b = same_lineage a b && same_content a b

unfoldable pub same_request? : Option ApprovalRequest → Option ApprovalRequest → Bool
same_request? none none = true
same_request? none (some b) = false
same_request? (some a) none = false
same_request? (some a) (some b) =
    str_eq a.intent_id b.intent_id
    && str_eq a.fingerprint b.fingerprint
    && same_time a.expires_at b.expires_at
    && str_eq a.preview b.preview

abbrev pub same_reviewer? : Option ReviewerPrincipal → Option ReviewerPrincipal → Bool
same_reviewer? none none = true
same_reviewer? none (some b) = false
same_reviewer? (some a) none = false
same_reviewer? (some a) (some b) = same_reviewer a b

unfoldable pub same_decision : ApprovalDecision → ApprovalDecision → Bool
same_decision a b =
    str_eq a.intent_id b.intent_id
    && str_eq a.fingerprint b.fingerprint
    && a.policy_version == b.policy_version
    && str_eq (kind_value a.kind) (kind_value b.kind)
    && same_reviewer? a.reviewer b.reviewer
    && same_time a.at b.at
    && str_eq a.reason b.reason
