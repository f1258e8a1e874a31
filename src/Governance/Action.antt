-- ===== src/Governance/Action.antt =====
-- Intents, approval requests, decisions and governed actions (agent_company_os/domain/governance.py).
-- `fingerprint` is a digest of the JSON text of the intent: it is a parameter of its check.
use Prim.Native.Char.{code}
use nebula_os.Prelude.{
  ℕ, ◌+◌, ◌*◌, String, Bool, true, false, ◌&&◌, ◌||◌, Option, none, some, List, [], ◌∷◌, ltb, leb,
  ◌==◌, str_eq, length, if◌then◌else◌,
}
use nebula_os.Domain.Errors.{Result, ok, invariant_violation, raise_if, ◌>>◌}
use nebula_os.Domain.Validation.{DateTime, Version, require_utc, same_time}
use nebula_os.Planning.Plan.{text_length}
use nebula_os.Governance.Tools.{ToolVersion}
use nebula_os.Governance.Policy.{
  ApprovalEffect, effect_value, ReviewerPrincipal, is_reviewer, ApprovalPolicy,
}

pub data DecisionKind : Type 0 where
  approved rejected expired revoked : DecisionKind

abbrev pub is_approved : DecisionKind → Bool
is_approved approved = true
is_approved rejected = false
is_approved expired = false
is_approved revoked = false

abbrev pub is_expired : DecisionKind → Bool
is_expired approved = false
is_expired rejected = false
is_expired expired = true
is_expired revoked = false

abbrev pub is_revoked : DecisionKind → Bool
is_revoked approved = false
is_revoked rejected = false
is_revoked expired = false
is_revoked revoked = true

abbrev pub kind_value : DecisionKind → String
kind_value approved = "approved"
kind_value rejected = "rejected"
kind_value expired = "expired"
kind_value revoked = "revoked"

-- `x is None`
abbrev pub is_none {ℓ} : {A : Type ℓ} → Option A → Bool
is_none none = true
is_none (some a) = false

pub record ActionIntent : Type 0 where
  pub id : String
  pub workspace_id : String
  pub run_id : String
  pub action_id : String
  pub goal_id : String
  pub task_id : String
  pub execution_id : String
  pub tool : ToolVersion
  pub arguments_json : String
  pub destination : String
  pub fingerprint : String
  pub policy : ApprovalPolicy
  pub effect : ApprovalEffect
  pub created_at : DateTime
  pub expires_at : DateTime

-- `len(text.encode())`, in UTF-8
abbrev pub encoded_length : String → ℕ
encoded_length String.[] = 0
encoded_length (String.◌∷◌ c s) =
    (if ltb (code c) 0x80
      then 1
      else if ltb (code c) 0x800
      then 2
      else if ltb (code c) 0x10000
      then 3
      else 4)
    + encoded_length s

-- `fingerprint`: of the workspace, the run, the action, the tool and its arguments.
abbrev pub Fingerprint : Type 0
Fingerprint = (workspace actor action : String) → ToolVersion → (arguments_json : String) → String

-- `ActionIntent.__post_init__`
unfoldable pub check_intent : Fingerprint → ActionIntent → Result ActionIntent
check_intent fingerprint i = do
  require_utc i.created_at
  require_utc i.expires_at
  raise_if
      (leb i.expires_at.instant i.created_at.instant
        || ltb (i.created_at.instant + i.policy.expiry_seconds * 1000000) i.expires_at.instant
        || (if str_eq i.policy.workspace_id i.workspace_id then false else true)
        || (if str_eq i.tool.definition.workspace_id i.workspace_id then false else true)
        || ltb i.tool.max_input_bytes (encoded_length i.arguments_json)
        || (if str_eq i.fingerprint
              (fingerprint i.workspace_id i.run_id i.action_id i.tool i.arguments_json)
            then false
            else true))
      (invariant_violation "intent_binding")
  ok i

pub record ApprovalRequest : Type 0 where
  pub intent_id : String
  pub fingerprint : String
  pub expires_at : DateTime
  pub preview : String

pub record ApprovalDecision : Type 0 where
  pub intent_id : String
  pub fingerprint : String
  pub policy_version : Version
  pub kind : DecisionKind
  pub reviewer : Option ReviewerPrincipal
  pub at : DateTime
  pub reason : String

-- `ApprovalDecision.__post_init__`
unfoldable pub check_decision : ApprovalDecision → Result ApprovalDecision
check_decision d = do
  require_utc d.at
  raise_if
      (ltb 256 (text_length d.reason)
        || ((if is_expired d.kind then false else true) && is_none d.reviewer))
      (invariant_violation "approval_decision_schema")
  ok d

pub record GovernedAction : Type 0 where
  pub intent : ActionIntent
  pub request : Option ApprovalRequest
  pub decisions : List ApprovalDecision
  pub cancelled : Bool
  pub invocation_id : Option String
  pub consumed : Bool
  pub version : Version

abbrev pub is_required : ApprovalEffect → Bool
is_required e = str_eq (effect_value e) "approval_required"

-- The first test of `GovernedAction.__post_init__`.
unfoldable pub misshapen : GovernedAction → Bool
misshapen g =
    ltb 2 (length g.decisions)
    || (g.consumed && is_none g.invocation_id)
    || (if is_required g.intent.effect
        then is_none g.request
        else if is_none g.request
        then false
        else true)

-- The second: the request is for another intent.
unfoldable pub unbound_request : ActionIntent → Option ApprovalRequest → Bool
unbound_request i none = false
unbound_request i (some r) =
    (if str_eq r.intent_id i.id then false else true)
    || (if str_eq r.fingerprint i.fingerprint then false else true)
    || (if same_time r.expires_at i.expires_at then false else true)
    || ltb 600 (text_length r.preview)

-- `decision.reviewer is not None and decision.reviewer not in intent.policy.reviewers`
abbrev pub foreign_reviewer : ActionIntent → Option ReviewerPrincipal → Bool
foreign_reviewer i none = false
foreign_reviewer i (some r) = if is_reviewer r i.policy.reviewers then false else true

-- The tests on a decision that do not depend on its place.
unfoldable pub unbound_decision : GovernedAction → ApprovalDecision → Bool
unbound_decision g d =
    is_none g.request
    || (if str_eq d.intent_id g.intent.id then false else true)
    || (if str_eq d.fingerprint g.intent.fingerprint then false else true)
    || (if d.policy_version == g.intent.policy.version then false else true)
    || ltb d.at.instant g.intent.created_at.instant
    || (is_approved d.kind && leb g.intent.expires_at.instant d.at.instant)
    || (is_expired d.kind && ltb d.at.instant g.intent.expires_at.instant)
    || foreign_reviewer g.intent d.reviewer

-- What the second decision must be like, after the first.
abbrev pub out_of_turn : (first second : ApprovalDecision) → Bool
out_of_turn first second =
    (if is_approved first.kind then false else true)
    || (if is_revoked second.kind || is_expired second.kind then false else true)
    || ltb second.at.instant first.at.instant

-- The loop over the decisions. A third decision does not occur: `misshapen` has refused it.
unfoldable pub unbound_decisions : GovernedAction → List ApprovalDecision → Bool
unbound_decisions g [] = false
unbound_decisions g (first ∷ []) = unbound_decision g first || is_revoked first.kind
unbound_decisions g (first ∷ second ∷ rest) =
    unbound_decision g first
    || is_revoked first.kind
    || unbound_decision g second
    || out_of_turn first second

-- `GovernedAction.__post_init__`
unfoldable pub check_action : GovernedAction → Result GovernedAction
unfolding misshapen unbound_request unbound_decision unbound_decisions
check_action g = do
  raise_if (misshapen g) (invariant_violation "governed_action_schema")
  raise_if (unbound_request g.intent g.request) (invariant_violation "approval_request_binding")
  raise_if (unbound_decisions g g.decisions) (invariant_violation "approval_decision_binding")
  ok g
