-- ===== src/Governance/Records.antt =====
-- The part of `InMemoryRuntimeStore` (agent_company_os/adapters/runtime_store.py) that keeps policies
-- and governed actions. A write that is refused has changed nothing, since each is `atomic`. Of runs
-- and actions the records have the fields that this part reads.
use nebula_os.Prelude.{
  ◌+◌, String, Bool, true, false, ◌&&◌, ◌||◌, Option, none, some, List, [], ◌∷◌, Dict, lookup,
  insert, values, ltb, leb, ◌==◌, str_eq, any, keep, is_nil, length, if◌then◌else◌,
}
use nebula_os.Domain.Errors.{
  Result, ok, workspace_mismatch, invariant_violation, raise_if, ◌>>=◌, ◌>>◌,
}
use nebula_os.Domain.Validation.{Version, next}
use nebula_os.Domain.Events.{Event}
use nebula_os.Store.Ops.{Store}
use nebula_os.Store.Tables.{found, get_workspace}
use nebula_os.Governance.Policy.{ApprovalPolicy}
use nebula_os.Governance.Action.{ApprovalDecision, GovernedAction, is_none}
use nebula_os.Governance.Same.{same_intent, same_request?, same_decision}

pub record AgentRun : Type 0 where
  pub id : String
  pub workspace_id : String
  pub goal_id : String
  pub task_id : String
  pub execution_id : String
  pub version : Version

pub record Action : Type 0 where
  pub id : String
  pub workspace_id : String
  pub run_id : String

pub record RuntimeStore : Type 0 where
  pub store : Store
  pub runs : Dict AgentRun
  pub actions : Dict Action
  pub log : List Event
  pub policies : Dict ApprovalPolicy
  pub governed : Dict GovernedAction

abbrev pub scope : (expected actual : String) → Result (Unit {0})
scope expected actual =
    raise_if (if str_eq expected actual then false else true)
      (workspace_mismatch "runtime_record" expected actual)

unfoldable pub get_run : RuntimeStore → (workspace_id run_id : String) → Result AgentRun
get_run s workspace_id run_id = do
  run ← found "AgentRun" run_id (lookup run_id s.runs)
  scope workspace_id run.workspace_id
  ok run

unfoldable pub get_action : RuntimeStore → (workspace_id action_id : String) → Result Action
get_action s workspace_id action_id = do
  action ← found "Action" action_id (lookup action_id s.actions)
  scope workspace_id action.workspace_id
  ok action

unfoldable pub approval_policy :
    RuntimeStore → (workspace_id : String) → Result (Option ApprovalPolicy)
approval_policy s workspace_id = do
  workspace ← get_workspace s.store.tables workspace_id
  ok (lookup workspace_id s.policies)

-- `old.version.next() if old else Version(1)`
abbrev pub next_version : Option ApprovalPolicy → Version
next_version none = 1
next_version (some old) = next old.version

unfoldable pub publish_approval_policy : ApprovalPolicy → RuntimeStore → Result RuntimeStore
unfolding approval_policy
publish_approval_policy policy s = do
  old ← approval_policy s policy.workspace_id
  raise_if (if policy.version == next_version old then false else true)
      (invariant_violation "approval_policy_version_sequence")
  ok (record s { policies = insert policy.workspace_id policy s.policies })

abbrev pub of_workspace : String → GovernedAction → Bool
of_workspace workspace_id g = str_eq g.intent.workspace_id workspace_id

unfoldable pub governed_actions :
    RuntimeStore → (workspace_id : String) → Result (List GovernedAction)
governed_actions s workspace_id = do
  workspace ← get_workspace s.store.tables workspace_id
  ok (keep (of_workspace workspace_id) (values s.governed))

unfoldable pub governed_action :
    RuntimeStore → (workspace_id intent_id : String) → Result GovernedAction
governed_action s workspace_id intent_id = do
  g ← found "ActionIntent" intent_id (lookup intent_id s.governed)
  scope workspace_id g.intent.workspace_id
  ok g

-- `record.decisions[: len(old.decisions)] == old.decisions`
abbrev pub begins_with : (old decisions : List ApprovalDecision) → Bool
begins_with [] ds = true
begins_with (o ∷ os) [] = false
begins_with (o ∷ os) (d ∷ ds) = same_decision d o && begins_with os ds

-- `old is not None and new != old`, for identifiers
abbrev pub changed_id : (old current : Option String) → Bool
changed_id none current = false
changed_id (some a) none = true
changed_id (some a) (some b) = if str_eq b a then false else true

-- A new record that is not in its initial state.
unfoldable pub not_initial : GovernedAction → (expected : Option Version) → Bool
not_initial g expected =
    (if is_none expected then false else true)
    || (if g.version == 1 then false else true)
    || (if is_nil g.decisions then false else true)
    || g.cancelled
    || (if is_none g.invocation_id then false else true)
    || g.consumed

-- A change of what may not change.
unfoldable pub rewrites_history : (old g : GovernedAction) → Bool
rewrites_history old g =
    (if same_intent g.intent old.intent then false else true)
    || (if same_request? g.request old.request then false else true)
    || (if g.version == next old.version then false else true)
    || (if begins_with old.decisions g.decisions then false else true)
    || ltb (length old.decisions + 1) (length g.decisions)
    || ltb 2 (length g.decisions)
    || (old.cancelled && (if g.cancelled then false else true))
    || changed_id old.invocation_id g.invocation_id
    || (old.consumed && (if g.consumed then false else true))

abbrev pub same_version? : Version → Option Version → Bool
same_version? v none = false
same_version? v (some w) = v == w

-- The checks of `save_governed_action` after the lineage, for a new record and an old one.
unfoldable pub check_record :
    RuntimeStore
    → GovernedAction
    → (expected : Option Version) → Option GovernedAction
    → Result (Unit {0})
check_record s g expected none = do
  raise_if (not_initial g expected) (invariant_violation "governed_action_initial_state")
  stored ← governed_actions s g.intent.workspace_id
  raise_if
      (leb 200 (length stored)
        || any (λ o. str_eq o.intent.action_id g.intent.action_id) (values s.governed))
      (invariant_violation "governed_action_initial_state")
check_record s g expected (some old) = do
  raise_if (if same_version? old.version expected then false else true)
      (invariant_violation "governed_action_version_conflict")
  raise_if (rewrites_history old g) (invariant_violation "governed_action_history_immutable")

-- The run, the action and the intent belong together.
unfoldable pub check_lineage : RuntimeStore → GovernedAction → Result (Unit {0})
check_lineage s g = do
  run ← get_run s g.intent.workspace_id g.intent.run_id
  action ← get_action s g.intent.workspace_id g.intent.action_id
  raise_if
      ((if str_eq action.run_id run.id then false else true)
        || (if str_eq g.intent.goal_id run.goal_id then false else true)
        || (if str_eq g.intent.task_id run.task_id then false else true)
        || (if str_eq g.intent.execution_id run.execution_id then false else true))
      (invariant_violation "governed_action_lineage")

unfoldable pub save_governed_action :
    GovernedAction → (expected : Option Version) → RuntimeStore → Result RuntimeStore
save_governed_action g expected s = do
  check_lineage s g
  check_record s g expected (lookup g.intent.id s.governed)
  ok (record s { governed = insert g.intent.id g s.governed })
