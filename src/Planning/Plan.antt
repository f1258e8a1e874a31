-- ===== src/Planning/Plan.antt =====
-- Plans, requests and the catalogue of agents (agent_company_os/domain/orchestration.py), with the
-- scopes of memory that they name (domain/memory.py). A proposal is built by the constructors, so
-- what `validate_plan` reads has passed `check_planned_task` and `check_proposal`.
use nebula_os.Prelude.{
  ℕ, suc, String, Bool, true, false, ◌&&◌, ◌||◌, Option, List, ltb, leb, ◌==◌, str_eq, any, all,
  is_nil, length, all_distinct, is_subset, if◌then◌else◌,
}
use nebula_os.Domain.Errors.{Result, ok, invariant_violation, raise_if, ◌>>=◌, ◌>>◌}
use nebula_os.Domain.Validation.{Version, is_empty, clean_required_text}
use nebula_os.Planning.Policy.{OrchestrationPolicy}

-- `len(text)`
abbrev pub text_length : String → ℕ
text_length String.[] = 0
text_length (String.◌∷◌ c s) = suc (text_length s)

pub data MemoryScopeKind : Type 0 where
  workspace agent user customer task domain : MemoryScopeKind

abbrev pub kind_value : MemoryScopeKind → String
kind_value workspace = "workspace"
kind_value agent = "agent"
kind_value user = "user"
kind_value customer = "customer"
kind_value task = "task"
kind_value domain = "domain"

pub record MemoryScope : Type 0 where
  pub kind : MemoryScopeKind
  pub key : String

abbrev pub same_scope : MemoryScope → MemoryScope → Bool
same_scope a b = str_eq (kind_value a.kind) (kind_value b.kind) && str_eq a.key b.key

-- `MemoryScope.__post_init__`
unfoldable pub check_scope : MemoryScope → Result MemoryScope
check_scope s = do
  key ← clean_required_text s.key
  raise_if
      (ltb 128 (text_length s.key)
        || (str_eq (kind_value s.kind) "workspace" && (if str_eq s.key "*" then false else true)))
      (invariant_violation "memory_scope_bound")
  ok s

-- `set(a) <= set(b)`, for scopes
abbrev pub scopes_within : List MemoryScope → List MemoryScope → Bool
scopes_within a b = all (λ s. any (same_scope s) b) a

pub record AgentRequirements : Type 0 where
  pub capabilities : List String
  pub tool_ids : List String
  pub knowledge_source_ids : List String
  pub memory_scopes : List MemoryScope
  pub min_autonomy : ℕ
  pub capability_ids : List String
  pub required_department : Option String
  pub preferred_department : Option String
  pub organizational_role : Option String

pub record PlannedTask : Type 0 where
  pub id : String
  pub title : String
  pub acceptance_criteria : List String
  pub dependencies : List String
  pub requirements : AgentRequirements
  pub priority : ℕ
  pub required : Bool

-- `PlannedTask.__post_init__`
unfoldable pub check_planned_task : PlannedTask → Result PlannedTask
check_planned_task t = do
  id ← clean_required_text t.id
  title ← clean_required_text t.title
  raise_if
      (ltb 64 (text_length t.id)
        || ltb 200 (text_length t.title)
        || is_nil t.acceptance_criteria
        || ltb 5 (length t.acceptance_criteria)
        || any (λ item. is_empty item || ltb 500 (text_length item)) t.acceptance_criteria
        || (if all_distinct t.dependencies then false else true)
        || ltb 100 t.priority)
      (invariant_violation "planned_task_bounds")
  ok t

pub record PlanProposal : Type 0 where
  pub workspace_id : String
  pub goal_id : String
  pub tasks : List PlannedTask
  pub schema_version : ℕ

-- `PlanProposal.__post_init__`
unfoldable pub check_proposal : PlanProposal → Result PlanProposal
check_proposal p = do
  raise_if (if p.schema_version == 1 then false else true)
      (invariant_violation "plan_schema_version")
  ok p

pub record AgentCatalogItem : Type 0 where
  pub definition_id : String
  pub version : Version
  pub workspace_id : String
  pub role : String
  pub capabilities : List String
  pub tool_ids : List String
  pub knowledge_source_ids : List String
  pub memory_scopes : List MemoryScope
  pub autonomy_ceiling : ℕ
  pub capability_ids : List String

pub record OrchestrationRequest : Type 0 where
  pub workspace_id : String
  pub goal_id : String
  pub goal_version : Version
  pub objective : String
  pub constraints : List String
  pub agents : List AgentCatalogItem
  pub policy : OrchestrationPolicy

-- `_eligible` of plan_validation.py
abbrev pub eligible : AgentRequirements → AgentCatalogItem → Bool
eligible r a =
    is_subset r.capabilities a.capabilities
    && is_subset r.capability_ids a.capability_ids
    && is_subset r.tool_ids a.tool_ids
    && is_subset r.knowledge_source_ids a.knowledge_source_ids
    && scopes_within r.memory_scopes a.memory_scopes
    && leb r.min_autonomy a.autonomy_ceiling
