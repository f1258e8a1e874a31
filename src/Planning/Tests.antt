-- ===== src/Planning/Tests.antt =====
-- Plans of three tasks: a brief that needs an analysis that needs its sources.
use nebula_os.Prelude.{
  ℕ, String, true, ◌≡◌, ◌≢◌, ◌<◌, ◌↔◌, refl, List, [], ◌∷◌, none, lookup, insert,
}
use nebula_os.Domain.Errors.{invariant_violation}
use nebula_os.Planning.Policy.{default_policy}
use nebula_os.Planning.Plan.{
  AgentRequirements, AgentCatalogItem, PlannedTask, PlanProposal, OrchestrationRequest,
}
use nebula_os.Planning.Search.{returns, raises}
use nebula_os.Planning.Validate.{validate_plan, search_plan}
use nebula_os.Planning.Settling.{Settles}
use nebula_os.Planning.Accepted.{IsSound, validate_plan-Settles, validate_plan_accepts}
use nebula_os.Planning.Chains.{Chain, accepted-Chain}

abbrev anyone : AgentRequirements
anyone = record {
  capabilities = "research" ∷ [];
  tool_ids = [];
  knowledge_source_ids = [];
  memory_scopes = [];
  min_autonomy = 0;
  capability_ids = [];
  required_department = none;
  preferred_department = none;
  organizational_role = none;
}

abbrev researcher : AgentCatalogItem
researcher = record {
  definition_id = "researcher";
  version = 1;
  workspace_id = "w";
  role = "research";
  capabilities = "research" ∷ [];
  tool_ids = [];
  knowledge_source_ids = [];
  memory_scopes = [];
  autonomy_ceiling = 1;
  capability_ids = [];
}

abbrev planned : String → List String → PlannedTask
planned id dependencies = record {
  id = id;
  title = id;
  acceptance_criteria = "done" ∷ [];
  dependencies = dependencies;
  requirements = anyone;
  priority = 0;
  required = true;
}

abbrev plan : List PlannedTask → PlanProposal
plan tasks = record { workspace_id = "w"; goal_id = "g"; tasks = tasks; schema_version = 1 }

abbrev request : (limit : ℕ) → OrchestrationRequest
request limit = record {
  workspace_id = "w";
  goal_id = "g";
  goal_version = 1;
  objective = "brief";
  constraints = [];
  agents = researcher ∷ [];
  policy = record default_policy { max_dependency_depth = limit };
}

abbrev brief : PlanProposal
brief = plan (
    planned "brief" ("analysis" ∷ "sources" ∷ [])
    ∷ planned "analysis" ("sources" ∷ [])
    ∷ planned "sources" []
    ∷ [])

abbrev circular : PlanProposal
circular = plan (planned "brief" ("analysis" ∷ []) ∷ planned "analysis" ("brief" ∷ []) ∷ [])

brief_accepted : validate_plan (request 3) brief ≡ returns tt
unfolding validate_plan search_plan lookup insert
brief_accepted = refl

brief_too_deep :
    validate_plan (request 2) brief ≡ raises (invariant_violation "plan_dependency_depth")
unfolding validate_plan search_plan lookup insert
brief_too_deep = refl

circular_refused : validate_plan (request 3) circular ≡ raises (invariant_violation "plan_cycle")
unfolding validate_plan search_plan lookup insert
circular_refused = refl

validate_plan_accepts_example :
    (validate_plan (request 3) brief ≡ returns tt) ↔ IsSound (request 3) brief
validate_plan_accepts_example = validate_plan_accepts (request 3) brief

validate_plan-Settles_example :
    Settles (λ done. IsSound (request 3) circular) (validate_plan (request 3) circular)
validate_plan-Settles_example = validate_plan-Settles (request 3) circular

accepted-Chain_example : (◌≢◌ {A = String} "brief" "sources") × (2 < 3)
accepted-Chain_example =
    accepted-Chain (request 3) brief brief_accepted "brief" "sources" 1
      (Chain.follow {b = "analysis"} (Chain.follow Chain.start refl) refl)
