-- ===== src/Planning/Policy.antt =====
-- The policy of an orchestration (agent_company_os/domain/orchestration.py, `OrchestrationPolicy`).
-- The fields are whole numbers: a negative one is refused just as 0 is, and is left out.
use nebula_os.Prelude.{
  ℕ, String, Bool, true, false, ◌&&◌, List, [], ◌∷◌, leb, any, all_distinct, if◌then◌else◌,
}
use nebula_os.Domain.Errors.{Result, ok, invariant_violation, raise_if, ◌>>◌}

pub record OrchestrationPolicy : Type 0 where
  pub max_tasks : ℕ
  pub max_dependencies_per_task : ℕ
  pub max_dependency_depth : ℕ
  pub max_plan_text : ℕ
  pub max_replans : ℕ
  pub max_iterations : ℕ
  pub max_parallel_width : ℕ
  pub max_agent_runs : ℕ
  pub max_failed_attempts : ℕ
  pub max_retries_per_task : ℕ
  pub max_redelegations_per_task : ℕ
  pub planner_seconds : ℕ
  pub allowed_agent_ids : List String
  pub allowed_roles : List String
  pub version : String

-- The policy of `OrchestrationPolicy()`.
abbrev pub default_policy : OrchestrationPolicy
default_policy = record {
  max_tasks = 8;
  max_dependencies_per_task = 3;
  max_dependency_depth = 5;
  max_plan_text = 4000;
  max_replans = 2;
  max_iterations = 20;
  max_parallel_width = 3;
  max_agent_runs = 12;
  max_failed_attempts = 3;
  max_retries_per_task = 1;
  max_redelegations_per_task = 1;
  planner_seconds = 5;
  allowed_agent_ids = [];
  allowed_roles = [];
  version = "bounded-orchestration-v1";
}

-- The pairs of a bound and its largest value.
abbrev pub bounds : OrchestrationPolicy → List (ℕ × ℕ)
bounds p =
    (p.max_tasks, 20)
    ∷ (p.max_dependencies_per_task, 10)
    ∷ (p.max_dependency_depth, 10)
    ∷ (p.max_plan_text, 16000)
    ∷ (p.max_replans, 5)
    ∷ (p.max_iterations, 100)
    ∷ (p.max_parallel_width, 10)
    ∷ (p.max_agent_runs, 50)
    ∷ (p.max_failed_attempts, 20)
    ∷ (p.max_retries_per_task, 5)
    ∷ (p.max_redelegations_per_task, 5)
    ∷ (p.planner_seconds, 30)
    ∷ []

abbrev pub out_of_bounds : ℕ × ℕ → Bool
out_of_bounds (value, maximum) = if leb 1 value && leb value maximum then false else true

-- `OrchestrationPolicy.__post_init__`
unfoldable pub check_policy : OrchestrationPolicy → Result OrchestrationPolicy
check_policy p = do
  raise_if (any out_of_bounds (bounds p)) (invariant_violation "orchestration_policy_bounds")
  raise_if (if all_distinct p.allowed_agent_ids then false else true)
      (invariant_violation "orchestration_agent_allowlist_unique")
  ok p
