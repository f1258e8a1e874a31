-- ===== src/Planning/Checks.antt =====
-- The checks before the search (agent_company_os/domain/plan_validation.py), and the graph that
-- they build.
use nebula_os.Prelude.{
  ℕ, ◌+◌, ◌≤◌, String, true, false, ◌≡◌, refl, List, [], ◌∷◌, inl, inr, some, All, all_distinct,
  is_subset, any, is_nil, length, mem_text, eq_iff, eq_refl, arith, lookup, insert, lookup-insert,
  ◌↔◌,
}
use nebula_os.Domain.Errors.{ok, Result-cases}
use nebula_os.Planning.Plan.{PlannedTask, PlanProposal, OrchestrationRequest, eligible}
use nebula_os.Planning.Search.{Graph}
use nebula_os.Planning.Validate.{task_text, task_ids, check_task, check_tasks, check_plan}

-- A task meets the policy, names other tasks of the plan, and has an agent that may do it.
pub record IsFit (request : OrchestrationRequest) (known : List String) (t : PlannedTask)
    : Type 0 where
  pub few : length t.dependencies ≤ request.policy.max_dependencies_per_task
  pub known_only : is_subset t.dependencies known ≡ true
  pub not_itself : mem_text t.id t.dependencies ≡ false
  pub has_agent : any (eligible t.requirements) request.agents ≡ true

pub check_task-IsFit :
    (request : OrchestrationRequest) (known : List String) (t : PlannedTask)
    → (check_task request known t ≡ ok tt) ↔ IsFit request known t
unfolding check_task
check_task-IsFit request known t = (
  λ h. record {
    few = ground arith;
    known_only = ground arith;
    not_itself = ground arith;
    has_agent = ground arith;
  },
  λ f. ground (arith, f.few, f.known_only, f.not_itself, f.has_agent),
)

-- The size of the texts of a plan.
abbrev pub plan_text : List PlannedTask → ℕ
plan_text [] = 0
plan_text (t ∷ ts) = task_text t + plan_text ts

-- The graph after the tasks.
pub graph_of : List PlannedTask → Graph → Graph
graph_of [] graph = graph
graph_of (t ∷ ts) graph = graph_of ts (insert t.id t.dependencies graph)

module _ (request : OrchestrationRequest) (known : List String) where
  check_tasks_returns :
      (ts : List PlannedTask) (graph : Graph) (n : ℕ)
      → All (IsFit request known) ts
      → check_tasks request known ts graph n ≡ ok (graph_of ts graph, n + plan_text ts)
  unfolding check_tasks graph_of
  check_tasks_returns [] graph n f = ground arith
  check_tasks_returns (t ∷ ts) graph n f = ground (
    arith,
    (check_task-IsFit request known t).1 f.0,
    check_tasks_returns ts (insert t.id t.dependencies graph) (n + task_text t) f.1,
  )

  check_tasks-IsFit :
      (ts : List PlannedTask) (graph : Graph) (n : ℕ) (r : Graph × ℕ)
      → check_tasks request known ts graph n ≡ ok r
      → All (IsFit request known) ts
  unfolding check_tasks
  check_tasks-IsFit [] graph n r h = tt
  check_tasks-IsFit (t ∷ ts) graph n r h = elim (Result-cases (check_task request known t)) [
    | inl (u, fits) ↦ (
      (check_task-IsFit request known t).0 fits,
      check_tasks-IsFit ts (insert t.id t.dependencies graph) (n + task_text t) r (ground arith),
    )
    | inr (error, e) ↦ absurd (ground arith)
  ]

-- What a plan must be like, apart from its dependencies having no cycle.
pub record IsAdmissible (request : OrchestrationRequest) (proposal : PlanProposal) : Type 0 where
  pub workspace : proposal.workspace_id ≡ request.workspace_id
  pub goal : proposal.goal_id ≡ request.goal_id
  pub some_task : 1 ≤ length proposal.tasks
  pub few_tasks : length proposal.tasks ≤ request.policy.max_tasks
  pub distinct : all_distinct (task_ids proposal.tasks) ≡ true
  pub fit : All (IsFit request (task_ids proposal.tasks)) proposal.tasks
  pub short : plan_text proposal.tasks ≤ request.policy.max_plan_text

is_nil_iff : {A : Type 0} (xs : List A) → (is_nil xs ≡ false) ↔ (1 ≤ length xs)
is_nil_iff [] = (λ h. absurd (cc), λ h. absurd (omega arith))
is_nil_iff (x ∷ xs) = (λ h. omega arith, λ h. refl)

module _ (request : OrchestrationRequest) (proposal : PlanProposal) where
  pub check_plan_returns :
      IsAdmissible request proposal → check_plan request proposal ≡ ok (graph_of proposal.tasks [])
  unfolding check_plan
  check_plan_returns a = ground (
    arith,
    eq_iff proposal.workspace_id request.workspace_id,
    eq_iff proposal.goal_id request.goal_id,
    (is_nil_iff proposal.tasks).1,
    check_tasks_returns request (task_ids proposal.tasks) proposal.tasks [] 0 a.fit,
  )

  pub check_plan-IsAdmissible :
      (graph : Graph) → check_plan request proposal ≡ ok graph → IsAdmissible request proposal
  unfolding check_plan
  check_plan-IsAdmissible graph h =
      elim (Result-cases (check_tasks request (task_ids proposal.tasks) proposal.tasks [] 0)) [
        | inr (error, e) ↦ absurd (ground arith)
        | inl (r, e) ↦
            let fit = check_tasks-IsFit request (task_ids proposal.tasks) proposal.tasks [] 0 r e in
            let returned =
              check_tasks_returns request (task_ids proposal.tasks) proposal.tasks [] 0 fit in
            record {
              workspace = ground (arith, eq_iff proposal.workspace_id request.workspace_id);
              goal = ground (arith, eq_iff proposal.goal_id request.goal_id);
              some_task = ground (arith, (is_nil_iff proposal.tasks).0);
              few_tasks = ground arith;
              distinct = ground arith;
              fit = fit;
              short = ground arith;
            }
      ]

-- What the graph has for a key that no further task has.
graph_of-absent :
    (k : String) (ts : List PlannedTask) (graph : Graph)
    → mem_text k (task_ids ts) ≡ false
    → lookup k (graph_of ts graph) ≡ lookup k graph
unfolding graph_of
graph_of-absent k [] graph n = refl
graph_of-absent k (t ∷ ts) graph n = ground (
  arith,
  graph_of-absent k ts (insert t.id t.dependencies graph),
  lookup-insert t.id k t.dependencies graph,
  eq_iff t.id k,
  eq_iff k t.id,
)

-- The graph has the dependencies of each task.
pub lookup-graph_of :
    (ts : List PlannedTask) (graph : Graph)
    → all_distinct (task_ids ts) ≡ true
    → All (λ t. lookup t.id (graph_of ts graph) ≡ some t.dependencies) ts
unfolding graph_of
lookup-graph_of [] graph d = tt
lookup-graph_of (t ∷ ts) graph d = (
  ground (
    arith,
    graph_of-absent t.id ts (insert t.id t.dependencies graph),
    lookup-insert t.id t.id t.dependencies graph,
    eq_refl t.id,
  ),
  lookup-graph_of ts (insert t.id t.dependencies graph) (ground arith),
)
