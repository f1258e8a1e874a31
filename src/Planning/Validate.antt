-- ===== src/Planning/Validate.antt =====
-- `validate_plan` (agent_company_os/domain/plan_validation.py). The fuel of the search is one more
-- than the number of tasks.
use nebula_os.Prelude.{
  ℕ, suc, ◌+◌, String, true, false, ◌||◌, List, [], ◌∷◌, insert, ltb, str_eq, any, is_nil, length,
  mem_text, all_distinct, is_subset, if◌then◌else◌,
}
use nebula_os.Domain.Errors.{Result, ok, err, invariant_violation, raise_if, ◌>>=◌, ◌>>◌}
use nebula_os.Planning.Plan.{PlannedTask, PlanProposal, OrchestrationRequest, eligible, text_length}
use nebula_os.Planning.Search.{
  Outcome, returns, raises, followed_by, Search, Graph, visit, visit_each,
}

-- `sum(map(len, texts))`
abbrev pub total_length : List String → ℕ
total_length [] = 0
total_length (t ∷ ts) = text_length t + total_length ts

-- What `text_size` grows by for a task.
abbrev pub task_text : PlannedTask → ℕ
task_text t = text_length t.id + text_length t.title + total_length t.acceptance_criteria

-- `[task.id for task in tasks]`
abbrev pub task_ids : List PlannedTask → List String
task_ids [] = []
task_ids (t ∷ ts) = t.id ∷ task_ids ts

-- The three checks of the loop over the tasks.
unfoldable pub check_task :
    OrchestrationRequest → (known : List String) → PlannedTask → Result (Unit {0})
check_task request known t = do
  raise_if (ltb request.policy.max_dependencies_per_task (length t.dependencies))
      (invariant_violation "plan_dependency_count")
  raise_if
      ((if is_subset t.dependencies known then false else true) || mem_text t.id t.dependencies)
      (invariant_violation "plan_unknown_or_self_dependency")
  raise_if (if any (eligible t.requirements) request.agents then false else true)
      (invariant_violation "plan_no_eligible_agent_requirement")

-- The loop, with the graph and the text size so far.
unfoldable pub check_tasks :
    OrchestrationRequest
    → (known : List String) → List PlannedTask
    → Graph
    → (text_size : ℕ) → Result (Graph × ℕ)
unfolding check_task
check_tasks request known [] graph text_size = ok (graph, text_size)
check_tasks request known (t ∷ ts) graph text_size =
    check_task request known t
    >> check_tasks request known ts (insert t.id t.dependencies graph) (text_size + task_text t)

-- All that comes before the search; it returns the graph.
unfoldable pub check_plan : OrchestrationRequest → PlanProposal → Result Graph
unfolding check_tasks
check_plan request proposal = do
  raise_if
      ((if str_eq proposal.workspace_id request.workspace_id then false else true)
        || (if str_eq proposal.goal_id request.goal_id then false else true))
      (invariant_violation "plan_workspace_or_goal")
  raise_if (is_nil proposal.tasks || ltb request.policy.max_tasks (length proposal.tasks))
      (invariant_violation "plan_task_count")
  raise_if (if all_distinct (task_ids proposal.tasks) then false else true)
      (invariant_violation "plan_duplicate_task_id")
  (graph, text_size) ← check_tasks request (task_ids proposal.tasks) proposal.tasks [] 0
  raise_if (ltb request.policy.max_plan_text text_size) (invariant_violation "plan_text_limit")
  ok graph

abbrev pub unvisited : Search
unvisited = record { visiting = []; depths = [] }

-- The search over all tasks.
unfoldable pub search_plan : (limit : ℕ) → Graph → (ids : List String) → Outcome Search
unfolding visit_each visit
search_plan limit graph ids = visit_each (visit (suc (length ids)) limit graph) ids unvisited

-- A domain error of the checks is raised as it is.
abbrev pub lift_result : {T : Type 0} → Result T → Outcome T
lift_result (ok value) = returns value
lift_result (err error) = raises error

unfoldable pub validate_plan : OrchestrationRequest → PlanProposal → Outcome (Unit {0})
unfolding check_plan search_plan
validate_plan request proposal = followed_by (lift_result (check_plan request proposal)) λ graph.
    followed_by (search_plan request.policy.max_dependency_depth graph (task_ids proposal.tasks))
      λ s. returns tt
