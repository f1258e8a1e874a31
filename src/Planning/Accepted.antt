-- ===== src/Planning/Accepted.antt =====
-- What `validate_plan` (agent_company_os/domain/plan_validation.py) accepts.
use nebula_os.Prelude.{
  ℕ, zero, suc, ◌<◌, ◌≤◌, String, true, ◌≡◌, subst, List, [], ◌∷◌, inl, inr, some, none, All,
  mem_text, arith, Dict, lookup, ◌↔◌,
}
use nebula_os.Domain.Errors.{DomainError, err, Result-cases}
use nebula_os.Planning.Plan.{PlannedTask, PlanProposal, OrchestrationRequest}
use nebula_os.Planning.Search.{returns, raises, followed_by, Graph, Search}
use nebula_os.Planning.Validate.{task_ids, check_plan, search_plan, validate_plan, unvisited}
use nebula_os.Planning.Settling.{
  Settles, Settles-followed_by, Settles-weaken, Accepts, Accepts-followed_by, returned, All-map,
}
use nebula_os.Planning.Depths.{IsClosed, KeptWithin}
use nebula_os.Planning.Visits.{Toured}
use nebula_os.Planning.Bounds.{IsRanked}
use nebula_os.Planning.Checks.{
  IsFit, IsAdmissible, graph_of, check_plan_returns, check_plan-IsAdmissible, lookup-graph_of,
}
use nebula_os.Planning.Tour.{
  is_subset-All, mem-task_ids, All-both, search_plan-Settles, search_plan-Accepts,
}

-- The task has a rank from 1 to the bound, above the ranks of the tasks that it depends on.
abbrev pub IsPlaced : (limit : ℕ) → (rank : String → ℕ) → PlannedTask → Type 0
IsPlaced limit rank t =
    (1 ≤ rank t.id) × (rank t.id ≤ limit) × All (λ d. rank d < rank t.id) t.dependencies

-- So it is for each task.
abbrev pub IsLayered : (limit : ℕ) → (rank : String → ℕ) → List PlannedTask → Type 0
IsLayered limit rank tasks = All (IsPlaced limit rank) tasks

-- The depth kept for an id, or 0.
abbrev rank_of : Dict ℕ → String → ℕ
rank_of depths k = elim (lookup k depths) [ none ↦ 0 | some d ↦ d ]

All-task_ids :
    (P : String → Type 0) (ts : List PlannedTask) → All P (task_ids ts) → All (λ t. P t.id) ts
All-task_ids P [] h = tt
All-task_ids P (t ∷ ts) h = (h.0, All-task_ids P ts h.1)

module _ (request : OrchestrationRequest) (proposal : PlanProposal)
    (a : IsAdmissible request proposal) where
  abbrev ids : List String
  ids = task_ids proposal.tasks

  abbrev graph : Graph
  graph = graph_of proposal.tasks []

  abbrev limit : ℕ
  limit = request.policy.max_dependency_depth

  -- The graph has the dependencies of a task, and they are tasks of the plan.
  abbrev IsDrawn : PlannedTask → Type 0
  IsDrawn t =
      (lookup t.id graph ≡ some t.dependencies) × All (λ p. mem_text p ids ≡ true) t.dependencies

  tasks-IsDrawn : All IsDrawn proposal.tasks
  tasks-IsDrawn =
      All-both (λ t. lookup t.id graph ≡ some t.dependencies)
        (λ t. All (λ p. mem_text p ids ≡ true) t.dependencies) proposal.tasks
        (lookup-graph_of proposal.tasks [] a.distinct)
        (All-map (IsFit request ids) (λ t. All (λ p. mem_text p ids ≡ true) t.dependencies)
          proposal.tasks (λ t f. is_subset-All t.dependencies ids f.known_only) a.fit)

  graph-IsClosed : IsClosed graph ids
  graph-IsClosed k m =
      let (t, same, drawn) = mem-task_ids IsDrawn k proposal.tasks tasks-IsDrawn m in
      (t.dependencies, subst (λ i. lookup i graph ≡ some t.dependencies) same drawn.0, drawn.1)

  graph-IsRanked :
      (rank : String → ℕ) → IsLayered limit rank proposal.tasks → IsRanked limit graph ids rank
  graph-IsRanked rank layered k m =
      let (t, same, facts) =
        mem-task_ids (λ t. IsDrawn t × IsPlaced limit rank t) k proposal.tasks
          (All-both IsDrawn (IsPlaced limit rank) proposal.tasks tasks-IsDrawn layered) m in
      (
        t.dependencies,
        subst (λ i. lookup i graph ≡ some t.dependencies) same facts.0.0,
        subst (λ i. 1 ≤ rank i) same facts.1.0,
        subst (λ i. rank i ≤ limit) same facts.1.1,
        subst (λ i. All (λ p. (mem_text p ids ≡ true) × (rank p < rank i)) t.dependencies) same
            (All-both (λ p. mem_text p ids ≡ true) (λ p. rank p < rank t.id) t.dependencies
              facts.0.1 facts.1.2),
      )

  module _ (s : Search) (tour : Toured limit graph ids ids unvisited s) where
    -- A task with a depth has a rank, and its dependencies have lower ones.
    kept-IsLayered :
        (k : String) (d : ℕ) (parents : List String)
        → lookup k s.depths ≡ some d
        → lookup k graph ≡ some parents
        → (1 ≤ rank_of s.depths k)
          × (rank_of s.depths k ≤ limit)
          × All (λ p. rank_of s.depths p < rank_of s.depths k) parents
    kept-IsLayered k zero parents kept found =
        absurd (omega (arith, tour.founded.lower k zero kept))
    kept-IsLayered k (suc d) parents kept found =
        let e : rank_of s.depths k ≡ suc d = ground arith in
        (
          omega arith,
          omega (arith, tour.founded.upper k (suc d) kept),
          All-map (KeptWithin s.depths d) (λ p. rank_of s.depths p < rank_of s.depths k) parents
              (λ p w. let found = w.1 in ground (arith, e, w.2))
              (tour.founded.above k d parents kept found),
        )

    tour-IsLayered : IsLayered limit (rank_of s.depths) proposal.tasks
    tour-IsLayered =
        All-map (λ t. IsDrawn t × ((e : ℕ) × (lookup t.id s.depths ≡ some e)))
          (IsPlaced limit (rank_of s.depths)) proposal.tasks
          (λ t h. kept-IsLayered t.id h.1.0 t.dependencies h.1.1 h.0.0)
          (All-both IsDrawn (λ t. (e : ℕ) × (lookup t.id s.depths ≡ some e)) proposal.tasks
            tasks-IsDrawn
            (All-task_ids (λ p. (e : ℕ) × (lookup p s.depths ≡ some e)) proposal.tasks tour.kept))

  -- Once the checks have passed, only the search can raise.
  validate_plan-search :
      validate_plan request proposal ≡ followed_by (search_plan limit graph ids) λ s. returns tt
  unfolding validate_plan
  validate_plan-search = ground (arith, check_plan_returns request proposal a)

  searched-Settles :
      Settles
        (λ done. (rank : String → ℕ) × IsLayered limit rank proposal.tasks)
        (validate_plan request proposal)
  searched-Settles = rw validate_plan-search (
      Settles-followed_by (Toured limit graph ids ids unvisited)
        (λ done. (rank : String → ℕ) × IsLayered limit rank proposal.tasks)
        (search_plan limit graph ids) (λ s. returns tt)
        (search_plan-Settles limit graph ids graph-IsClosed)
        (λ s tour. (rank_of s.depths, tour-IsLayered s tour)))

  searched-Accepts :
      (rank : String → ℕ)
      → IsLayered limit rank proposal.tasks
      → Accepts (λ done. Unit {0}) (validate_plan request proposal)
  searched-Accepts rank layered = rw validate_plan-search (
      Accepts-followed_by (λ s. Unit {0}) (λ done. Unit {0}) (search_plan limit graph ids)
        (λ s. returns tt) (search_plan-Accepts limit graph ids rank (graph-IsRanked rank layered))
        (λ s done. tt))

module _ (request : OrchestrationRequest) (proposal : PlanProposal) where
  -- The plan is admissible, and its tasks have ranks within the bound on the depth.
  abbrev pub IsSound : Type 0
  IsSound =
      IsAdmissible request proposal
      × ((rank : String → ℕ) × IsLayered request.policy.max_dependency_depth rank proposal.tasks)

  -- The validation returns for a sound plan alone, and else raises a domain error.
  pub validate_plan-Settles : Settles (λ done. IsSound) (validate_plan request proposal)
  validate_plan-Settles = elim (Result-cases (check_plan request proposal)) [
    | inl (graph, passed) ↦
        let a = check_plan-IsAdmissible request proposal graph passed in
        Settles-weaken
          (λ done.
            (rank : String → ℕ) × IsLayered request.policy.max_dependency_depth rank proposal.tasks)
          (λ done. IsSound) (validate_plan request proposal) (λ done layers. (a, layers))
          (searched-Settles request proposal a)
    | inr (error, failed) ↦ rw (validate_plan-raises error failed) tt
  ]
    where
      validate_plan-raises :
          (error : DomainError)
          → check_plan request proposal ≡ err error
          → validate_plan request proposal ≡ raises error
      validate_plan-raises error failed = unfold validate_plan in ground arith

  -- A plan is accepted exactly if it is sound.
  pub validate_plan_accepts : (validate_plan request proposal ≡ returns tt) ↔ IsSound
  validate_plan_accepts = (
    λ h. subst (Settles (λ done. IsSound)) h validate_plan-Settles,
    λ sound.
        (returned (λ done. IsSound) (λ done. Unit {0}) (validate_plan request proposal)
          validate_plan-Settles (searched-Accepts request proposal sound.0 sound.1.0 sound.1.1)).1,
  )
