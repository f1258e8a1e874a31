-- ===== src/Planning/Chains.antt =====
-- Chains of dependencies in an accepted plan (agent_company_os/domain/plan_validation.py).
use nebula_os.Prelude.{
  ℕ, zero, suc, ◌+◌, ◌<◌, ◌≤◌, String, Bool, true, ◌&&◌, ◌≡◌, ◌≢◌, subst, ap, List, [], ◌∷◌, inl,
  inr, Bool-cases, All, any, mem_text, str_eq, eq_iff, arith,
}
use nebula_os.Planning.Plan.{PlannedTask, PlanProposal, OrchestrationRequest}
use nebula_os.Planning.Search.{returns}
use nebula_os.Planning.Validate.{task_ids, validate_plan}
use nebula_os.Planning.Settling.{All-mem}
use nebula_os.Planning.Checks.{IsFit}
use nebula_os.Planning.Tour.{is_subset-All, mem-task_ids, All-both}
use nebula_os.Planning.Accepted.{IsPlaced, IsLayered, validate_plan_accepts}

-- A task `a` of the plan names `b` among its dependencies.
abbrev pub depends : List PlannedTask → (a b : String) → Bool
depends tasks a b = any (λ t. str_eq t.id a && mem_text b t.dependencies) tasks

-- From `a`, following so many dependencies, one reaches `b`.
pub data Chain (tasks : List PlannedTask) (a : String) : ℕ → String → Type 0 where
  start : Chain tasks a zero a
  follow :
      {n : ℕ} {b c : String}
      → Chain tasks a n b
      → depends tasks b c ≡ true
      → Chain tasks a (suc n) c

depends-lem :
    (P : PlannedTask → Type 0) (tasks : List PlannedTask) (a b : String)
    → All P tasks
    → depends tasks a b ≡ true
    → (t : PlannedTask) × (t.id ≡ a) × (mem_text b t.dependencies ≡ true) × P t
depends-lem P [] a b h d = absurd (cc)
depends-lem P (t ∷ tasks) a b h d = elim (Bool-cases (str_eq t.id a && mem_text b t.dependencies)) [
  | inl own ↦ (t, (eq_iff t.id a).0 (ground arith), ground arith, h.0)
  | inr other ↦ depends-lem P tasks a b h.1 (ground arith)
]

module _ (request : OrchestrationRequest) (proposal : PlanProposal) (rank : String → ℕ)
    (fit : All (IsFit request (task_ids proposal.tasks)) proposal.tasks)
    (layered : IsLayered request.policy.max_dependency_depth rank proposal.tasks) where
  -- A dependency goes down in rank, between the bounds.
  depends-rank :
      (a b : String)
      → depends proposal.tasks a b ≡ true
      → (rank b < rank a) × (rank a ≤ request.policy.max_dependency_depth) × (1 ≤ rank b)
  depends-rank a b d =
      let (t, same, named, facts) =
        depends-lem
          (λ t.
            IsFit request (task_ids proposal.tasks) t
            × IsPlaced request.policy.max_dependency_depth rank t)
          proposal.tasks a b
          (All-both (IsFit request (task_ids proposal.tasks))
            (IsPlaced request.policy.max_dependency_depth rank) proposal.tasks fit layered)
          d in
      let known =
        All-mem (λ p. mem_text p (task_ids proposal.tasks) ≡ true) b t.dependencies
          (is_subset-All t.dependencies (task_ids proposal.tasks) facts.0.known_only) named in
      let (u, is_b, placed) =
        mem-task_ids (IsPlaced request.policy.max_dependency_depth rank) b proposal.tasks layered
          known in
      (
        subst (λ i. rank b < rank i) same
            (All-mem (λ d. rank d < rank t.id) b t.dependencies facts.1.2 named),
        subst (λ i. rank i ≤ request.policy.max_dependency_depth) same facts.1.1,
        subst (λ i. 1 ≤ rank i) is_b placed.0,
      )

  Chain-rank : (a : String) {n : ℕ} {b : String} → Chain proposal.tasks a n b → rank b + n ≤ rank a
  Chain-rank a start = omega arith
  Chain-rank a (follow {n} {b} {c} chain d) =
      omega (arith, Chain-rank a chain, (depends-rank b c d).0)

  -- The first task of a chain with a step has a rank within the bound.
  Chain-first :
      (a : String) {n : ℕ} {b : String} (c : String)
      → Chain proposal.tasks a n b
      → depends proposal.tasks b c ≡ true
      → rank a ≤ request.policy.max_dependency_depth
  Chain-first a c start d = (depends-rank a c d).1
  Chain-first a c (follow {b = b} {c = e} chain d) d' = Chain-first a e chain d

  Chain-top :
      (a : String) {n : ℕ} {b : String}
      → Chain proposal.tasks a (suc n) b
      → (rank a ≤ request.policy.max_dependency_depth) × (1 ≤ rank b)
  Chain-top a (follow {n} {b} {c} chain d) = (Chain-first a c chain d, (depends-rank b c d).2)

-- In an accepted plan no task depends on itself through others, and a chain of dependencies has
-- fewer steps than the bound on the depth.
pub accepted-Chain :
    (request : OrchestrationRequest) (proposal : PlanProposal)
    → validate_plan request proposal ≡ returns tt
    → (a b : String) (n : ℕ) → Chain proposal.tasks a (suc n) b
    → (a ≢ b) × (suc n < request.policy.max_dependency_depth)
accepted-Chain request proposal accepted a b n chain =
    let (admissible, layers) = (validate_plan_accepts request proposal).0 accepted in
    let down = Chain-rank request proposal layers.0 admissible.fit layers.1 a chain in
    let (top, low) = Chain-top request proposal layers.0 admissible.fit layers.1 a chain in
    (λ same. absurd (omega (arith, ap layers.0 same)), omega arith)
