-- ===== src/Planning/RunTests.antt =====
-- A run that is planned, runs, exceeds its budget, and is completed.
use nebula_os.Prelude.{
  ℕ, ℤ, pos, negsuc, length, ◌≡◌, refl, Option, none, some, List, [], ◌∷◌, arith,
}
use nebula_os.Domain.Validation.{DateTime, ahead, require_utc}
use nebula_os.Planning.Policy.{default_policy}
use nebula_os.Planning.Run.{
  OrchestrationStatus, planning, running, completed, OrchestrationRun, Evolution, evolve, check_run,
}
use nebula_os.Planning.Budgets.{IsSoundRun, Advanced, course, course-Advanced}

abbrev at : ℕ → DateTime
at n = record { instant = n; zone = ahead 0 }

abbrev new_run : OrchestrationRun
new_run = record {
  id = "run";
  workspace_id = "w";
  goal_id = "g";
  strategy_id = "s";
  strategy_version = "v1";
  policy = default_policy;
  created_at = at 0;
  status = planning;
  version = 1;
  plan_id = none;
  current_plan_version = none;
  execution_id = none;
  replan_count = pos 0;
  agent_run_count = pos 0;
  failed_attempt_count = pos 0;
  escalation_reason = none;
  ended_at = none;
}

abbrev becomes : Option OrchestrationStatus → (replans : ℤ) → ℕ → Evolution
becomes status replans n = record {
  at = at n;
  status = status;
  plan_id = none;
  plan_version = none;
  execution_id = none;
  replan_delta = replans;
  agent_run_delta = pos 0;
  failed_delta = pos 0;
  escalation_reason = none;
}

-- The second call would replan three times where two are allowed, and the last restarts a run
-- that is completed: both are refused. The third takes a replanning back.
abbrev calls : List Evolution
calls =
    becomes (some running) (pos 2) 1
    ∷ becomes none (pos 1) 2
    ∷ becomes none (negsuc 0) 3
    ∷ becomes (some completed) (pos 0) 4
    ∷ becomes (some running) (pos 0) 5
    ∷ []

three_accepted : length (course calls new_run).1 ≡ 3
unfolding course evolve check_run require_utc
three_accepted = refl

one_replanning : (course calls new_run).0.replan_count ≡ pos 1
unfolding course evolve check_run require_utc
one_replanning = refl

new_run-IsSoundRun : IsSoundRun new_run
new_run-IsSoundRun = record { replans = omega arith; agent_runs = omega arith; ended = refl }

course-Advanced_example : Advanced new_run (course calls new_run).0 (course calls new_run).1
course-Advanced_example = course-Advanced calls new_run new_run-IsSoundRun
