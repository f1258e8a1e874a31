-- ===== src/Store/References/Checked.antt =====
-- What `_references` of agent_company_os/adapters/in_memory.py checks, and how long it lasts.
use mathlib.Core.Path.{subst₂, subst₃}
use nebula_os.Prelude.{
  ◌+◌, ◌<◌, any, String, ◌≡◌, refl, sym, subst, true, false, Option, none, some, lookup, arith,
  eq_iff, ◌∙◌, length,
}
use nebula_os.Domain.Errors.{Result, ok, ◌>>=◌}
use nebula_os.Domain.Task.{Task}
use nebula_os.Domain.TaskAttempt.{TaskAttempt}
use nebula_os.Domain.Execution.{Execution}
use nebula_os.Store.Tables.{
  found, same_workspace, goal_references, task_references, execution_references, attempt_references,
  attempt_parents, is_open, attempts_for_task, attempts_for_execution,
}
use nebula_os.Store.Ops.{Store}
use nebula_os.Store.Steps.{
  Sort, of_workspace, of_goal, of_task, of_attempt, of_execution, Entity, kind,
}
use nebula_os.Store.References.{ServesGoal, Attempts, IsOwned, HasParents, Extends}

-- A block that begins with a look-up.
pub found-eq-ok {ℓ κ} :
    {E : Type ℓ} {B : Type κ} (entity_type id : String) (o : Option E) (f : E → Result B) {b : B}
    → (found entity_type id o >>= f) ≡ ok b
    → (e : E) × (o ≡ some e) × (f e ≡ ok b)
found-eq-ok entity_type id none f h = absurd (cc)
found-eq-ok entity_type id (some e) f h = (e, refl, h)

-- A task or an execution.
serves_goal :
    (s : Store) (goal_id workspace_id : String)
    → (found "Goal" goal_id (lookup goal_id s.tables.goals) >>= λ g.
        same_workspace "parent" workspace_id g.workspace_id)
      ≡ ok tt
    → ServesGoal s goal_id workspace_id
serves_goal s goal_id workspace_id h =
    let (g, stored, together) =
      found-eq-ok _ _ _ (λ g. same_workspace "parent" workspace_id g.workspace_id) h in
    record {
      goal = g;
      stored = stored;
      together = ground (arith, eq_iff workspace_id g.workspace_id);
    }

-- What the checks of a new attempt against its task and its execution establish.
pub record Admissible (s : Store) (a : TaskAttempt) (task : Task) (execution : Execution)
    : Type 0 where
  pub one_goal : task.goal_id ≡ execution.goal_id
  pub none_open : any is_open (attempts_for_task s.tables task.id) ≡ false
  pub ordinal : a.ordinal ≡ length (attempts_for_task s.tables task.id) + 1
  pub room :
      length (attempts_for_execution s.tables execution.id) < execution.bounds.max_task_attempts
  pub task_together : task.workspace_id ≡ a.workspace_id
  pub execution_together : execution.workspace_id ≡ a.workspace_id

attempt_parents-Admissible :
    (s : Store) (a : TaskAttempt) (task : Task) (execution : Execution)
    → attempt_parents s.tables a task execution ≡ ok tt
    → Admissible s a task execution
unfolding attempt_parents
attempt_parents-Admissible s a task execution h = ground (
  arith,
  eq_iff task.goal_id execution.goal_id,
  eq_iff a.workspace_id task.workspace_id,
  eq_iff a.workspace_id execution.workspace_id,
)

-- A new attempt's parents, as they were found.
pub record Parents (s : Store) (a : TaskAttempt) : Type 0 where
  pub task : Task
  pub execution : Execution
  pub owned : IsOwned s a.workspace_id
  pub stored_task : lookup a.task_id s.tables.tasks ≡ some task
  pub stored_execution : lookup a.execution_id s.tables.executions ≡ some execution
  pub admissible : Admissible s a task execution

pub attempt_references-Parents :
    (s : Store) (a : TaskAttempt) → attempt_references s.tables a ≡ ok tt → Parents s a
unfolding attempt_references
attempt_references-Parents s a h =
    let (w, p, rest) = found-eq-ok _ _ _ _ h in
    let (t, q, rest') = found-eq-ok _ _ _ _ rest in
    let (x, r, rest'') = found-eq-ok _ _ _ _ rest' in
    record {
      task = t;
      execution = x;
      owned = (w, p);
      stored_task = q;
      stored_execution = r;
      admissible = attempt_parents-Admissible s a t x rest'';
    }

-- The checks of `_references` are enough.
pub references-HasParents :
    (a : Sort) (s : Store) (e : Entity a)
    → (kind a).references s.tables e ≡ ok tt
    → HasParents a s e
unfolding goal_references task_references execution_references
references-HasParents of_workspace s w h = tt
references-HasParents of_goal s g h = let (w, p, _) = found-eq-ok _ _ _ _ h in (w, p)
references-HasParents of_task s x h =
    let (w, p, rest) = found-eq-ok _ _ _ _ h in
    ((w, p), serves_goal s x.goal_id x.workspace_id rest)
references-HasParents of_attempt s a h =
    let p = attempt_references-Parents s a h in
    (
      p.owned,
      record {
        task = p.task;
        execution = p.execution;
        stored_task = p.stored_task;
        stored_execution = p.stored_execution;
        task_together = p.admissible.task_together;
        execution_together = p.admissible.execution_together;
        one_goal = p.admissible.one_goal;
      },
    )
references-HasParents of_execution s x h =
    let (w, p, rest) = found-eq-ok _ _ _ _ h in
    ((w, p), serves_goal s x.goal_id x.workspace_id rest)

-- A later version of an entity has the parents of the earlier one.
pub HasParents-same_definition :
    (a : Sort) (s : Store) (e f : Entity a)
    → (kind a).same_definition e f ≡ true
    → HasParents a s e
    → HasParents a s f
HasParents-same_definition of_workspace s e f h p = tt
HasParents-same_definition of_goal s e f h p =
    subst (IsOwned s) ((eq_iff e.workspace_id f.workspace_id).0 (ground arith)) p
HasParents-same_definition of_task s e f h (o, g) =
    let w = (eq_iff e.workspace_id f.workspace_id).0 (ground arith) in
    let i = (eq_iff e.goal_id f.goal_id).0 (ground arith) in
    (subst (IsOwned s) w o, subst₂ (ServesGoal s) i w g)
HasParents-same_definition of_attempt s e f h (o, p) =
    let w = (eq_iff e.workspace_id f.workspace_id).0 (ground arith) in
    let i = (eq_iff e.task_id f.task_id).0 (ground arith) in
    let j = (eq_iff e.execution_id f.execution_id).0 (ground arith) in
    (subst (IsOwned s) w o, subst₃ (Attempts s) i j w p)
HasParents-same_definition of_execution s e f h (o, g) =
    let w = (eq_iff e.workspace_id f.workspace_id).0 (ground arith) in
    let i = (eq_iff e.goal_id f.goal_id).0 (ground arith) in
    (subst (IsOwned s) w o, subst₂ (ServesGoal s) i w g)

module _ (s s' : Store) (x : Extends s s') where
  IsOwned-Extends : (id : String) → IsOwned s id → IsOwned s' id
  IsOwned-Extends id (w, p) = let (v, q, _) = x of_workspace id w p in (v, q)

  ServesGoal-Extends : (i w : String) → ServesGoal s i w → ServesGoal s' i w
  ServesGoal-Extends i w g =
      let (h, q, r) = x of_goal i g.goal g.stored in
      record { goal = h; stored = q; together = r ∙ g.together }

  Attempts-Extends : (i j w : String) → Attempts s i j w → Attempts s' i j w
  Attempts-Extends i j w p =
      let (t, q, same) = x of_task i p.task p.stored_task in
      let (y, r, same') = x of_execution j p.execution p.stored_execution in
      record {
        task = t;
        execution = y;
        stored_task = q;
        stored_execution = r;
        task_together = same.0 ∙ p.task_together;
        execution_together = same'.0 ∙ p.execution_together;
        one_goal = same.1 ∙ p.one_goal ∙ sym same'.1;
      }

  -- The parents of an entity stay there.
  pub HasParents-Extends : (a : Sort) (e : Entity a) → HasParents a s e → HasParents a s' e
  HasParents-Extends of_workspace e p = tt
  HasParents-Extends of_goal e p = IsOwned-Extends e.workspace_id p
  HasParents-Extends of_task e (o, g) =
      (IsOwned-Extends e.workspace_id o, ServesGoal-Extends e.goal_id e.workspace_id g)
  HasParents-Extends of_attempt e (o, p) =
      (IsOwned-Extends e.workspace_id o, Attempts-Extends e.task_id e.execution_id e.workspace_id p)
  HasParents-Extends of_execution e (o, g) =
      (IsOwned-Extends e.workspace_id o, ServesGoal-Extends e.goal_id e.workspace_id g)
