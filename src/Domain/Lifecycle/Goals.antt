-- ===== src/Domain/Lifecycle/Goals.antt =====
-- The lifecycle of a Goal (agent_company_os/domain/goal.py).
use nebula_os.Prelude.{◌+◌, ◌≤◌, String, ◌≡◌, ◌↔◌, refl, Bool, true, false, List, [], length, arith}
use nebula_os.Domain.Errors.{Result, ok, is_ok}
use nebula_os.Domain.Validation.{
  DateTime, clean_required_text, strip, opaque_id, require_monotonic_time,
}
use nebula_os.Domain.Transitions.{TransitionResult, SubjectType, check_transition}
use nebula_os.Domain.Validation.Cleaning.{opaque_id-clean}
use nebula_os.Domain.Checks.{monotonic-le}
use nebula_os.Domain.Goal
use nebula_os.Domain.Goal.{Goal, GoalStatus}
use nebula_os.Domain.Lifecycle.Defs.{Lifecycle, Request, Moved, history, IsChain}
use nebula_os.Domain.Lifecycle.History.{
  history-IsChain, version-history, updated_at-le-history, history-terminal,
}

pub data GoalOp : Type 0 where
  activate satisfy close_unsatisfied cancel : GoalOp

-- The method of the name.
unfoldable pub apply : GoalOp → Goal → String → DateTime → Result (TransitionResult Goal)
apply activate g id at = Goal.activate g id at
apply satisfy g id at = Goal.satisfy g id at
apply close_unsatisfied g id at = Goal.close_unsatisfied g id at
apply cancel g id at = Goal.cancel g id at

-- The status that the operation moves to.
abbrev pub target_of : GoalOp → GoalStatus
target_of activate = Goal.active
target_of satisfy = Goal.satisfied
target_of close_unsatisfied = Goal.closed_unsatisfied
target_of cancel = Goal.cancelled

-- The states that `_ALLOWED` gives no way out of.
abbrev pub is_terminal : GoalStatus → Bool
is_terminal Goal.satisfied = true
is_terminal Goal.closed_unsatisfied = true
is_terminal Goal.cancelled = true
is_terminal _ = false

abbrev pub goal_lifecycle : Lifecycle Goal GoalOp
goal_lifecycle = record {
  id = λ g. g.id;
  version = λ g. g.version;
  status_value = λ g. Goal.status_value g.status;
  updated_at = λ g. g.updated_at;
  is_terminal = λ g. is_terminal g.status;
  apply = apply;
}

-- What a successful transition is, field by field.
pub record Transitioned (g : Goal) (target : GoalStatus) (id : String) (at : DateTime)
    (reason : String) (r : TransitionResult Goal) : Type 0 where
  pub legal : Goal.allowed g.status target ≡ true
  pub timely : require_monotonic_time g.updated_at at ≡ ok tt
  pub entity : r.entity ≡ record g { status = target; version = g.version + 1; updated_at = at }
  pub transition : r.transition ≡ record {
    id = id;
    workspace_id = g.workspace_id;
    subject_type = SubjectType.goal;
    subject_id = g.id;
    previous_status = Goal.status_value g.status;
    new_status = Goal.status_value target;
    reason = reason;
    from_version = g.version;
    to_version = g.version + 1;
    occurred_at = at;
  }

status_value-clean :
    (s : GoalStatus) → clean_required_text (Goal.status_value s) ≡ ok (Goal.status_value s)
unfolding clean_required_text strip
status_value-clean Goal.draft = refl
status_value-clean _ = refl

module _ (g : Goal) (target : GoalStatus) (id : String) (at : DateTime) (reason : String) where
  pub transition-Transitioned :
      (r : TransitionResult Goal)
      → Goal.transition g target id at reason ≡ ok r
      → Transitioned g target id at reason r
  unfolding Goal.transition Goal.check check_transition
  transition-Transitioned r h = ground arith

  transition_accepts :
      {cleaned : String}
      → Goal.check g ≡ ok g
      → opaque_id g.id ≡ ok g.id
      → clean_required_text reason ≡ ok cleaned
      → (is_ok (Goal.transition g target id at reason) ≡ true)
        ↔ ((Goal.allowed g.status target ≡ true) × (require_monotonic_time g.updated_at at ≡ ok tt))
  unfolding Goal.transition Goal.check check_transition require_monotonic_time
  transition_accepts c n m =
      let n' = opaque_id-clean g.id n in
      ground (arith, status_value-clean g.status, status_value-clean target)

  transition-Moved :
      (r : TransitionResult Goal)
      → Goal.transition g target id at reason ≡ ok r
      → Moved goal_lifecycle g at r
  transition-Moved r h =
      let d = transition-Transitioned r h in ground (arith, monotonic-le g.updated_at at)

pub apply-Moved :
    (op : GoalOp) (g : Goal) (id : String) (at : DateTime) (r : TransitionResult Goal)
    → apply op g id at ≡ ok r
    → Moved goal_lifecycle g at r
unfolding apply Goal.activate Goal.satisfy Goal.close_unsatisfied Goal.cancel
apply-Moved activate g id at r h = transition-Moved g _ id at _ r h
apply-Moved _ g id at r h = transition-Moved g _ id at _ r h

-- An operation on a checked goal is accepted exactly if `_ALLOWED` has the step from its status and its time
-- is in UTC and not before the last change; no other check of
-- the code refuses it.
pub goal_accepts :
    (op : GoalOp) (g : Goal) (id : String) (at : DateTime)
    → Goal.check g ≡ ok g
    → opaque_id g.id ≡ ok g.id
    → (is_ok (apply op g id at) ≡ true) ↔ (
        (Goal.allowed g.status (target_of op) ≡ true)
        × (require_monotonic_time g.updated_at at ≡ ok tt))
unfolding apply Goal.activate Goal.satisfy Goal.close_unsatisfied Goal.cancel clean_required_text
    strip
goal_accepts activate g id at c n = transition_accepts g Goal.active id at "activate" c n refl
goal_accepts satisfy g id at c n =
    transition_accepts g Goal.satisfied id at "accept_outcome" c n refl
goal_accepts close_unsatisfied g id at c n =
    transition_accepts g Goal.closed_unsatisfied id at "close_without_satisfaction" c n refl
goal_accepts cancel g id at c n = transition_accepts g Goal.cancelled id at "cancel" c n refl

-- Whatever is requested of a goal, in any order and with the refused requests dropped: the recorded
-- transitions form a chain without a gap from its first status and version to its last, the version
-- has grown by their number, and the time of the last change has not fallen.
pub goal_history :
    (qs : List (Request GoalOp)) (g : Goal)
    → IsChain g.id
        (Goal.status_value g.status)
        g.version
        (history goal_lifecycle qs g).1
        (Goal.status_value (history goal_lifecycle qs g).0.status)
        (history goal_lifecycle qs g).0.version
      × ((history goal_lifecycle qs g).0.version
          ≡ g.version + length (history goal_lifecycle qs g).1)
      × (g.updated_at.instant ≤ (history goal_lifecycle qs g).0.updated_at.instant)
goal_history qs g = (
  history-IsChain goal_lifecycle apply-Moved qs g,
  version-history goal_lifecycle apply-Moved qs g,
  updated_at-le-history goal_lifecycle apply-Moved qs g,
)

-- A goal in a terminal status refuses every request for ever.
pub goal_history-terminal :
    (qs : List (Request GoalOp)) (g : Goal)
    → is_terminal g.status ≡ true
    → history goal_lifecycle qs g ≡ (g, [])
goal_history-terminal = history-terminal goal_lifecycle apply-Moved
