-- ===== src/Domain/Lifecycle/Tasks.antt =====
-- The lifecycle of a Task (agent_company_os/domain/task.py).
use nebula_os.Prelude.{◌+◌, ◌≤◌, List, [], length, String, ◌≡◌, ◌↔◌, refl, Bool, true, false, arith}
use nebula_os.Domain.Errors.{Result, ok, is_ok}
use nebula_os.Domain.Validation.{
  DateTime, clean_required_text, strip, opaque_id, require_monotonic_time,
}
use nebula_os.Domain.Transitions.{TransitionResult, SubjectType, check_transition}
use nebula_os.Domain.Validation.Cleaning.{opaque_id-clean}
use nebula_os.Domain.Checks.{monotonic-le}
use nebula_os.Domain.Task
use nebula_os.Domain.Task.{Task, TaskStatus}
use nebula_os.Domain.Lifecycle.Defs.{Lifecycle, Moved, Request, history, IsChain}
use nebula_os.Domain.Lifecycle.History.{
  history-IsChain, version-history, updated_at-le-history, history-terminal,
}

pub data TaskOp : Type 0 where
  mark_ready start complete block fail cancel : TaskOp

-- The method of the name.
unfoldable pub apply : TaskOp → Task → String → DateTime → Result (TransitionResult Task)
apply mark_ready = Task.mark_ready
apply start = Task.start
apply complete = Task.complete
apply block = Task.block
apply fail = Task.fail
apply cancel = Task.cancel

-- The states that `_ALLOWED` gives no way out of.
abbrev pub is_terminal : TaskStatus → Bool
is_terminal Task.completed = true
is_terminal Task.failed = true
is_terminal Task.cancelled = true
is_terminal _ = false

abbrev pub task_lifecycle : Lifecycle Task TaskOp
task_lifecycle = record {
  id = λ t. t.id;
  version = λ t. t.version;
  status_value = λ t. Task.status_value t.status;
  updated_at = λ t. t.updated_at;
  is_terminal = λ t. is_terminal t.status;
  apply = apply;
}

-- What a successful transition is, field by field.
pub record Transitioned (t : Task) (target : TaskStatus) (id : String) (at : DateTime)
    (reason : String) (r : TransitionResult Task) : Type 0 where
  pub legal : Task.allowed t.status target ≡ true
  pub timely : require_monotonic_time t.updated_at at ≡ ok tt
  pub entity : r.entity ≡ record t { status = target; version = t.version + 1; updated_at = at }
  pub transition : r.transition ≡ record {
    id = id;
    workspace_id = t.workspace_id;
    subject_type = SubjectType.task;
    subject_id = t.id;
    previous_status = Task.status_value t.status;
    new_status = Task.status_value target;
    reason = reason;
    from_version = t.version;
    to_version = t.version + 1;
    occurred_at = at;
  }

status_value-clean :
    (s : TaskStatus) → clean_required_text (Task.status_value s) ≡ ok (Task.status_value s)
unfolding clean_required_text strip
status_value-clean Task.proposed = refl
status_value-clean _ = refl

ready_reason-clean :
    (s : TaskStatus) → clean_required_text (Task.ready_reason s) ≡ ok (Task.ready_reason s)
unfolding clean_required_text strip
ready_reason-clean Task.proposed = refl
ready_reason-clean _ = refl

-- The status that the operation moves to.
abbrev pub target_of : TaskOp → TaskStatus
target_of mark_ready = Task.ready
target_of start = Task.in_progress
target_of complete = Task.completed
target_of block = Task.blocked
target_of fail = Task.failed
target_of cancel = Task.cancelled

module _ (t : Task) (target : TaskStatus) (id : String) (at : DateTime) (reason : String) where
  pub transition-Transitioned :
      (r : TransitionResult Task)
      → Task.transition t target id at reason ≡ ok r
      → Transitioned t target id at reason r
  unfolding Task.transition Task.check check_transition
  transition-Transitioned r h = ground arith

  transition_accepts :
      {x : String}
      → Task.check t ≡ ok t
      → opaque_id t.id ≡ ok t.id
      → clean_required_text reason ≡ ok x
      → (is_ok (Task.transition t target id at reason) ≡ true)
        ↔ ((Task.allowed t.status target ≡ true) × (require_monotonic_time t.updated_at at ≡ ok tt))
  unfolding Task.transition Task.check check_transition require_monotonic_time
  transition_accepts c n m =
      let n' = opaque_id-clean t.id n in
      ground (arith, status_value-clean t.status, status_value-clean target)

  transition-Moved :
      (r : TransitionResult Task)
      → Task.transition t target id at reason ≡ ok r
      → Moved task_lifecycle t at r
  transition-Moved r h =
      let d = transition-Transitioned r h in ground (arith, monotonic-le t.updated_at at)

pub apply-Moved :
    (op : TaskOp) (t : Task) (id : String) (at : DateTime) (r : TransitionResult Task)
    → apply op t id at ≡ ok r
    → Moved task_lifecycle t at r
unfolding apply Task.mark_ready Task.start Task.complete Task.block Task.fail Task.cancel
apply-Moved mark_ready t id at r h = transition-Moved t _ id at _ r h
apply-Moved _ t id at r h = transition-Moved t _ id at _ r h

-- An operation on a checked task is accepted exactly if `_ALLOWED` has the step from the task's status
-- and its time is in UTC and not before the last change; no other check of the code refuses it.
pub task_accepts :
    (op : TaskOp) (t : Task) (id : String) (at : DateTime)
    → Task.check t ≡ ok t
    → opaque_id t.id ≡ ok t.id
    → (is_ok (apply op t id at) ≡ true) ↔ (
        (Task.allowed t.status (target_of op) ≡ true)
        × (require_monotonic_time t.updated_at at ≡ ok tt))
unfolding apply Task.mark_ready Task.start Task.complete Task.block Task.fail Task.cancel
    clean_required_text strip
task_accepts mark_ready t id at c n =
    transition_accepts t Task.ready id at (Task.ready_reason t.status) c n
      (ready_reason-clean t.status)
task_accepts start t id at c n =
    transition_accepts t Task.in_progress id at "start_attempt" c n refl
task_accepts complete t id at c n =
    transition_accepts t Task.completed id at "accept_result" c n refl
task_accepts block t id at c n = transition_accepts t Task.blocked id at "block" c n refl
task_accepts fail t id at c n = transition_accepts t Task.failed id at "close_unsuccessful" c n refl
task_accepts cancel t id at c n = transition_accepts t Task.cancelled id at "cancel" c n refl

-- Whatever is requested of a task, in any order and with the refused requests dropped: the recorded
-- transitions form a chain without a gap from its first status and version to its last, the version
-- has grown by their number, and the time of the last change has not fallen.
pub task_history :
    (qs : List (Request TaskOp)) (t : Task)
    → IsChain t.id
        (Task.status_value t.status)
        t.version
        (history task_lifecycle qs t).1
        (Task.status_value (history task_lifecycle qs t).0.status)
        (history task_lifecycle qs t).0.version
      × ((history task_lifecycle qs t).0.version
          ≡ t.version + length (history task_lifecycle qs t).1)
      × (t.updated_at.instant ≤ (history task_lifecycle qs t).0.updated_at.instant)
task_history qs t = (
  history-IsChain task_lifecycle apply-Moved qs t,
  version-history task_lifecycle apply-Moved qs t,
  updated_at-le-history task_lifecycle apply-Moved qs t,
)

-- A completed, failed or cancelled task refuses every request for ever.
pub task_history-terminal :
    (qs : List (Request TaskOp)) (t : Task)
    → is_terminal t.status ≡ true
    → history task_lifecycle qs t ≡ (t, [])
task_history-terminal = history-terminal task_lifecycle apply-Moved
