-- ===== src/Domain/Checks.antt =====
-- Facts about the checks of agent_company_os/domain, as the proofs about the entities use them.
use nebula_os.Prelude.{◌≡◌, arith, ◌≤◌}
use nebula_os.Domain.Errors.{ok}
use nebula_os.Domain.Validation.{DateTime, require_monotonic_time}
use nebula_os.Domain.Transitions.{StateTransition, check_transition}
use nebula_os.Domain.Events.{Event, check_event}
use nebula_os.Domain.Goal
use nebula_os.Domain.Goal.{Goal}
use nebula_os.Domain.Task
use nebula_os.Domain.Task.{Task}
use nebula_os.Domain.TaskAttempt
use nebula_os.Domain.TaskAttempt.{TaskAttempt}
use nebula_os.Domain.Execution
use nebula_os.Domain.Execution.{Execution}

-- The checks return what they are given.
pub check_transition-same :
    (t : StateTransition) {u : StateTransition} → check_transition t ≡ ok u → u ≡ t
unfolding check_transition
check_transition-same t h = ground arith

pub check_event-same : (e : Event) {f : Event} → check_event e ≡ ok f → f ≡ e
unfolding check_event
check_event-same e h = ground arith

pub check_goal-same : (g : Goal) {h : Goal} → Goal.check g ≡ ok h → h ≡ g
unfolding Goal.check
check_goal-same g e = ground arith

pub check_task-same : (t : Task) {u : Task} → Task.check t ≡ ok u → u ≡ t
unfolding Task.check
check_task-same t h = ground arith

pub check_attempt-same : (a : TaskAttempt) {b : TaskAttempt} → TaskAttempt.check a ≡ ok b → b ≡ a
unfolding TaskAttempt.check
check_attempt-same a h = ground arith

pub check_execution-same : (x : Execution) {y : Execution} → Execution.check x ≡ ok y → y ≡ x
unfolding Execution.check
check_execution-same x h = ground arith

pub monotonic-le :
    (previous current : DateTime)
    → require_monotonic_time previous current ≡ ok tt
    → previous.instant ≤ current.instant
unfolding require_monotonic_time
monotonic-le previous current h = ground arith
