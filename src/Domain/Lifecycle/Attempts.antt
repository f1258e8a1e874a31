-- ===== src/Domain/Lifecycle/Attempts.antt =====
-- The lifecycle of a TaskAttempt (agent_company_os/domain/task_attempt.py).
use nebula_os.Prelude.{
  ◌+◌, ◌≤◌, String, ◌≡◌, ◌↔◌, refl, inl, inr, Bool, true, some, List, [], length, arith,
  if◌then◌else◌,
}
use nebula_os.Domain.Errors.{Result, ok, is_ok, Result-cases}
use nebula_os.Domain.Validation.{
  DateTime, clean_required_text, strip, opaque_id, require_monotonic_time,
}
use nebula_os.Domain.Transitions.{TransitionResult, SubjectType, check_transition}
use nebula_os.Domain.Validation.Cleaning.{opaque_id-clean}
use nebula_os.Domain.Checks.{monotonic-le}
use nebula_os.Domain.TaskAttempt
use nebula_os.Domain.TaskAttempt.{TaskAttempt, TaskAttemptStatus}
use nebula_os.Domain.Lifecycle.Defs.{Lifecycle, Request, Moved, history, IsChain}
use nebula_os.Domain.Lifecycle.History.{
  history-IsChain, version-history, updated_at-le-history, history-terminal,
}

pub data TaskAttemptOp : Type 0 where
  start succeed cancel : TaskAttemptOp
  fail : (reason : String) → TaskAttemptOp

-- The method of the name.
unfoldable pub apply :
    TaskAttemptOp → TaskAttempt → String → DateTime → Result (TransitionResult TaskAttempt)
apply start a id at = TaskAttempt.start a id at
apply succeed a id at = TaskAttempt.succeed a id at
apply (fail reason) a id at = TaskAttempt.fail a id at reason
apply cancel a id at = TaskAttempt.cancel a id at

-- The status that the operation moves to.
abbrev pub target_of : TaskAttemptOp → TaskAttemptStatus
target_of start = TaskAttempt.running
target_of succeed = TaskAttempt.succeeded
target_of (fail reason) = TaskAttempt.failed
target_of cancel = TaskAttempt.cancelled

abbrev pub attempt_lifecycle : Lifecycle TaskAttempt TaskAttemptOp
attempt_lifecycle = record {
  id = λ a. a.id;
  version = λ a. a.version;
  status_value = λ a. TaskAttempt.status_value a.status;
  updated_at = λ a. a.updated_at;
  is_terminal = λ a. TaskAttempt.is_terminal a.status;
  apply = apply;
}

-- What a successful transition is, field by field.
pub record Transitioned (a : TaskAttempt) (target : TaskAttemptStatus) (id : String) (at : DateTime)
    (reason : String) (r : TransitionResult TaskAttempt) : Type 0 where
  pub legal : TaskAttempt.allowed a.status target ≡ true
  pub timely : require_monotonic_time a.updated_at at ≡ ok tt
  pub entity : r.entity ≡ record a {
    status = target;
    version = a.version + 1;
    updated_at = at;
    started_at = if TaskAttempt.is_running target then some at else a.started_at;
    ended_at = if TaskAttempt.is_terminal target then some at else a.ended_at;
    failure_reason = if TaskAttempt.is_failed target then some reason else a.failure_reason;
  }
  pub transition : r.transition ≡ record {
    id = id;
    workspace_id = a.workspace_id;
    subject_type = SubjectType.task_attempt;
    subject_id = a.id;
    previous_status = TaskAttempt.status_value a.status;
    new_status = TaskAttempt.status_value target;
    reason = reason;
    from_version = a.version;
    to_version = a.version + 1;
    occurred_at = at;
  }

-- `fail` cleans its reason first; the other reasons are constants.
abbrev pub reason_accepted : TaskAttemptOp → Bool
reason_accepted (fail reason) = is_ok (clean_required_text reason)
reason_accepted _ = true

start_clean : clean_required_text "start" ≡ ok "start"
unfolding clean_required_text strip
start_clean = refl

result_accepted_clean : clean_required_text "result_accepted" ≡ ok "result_accepted"
unfolding clean_required_text strip
result_accepted_clean = refl

cancel_clean : clean_required_text "cancel" ≡ ok "cancel"
unfolding clean_required_text strip
cancel_clean = refl

status_value-clean :
    (s : TaskAttemptStatus)
    → clean_required_text (TaskAttempt.status_value s) ≡ ok (TaskAttempt.status_value s)
unfolding clean_required_text strip
status_value-clean TaskAttempt.created = refl
status_value-clean _ = refl

module _ (a : TaskAttempt) (target : TaskAttemptStatus) (id : String) (at : DateTime)
    (reason : String) where
  pub transition-Transitioned :
      (r : TransitionResult TaskAttempt)
      → TaskAttempt.transition a target id at reason ≡ ok r
      → Transitioned a target id at reason r
  unfolding TaskAttempt.transition TaskAttempt.check check_transition
  transition-Transitioned r h = ground arith

  transition_accepts :
      {cleaned : String}
      → TaskAttempt.check a ≡ ok a
      → opaque_id a.id ≡ ok a.id
      → clean_required_text reason ≡ ok cleaned
      → (is_ok (TaskAttempt.transition a target id at reason) ≡ true) ↔ (
          (TaskAttempt.allowed a.status target ≡ true)
          × (require_monotonic_time a.updated_at at ≡ ok tt))
  unfolding TaskAttempt.transition TaskAttempt.check check_transition require_monotonic_time
  transition_accepts c n m =
      let n' = opaque_id-clean a.id n in
      ground (arith, status_value-clean a.status, status_value-clean target)

  transition-Moved :
      (r : TransitionResult TaskAttempt)
      → TaskAttempt.transition a target id at reason ≡ ok r
      → Moved attempt_lifecycle a at r
  transition-Moved r h =
      let d = transition-Transitioned r h in ground (arith, monotonic-le a.updated_at at)

fail-eq-ok :
    (a : TaskAttempt) (id : String) (at : DateTime) (reason : String)
    (r : TransitionResult TaskAttempt)
    → TaskAttempt.fail a id at reason ≡ ok r
    → TaskAttempt.transition a TaskAttempt.failed id at reason ≡ ok r
unfolding TaskAttempt.fail
fail-eq-ok a id at reason r h = ground arith

pub apply-Moved :
    (op : TaskAttemptOp) (a : TaskAttempt) (id : String) (at : DateTime)
    (r : TransitionResult TaskAttempt)
    → apply op a id at ≡ ok r
    → Moved attempt_lifecycle a at r
unfolding apply TaskAttempt.start TaskAttempt.succeed TaskAttempt.fail TaskAttempt.cancel
apply-Moved (fail reason) a id at r h =
    transition-Moved a TaskAttempt.failed id at reason r (fail-eq-ok a id at reason r h)
apply-Moved _ a id at r h = transition-Moved a _ id at _ r h

-- An operation on a checked task attempt is accepted exactly if `_ALLOWED` has the step from its status, its time
-- is in UTC and not before the last change, and a failure has a reason that is not blank; no other check of
-- the code refuses it.
pub attempt_accepts :
    (op : TaskAttemptOp) (a : TaskAttempt) (id : String) (at : DateTime)
    → TaskAttempt.check a ≡ ok a
    → opaque_id a.id ≡ ok a.id
    → (is_ok (apply op a id at) ≡ true) ↔ (
        (TaskAttempt.allowed a.status (target_of op) ≡ true)
        × (require_monotonic_time a.updated_at at ≡ ok tt)
        × (reason_accepted op ≡ true))
unfolding apply TaskAttempt.start TaskAttempt.succeed TaskAttempt.fail TaskAttempt.cancel
attempt_accepts (fail reason) a id at c n = elim (Result-cases (clean_required_text reason)) [
  | inl (cleaned, m) ↦ ground (arith, transition_accepts a TaskAttempt.failed id at reason c n m)
  | inr (e, m) ↦ ground arith
]
attempt_accepts start a id at c n =
    ground (arith, transition_accepts a TaskAttempt.running id at "start" c n start_clean)
attempt_accepts succeed a id at c n = ground (
  arith,
  transition_accepts a TaskAttempt.succeeded id at "result_accepted" c n result_accepted_clean,
)
attempt_accepts cancel a id at c n =
    ground (arith, transition_accepts a TaskAttempt.cancelled id at "cancel" c n cancel_clean)

-- Whatever is requested of an task attempt, in any order and with the refused requests dropped: the recorded
-- transitions form a chain without a gap from its first status and version to its last, the version
-- has grown by their number, and the time of the last change has not fallen.
pub attempt_history :
    (qs : List (Request TaskAttemptOp)) (a : TaskAttempt)
    → IsChain a.id
        (TaskAttempt.status_value a.status)
        a.version
        (history attempt_lifecycle qs a).1
        (TaskAttempt.status_value (history attempt_lifecycle qs a).0.status)
        (history attempt_lifecycle qs a).0.version
      × ((history attempt_lifecycle qs a).0.version
          ≡ a.version + length (history attempt_lifecycle qs a).1)
      × (a.updated_at.instant ≤ (history attempt_lifecycle qs a).0.updated_at.instant)
attempt_history qs a = (
  history-IsChain attempt_lifecycle apply-Moved qs a,
  version-history attempt_lifecycle apply-Moved qs a,
  updated_at-le-history attempt_lifecycle apply-Moved qs a,
)

-- An task attempt in a terminal status refuses every request for ever.
pub attempt_history-terminal :
    (qs : List (Request TaskAttemptOp)) (a : TaskAttempt)
    → TaskAttempt.is_terminal a.status ≡ true
    → history attempt_lifecycle qs a ≡ (a, [])
attempt_history-terminal = history-terminal attempt_lifecycle apply-Moved
