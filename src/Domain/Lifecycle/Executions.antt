-- ===== src/Domain/Lifecycle/Executions.antt =====
-- The lifecycle of an Execution (agent_company_os/domain/execution.py).
use nebula_os.Prelude.{
  ◌+◌, ◌≤◌, String, ◌≡◌, ◌↔◌, refl, inl, inr, Bool, true, some, List, [], length, arith,
  if◌then◌else◌,
}
use nebula_os.Domain.Errors.{Result, ok, is_ok, Result-cases}
use nebula_os.Domain.Validation.{
  DateTime, clean_required_text, strip, opaque_id, require_monotonic_time,
}
use nebula_os.Domain.Transitions.{TransitionResult, SubjectType, check_transition}
use nebula_os.Domain.Validation.Cleaning.{opaque_id-clean}
use nebula_os.Domain.Checks.{monotonic-le}
use nebula_os.Domain.Execution
use nebula_os.Domain.Execution.{Execution, ExecutionStatus}
use nebula_os.Domain.Lifecycle.Defs.{Lifecycle, Request, Moved, history, IsChain}
use nebula_os.Domain.Lifecycle.History.{
  history-IsChain, version-history, updated_at-le-history, history-terminal,
}

pub data ExecutionOp : Type 0 where
  start wait resume succeed cancel : ExecutionOp
  fail : (reason : String) → ExecutionOp

-- The method of the name.
unfoldable pub apply :
    ExecutionOp → Execution → String → DateTime → Result (TransitionResult Execution)
apply start x id at = Execution.start x id at
apply wait x id at = Execution.wait x id at
apply resume x id at = Execution.resume x id at
apply succeed x id at = Execution.succeed x id at
apply (fail reason) x id at = Execution.fail x id at reason
apply cancel x id at = Execution.cancel x id at

-- The status that the operation moves to.
abbrev pub target_of : ExecutionOp → ExecutionStatus
target_of start = Execution.running
target_of wait = Execution.waiting
target_of resume = Execution.running
target_of succeed = Execution.succeeded
target_of (fail reason) = Execution.failed
target_of cancel = Execution.cancelled

abbrev pub execution_lifecycle : Lifecycle Execution ExecutionOp
execution_lifecycle = record {
  id = λ x. x.id;
  version = λ x. x.version;
  status_value = λ x. Execution.status_value x.status;
  updated_at = λ x. x.updated_at;
  is_terminal = λ x. Execution.is_terminal x.status;
  apply = apply;
}

-- What a successful transition is, field by field.
pub record Transitioned (x : Execution) (target : ExecutionStatus) (id : String) (at : DateTime)
    (reason : String) (r : TransitionResult Execution) : Type 0 where
  pub legal : Execution.allowed x.status target ≡ true
  pub timely : require_monotonic_time x.updated_at at ≡ ok tt
  pub entity : r.entity ≡ record x {
    status = target;
    version = x.version + 1;
    updated_at = at;
    started_at = Execution.started x.started_at target at;
    ended_at = if Execution.is_terminal target then some at else x.ended_at;
    failure_reason = if Execution.is_failed target then some reason else x.failure_reason;
  }
  pub transition : r.transition ≡ record {
    id = id;
    workspace_id = x.workspace_id;
    subject_type = SubjectType.execution;
    subject_id = x.id;
    previous_status = Execution.status_value x.status;
    new_status = Execution.status_value target;
    reason = reason;
    from_version = x.version;
    to_version = x.version + 1;
    occurred_at = at;
  }

-- `fail` cleans its reason first; the other reasons are constants.
abbrev pub reason_accepted : ExecutionOp → Bool
reason_accepted (fail reason) = is_ok (clean_required_text reason)
reason_accepted _ = true

start_clean : clean_required_text "start" ≡ ok "start"
unfolding clean_required_text strip
start_clean = refl

wait_clean : clean_required_text "wait" ≡ ok "wait"
unfolding clean_required_text strip
wait_clean = refl

resume_clean : clean_required_text "resume" ≡ ok "resume"
unfolding clean_required_text strip
resume_clean = refl

complete_clean : clean_required_text "complete" ≡ ok "complete"
unfolding clean_required_text strip
complete_clean = refl

cancel_clean : clean_required_text "cancel" ≡ ok "cancel"
unfolding clean_required_text strip
cancel_clean = refl

status_value-clean :
    (s : ExecutionStatus)
    → clean_required_text (Execution.status_value s) ≡ ok (Execution.status_value s)
unfolding clean_required_text strip
status_value-clean Execution.created = refl
status_value-clean _ = refl

module _ (x : Execution) (target : ExecutionStatus) (id : String) (at : DateTime)
    (reason : String) where
  pub transition-Transitioned :
      (r : TransitionResult Execution)
      → Execution.transition x target id at reason ≡ ok r
      → Transitioned x target id at reason r
  unfolding Execution.transition Execution.check check_transition
  transition-Transitioned r h = ground arith

  transition_accepts :
      {cleaned : String}
      → Execution.check x ≡ ok x
      → opaque_id x.id ≡ ok x.id
      → clean_required_text reason ≡ ok cleaned
      → (is_ok (Execution.transition x target id at reason) ≡ true) ↔ (
          (Execution.allowed x.status target ≡ true)
          × (require_monotonic_time x.updated_at at ≡ ok tt))
  unfolding Execution.transition Execution.check check_transition require_monotonic_time
  transition_accepts c n m =
      let n' = opaque_id-clean x.id n in
      ground (arith, status_value-clean x.status, status_value-clean target)

  transition-Moved :
      (r : TransitionResult Execution)
      → Execution.transition x target id at reason ≡ ok r
      → Moved execution_lifecycle x at r
  transition-Moved r h =
      let d = transition-Transitioned r h in ground (arith, monotonic-le x.updated_at at)

fail-eq-ok :
    (x : Execution) (id : String) (at : DateTime) (reason : String) (r : TransitionResult Execution)
    → Execution.fail x id at reason ≡ ok r
    → Execution.transition x Execution.failed id at reason ≡ ok r
unfolding Execution.fail
fail-eq-ok x id at reason r h = ground arith

pub apply-Moved :
    (op : ExecutionOp) (x : Execution) (id : String) (at : DateTime)
    (r : TransitionResult Execution)
    → apply op x id at ≡ ok r
    → Moved execution_lifecycle x at r
unfolding apply Execution.start Execution.wait Execution.resume Execution.succeed Execution.fail
    Execution.cancel
apply-Moved (fail reason) x id at r h =
    transition-Moved x Execution.failed id at reason r (fail-eq-ok x id at reason r h)
apply-Moved _ x id at r h = transition-Moved x _ id at _ r h

-- An operation on a checked execution is accepted exactly if `_ALLOWED` has the step from its status, its time
-- is in UTC and not before the last change, and a failure has a reason that is not blank; no other check of
-- the code refuses it.
pub execution_accepts :
    (op : ExecutionOp) (x : Execution) (id : String) (at : DateTime)
    → Execution.check x ≡ ok x
    → opaque_id x.id ≡ ok x.id
    → (is_ok (apply op x id at) ≡ true) ↔ (
        (Execution.allowed x.status (target_of op) ≡ true)
        × (require_monotonic_time x.updated_at at ≡ ok tt)
        × (reason_accepted op ≡ true))
unfolding apply Execution.start Execution.wait Execution.resume Execution.succeed Execution.fail
    Execution.cancel
execution_accepts (fail reason) x id at c n = elim (Result-cases (clean_required_text reason)) [
  | inl (cleaned, m) ↦ ground (arith, transition_accepts x Execution.failed id at reason c n m)
  | inr (e, m) ↦ ground arith
]
execution_accepts start x id at c n =
    ground (arith, transition_accepts x Execution.running id at "start" c n start_clean)
execution_accepts wait x id at c n =
    ground (arith, transition_accepts x Execution.waiting id at "wait" c n wait_clean)
execution_accepts resume x id at c n =
    ground (arith, transition_accepts x Execution.running id at "resume" c n resume_clean)
execution_accepts succeed x id at c n =
    ground (arith, transition_accepts x Execution.succeeded id at "complete" c n complete_clean)
execution_accepts cancel x id at c n =
    ground (arith, transition_accepts x Execution.cancelled id at "cancel" c n cancel_clean)

-- Whatever is requested of an execution, in any order and with the refused requests dropped: the recorded
-- transitions form a chain without a gap from its first status and version to its last, the version
-- has grown by their number, and the time of the last change has not fallen.
pub execution_history :
    (qs : List (Request ExecutionOp)) (x : Execution)
    → IsChain x.id
        (Execution.status_value x.status)
        x.version
        (history execution_lifecycle qs x).1
        (Execution.status_value (history execution_lifecycle qs x).0.status)
        (history execution_lifecycle qs x).0.version
      × ((history execution_lifecycle qs x).0.version
          ≡ x.version + length (history execution_lifecycle qs x).1)
      × (x.updated_at.instant ≤ (history execution_lifecycle qs x).0.updated_at.instant)
execution_history qs x = (
  history-IsChain execution_lifecycle apply-Moved qs x,
  version-history execution_lifecycle apply-Moved qs x,
  updated_at-le-history execution_lifecycle apply-Moved qs x,
)

-- An execution in a terminal status refuses every request for ever.
pub execution_history-terminal :
    (qs : List (Request ExecutionOp)) (x : Execution)
    → Execution.is_terminal x.status ≡ true
    → history execution_lifecycle qs x ≡ (x, [])
execution_history-terminal = history-terminal execution_lifecycle apply-Moved
