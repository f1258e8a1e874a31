-- ===== src/Governance/Finishing.antt =====
-- The end of a tool invocation (agent_company_os/domain/tools.py, `ToolInvocation.finish`).
use nebula_os.Prelude.{◌+◌, ◌≤◌, ◌≡◌, ◌≢◌, ◌↔◌, refl, subst, ◌∙◌, true, Option, none, some, arith}
use nebula_os.Domain.Errors.{ok, err, invariant_violation}
use nebula_os.Domain.Validation.{DateTime, require_utc}
use nebula_os.Governance.Invocation.{
  ToolError, ToolInvocation, ToolInvocationStatus, finished_status, is_running, check_invocation,
  finish, finished, finished_passes, finished_ended,
}

-- What the end of an invocation makes of it, field by field.
pub record IsFinished (i : ToolInvocation) (at : DateTime) (error : Option ToolError)
    (j : ToolInvocation) : Type 0 where
  pub kept : j ≡ record i {
    version = j.version;
    status = j.status;
    ended_at = j.ended_at;
    error_code = j.error_code;
  }
  pub version : j.version ≡ i.version + 1
  pub ended_at : j.ended_at ≡ some at
  pub error_code : j.error_code ≡ error
  pub succeeded : (j.status ≡ ToolInvocationStatus.succeeded) ↔ (error ≡ none)
  pub cancelled : (j.status ≡ ToolInvocationStatus.cancelled) ↔ (error ≡ some ToolError.cancelled)
  pub ended : j.status ≢ ToolInvocationStatus.running

finished-succeeded :
    (error : Option ToolError)
    → (finished_status error ≡ ToolInvocationStatus.succeeded) ↔ (error ≡ none)
finished-succeeded none = (λ h. refl, λ h. refl)
finished-succeeded (some e) = (λ h. absurd (ground arith), λ h. absurd (ground arith))

finished-cancelled :
    (error : Option ToolError)
    → (finished_status error ≡ ToolInvocationStatus.cancelled) ↔ (error ≡ some ToolError.cancelled)
finished-cancelled none = (λ h. absurd (ground arith), λ h. absurd (ground arith))
finished-cancelled (some e) = (λ h. ground arith, λ h. ground arith)

-- A status that is not running is the one that says the same of the error.
status_is :
    (status : ToolInvocationStatus) (error : Option ToolError)
    → status ≢ ToolInvocationStatus.running
    → (status ≡ ToolInvocationStatus.succeeded) ↔ (error ≡ none)
    → (status ≡ ToolInvocationStatus.cancelled) ↔ (error ≡ some ToolError.cancelled)
    → status ≡ finished_status error
status_is status none ended succeeded cancelled = succeeded.1 refl
status_is status (some e) ended succeeded cancelled = ground arith

finished-IsFinished :
    (i : ToolInvocation) (at : DateTime) (error : Option ToolError)
    → IsFinished i at error (finished i at error)
finished-IsFinished i at error = record {
  kept = refl;
  version = refl;
  ended_at = refl;
  error_code = refl;
  succeeded = finished-succeeded error;
  cancelled = finished-cancelled error;
  ended = λ h. ground (arith, finished_ended error);
}

IsFinished-finished :
    (i j : ToolInvocation) (at : DateTime) (error : Option ToolError)
    → IsFinished i at error j
    → j ≡ finished i at error
IsFinished-finished i j at error f =
    let same = status_is j.status error f.ended f.succeeded f.cancelled in
    f.kept ∙ cc (f.version, same, f.ended_at, f.error_code)

-- What `finish` returns is the finished invocation.
pub finish-finished :
    (i j : ToolInvocation) (at : DateTime) (error : Option ToolError)
    → finish i at error ≡ ok j
    → finished i at error ≡ j
unfolding finish check_invocation
finish-finished i j at error done = ground arith

module _ (i : ToolInvocation) (at : DateTime) (error : Option ToolError)
    (checked : check_invocation i ≡ ok i) where
  -- `finish` returns an invocation, for one that has passed its check, exactly if the latter is running,
  -- the time is in UTC and not before its start, and the result has the next version, the time as its
  -- end, the error given, a status that is not running, succeeded exactly if there is no error and
  -- cancelled exactly if the error is a cancellation, and all other fields as they were.
  pub finish_accepts :
      (j : ToolInvocation)
      → (finish i at error ≡ ok j) ↔ (
          (is_running i.status ≡ true)
          × (require_utc at ≡ ok tt)
          × (i.started_at.instant ≤ at.instant)
          × IsFinished i at error j)
  unfolding finish require_utc
  finish_accepts j = (
    λ h.
        let same = finish-finished i j at error h in
        (
          ground arith,
          ground arith,
          ground arith,
          subst (IsFinished i at error) same (finished-IsFinished i at error),
        ),
    λ h.
        let running = h.0 in
        let later = h.2 in
        let passes = finished_passes i at error checked h.1 later in
        let same = IsFinished-finished i j at error h.3 in ground (arith, h.1),
  )

-- What `finish` returned cannot be finished again.
pub finish-finish :
    (i j : ToolInvocation) (at : DateTime) (error : Option ToolError)
    → finish i at error ≡ ok j
    → (at' : DateTime) (error' : Option ToolError)
    → finish j at' error' ≡ err (invariant_violation "terminal_tool_invocation_immutable")
unfolding finish check_invocation
finish-finish i j at error h at' error' = ground (arith, finished_ended error)
