-- ===== src/Service/Retry.antt =====
-- The checks of `create_execution` (agent_company_os/application/service.py) on the execution that is
-- tried again.
use nebula_os.Prelude.{String, true, false, ◌||◌, Option, none, some, if◌then◌else◌}
use nebula_os.Domain.Errors.{Result, ok, invariant_violation, raise_if, ◌>>=◌, ◌>>◌}
use nebula_os.Domain.Goal.{Goal}
use nebula_os.Domain.Execution
use nebula_os.Domain.Execution.{Execution}
use nebula_os.Store.Tables.{get_execution, same_workspace}
use nebula_os.Store.Ops.{Store, differs}

-- The checks of a retry: the earlier execution has ended, and served the same goal.
unfoldable pub check_retry :
    (workspace_id : String) → Goal → Option String → Store → Result (Unit {0})
check_retry workspace_id g none s = ok tt
check_retry workspace_id g (some retry_of) s = do
  previous ← get_execution s.tables retry_of
  same_workspace "Execution.retry" workspace_id previous.workspace_id
  raise_if
      (differs previous.goal_id g.id
        || (if Execution.is_terminal previous.status then false else true))
      (invariant_violation "execution_retry_requires_terminal_execution_for_goal")
