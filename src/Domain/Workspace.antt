-- ===== src/Domain/Workspace.antt =====
-- agent_company_os/domain/workspace.py: the Workspace, which owns every other entity.
use nebula_os.Prelude.{String}
use nebula_os.Domain.Errors.{Result, ok, ◌>>=◌, ◌>>◌}
use nebula_os.Domain.Validation.{DateTime, Version, initial, clean_required_text, require_utc}

pub data WorkspaceStatus : Type 0 where
  active : WorkspaceStatus

pub record Workspace : Type 0 where
  pub id : String
  pub name : String
  pub status : WorkspaceStatus
  pub version : Version
  pub created_at : DateTime
  pub updated_at : DateTime

-- `Workspace.__post_init__`
unfoldable pub check : Workspace → Result Workspace
check w = do
  name ← clean_required_text w.name
  require_utc w.created_at
  require_utc w.updated_at
  ok w

unfoldable pub create : (workspace_id name : String) → DateTime → Result Workspace
create workspace_id name created_at = do
  name' ← clean_required_text name
  check (record {
    id = workspace_id;
    name = name';
    status = active;
    version = initial;
    created_at = created_at;
    updated_at = created_at;
  })
