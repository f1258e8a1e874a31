-- ===== src/Organization/Structure.antt =====
-- A version of the organisation and the checks of its parts (`OrganizationGraphVersion.__post_init__`
-- of agent_company_os/domain/organization.py, before the reporting lines). A look-up of a role may
-- raise a `KeyError`, an `Outcome` as in the search of a plan.
use nebula_os.Prelude.{
  ℕ, ◌+◌, String, Bool, true, false, ◌&&◌, ◌||◌, none, some, List, [], ◌∷◌, Dict, lookup, insert,
  ltb, any, keep, length, count_if, mem_text, all_distinct, texts_of, distinct_by, str_eq, ◌==◌,
  if◌then◌else◌,
}
use nebula_os.Domain.Errors.{Result, ok, invariant_violation, workspace_mismatch, raise_if, ◌>>◌}
use nebula_os.Domain.Validation.{Version, DateTime, require_utc}
use nebula_os.Planning.Search.{Outcome, returns, key_error, followed_by}
use nebula_os.Planning.Validate.{lift_result}
use nebula_os.Organization.Data.{
  Department, OrgRole, CapabilityDefinition, RegisteredAgent, DepartmentMembership,
  ReportingRelationship, OrganizationPolicy, OrganizationBounds, is_active,
}

pub record OrganizationGraphVersion : Type 0 where
  pub graph_id : String
  pub workspace_id : String
  pub version : Version
  pub created_at : DateTime
  pub departments : List Department
  pub roles : List OrgRole
  pub capabilities : List CapabilityDefinition
  pub agents : List RegisteredAgent
  pub memberships : List DepartmentMembership
  pub reporting : List ReportingRelationship
  pub policy : OrganizationPolicy
  pub bounds : OrganizationBounds
  pub schema_version : ℕ

-- `for item in items: check(item)`
unfoldable pub for_each : {A : Type 0} → (A → Result (Unit {0})) → List A → Result (Unit {0})
for_each check [] = ok tt
for_each check (item ∷ items) = check item >> for_each check items

-- A collection has more items than its bound.
abbrev pub exceeds_bounds : OrganizationGraphVersion → Bool
exceeds_bounds g =
    ltb g.bounds.departments (length g.departments)
    || ltb g.bounds.roles (length g.roles)
    || ltb g.bounds.capabilities (length g.capabilities)
    || ltb g.bounds.memberships (length g.agents)
    || ltb g.bounds.memberships (length g.memberships)
    || ltb g.bounds.memberships (length g.reporting)
    || ltb g.bounds.cross_department_rules (length g.policy.routes)

-- `if item.workspace_id != self.workspace_id: raise WorkspaceMismatch`
unfoldable pub expect_workspace : (expected actual : String) → Result (Unit {0})
expect_workspace expected actual =
    raise_if (if str_eq actual expected then false else true)
      (workspace_mismatch "OrganizationGraph" expected actual)

-- The loop over the collections of items with a workspace.
unfoldable pub check_workspaces : OrganizationGraphVersion → Result (Unit {0})
unfolding for_each expect_workspace
check_workspaces g = do
  for_each (λ (d : Department). expect_workspace g.workspace_id d.workspace_id) g.departments
  for_each (λ (r : OrgRole). expect_workspace g.workspace_id r.workspace_id) g.roles
  for_each (λ (c : CapabilityDefinition). expect_workspace g.workspace_id c.workspace_id)
      g.capabilities
  for_each (λ (a : RegisteredAgent). expect_workspace g.workspace_id a.workspace_id) g.agents
  for_each (λ (m : DepartmentMembership). expect_workspace g.workspace_id m.workspace_id)
      g.memberships
  for_each (λ (e : ReportingRelationship). expect_workspace g.workspace_id e.workspace_id)
      g.reporting

abbrev pub department_ids : OrganizationGraphVersion → List String
department_ids g = texts_of (λ d. d.id) g.departments

abbrev pub role_ids : OrganizationGraphVersion → List String
role_ids g = texts_of (λ r. r.id) g.roles

abbrev pub agent_ids : OrganizationGraphVersion → List String
agent_ids g = texts_of (λ a. a.agent_id) g.agents

-- `(m.agent_id, m.department_id, m.role_id)`, compared
abbrev pub same_membership : DepartmentMembership → DepartmentMembership → Bool
same_membership m n =
    str_eq m.agent_id n.agent_id
    && str_eq m.department_id n.department_id
    && str_eq m.role_id n.role_id

-- Ids and memberships are there once, and memberships name what is there.
unfoldable pub check_references : OrganizationGraphVersion → Result (Unit {0})
check_references g = do
  raise_if
      (if all_distinct (department_ids g)
          && all_distinct (role_ids g)
          && all_distinct (texts_of (λ c. c.id) g.capabilities)
          && all_distinct (agent_ids g)
        then false
        else true)
      (invariant_violation "organization_unique_ids")
  raise_if (if distinct_by same_membership g.memberships then false else true)
      (invariant_violation "duplicate_membership")
  raise_if
      (any
        (λ m.
          if mem_text m.department_id (department_ids g)
            && mem_text m.role_id (role_ids g)
            && mem_text m.agent_id (agent_ids g)
          then false
          else true)
        g.memberships)
      (invariant_violation "unmembers-IsKnownhip_reference")

-- `len({m.agent_id for m in members})`
abbrev pub distinct_agents : List DepartmentMembership → ℕ
distinct_agents [] = 0
distinct_agents (m ∷ ms) =
    (if any (λ n. str_eq m.agent_id n.agent_id) ms then 0 else 1) + distinct_agents ms

-- `{r.id: r for r in roles}`
unfoldable pub roles_by_id : List OrgRole → Dict OrgRole → Dict OrgRole
roles_by_id [] d = d
roles_by_id (r ∷ roles) d = roles_by_id roles (insert r.id r d)

-- `m.status is MembershipStatus.ACTIVE and roles[m.role_id].is_lead`, with the `KeyError` of a role
-- that is not there.
unfoldable pub is_active_lead : Dict OrgRole → DepartmentMembership → Outcome Bool
is_active_lead roles m = elim (is_active m.status) [
  | false ↦ returns false
  | true ↦ elim (lookup m.role_id roles) [
    | none ↦ key_error m.role_id
    | some role ↦ returns role.is_lead
  ]
]

-- `sum(... for m in members)`
unfoldable pub count_leads : Dict OrgRole → List DepartmentMembership → Outcome ℕ
unfolding is_active_lead
count_leads roles [] = returns 0
count_leads roles (m ∷ ms) =
    followed_by (is_active_lead roles m)
      λ lead. followed_by (count_leads roles ms) λ n. returns ((if lead then 1 else 0) + n)

-- The body of the loop over the departments.
unfoldable pub check_members : OrganizationGraphVersion → (department : String) → Outcome (Unit {0})
unfolding count_leads roles_by_id
check_members g department =
    let members = keep (λ m. str_eq m.department_id department) g.memberships in
    followed_by
      (lift_result (
        raise_if (ltb g.bounds.agents_per_department (distinct_agents members))
          (invariant_violation "agents_per_department_bound")))
      λ few.
        followed_by (count_leads (roles_by_id g.roles []) members) λ leads.
          lift_result (raise_if (ltb 1 leads) (invariant_violation "department_lead_unique"))

-- `for department in departments`
unfoldable pub check_departments :
    OrganizationGraphVersion → (departments : List String) → Outcome (Unit {0})
unfolding check_members
check_departments g [] = returns tt
check_departments g (department ∷ departments) =
    followed_by (check_members g department) λ done. check_departments g departments

-- The loops over agents and departments.
unfoldable pub check_memberships : OrganizationGraphVersion → Outcome (Unit {0})
unfolding check_departments
check_memberships g =
    followed_by
      (lift_result (
        raise_if
          (any
            (λ agent.
              ltb g.bounds.memberships_per_agent
                (count_if (λ m. str_eq m.agent_id agent) g.memberships))
            (agent_ids g))
          (invariant_violation "memberships_per_agent_bound")))
      λ few. check_departments g (department_ids g)

-- What is checked before these loops.
unfoldable pub check_entries : OrganizationGraphVersion → Result (Unit {0})
unfolding check_workspaces check_references
check_entries g = do
  require_utc g.created_at
  raise_if ((if g.schema_version == 1 then false else true) || exceeds_bounds g)
      (invariant_violation "organization_graph_bound_or_schema")
  check_workspaces g
  check_references g

-- Everything before the reporting lines.
unfoldable pub check_structure : OrganizationGraphVersion → Outcome (Unit {0})
unfolding check_entries check_memberships
check_structure g = followed_by (lift_result (check_entries g)) λ entered. check_memberships g
