-- ===== src/Organization/Tests.antt =====
-- Concrete organisations.
use nebula_os.Prelude.{
  ℕ, suc, ◌≤◌, String, Bool, true, false, ◌≡◌, ◌≢◌, refl, some, List, [], ◌∷◌, All, lookup, insert,
  any, str_eq,
}
use nebula_os.Domain.Errors.{ok, invariant_violation}
use nebula_os.Domain.Validation.{DateTime, ahead, require_utc}
use nebula_os.Planning.Search.{returns, raises, key_error}
use nebula_os.Planning.Settling.{Settles}
use nebula_os.Organization.Data.{
  Department, StructuralStatus, MembershipStatus, OrgRole, RegisteredAgent, DepartmentMembership,
  ReportingRelationship, RouteKind, delegate, is_route, default_bounds, allows, check_membership,
  effective,
}
use nebula_os.Organization.Structure.{
  OrganizationGraphVersion, check_structure, check_entries, check_workspaces, check_references,
  check_memberships, check_departments, check_members, count_leads, is_active_lead, roles_by_id,
  for_each, expect_workspace,
}
use nebula_os.Organization.Graph.{
  check_version, check_routes, check_reporting, check_edges, climb, climb_each,
}
use nebula_os.Organization.Lines.{here, up}
use nebula_os.Organization.Hierarchy.{
  check_reporting_accepts, check_version-Settles, check_version-Line, IsHierarchy,
}
use nebula_os.Organization.Accepted.{
  check_version-lead, check_version-allows, check_membership-effective, AgreesOn,
}

abbrev noon : ℕ → DateTime
noon n = record { instant = n; zone = ahead 0 }

abbrev department : String → Department
department id = record {
  id = id;
  workspace_id = "w";
  name = id;
  status = StructuralStatus.active;
  description = "";
}

abbrev role : String → Bool → OrgRole
role id is_lead = record { id = id; workspace_id = "w"; name = id; is_lead = is_lead }

abbrev agent : String → RegisteredAgent
agent id = record { workspace_id = "w"; agent_id = id; version = 1 }

abbrev membership : (agent_id department_id role_id : String) → DepartmentMembership
membership agent_id department_id role_id = record {
  workspace_id = "w";
  agent_id = agent_id;
  department_id = department_id;
  role_id = role_id;
  status = MembershipStatus.active;
  discoverable = true;
  effective_from = some (noon 5);
  effective_until = some (noon 9);
}

abbrev edge : (subordinate manager : String) → ReportingRelationship
edge subordinate manager = record {
  workspace_id = "w";
  subordinate = subordinate;
  manager = manager;
}

abbrev company : List ReportingRelationship → OrganizationGraphVersion
company reporting = record {
  graph_id = "g";
  workspace_id = "w";
  version = 1;
  created_at = noon 1;
  departments = department "sales" ∷ department "legal" ∷ [];
  roles = role "head" true ∷ role "clerk" false ∷ [];
  capabilities = [];
  agents = agent "ann" ∷ agent "bob" ∷ agent "eve" ∷ [];
  memberships =
      membership "ann" "sales" "head"
      ∷ membership "bob" "sales" "clerk"
      ∷ membership "eve" "legal" "head"
      ∷ [];
  reporting = reporting;
  policy = record {
    routes =
        record { source = "sales"; target = "legal"; kind = delegate; allowed = true }
        ∷ record { source = "legal"; target = "legal"; kind = delegate; allowed = false }
        ∷ [];
  };
  bounds = default_bounds;
  schema_version = 1;
}

abbrev ladder : List ReportingRelationship
ladder = edge "bob" "ann" ∷ edge "eve" "bob" ∷ []

steps : Unit {0}
unfolding for_each expect_workspace check_workspaces check_references check_memberships
    check_members check_departments count_leads is_active_lead roles_by_id check_entries
    check_structure check_edges climb climb_each check_reporting check_routes check_version lookup
    insert require_utc
steps = tt

ladder-accepted : check_version (company ladder) ≡ returns tt
unfolding steps
ladder-accepted = refl

-- Two that manage each other.
ring-refused :
    check_version (company (edge "bob" "ann" ∷ edge "ann" "bob" ∷ []))
    ≡ raises (invariant_violation "reporting_cycle")
unfolding steps
ring-refused = refl

check_reporting_accepts_example : IsHierarchy 5 ("ann" ∷ "bob" ∷ "eve" ∷ []) ladder
unfolding steps
check_reporting_accepts_example =
    (check_reporting_accepts 5 ("ann" ∷ "bob" ∷ "eve" ∷ []) ladder).0 refl

check_version-Settles_example :
    Settles
      (λ (u : Unit {0}). Unit {0})
      (check_version (company (edge "bob" "ann" ∷ edge "ann" "bob" ∷ [])))
check_version-Settles_example =
    check_version-Settles (company (edge "bob" "ann" ∷ edge "ann" "bob" ∷ []))

check_version-Line_example : (◌≢◌ {A = String} "eve" "ann") × (suc 1 ≤ 5)
check_version-Line_example =
    check_version-Line (company ladder) ladder-accepted "eve" "ann" 1
      (up {b = "bob"} refl (up {b = "ann"} refl here))

check_version-lead_example :
    All
      (λ m. All (AgreesOn (company ladder) m) (company ladder).memberships)
      (company ladder).memberships
check_version-lead_example = check_version-lead (company ladder) ladder-accepted

check_version-allows_example :
    All
      (λ r. allows (company ladder).policy r.source r.target r.kind ≡ r.allowed)
      (company ladder).policy.routes
    × ((source target : String) (kind : RouteKind)
        → any (is_route source target kind) (company ladder).policy.routes ≡ false
        → allows (company ladder).policy source target kind ≡ str_eq source target)
check_version-allows_example = check_version-allows (company ladder) ladder-accepted

check_membership-effective_example :
    (effective (membership "ann" "sales" "head") (noon 5) ≡ ok true)
    × (effective (membership "ann" "sales" "head") (noon 9) ≡ ok false)
unfolding check_membership require_utc
check_membership-effective_example =
    check_membership-effective (membership "ann" "sales" "head") (noon 5) (noon 9) refl refl refl
      refl

-- A role that no version has would end the count with a `KeyError`.
missing_role :
    count_leads (roles_by_id [] []) (membership "ann" "sales" "head" ∷ []) ≡ key_error "head"
unfolding steps lookup
missing_role = refl
