-- ===== src/Organization/Data.antt =====
-- The parts of an organisation (agent_company_os/domain/organization.py) with the checks of their
-- constructors. Tests of a value's class are left to the types.
use nebula_os.Prelude.{
  ℕ, String, Bool, true, false, ◌&&◌, ◌||◌, Option, none, some, List, [], ◌∷◌, ltb, leb, any,
  length, str_eq, all_distinct, if◌then◌else◌,
}
use nebula_os.Domain.Errors.{Result, ok, invariant_violation, raise_if, ◌>>=◌, ◌>>◌}
use nebula_os.Domain.Validation.{Version, DateTime, clean_required_text, require_utc, check_time?}
use nebula_os.Planning.Plan.{text_length}

pub data StructuralStatus : Type 0 where
  active disabled : StructuralStatus

pub data MembershipStatus : Type 0 where
  active revoked : MembershipStatus

abbrev pub is_active : MembershipStatus → Bool
is_active MembershipStatus.active = true
is_active MembershipStatus.revoked = false

pub data RouteKind : Type 0 where
  delegate message handoff : RouteKind

abbrev pub route_value : RouteKind → String
route_value delegate = "delegate"
route_value message = "message"
route_value handoff = "handoff"

unfoldable pub label : String → Result (Unit {0})
label value = do
  cleaned ← clean_required_text value
  raise_if (ltb 200 (text_length value)) (invariant_violation "organization_label_bound")

pub record Department : Type 0 where
  pub id : String
  pub workspace_id : String
  pub name : String
  pub status : StructuralStatus
  pub description : String

-- `Department.__post_init__`
unfoldable pub check_department : Department → Result Department
unfolding label
check_department d = do
  label d.name
  raise_if (ltb 1000 (text_length d.description))
      (invariant_violation "department_description_bound")
  ok d

pub record OrgRole : Type 0 where
  pub id : String
  pub workspace_id : String
  pub name : String
  pub is_lead : Bool

-- `OrgRole.__post_init__`
unfoldable pub check_role : OrgRole → Result OrgRole
unfolding label
check_role r = label r.name >> ok r

pub record CapabilityDefinition : Type 0 where
  pub id : String
  pub workspace_id : String
  pub name : String
  pub status : StructuralStatus

-- `CapabilityDefinition.__post_init__`
unfoldable pub check_capability : CapabilityDefinition → Result CapabilityDefinition
unfolding label
check_capability c = label c.name >> ok c

pub record DepartmentMembership : Type 0 where
  pub workspace_id : String
  pub agent_id : String
  pub department_id : String
  pub role_id : String
  pub status : MembershipStatus
  pub discoverable : Bool
  pub effective_from : Option DateTime
  pub effective_until : Option DateTime

-- `a and b and a >= b`, for times in UTC
abbrev pub is_empty_window : Option DateTime → Option DateTime → Bool
is_empty_window none until = false
is_empty_window (some a) none = false
is_empty_window (some a) (some b) = leb b.instant a.instant

-- `DepartmentMembership.__post_init__`
unfoldable pub check_membership : DepartmentMembership → Result DepartmentMembership
check_membership m = do
  check_time? m.effective_from
  check_time? m.effective_until
  raise_if (is_empty_window m.effective_from m.effective_until)
      (invariant_violation "membership_time_order")
  ok m

-- `start is None or start <= at`
abbrev pub has_begun : Option DateTime → DateTime → Bool
has_begun none at = true
has_begun (some start) at = leb start.instant at.instant

-- `until is None or at < until`
abbrev pub has_time_left : Option DateTime → DateTime → Bool
has_time_left none at = true
has_time_left (some until) at = ltb at.instant until.instant

-- `DepartmentMembership.effective`
unfoldable pub effective : DepartmentMembership → DateTime → Result Bool
effective m at = do
  require_utc at
  ok (is_active m.status && has_begun m.effective_from at && has_time_left m.effective_until at)

pub record ReportingRelationship : Type 0 where
  pub workspace_id : String
  pub subordinate : String
  pub manager : String

pub record RegisteredAgent : Type 0 where
  pub workspace_id : String
  pub agent_id : String
  pub version : Version

pub record DepartmentRoute : Type 0 where
  pub source : String
  pub target : String
  pub kind : RouteKind
  pub allowed : Bool

-- `(rule.source, rule.target, rule.kind) == (source, target, kind)`
abbrev pub is_route : (source target : String) → RouteKind → DepartmentRoute → Bool
is_route source target kind rule =
    str_eq rule.source source
    && str_eq rule.target target
    && str_eq (route_value rule.kind) (route_value kind)

pub record OrganizationBounds : Type 0 where
  pub departments : ℕ
  pub roles : ℕ
  pub capabilities : ℕ
  pub memberships : ℕ
  pub memberships_per_agent : ℕ
  pub agents_per_department : ℕ
  pub reporting_depth : ℕ
  pub cross_department_rules : ℕ

abbrev pub default_bounds : OrganizationBounds
default_bounds = record {
  departments = 12;
  roles = 16;
  capabilities = 32;
  memberships = 64;
  memberships_per_agent = 3;
  agents_per_department = 20;
  reporting_depth = 5;
  cross_department_rules = 64;
}

abbrev pub bound_pairs : OrganizationBounds → List (ℕ × ℕ)
bound_pairs b =
    (b.departments, 32)
    ∷ (b.roles, 64)
    ∷ (b.capabilities, 128)
    ∷ (b.memberships, 256)
    ∷ (b.memberships_per_agent, 8)
    ∷ (b.agents_per_department, 64)
    ∷ (b.reporting_depth, 10)
    ∷ (b.cross_department_rules, 256)
    ∷ []

-- `OrganizationBounds.__post_init__`
unfoldable pub check_bounds : OrganizationBounds → Result OrganizationBounds
check_bounds b = do
  raise_if
      (any (λ (value, maximum). if leb 1 value && leb value maximum then false else true)
        (bound_pairs b))
      (invariant_violation "organization_bounds")
  ok b

pub record OrganizationPolicy : Type 0 where
  pub routes : List DepartmentRoute

-- `OrganizationPolicy.__post_init__`
unfoldable pub check_policy : OrganizationPolicy → Result OrganizationPolicy
check_policy p = do
  raise_if (ltb 256 (length p.routes)) (invariant_violation "organization_policy_schema")
  ok p

-- The loop of `OrganizationPolicy.allows`: the first rule for the route decides.
unfoldable pub route_allowed : List DepartmentRoute → (source target : String) → RouteKind → Bool
route_allowed [] source target kind = str_eq source target
route_allowed (rule ∷ rules) source target kind =
    if is_route source target kind rule
    then rule.allowed
    else route_allowed rules source target kind

-- `OrganizationPolicy.allows`
unfoldable pub allows : OrganizationPolicy → (source target : String) → RouteKind → Bool
unfolding route_allowed
allows p source target kind = route_allowed p.routes source target kind

pub record OrganizationGraph : Type 0 where
  pub id : String
  pub workspace_id : String
  pub name : String
  pub revision : Version
  pub active_version : Option Version

-- `OrganizationGraph.__post_init__`
unfoldable pub check_graph : OrganizationGraph → Result OrganizationGraph
unfolding label
check_graph g = label g.name >> ok g

pub record RegistryQuery : Type 0 where
  pub department_id : Option String
  pub role_id : Option String
  pub capability_ids : List String

-- `RegistryQuery.__post_init__`
unfoldable pub check_query : RegistryQuery → Result RegistryQuery
check_query q = do
  raise_if
      (ltb 10 (length q.capability_ids) || (if all_distinct q.capability_ids then false else true))
      (invariant_violation "registry_query_schema")
  ok q
