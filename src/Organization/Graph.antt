-- ===== src/Organization/Graph.antt =====
-- The checks of a version of the organisation (`OrganizationGraphVersion.__post_init__` of
-- agent_company_os/domain/organization.py). The loop up the line of managers has fuel, one unit for
-- each round; what it may do is an `Outcome`, as in the search of a plan.
use nebula_os.Prelude.{
  ℕ, zero, suc, String, Bool, true, false, ◌&&◌, ◌||◌, none, some, List, [], ◌∷◌, Dict, lookup,
  insert, ltb, any, length, mem_text, distinct_by, str_eq, if◌then◌else◌,
}
use nebula_os.Domain.Errors.{Result, ok, invariant_violation, raise_if, ◌>>◌}
use nebula_os.Domain.Validation.{DateTime, require_utc}
use nebula_os.Planning.Search.{Outcome, returns, raises, out_of_fuel, followed_by}
use nebula_os.Planning.Validate.{lift_result}
use nebula_os.Organization.Data.{ReportingRelationship, DepartmentRoute, is_route}
use nebula_os.Organization.Structure.{
  OrganizationGraphVersion, check_structure, agent_ids, department_ids,
}

-- `key in parents`
abbrev pub has_key : Dict String → String → Bool
has_key parents key = elim (lookup key parents) [ none ↦ false | some manager ↦ true ]

-- The loop over the edges, with `parents` so far.
unfoldable pub check_edges :
    (agents : List String)
    → List ReportingRelationship
    → (parents : Dict String) → Result (Dict String)
check_edges agents [] parents = ok parents
check_edges agents (edge ∷ edges) parents = do
  raise_if
      ((if mem_text edge.subordinate agents && mem_text edge.manager agents then false else true)
        || str_eq edge.subordinate edge.manager)
      (invariant_violation "invalid_reporting_edge")
  raise_if (has_key parents edge.subordinate) (invariant_violation "one_reporting_manager")
  check_edges agents edges (insert edge.subordinate edge.manager parents)

-- `while node in parents`, with the set `seen`; a node is added to it only when it is not there.
unfoldable pub climb :
    (fuel limit : ℕ) (parents : Dict String) (seen : List String) (node : String)
    → Outcome (Unit {0})
climb zero limit parents seen node = out_of_fuel
climb (suc fuel) limit parents seen node = elim (lookup node parents) [
  | none ↦ returns tt
  | some manager ↦ elim (mem_text node seen) [
    | true ↦ raises (invariant_violation "reporting_cycle")
    | false ↦ elim (ltb limit (suc (length seen))) [
      | true ↦ raises (invariant_violation "reporting_depth_bound")
      | false ↦ climb fuel limit parents (node ∷ seen) manager
    ]
  ]
]

-- `for start in parents`; so many rounds are enough for each.
unfoldable pub climb_each :
    (limit : ℕ) (parents : Dict String) (starts : Dict String) → Outcome (Unit {0})
unfolding climb
climb_each limit parents [] = returns tt
climb_each limit parents ((start, manager) ∷ starts) =
    followed_by (climb (suc limit) limit parents [] start) λ done. climb_each limit parents starts

-- The reporting lines: the edges, and the way up from each subordinate.
unfoldable pub check_reporting :
    (limit : ℕ) (agents : List String) → List ReportingRelationship → Outcome (Unit {0})
unfolding check_edges climb_each
check_reporting limit agents edges =
    followed_by (lift_result (check_edges agents edges []))
      λ parents. climb_each limit parents parents

abbrev pub same_route : DepartmentRoute → DepartmentRoute → Bool
same_route r s = is_route s.source s.target s.kind r

unfoldable pub check_routes : (departments : List String) → List DepartmentRoute → Result (Unit {0})
check_routes departments routes =
    raise_if
      ((if distinct_by same_route routes then false else true)
        || any
            (λ r.
              if mem_text r.source departments && mem_text r.target departments
              then false
              else true)
            routes)
      (invariant_violation "invalid_department_route")

-- `OrganizationGraphVersion.__post_init__`
unfoldable pub check_version : OrganizationGraphVersion → Outcome (Unit {0})
unfolding check_structure check_reporting check_routes
check_version g = followed_by (check_structure g) λ structured.
    followed_by (check_reporting g.bounds.reporting_depth (agent_ids g) g.reporting)
      λ reported. lift_result (check_routes (department_ids g) g.policy.routes)

pub record OrganizationSnapshot : Type 0 where
  pub graph : OrganizationGraphVersion
  pub captured_at : DateTime

-- `OrganizationSnapshot.__post_init__`
unfoldable pub check_snapshot : OrganizationSnapshot → Result OrganizationSnapshot
check_snapshot s = require_utc s.captured_at >> ok s
