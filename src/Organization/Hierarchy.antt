-- ===== src/Organization/Hierarchy.antt =====
-- Which reporting lines an organisation may have, and that the checks of a version end
-- (`OrganizationGraphVersion.__post_init__` of agent_company_os/domain/organization.py).
use nebula_os.Prelude.{
  ℕ, suc, ◌≤◌, String, true, false, ◌≡◌, ◌≢◌, ◌↔◌, inl, inr, some, List, [], ◌∷◌, Dict, lookup, All,
  all_distinct, arith, refl,
}
use nebula_os.Domain.Errors.{DomainError, ok, err, Result-cases}
use nebula_os.Planning.Search.{returns, raises, followed_by}
use nebula_os.Planning.Settling.{Settles, Settles-followed_by}
use nebula_os.Planning.Validate.{lift_result}
use nebula_os.Organization.Data.{ReportingRelationship}
use nebula_os.Organization.Graph.{
  check_edges, climb_each, check_reporting, check_version, has_key, check_routes,
}
use nebula_os.Organization.Structure.{
  OrganizationGraphVersion, check_structure, agent_ids, department_ids,
}
use nebula_os.Organization.Leads.{check_structure-Settles, lift_result-ends}
use nebula_os.Organization.Lines.{
  Line, Line-open, IsEdge, subordinates, reports_to, check_edges-lookup, lookup-check_edges,
  check_edges_passes, check_edges_valid,
}
use nebula_os.Organization.Reporting.{
  climb_each-Settles, climb_each-bounds, climb_each-returns, bounded-everywhere,
}

-- Edges between different known agents, one for each subordinate, and lines of bounded length.
pub record IsHierarchy (limit : ℕ) (agents : List String) (edges : List ReportingRelationship)
    : Type 0 where
  pub valid : All (IsEdge agents) edges
  pub distinct : all_distinct (subordinates edges) ≡ true
  pub bounded : (a b : String) (n : ℕ) → Line edges a n b → n ≤ limit

module _ (limit : ℕ) (agents : List String) (edges : List ReportingRelationship) where
  check_reporting-climb :
      (p : Dict String)
      → check_edges agents edges [] ≡ ok p
      → check_reporting limit agents edges ≡ climb_each limit p p
  unfolding check_reporting
  check_reporting-climb p e = ground arith

  module _ (p : Dict String) (e : check_edges agents edges [] ≡ ok p) where
    written : (a b : String) → reports_to edges a b ≡ true → lookup a p ≡ some b
    written a b = check_edges-lookup agents edges [] p a b e

    known : (a b : String) → lookup a p ≡ some b → reports_to edges a b ≡ true
    unfolding lookup
    known a b found = ground (arith, lookup-check_edges agents edges [] p a b e found)

  no_keys : (ks : List String) → All (λ s. has_key [] s ≡ false) ks
  unfolding lookup
  no_keys [] = tt
  no_keys (k ∷ ks) = (refl, no_keys ks)

  check_reporting-refused :
      (error : DomainError)
      → check_edges agents edges [] ≡ err error
      → check_reporting limit agents edges ≡ raises error
  unfolding check_reporting
  check_reporting-refused error e = ground arith

  check_reporting-IsHierarchy :
      check_reporting limit agents edges ≡ returns tt → IsHierarchy limit agents edges
  check_reporting-IsHierarchy h = elim (Result-cases (check_edges agents edges [])) [
    | inl (p, e) ↦
        let (valid, fresh, distinct) = check_edges_valid agents edges [] p e in
        record {
          valid = valid;
          distinct = distinct;
          bounded = bounded-everywhere limit p edges (written p e) (known p e) (
              climb_each-bounds limit p edges (written p e) (known p e) p
                (rw (check_reporting-climb p e) at h));
        }
    | inr (error, e) ↦ absurd (raised_not error (check_reporting-refused error e) h)
  ]
    where
      raised_not :
          (error : DomainError)
          → check_reporting limit agents edges ≡ raises error
          → check_reporting limit agents edges ≡ returns tt
          → ⊥
      raised_not error r h = ground arith

  -- The loops over the edges and up the lines pass exactly when the agents form a hierarchy of
  -- bounded height.
  pub check_reporting_accepts :
      (check_reporting limit agents edges ≡ returns tt) ↔ IsHierarchy limit agents edges
  check_reporting_accepts = (
    check_reporting-IsHierarchy,
    λ h.
        let fresh = no_keys (subordinates edges) in
        let (p, e) = check_edges_passes agents edges [] h.valid fresh h.distinct in
        rw (check_reporting-climb p e)
          (climb_each-returns limit p edges (written p e) (known p e) h.bounded p),
  )

  check_reporting-Settles :
      Settles (λ (u : Unit {0}). Unit {0}) (check_reporting limit agents edges)
  check_reporting-Settles = elim (Result-cases (check_edges agents edges [])) [
    | inl (p, e) ↦ rw (check_reporting-climb p e) (climb_each-Settles limit p p)
    | inr (error, e) ↦ rw (check_reporting-refused error e) tt
  ]

-- The checks of any version end, with cycles in its reporting lines or without, and with memberships
-- of unknown roles or without: they return or raise a domain error, so that each climb has enough
-- rounds and the look-up of a role finds it.
pub check_version-Settles :
    (g : OrganizationGraphVersion) → Settles (λ (u : Unit {0}). Unit {0}) (check_version g)
unfolding check_version
check_version-Settles g =
    Settles-followed_by (λ (u : Unit {0}). Unit {0}) (λ (u : Unit {0}). Unit {0})
      (check_structure g)
      (λ structured.
        followed_by (check_reporting g.bounds.reporting_depth (agent_ids g) g.reporting)
          λ reported. lift_result (check_routes (department_ids g) g.policy.routes))
      (check_structure-Settles g)
      λ structured u.
        Settles-followed_by (λ (u : Unit {0}). Unit {0}) (λ (u : Unit {0}). Unit {0})
          (check_reporting g.bounds.reporting_depth (agent_ids g) g.reporting)
          (λ reported. lift_result (check_routes (department_ids g) g.policy.routes))
          (check_reporting-Settles g.bounds.reporting_depth (agent_ids g) g.reporting)
          λ reported v. lift_result-ends (check_routes (department_ids g) g.policy.routes)

-- An accepted version passed each of its parts.
pub check_version-parts :
    (g : OrganizationGraphVersion)
    → check_version g ≡ returns tt
    → (check_structure g ≡ returns tt)
      × (check_reporting g.bounds.reporting_depth (agent_ids g) g.reporting ≡ returns tt)
      × (check_routes (department_ids g) g.policy.routes ≡ ok tt)
unfolding check_version
check_version-parts g h = ground arith

-- In an accepted version nobody is above himself, and a line of managers has at most so many steps
-- as the bound on its depth.
pub check_version-Line :
    (g : OrganizationGraphVersion)
    → check_version g ≡ returns tt
    → (a b : String) (n : ℕ) → Line g.reporting a (suc n) b
    → (a ≢ b) × (suc n ≤ g.bounds.reporting_depth)
check_version-Line g h a b n l =
    let shape =
      check_reporting-IsHierarchy g.bounds.reporting_depth (agent_ids g) g.reporting
        (check_version-parts g h).1 in
    (Line-open g.bounds.reporting_depth shape.bounded l, shape.bounded a b (suc n) l)
