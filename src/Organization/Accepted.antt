-- ===== src/Organization/Accepted.antt =====
-- Leads and routes of an accepted version, and the times of a membership
-- (agent_company_os/domain/organization.py).
use nebula_os.Prelude.{
  ◌≤◌, String, Bool, true, false, ◌&&◌, ◌≡◌, refl, inl, inr, some, List, [], ◌∷◌, any, All, keep,
  count_if, mem_text, eq_iff, str_eq, distinct_by, Bool-cases, arith,
}
use nebula_os.Domain.Errors.{ok, Result-cases}
use nebula_os.Domain.Validation.{DateTime}
use nebula_os.Planning.Search.{returns}
use nebula_os.Planning.Settling.{All-map, All-mem}
use nebula_os.Planning.Tour.{All-both}
use nebula_os.Organization.Data.{
  RouteKind, route_value, DepartmentRoute, is_route, route_allowed, allows, DepartmentMembership,
  MembershipStatus, check_membership, effective, is_active,
}
use nebula_os.Organization.Structure.{
  OrganizationGraphVersion, check_structure, check_entries, check_references, check_memberships,
  check_departments, check_members, department_ids,
}
use nebula_os.Organization.Graph.{check_version, check_routes, same_route}
use nebula_os.Organization.Leads.{
  leads, any-none, IsKnown, members-IsKnown, entries_references, leads_counted,
}
use nebula_os.Organization.Hierarchy.{check_version-parts}

module _ {A : Type 0} where
  count_if-none : (p : A → Bool) (xs : List A) → count_if p xs ≤ 0 → All (λ x. p x ≡ false) xs
  count_if-none p [] h = tt
  count_if-none p (x ∷ xs) h = (ground arith, count_if-none p xs (ground arith))

  All-any : (P : A → Type 0) (xs : List A) → ((x : A) → P x) → All P xs
  All-any P [] h = tt
  All-any P (x ∷ xs) h = (h x, All-any P xs h)

  -- At most one item passes the test: two that pass are the same.
  count_if-one :
      (p : A → Bool) (xs : List A)
      → count_if p xs ≤ 1
      → All (λ x. All (λ y. p x ≡ true → p y ≡ true → x ≡ y) xs) xs
  count_if-one p [] h = tt
  count_if-one p (x ∷ xs) h = elim (Bool-cases (p x)) [
    | inl passes ↦
        let others = count_if-none p xs (ground arith) in
        (
          (
            λ q r. refl,
            All-map (λ y. p y ≡ false) (λ y. p x ≡ true → p y ≡ true → x ≡ y) xs
                (λ y f q r. absurd (ground arith)) others,
          ),
          All-map (λ y. p y ≡ false) (λ y. All (λ z. p y ≡ true → p z ≡ true → y ≡ z) (x ∷ xs)) xs
              (λ y f. (
                λ q r. absurd (ground arith),
                All-any (λ z. p y ≡ true → p z ≡ true → y ≡ z) xs (λ z q r. absurd (ground arith)),
              ))
              others,
        )
    | inr fails ↦ (
      (
        λ q r. refl,
        All-any (λ y. p x ≡ true → p y ≡ true → x ≡ y) xs (λ y q r. absurd (ground arith)),
      ),
      All-map (λ y. All (λ z. p y ≡ true → p z ≡ true → y ≡ z) xs)
          (λ y. All (λ z. p y ≡ true → p z ≡ true → y ≡ z) (x ∷ xs)) xs
          (λ y rest. (λ q r. absurd (ground arith), rest)) (count_if-one p xs (ground arith)),
    )
  ]

  count_if-keep :
      (p q : A → Bool) (xs : List A) → count_if p (keep q xs) ≡ count_if (λ x. q x && p x) xs
  count_if-keep p q [] = refl
  count_if-keep p q (x ∷ xs) = ground (arith, count_if-keep p q xs)

  -- What holds for each key of each item holds for each item under its own key.
  All-own :
      (key : A → String) (K : String → Type 0) (P : String → A → Type 0) (xs : List A)
      → ((k : String) → K k → All (P k) xs)
      → All (λ x. K (key x)) xs
      → All (λ x. P (key x) x) xs
  All-own key K P [] h known = tt
  All-own key K P (x ∷ xs) h known =
      ((h (key x) known.0).0, All-own key K P xs (λ k q. (h k q).1) known.1)

rules-decide :
    (routes : List DepartmentRoute)
    → distinct_by same_route routes ≡ true
    → All (λ r. route_allowed routes r.source r.target r.kind ≡ r.allowed) routes
unfolding route_allowed
rules-decide [] h = tt
rules-decide (r ∷ routes) h = (
  ground (
    arith,
    eq_iff r.source r.source,
    eq_iff r.target r.target,
    eq_iff (route_value r.kind) (route_value r.kind),
  ),
  All-map
      (λ s.
        (is_route s.source s.target s.kind r ≡ false)
        × (route_allowed routes s.source s.target s.kind ≡ s.allowed))
      (λ s. route_allowed (r ∷ routes) s.source s.target s.kind ≡ s.allowed) routes
      (λ s both. let e = both.0 in let f = both.1 in ground arith)
      (All-both (λ s. is_route s.source s.target s.kind r ≡ false)
        (λ s. route_allowed routes s.source s.target s.kind ≡ s.allowed) routes
        (any-none (same_route r) routes (ground arith)) (rules-decide routes (ground arith))),
)

no_rule :
    (routes : List DepartmentRoute) (source target : String) (kind : RouteKind)
    → any (is_route source target kind) routes ≡ false
    → route_allowed routes source target kind ≡ str_eq source target
unfolding route_allowed
no_rule [] source target kind h = refl
no_rule (r ∷ routes) source target kind h = ground (arith, no_rule routes source target kind)

module _ (g : OrganizationGraphVersion) where
  -- The lead memberships of a department, as the code counts them.
  abbrev leads_of : String → DepartmentMembership → Bool
  leads_of department m = str_eq m.department_id department && leads g.roles m

  structure_parts :
      check_structure g ≡ returns tt
      → (check_references g ≡ ok tt) × (check_memberships g ≡ returns tt)
  unfolding check_structure
  structure_parts h = elim (Result-cases (check_entries g)) [
    | inl (u, e) ↦ (entries_references g e, ground arith)
    | inr (error, e) ↦ absurd (ground arith)
  ]

  one_lead :
      check_references g ≡ ok tt
      → (department : String) → check_members g department ≡ returns tt
      → count_if (leads_of department) g.memberships ≤ 1
  unfolding check_members
  one_lead references department h =
      let counted = leads_counted g references department in
      let e =
        count_if-keep (leads g.roles) (λ m. str_eq m.department_id department) g.memberships in
      ground arith

  departments_checked :
      (departments : List String)
      → check_departments g departments ≡ returns tt
      → All (λ d. check_members g d ≡ returns tt) departments
  unfolding check_departments
  departments_checked [] h = tt
  departments_checked (d ∷ ds) h = (ground arith, departments_checked ds (ground arith))

  members_checked :
      check_memberships g ≡ returns tt → check_departments g (department_ids g) ≡ returns tt
  unfolding check_memberships
  members_checked h = ground arith

  -- Two active lead memberships of one department are the same.
  abbrev pub AgreesOn : DepartmentMembership → DepartmentMembership → Type 0
  AgreesOn m n =
      leads g.roles m ≡ true → leads g.roles n ≡ true → m.department_id ≡ n.department_id → m ≡ n

  -- In an accepted version each department has at most one active membership with a leading role.
  pub check_version-lead :
      check_version g ≡ returns tt → All (λ m. All (AgreesOn m) g.memberships) g.memberships
  check_version-lead h =
      let (references, members) = structure_parts (check_version-parts g h).0 in
      let checked = departments_checked (department_ids g) (members_checked members) in
      let one = λ (d : String) (known : mem_text d (department_ids g) ≡ true).
        count_if-one (leads_of d) g.memberships (
          one_lead references d
            (All-mem (λ d. check_members g d ≡ returns tt) d (department_ids g) checked known)) in
      All-map
        (λ m.
          All (λ n. leads_of m.department_id m ≡ true → leads_of m.department_id n ≡ true → m ≡ n)
            g.memberships)
        (λ m. All (AgreesOn m) g.memberships) g.memberships
        (λ m same.
          All-map
            (λ n. leads_of m.department_id m ≡ true → leads_of m.department_id n ≡ true → m ≡ n)
            (AgreesOn m) g.memberships
            (λ n equal leads_m leads_n together.
              equal (ground (arith, eq_iff m.department_id m.department_id))
                (ground (arith, eq_iff n.department_id m.department_id)))
            same)
        (All-own (λ m. m.department_id) (λ d. mem_text d (department_ids g) ≡ true)
          (λ d m. All (λ n. leads_of d m ≡ true → leads_of d n ≡ true → m ≡ n) g.memberships)
          g.memberships one
          (All-map (IsKnown g) (λ m. mem_text m.department_id (department_ids g) ≡ true)
            g.memberships (λ m k. k.0) (members-IsKnown g references)))

  -- In an accepted version the order of the rules does not matter: each rule decides for its route.
  -- For a route without a rule, a department may reach itself only.
  pub check_version-allows :
      check_version g ≡ returns tt
      → All (λ r. allows g.policy r.source r.target r.kind ≡ r.allowed) g.policy.routes
        × ((source target : String) (kind : RouteKind)
            → any (is_route source target kind) g.policy.routes ≡ false
            → allows g.policy source target kind ≡ str_eq source target)
  unfolding allows check_routes
  check_version-allows h =
      let parts = (check_version-parts g h).2 in
      let once : distinct_by same_route g.policy.routes ≡ true = ground arith in
      (rules-decide g.policy.routes once, no_rule g.policy.routes)

-- An active membership with both times, which its constructor accepts, is effective when it begins
-- and no longer when it ends.
pub check_membership-effective :
    (m : DepartmentMembership) (start until : DateTime)
    → check_membership m ≡ ok m
    → m.status ≡ MembershipStatus.active
    → m.effective_from ≡ some start
    → m.effective_until ≡ some until
    → (effective m start ≡ ok true) × (effective m until ≡ ok false)
unfolding check_membership effective
check_membership-effective m start until h active begins ends =
    let e : is_active m.status ≡ true = rw active refl in (ground arith, ground arith)
