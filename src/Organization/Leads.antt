-- ===== src/Organization/Leads.antt =====
-- The count of the leads of a department, and what the checks up to it settle
-- (agent_company_os/domain/organization.py).
use nebula_os.Prelude.{
  String, Bool, true, false, ◌&&◌, ◌≡◌, refl, some, List, [], ◌∷◌, Dict, lookup, insert,
  lookup-insert, any, All, All-keep, keep, count_if, mem_text, all_distinct, texts_of, str_eq,
  eq_iff, Bool-cases, inl, inr, arith, ltb, if◌then◌else◌,
}
use nebula_os.Domain.Errors.{Result, ok, err, invariant_violation, raise_if}
use nebula_os.Planning.Search.{Outcome, returns, followed_by}
use nebula_os.Planning.Settling.{Settles, Settles-followed_by, All-map}
use nebula_os.Planning.Validate.{lift_result}
use nebula_os.Organization.Data.{OrgRole, DepartmentMembership, is_active}
use nebula_os.Organization.Structure.{
  OrganizationGraphVersion, roles_by_id, is_active_lead, count_leads, distinct_agents,
  check_members, check_departments, check_memberships, check_entries, check_references,
  check_structure, role_ids, department_ids, agent_ids,
}

-- An active membership whose role, among the roles of the version, leads.
abbrev pub leads : List OrgRole → DepartmentMembership → Bool
leads roles m = is_active m.status && any (λ r. str_eq r.id m.role_id && r.is_lead) roles

lookup-others :
    (k : String) (roles : List OrgRole) (d : Dict OrgRole)
    → mem_text k (texts_of (λ r. r.id) roles) ≡ false
    → (lookup k (roles_by_id roles d) ≡ lookup k d)
      × (any (λ r. str_eq r.id k && r.is_lead) roles ≡ false)
unfolding roles_by_id
lookup-others k [] d h = (refl, refl)
lookup-others k (r ∷ roles) d h =
    let (same, none') = lookup-others k roles (insert r.id r d) (ground arith) in
    (
      ground (arith, lookup-insert r.id k r d, eq_iff r.id k, eq_iff k r.id),
      ground (arith, eq_iff r.id k, eq_iff k r.id),
    )

-- With distinct ids, the role that is found under an id leads if one with this id does.
lookup-roles_by_id :
    (k : String) (roles : List OrgRole) (d : Dict OrgRole)
    → all_distinct (texts_of (λ r. r.id) roles) ≡ true
    → mem_text k (texts_of (λ r. r.id) roles) ≡ true
    → (r : OrgRole) × (lookup k (roles_by_id roles d) ≡ some r)
      × (r.is_lead ≡ any (λ x. str_eq x.id k && x.is_lead) roles)
unfolding roles_by_id
lookup-roles_by_id k [] d once h = absurd (cc)
lookup-roles_by_id k (r ∷ roles) d once h = elim (Bool-cases (str_eq k r.id)) [
  | inl same ↦
      let e = (eq_iff k r.id).0 same in
      let absent : mem_text k (texts_of (λ r. r.id) roles) ≡ false = ground arith in
      let (kept, none') = lookup-others k roles (insert r.id r d) absent in
      (r, ground (arith, lookup-insert r.id k r d, eq_iff r.id k), ground (arith, eq_iff r.id k))
  | inr other ↦
      let (x, found, leading) =
        lookup-roles_by_id k roles (insert r.id r d) (ground arith) (ground arith) in
      (x, found, ground (arith, eq_iff r.id k, eq_iff k r.id))
]

module _ (roles : List OrgRole) (once : all_distinct (texts_of (λ r. r.id) roles) ≡ true) where
  is_active_lead-leads :
      (m : DepartmentMembership)
      → mem_text m.role_id (texts_of (λ r. r.id) roles) ≡ true
      → is_active_lead (roles_by_id roles []) m ≡ returns (leads roles m)
  unfolding is_active_lead
  is_active_lead-leads m known =
      let (r, found, leading) = lookup-roles_by_id m.role_id roles [] once known in ground arith

  count_leads-leads :
      (ms : List DepartmentMembership)
      → All (λ m. mem_text m.role_id (texts_of (λ r. r.id) roles) ≡ true) ms
      → count_leads (roles_by_id roles []) ms ≡ returns (count_if (leads roles) ms)
  unfolding count_leads
  count_leads-leads [] known = refl
  count_leads-leads (m ∷ ms) known =
      ground (arith, is_active_lead-leads m known.0, count_leads-leads ms known.1)

pub any-none :
    {A : Type 0} (p : A → Bool) (xs : List A) → any p xs ≡ false → All (λ x. p x ≡ false) xs
any-none p [] h = tt
any-none p (x ∷ xs) h = (ground arith, any-none p xs (ground arith))

pub lift_result-Settles :
    {T : Type 0} (r : Result T) → Settles (λ (value : T). r ≡ ok value) (lift_result r)
lift_result-Settles (ok value) = refl
lift_result-Settles (err error) = tt

pub lift_result-ends :
    {T : Type 0} (r : Result T) → Settles (λ (value : T). Unit {0}) (lift_result r)
lift_result-ends (ok value) = tt
lift_result-ends (err error) = tt

-- A statement that may raise a domain error, before a rest that settles.
after_check :
    (r : Result (Unit {0})) (rest : Unit {0} → Outcome (Unit {0}))
    → Settles (λ (u : Unit {0}). Unit {0}) (rest tt)
    → Settles (λ (u : Unit {0}). Unit {0}) (followed_by (lift_result r) rest)
after_check (ok value) rest h = h
after_check (err error) rest h = tt

module _ (g : OrganizationGraphVersion) where
  -- The department and the role of a membership are there.
  abbrev pub IsKnown : DepartmentMembership → Type 0
  IsKnown m =
      (mem_text m.department_id (department_ids g) ≡ true)
      × (mem_text m.role_id (role_ids g) ≡ true)

  pub members-IsKnown : check_references g ≡ ok tt → All IsKnown g.memberships
  unfolding check_references
  members-IsKnown h =
      let unknown = λ (m : DepartmentMembership).
        if mem_text m.department_id (department_ids g)
          && mem_text m.role_id (role_ids g)
          && mem_text m.agent_id (agent_ids g)
        then false
        else true in
      let nothing : any unknown g.memberships ≡ false = ground arith in
      All-map (λ m. unknown m ≡ false) IsKnown g.memberships (λ m f. (ground arith, ground arith))
        (any-none unknown g.memberships nothing)

  roles_once : check_references g ≡ ok tt → all_distinct (role_ids g) ≡ true
  unfolding check_references
  roles_once h = ground arith

  pub entries_references : check_entries g ≡ ok tt → check_references g ≡ ok tt
  unfolding check_entries
  entries_references h = ground arith

  module _ (references : check_references g ≡ ok tt) (department : String) where
    abbrev members : List DepartmentMembership
    members = keep (λ m. str_eq m.department_id department) g.memberships

    pub leads_counted :
        count_leads (roles_by_id g.roles []) members ≡ returns (count_if (leads g.roles) members)
    leads_counted =
        let known = members-IsKnown references in
        count_leads-leads g.roles (roles_once references) members (
          All-keep (λ m. mem_text m.role_id (role_ids g) ≡ true)
            (λ m. str_eq m.department_id department) g.memberships
            (All-map IsKnown (λ m. mem_text m.role_id (role_ids g) ≡ true) g.memberships
              (λ m k. k.1) known))

    check_members-Settles : Settles (λ (u : Unit {0}). Unit {0}) (check_members g department)
    unfolding check_members
    check_members-Settles =
        after_check
          (raise_if (ltb g.bounds.agents_per_department (distinct_agents members))
            (invariant_violation "agents_per_department_bound"))
          (λ few.
            followed_by (count_leads (roles_by_id g.roles []) members)
              λ n. lift_result (raise_if (ltb 1 n) (invariant_violation "department_lead_unique")))
          (rw leads_counted (
            lift_result-ends (
              raise_if (ltb 1 (count_if (leads g.roles) members))
                (invariant_violation "department_lead_unique"))))

  check_departments-Settles :
      check_references g ≡ ok tt
      → (departments : List String)
      → Settles (λ (u : Unit {0}). Unit {0}) (check_departments g departments)
  unfolding check_departments
  check_departments-Settles references [] = tt
  check_departments-Settles references (d ∷ ds) =
      Settles-followed_by (λ (u : Unit {0}). Unit {0}) (λ (u : Unit {0}). Unit {0})
        (check_members g d) (λ done. check_departments g ds) (check_members-Settles references d)
        λ done u. check_departments-Settles references ds

  check_memberships-Settles :
      check_references g ≡ ok tt → Settles (λ (u : Unit {0}). Unit {0}) (check_memberships g)
  unfolding check_memberships
  check_memberships-Settles references =
      after_check
        (raise_if
          (any
            (λ agent.
              ltb g.bounds.memberships_per_agent
                (count_if (λ m. str_eq m.agent_id agent) g.memberships))
            (agent_ids g))
          (invariant_violation "memberships_per_agent_bound"))
        (λ few. check_departments g (department_ids g))
        (check_departments-Settles references (department_ids g))

  pub check_structure-Settles : Settles (λ (u : Unit {0}). Unit {0}) (check_structure g)
  unfolding check_structure
  check_structure-Settles =
      Settles-followed_by (λ (u : Unit {0}). check_entries g ≡ ok u) (λ (u : Unit {0}). Unit {0})
        (lift_result (check_entries g)) (λ entered. check_memberships g)
        (lift_result-Settles (check_entries g))
        λ entered e. check_memberships-Settles (entries_references e)
