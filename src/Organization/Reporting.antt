-- ===== src/Organization/Reporting.antt =====
-- The way up the reporting lines (`OrganizationGraphVersion.__post_init__` of
-- agent_company_os/domain/organization.py).
use nebula_os.Prelude.{
  ℕ, zero, suc, ◌+◌, ◌<◌, ◌≤◌, String, true, false, ◌≡◌, ◌⊎◌, refl, subst, inl, inr, some, List, [],
  ◌∷◌, Dict, lookup, ltb, All, length, mem_text, str_eq, eq_iff, Bool-cases, Option-cases, arith,
}
use nebula_os.Domain.Errors.{DomainError, invariant_violation}
use nebula_os.Planning.Search.{returns, raises}
use nebula_os.Planning.Settling.{Settles, Settles-followed_by, All-mem}
use nebula_os.Organization.Data.{ReportingRelationship}
use nebula_os.Organization.Graph.{climb, climb_each}
use nebula_os.Organization.Lines.{Line, here, up, Line-append, Line-open, reports_to}

-- `P` holds of each key.
abbrev pub AllKeys : (String → Type 0) → Dict String → Type 0
AllKeys P [] = Unit {0}
AllKeys P ((k, v) ∷ d) = P k × AllKeys P d

AllKeys-lookup :
    (P : String → Type 0) (d : Dict String) (a b : String) → AllKeys P d → lookup a d ≡ some b → P a
unfolding lookup
AllKeys-lookup P [] a b h e = absurd (cc)
AllKeys-lookup P ((k, v) ∷ d) a b h e = elim (Bool-cases (str_eq k a)) [
  | inl same ↦ subst P ((eq_iff k a).0 same) h.0
  | inr other ↦ AllKeys-lookup P d a b h.1 (ground arith)
]

AllKeys-any : (P : String → Type 0) (d : Dict String) → ((k : String) → P k) → AllKeys P d
AllKeys-any P [] h = tt
AllKeys-any P ((k, v) ∷ d) h = (h k, AllKeys-any P d h)

module _ (limit : ℕ) (parents : Dict String) where
  -- A round ends the loop, raises, or goes on with the manager.
  climb_cases :
      (fuel : ℕ) (seen : List String) (node : String)
      → (climb (suc fuel) limit parents seen node ≡ returns tt)
        ⊎ (((error : DomainError) × (climb (suc fuel) limit parents seen node ≡ raises error))
            ⊎ ((manager : String) × (lookup node parents ≡ some manager)
                × (mem_text node seen ≡ false)
                × (ltb limit (suc (length seen)) ≡ false)
                × (climb (suc fuel) limit parents seen node
                    ≡ climb fuel limit parents (node ∷ seen) manager)))
  unfolding climb
  climb_cases fuel seen node = elim (Option-cases (lookup node parents)) [
    | inl top ↦ inl (ground arith)
    | inr (manager, e) ↦ elim (Bool-cases (mem_text node seen)) [
      | inl back ↦ inr (inl (invariant_violation "reporting_cycle", ground arith))
      | inr new ↦ elim (Bool-cases (ltb limit (suc (length seen)))) [
        | inl deep ↦ inr (inl (invariant_violation "reporting_depth_bound", ground arith))
        | inr within ↦ inr (inr (manager, e, new, within, ground arith))
      ]
    ]
  ]

  -- The rounds left suffice for the room left.
  pub climb-Settles :
      (fuel : ℕ) (seen : List String) (node : String)
      → limit < fuel + length seen
      → length seen ≤ limit
      → Settles (λ (u : Unit {0}). Unit {0}) (climb fuel limit parents seen node)
  unfolding climb
  climb-Settles zero seen node enough room = absurd (omega arith)
  climb-Settles (suc fuel) seen node enough room = elim (climb_cases fuel seen node) [
    | inl top ↦ rw top tt
    | inr (inl (error, raised)) ↦ rw raised tt
    | inr (inr (manager, e, new, within, on)) ↦
        rw on (climb-Settles fuel (node ∷ seen) manager (omega arith) (ground arith))
  ]

  pub climb_each-Settles :
      (starts : Dict String)
      → Settles (λ (u : Unit {0}). Unit {0}) (climb_each limit parents starts)
  unfolding climb_each
  climb_each-Settles [] = tt
  climb_each-Settles ((start, manager) ∷ starts) =
      Settles-followed_by (λ (u : Unit {0}). Unit {0}) (λ (u : Unit {0}). Unit {0})
        (climb (suc limit) limit parents [] start) (λ done. climb_each limit parents starts)
        (climb-Settles (suc limit) [] start (omega arith) (omega arith))
        (λ value h. climb_each-Settles starts)

  module _ (edges : List ReportingRelationship)
      (written : (a b : String) → reports_to edges a b ≡ true → lookup a parents ≡ some b)
      (known : (a b : String) → lookup a parents ≡ some b → reports_to edges a b ≡ true) where
    -- A climb that returns went up every line from there, within the bound.
    climb-bounds :
        (fuel : ℕ) (seen : List String) (node : String)
        → climb fuel limit parents seen node ≡ returns tt
        → length seen ≤ limit
        → (n : ℕ) (b : String) → Line edges node n b
        → n + length seen ≤ limit
    unfolding climb
    climb-bounds zero seen node h room n b l = absurd (cc)
    climb-bounds (suc fuel) seen node h room zero b here = omega arith
    climb-bounds (suc fuel) seen node h room (suc n) b (up {b = c} e l) =
        let above = written node c e in
        let higher = climb-bounds fuel (node ∷ seen) c (ground arith) (ground arith) n b l in
        omega arith

    -- Each node that was seen is below this one.
    abbrev IsBelow : String → String → Type 0
    IsBelow node s = (j : ℕ) × Line edges s (suc j) node

    All-IsBelow :
        (node manager : String) (seen : List String)
        → reports_to edges node manager ≡ true
        → All (IsBelow node) seen
        → All (IsBelow manager) seen
    All-IsBelow node manager [] e h = tt
    All-IsBelow node manager (s ∷ seen) e h =
        let (j, l) = h.0 in
        let (k, same, l') = Line-append l (up e here) in
        (
          (j + 1, subst (λ t. Line edges s t manager) (omega arith) l'),
          All-IsBelow node manager seen e h.1,
        )

    climb-returns :
        ((a b : String) (n : ℕ) → Line edges a n b → n ≤ limit)
        → (fuel : ℕ) (seen : List String) (start node : String) → limit < fuel + length seen
        → All (IsBelow node) seen
        → Line edges start (length seen) node
        → climb fuel limit parents seen node ≡ returns tt
    unfolding climb
    climb-returns bounded zero seen start node enough below l =
        absurd (omega (arith, bounded start node (length seen) l))
    climb-returns bounded (suc fuel) seen start node enough below l =
        elim (Option-cases (lookup node parents)) [
          | inl top ↦ ground arith
          | inr (manager, e) ↦
              let edge = known node manager e in
              let (k, same, l') = Line-append l (up edge here) in
              let longer : Line edges start (suc (length seen)) manager =
                subst (λ t. Line edges start t manager) (omega arith) l' in
              let le = bounded start manager (suc (length seen)) longer in
              let rest =
                climb-returns bounded fuel (node ∷ seen) start manager (omega arith)
                  ((zero, up edge here), All-IsBelow node manager seen edge below) longer in
              elim (Bool-cases (mem_text node seen)) [
                | inl back ↦
                    let (j, round) = All-mem (IsBelow node) node seen below back in
                    absurd (Line-open limit bounded round refl)
                | inr new ↦ ground arith
              ]
        ]

    pub climb_each-bounds :
        (starts : Dict String)
        → climb_each limit parents starts ≡ returns tt
        → AllKeys (λ a. (n : ℕ) (b : String) → Line edges a n b → n ≤ limit) starts
    unfolding climb_each
    climb_each-bounds [] h = tt
    climb_each-bounds ((start, manager) ∷ starts) h =
        let first : climb (suc limit) limit parents [] start ≡ returns tt = ground arith in
        (
          λ n b l. omega (arith, climb-bounds (suc limit) [] start first (omega arith) n b l),
          climb_each-bounds starts (ground arith),
        )

    pub climb_each-returns :
        ((a b : String) (n : ℕ) → Line edges a n b → n ≤ limit)
        → (starts : Dict String) → climb_each limit parents starts ≡ returns tt
    unfolding climb_each
    climb_each-returns bounded [] = refl
    climb_each-returns bounded ((start, manager) ∷ starts) =
        rw (climb-returns bounded (suc limit) [] start start (omega arith) tt here)
          (climb_each-returns bounded starts)

    -- No start, no line.
    pub bounded-everywhere :
        AllKeys (λ a. (n : ℕ) (b : String) → Line edges a n b → n ≤ limit) parents
        → (a b : String) (n : ℕ) → Line edges a n b
        → n ≤ limit
    bounded-everywhere h a b zero here = omega arith
    bounded-everywhere h a b (suc n) (up {b = c} e l) =
        AllKeys-lookup (λ a. (n : ℕ) (b : String) → Line edges a n b → n ≤ limit) parents a c h
          (written a c e) (suc n) b (up e l)
