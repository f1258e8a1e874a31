-- ===== src/Organization/Lines.antt =====
-- Lines of managers, and what the loop over the edges keeps of them
-- (agent_company_os/domain/organization.py, `OrganizationGraphVersion.__post_init__`).
use nebula_os.Prelude.{
  ℕ, zero, suc, ◌+◌, ◌≤◌, String, Bool, true, false, ◌&&◌, ◌≡◌, ◌≢◌, ◌⊎◌, refl, sym, subst, inl,
  some, List, [], ◌∷◌, Dict, lookup, insert, lookup-insert, any, All, mem_text, texts_of,
  all_distinct, str_eq, eq_iff, arith,
}
use nebula_os.Domain.Errors.{ok}
use nebula_os.Organization.Data.{ReportingRelationship}
use nebula_os.Organization.Graph.{check_edges, has_key}

-- An edge says that `a` reports to `b`.
abbrev pub reports_to : List ReportingRelationship → (a b : String) → Bool
reports_to edges a b = any (λ e. str_eq e.subordinate a && str_eq e.manager b) edges

-- So many steps up from `a` stands `b`.
pub data Line (edges : List ReportingRelationship) : String → ℕ → String → Type 0 where
  here : {a : String} → Line edges a zero a
  up :
      {a b c : String} {n : ℕ}
      → reports_to edges a b ≡ true
      → Line edges b n c
      → Line edges a (suc n) c

-- Both ends are known, and they differ.
abbrev pub IsEdge : (agents : List String) → ReportingRelationship → Type 0
IsEdge agents e =
    (mem_text e.subordinate agents ≡ true)
    × (mem_text e.manager agents ≡ true)
    × (e.subordinate ≢ e.manager)

abbrev pub subordinates : List ReportingRelationship → List String
subordinates edges = texts_of (λ e. e.subordinate) edges

module _ {edges : List ReportingRelationship} where
  pub Line-append :
      {a b c : String} {m n : ℕ}
      → Line edges a m b
      → Line edges b n c
      → (k : ℕ) × (k ≡ m + n) × Line edges a k c
  Line-append {n = n} here l = (n, omega arith, l)
  Line-append (up h rest) l = let (k, e, l') = Line-append rest l in (suc k, omega arith, up h l')

  -- A cycle has lines as long as one likes.
  pub Line-round :
      {a : String} {n : ℕ} → (k : ℕ) → Line edges a (suc n) a → (m : ℕ) × (k ≤ m) × Line edges a m a
  Line-round zero l = (zero, omega arith, here)
  Line-round (suc k) l =
      let (m, le, rest) = Line-round k l in
      let (j, e, whole) = Line-append l rest in (j, omega arith, whole)

  -- No line of one step or more comes back, when lines are bounded.
  pub Line-open :
      (limit : ℕ)
      → ((a b : String) (n : ℕ) → Line edges a n b → n ≤ limit)
      → {a b : String} {n : ℕ} → Line edges a (suc n) b
      → a ≢ b
  Line-open limit bounded {a} {b} {n} l same =
      let back : Line edges a (suc n) a = subst (λ t. Line edges a (suc n) t) (sym same) l in
      let (m, long, l') = Line-round (suc limit) back in absurd (omega (arith, bounded a a m l'))

fresh-insert :
    (k v : String) (d : Dict String) (ks : List String)
    → All (λ s. has_key d s ≡ false) ks
    → mem_text k ks ≡ false
    → All (λ s. has_key (insert k v d) s ≡ false) ks
fresh-insert k v d [] h absent = tt
fresh-insert k v d (j ∷ ks) h absent =
    let fresh = h.0 in
    (ground (arith, lookup-insert k j v d), fresh-insert k v d ks h.1 (ground arith))

insert-fresh :
    (k v : String) (d : Dict String) (ks : List String)
    → All (λ s. has_key (insert k v d) s ≡ false) ks
    → All (λ s. has_key d s ≡ false) ks × (mem_text k ks ≡ false)
insert-fresh k v d [] h = (tt, refl)
insert-fresh k v d (j ∷ ks) h =
    let fresh = h.0 in
    let (rest, absent) = insert-fresh k v d ks h.1 in
    ((ground (arith, lookup-insert k j v d), rest), ground (arith, lookup-insert k j v d))

-- A manager that is written stays, since no subordinate is written twice.
check_edges-kept :
    (agents : List String) (edges : List ReportingRelationship) (d p : Dict String) (a b : String)
    → check_edges agents edges d ≡ ok p
    → lookup a d ≡ some b
    → lookup a p ≡ some b
unfolding check_edges
check_edges-kept agents [] d p a b h e = ground arith
check_edges-kept agents (edge ∷ edges) d p a b h e =
    let kept = check_edges-kept agents edges (insert edge.subordinate edge.manager d) p a b in
    ground (arith, kept, lookup-insert edge.subordinate a edge.manager d, eq_iff edge.subordinate a)

-- What the dictionary has at the end is what the edges say.
pub check_edges-lookup :
    (agents : List String) (edges : List ReportingRelationship) (d p : Dict String) (a b : String)
    → check_edges agents edges d ≡ ok p
    → reports_to edges a b ≡ true
    → lookup a p ≡ some b
unfolding check_edges
check_edges-lookup agents [] d p a b h e = absurd (cc)
check_edges-lookup agents (edge ∷ edges) d p a b h e =
    let d' = insert edge.subordinate edge.manager d in
    ground (
      arith,
      check_edges-lookup agents edges d' p a b,
      check_edges-kept agents edges d' p a b,
      lookup-insert edge.subordinate a edge.manager d,
      eq_iff edge.subordinate a,
      eq_iff edge.manager b,
    )

pub lookup-check_edges :
    (agents : List String) (edges : List ReportingRelationship) (d p : Dict String) (a b : String)
    → check_edges agents edges d ≡ ok p
    → lookup a p ≡ some b
    → (lookup a d ≡ some b) ⊎ (reports_to edges a b ≡ true)
unfolding check_edges
lookup-check_edges agents [] d p a b h e = inl (ground arith)
lookup-check_edges agents (edge ∷ edges) d p a b h e =
    let d' = insert edge.subordinate edge.manager d in
    ground (
      arith,
      lookup-check_edges agents edges d' p a b,
      lookup-insert edge.subordinate a edge.manager d,
      eq_iff edge.subordinate a,
      eq_iff edge.manager b,
    )

-- The edges pass exactly when each is one, no subordinate is there already, and none comes twice.
pub check_edges_passes :
    (agents : List String) (edges : List ReportingRelationship) (d : Dict String)
    → All (IsEdge agents) edges
    → All (λ s. has_key d s ≡ false) (subordinates edges)
    → all_distinct (subordinates edges) ≡ true
    → (p : Dict String) × (check_edges agents edges d ≡ ok p)
unfolding check_edges
check_edges_passes agents [] d valid fresh distinct = (d, refl)
check_edges_passes agents (edge ∷ edges) d valid fresh distinct =
    let d' = insert edge.subordinate edge.manager d in
    let (p, e) =
      check_edges_passes agents edges d' valid.1
        (fresh-insert edge.subordinate edge.manager d (subordinates edges) fresh.1 (ground arith))
        (ground arith) in
    (p, ground (arith, e, valid.0, fresh.0, eq_iff edge.subordinate edge.manager))

pub check_edges_valid :
    (agents : List String) (edges : List ReportingRelationship) (d p : Dict String)
    → check_edges agents edges d ≡ ok p
    → All (IsEdge agents) edges
      × All (λ s. has_key d s ≡ false) (subordinates edges)
      × (all_distinct (subordinates edges) ≡ true)
unfolding check_edges
check_edges_valid agents [] d p h = (tt, tt, refl)
check_edges_valid agents (edge ∷ edges) d p h =
    let d' = insert edge.subordinate edge.manager d in
    let (valid, fresh, distinct) = check_edges_valid agents edges d' p (ground arith) in
    let (fresh', other) = insert-fresh edge.subordinate edge.manager d (subordinates edges) fresh in
    (
      ((ground arith, ground arith, ground (arith, eq_iff edge.subordinate edge.manager)), valid),
      (ground arith, fresh'),
      ground arith,
    )
