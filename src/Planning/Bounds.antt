-- ===== src/Planning/Bounds.antt =====
-- The search (agent_company_os/domain/plan_validation.py, `visit`) raises nothing where the tasks
-- have ranks within the bound, above those of their dependencies.
use nebula_os.Prelude.{
  ℕ, zero, suc, ◌+◌, ◌-◌, ◌<◌, ◌≤◌, String, true, false, ◌≡◌, refl, subst, sym, ap, ◌∙◌, List, [],
  ◌∷◌, inl, inr, Bool-cases, Option-cases, some, All, mem_text, arith, lookup, lookup-insert,
  eq_iff, ltb,
}
use nebula_os.Planning.Search.{
  Outcome, returns, raises, key_error, out_of_fuel, followed_by, Search, Graph, max, deepest,
  conclude, visit, visit_each, remove,
}
use nebula_os.Planning.Branches.{visit_known, visit_below}
use nebula_os.Planning.Settling.{Accepts, Accepts-followed_by, All-map, All-mem, remove-enter}

module _ (limit : ℕ) (graph : Graph) (ids : List String) (rank : String → ℕ) where
  -- The ids are in the graph, and have ranks within the bound and above those of their parents.
  abbrev pub IsRanked : Type 0
  IsRanked =
      (k : String)
      → mem_text k ids ≡ true
      → (parents : List String) × (lookup k graph ≡ some parents)
        × (1 ≤ rank k)
        × (rank k ≤ limit)
        × All (λ p. (mem_text p ids ≡ true) × (rank p < rank k)) parents

  -- No depth that was kept is above the rank.
  abbrev pub IsWithin : Search → Type 0
  IsWithin s = (k : String) (d : ℕ) → lookup k s.depths ≡ some d → d ≤ rank k

  pub record Found (bound : ℕ) (s : Search) (r : ℕ × Search) : Type 0 where
    pub visiting : r.1.visiting ≡ s.visiting
    pub within : IsWithin r.1
    pub bounded : r.0 ≤ bound

  abbrev Promises : (String → Search → Outcome (ℕ × Search)) → Type 0
  Promises call =
      (node : String) (s : Search)
      → mem_text node ids ≡ true
      → All (λ v. rank node < rank v) s.visiting
      → IsWithin s
      → Accepts (Found (rank node) s) (call node s)

  deepest-Accepts :
      (call : String → Search → Outcome (ℕ × Search))
      → Promises call
      → (bound : ℕ) (visiting : List String) → All (λ v. suc bound ≤ rank v) visiting
      → (parents : List String) (s : Search) → s.visiting ≡ visiting
      → All (λ p. (mem_text p ids ≡ true) × (rank p < suc bound)) parents
      → IsWithin s
      → Accepts (Found bound s) (deepest call parents s)
  unfolding deepest
  deepest-Accepts call promise bound visiting above [] s same lower w = record {
    visiting = refl;
    within = w;
    bounded = omega arith;
  }
  deepest-Accepts call promise bound visiting above (p ∷ parents) s same lower w =
      let below = lower.0.1 in
      Accepts-followed_by (Found (rank p) s) (Found bound s) (call p s)
        (λ (d, s'). followed_by (deepest call parents s') λ (e, s''). returns (max d e, s''))
        (promise p s lower.0.0
          (subst (λ vs. All (λ v. rank p < rank v) vs) (sym same)
            (All-map (λ v. suc bound ≤ rank v) (λ v. rank p < rank v) visiting
              (λ v h. omega (arith, h)) above))
          w)
        (λ (d, t) f.
          Accepts-followed_by (Found bound t) (Found bound s) (deepest call parents t)
            (λ (e, s''). returns (max d e, s''))
            (deepest-Accepts call promise bound visiting above parents t (f.visiting ∙ same) lower.1
              f.within)
            (λ (e, u) g. record {
              visiting = g.visiting ∙ f.visiting;
              within = g.within;
              bounded = ground (arith, f.bounded, g.bounded);
            }))

  leave-Accepts :
      (node : String) (s : Search)
      → (bound : ℕ) → suc bound ≡ rank node
      → rank node ≤ limit
      → mem_text node s.visiting ≡ false
      → (below : Outcome (ℕ × Search))
      → Accepts (Found bound (record s { visiting = node ∷ s.visiting })) below
      → Accepts (Found (rank node) s) (conclude limit node below)
  unfolding conclude
  leave-Accepts node s bound e fits fresh (returns (m, t)) f =
      let shallow : ltb limit (1 + m) ≡ false = ground (arith, f.bounded) in
      rw shallow (record {
        visiting = ap (remove node) f.visiting ∙ remove-enter node s.visiting fresh;
        within = λ k d h.
            ground (
              arith,
              f.bounded,
              lookup-insert node k (1 + m) t.depths,
              eq_iff node k,
              f.within k d,
            );
        bounded = omega (arith, f.bounded);
      })
  leave-Accepts node s bound e fits fresh (raises error) f = absurd f
  leave-Accepts node s bound e fits fresh (key_error key) f = tt
  leave-Accepts node s bound e fits fresh out_of_fuel f = tt

  -- With whatever fuel, a visit of a ranked node raises nothing.
  pub visit-Accepts :
      IsRanked
      → (fuel : ℕ) (node : String) (s : Search) → mem_text node ids ≡ true
      → All (λ v. rank node < rank v) s.visiting
      → IsWithin s
      → Accepts (Found (rank node) s) (visit fuel limit graph node s)
  visit-Accepts ranked zero node s known above w = unfold visit in tt
  visit-Accepts ranked (suc fuel) node s known above w =
      elim (Bool-cases (mem_text node s.visiting)) [
        | inl entered ↦
            absurd (omega (arith, All-mem (λ v. rank node < rank v) node s.visiting above entered))
        | inr fresh ↦ elim (Option-cases (lookup node s.depths)) [
          | inr (d, kept) ↦
              rw (visit_known fuel limit graph node s d fresh kept)
                (record { visiting = refl; within = w; bounded = w node d kept })
          | inl unknown ↦
              let (parents, here, low, fits, lower) = ranked node known in
              let inner : Search = record s { visiting = node ∷ s.visiting } in
              let e : suc (rank node - 1) ≡ rank node = omega arith in
              rw (visit_below fuel limit graph node s parents fresh unknown here) (
                leave-Accepts node s (rank node - 1) e fits fresh
                  (deepest (visit fuel limit graph) parents inner)
                  (deepest-Accepts (visit fuel limit graph) (visit-Accepts ranked fuel)
                    (rank node - 1) (node ∷ s.visiting)
                    (
                      omega (arith, e),
                      All-map (λ v. rank node < rank v) (λ v. suc (rank node - 1) ≤ rank v)
                          s.visiting (λ v h. omega (arith, h, e)) above,
                    )
                    parents inner refl
                    (All-map (λ p. (mem_text p ids ≡ true) × (rank p < rank node))
                      (λ p. (mem_text p ids ≡ true) × (rank p < suc (rank node - 1))) parents
                      (λ p h. (h.0, omega (arith, h.1, e))) lower)
                    w))
        ]
      ]

  pub visit_each-Accepts :
      IsRanked
      → (fuel : ℕ) (todo : List String) (s : Search) → All (λ p. mem_text p ids ≡ true) todo
      → s.visiting ≡ []
      → IsWithin s
      → Accepts (λ t. Unit {0}) (visit_each (visit fuel limit graph) todo s)
  unfolding visit_each
  visit_each-Accepts ranked fuel [] s known empty w = tt
  visit_each-Accepts ranked fuel (p ∷ todo) s known empty w =
      Accepts-followed_by (Found (rank p) s) (λ t. Unit {0}) (visit fuel limit graph p s)
        (λ (d, t). visit_each (visit fuel limit graph) todo t)
        (visit-Accepts ranked fuel p s known.0
          (subst (λ vs. All (λ v. rank p < rank v) vs) (sym empty) tt) w)
        (λ (d, t) f. visit_each-Accepts ranked fuel todo t known.1 (f.visiting ∙ empty) f.within)
