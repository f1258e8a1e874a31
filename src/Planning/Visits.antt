-- ===== src/Planning/Visits.antt =====
-- The search (agent_company_os/domain/plan_validation.py, `visit`) ends for every graph whose edges
-- lead to its keys, by induction on the fuel: one unit for each node that is not being visited.
use nebula_os.Prelude.{
  ℕ, zero, suc, ◌<◌, String, true, false, ◌≡◌, refl, ◌∙◌, List, [], ◌∷◌, inl, inr, Bool-cases,
  Option-cases, none, some, All, mem_text, arith, lookup,
}
use nebula_os.Planning.Search.{
  Outcome, returns, raises, key_error, out_of_fuel, followed_by, Search, Graph, max, deepest,
  conclude, visit, visit_each,
}
use nebula_os.Planning.Branches.{visit_entered, visit_known, visit_below}
use nebula_os.Planning.Settling.{
  Settles, Settles-weaken, Settles-followed_by, All-map, room, room-enter,
}
use nebula_os.Planning.Depths.{
  IsClosed, KeptWithin, IsFounded, Extends, Extends-refl, Extends-trans, Visited, Surveyed,
  conclude-Settles,
}

module _ (limit : ℕ) (graph : Graph) (ids : List String) where
  -- What `visit` promises where there is room.
  abbrev pub Promises : (String → Search → Outcome (ℕ × Search)) → List String → Type 0
  Promises call visiting =
      (node : String) (s : Search)
      → mem_text node ids ≡ true
      → s.visiting ≡ visiting
      → IsFounded limit graph s.depths
      → Settles (Visited limit graph node s) (call node s)

  deepest-Settles :
      (call : String → Search → Outcome (ℕ × Search)) (visiting : List String)
      → Promises call visiting
      → (parents : List String) (s : Search) → All (λ p. mem_text p ids ≡ true) parents
      → s.visiting ≡ visiting
      → IsFounded limit graph s.depths
      → Settles (Surveyed limit graph parents s) (deepest call parents s)
  unfolding deepest
  deepest-Settles call visiting promise [] s known same f = record {
    extends = Extends-refl s;
    founded = f;
    within = tt;
  }
  deepest-Settles call visiting promise (p ∷ parents) s known same f =
      Settles-followed_by (Visited limit graph p s) (Surveyed limit graph (p ∷ parents) s)
        (call p s)
        (λ (d, s'). followed_by (deepest call parents s') λ (e, s''). returns (max d e, s''))
        (promise p s known.0 same f)
        (λ (d, t) v.
          Settles-followed_by (Surveyed limit graph parents t)
            (Surveyed limit graph (p ∷ parents) s) (deepest call parents t)
            (λ (e, s''). returns (max d e, s''))
            (deepest-Settles call visiting promise parents t known.1 (v.extends.visiting ∙ same)
              v.founded)
            (λ (e, u) w. record {
              extends = Extends-trans v.extends w.extends;
              founded = w.founded;
              within = (
                (d, w.extends.old p d v.kept, ground arith),
                All-map (KeptWithin u.depths e) (KeptWithin u.depths (max d e)) parents
                    (λ q k. (k.0, k.1, ground (arith, k.2))) w.within,
              );
            }))

  -- Leaving a node, whatever the calls for its parents did.
  leave-Settles :
      (node : String) (parents : List String) (s : Search)
      → lookup node graph ≡ some parents
      → mem_text node s.visiting ≡ false
      → lookup node s.depths ≡ none
      → (below : Outcome (ℕ × Search))
      → Settles (Surveyed limit graph parents (record s { visiting = node ∷ s.visiting })) below
      → Settles (Visited limit graph node s) (conclude limit node below)
  leave-Settles node parents s here fresh unknown (returns (m, t)) h =
      conclude-Settles limit graph node parents s here fresh unknown m t h
  leave-Settles node parents s here fresh unknown (raises error) h = unfold conclude in tt
  leave-Settles node parents s here fresh unknown (key_error key) h = absurd h
  leave-Settles node parents s here fresh unknown out_of_fuel h = absurd h

  -- With more fuel than room, a visit settles.
  pub visit-Settles :
      IsClosed graph ids
      → (fuel : ℕ) (node : String) (s : Search) → room s.visiting ids < fuel
      → mem_text node ids ≡ true
      → IsFounded limit graph s.depths
      → Settles (Visited limit graph node s) (visit fuel limit graph node s)
  unfolding visit
  visit-Settles closed zero node s r known f = absurd (omega arith)
  visit-Settles closed (suc fuel) node s r known f = elim (Bool-cases (mem_text node s.visiting)) [
    | inl entered ↦ rw (visit_entered fuel limit graph node s entered) tt
    | inr fresh ↦ elim (Option-cases (lookup node s.depths)) [
      | inr (d, kept) ↦
          rw (visit_known fuel limit graph node s d fresh kept)
            (record { extends = Extends-refl s; founded = f; kept = kept })
      | inl unknown ↦
          let (parents, here, inside) = closed node known in
          rw (visit_below fuel limit graph node s parents fresh unknown here) (
            leave-Settles node parents s here fresh unknown
              (deepest (visit fuel limit graph) parents (record s { visiting = node ∷ s.visiting }))
              (deepest-Settles (visit fuel limit graph) (node ∷ s.visiting)
                (λ p t k same g.
                  visit-Settles closed fuel p t
                    (rw same (omega (arith, room-enter node s.visiting ids known fresh))) k g)
                parents (record s { visiting = node ∷ s.visiting }) inside refl f))
    ]
  ]

  -- What the loop over the tasks leaves: each id of it has a depth.
  pub record Toured (todo : List String) (s t : Search) : Type 0 where
    pub extends : Extends s t
    pub founded : IsFounded limit graph t.depths
    pub kept : All (λ p. (e : ℕ) × (lookup p t.depths ≡ some e)) todo

  pub visit_each-Settles :
      (call : String → Search → Outcome (ℕ × Search)) (visiting : List String)
      → Promises call visiting
      → (todo : List String) (s : Search) → All (λ p. mem_text p ids ≡ true) todo
      → s.visiting ≡ visiting
      → IsFounded limit graph s.depths
      → Settles (Toured todo s) (visit_each call todo s)
  unfolding visit_each
  visit_each-Settles call visiting promise [] s known same f = record {
    extends = Extends-refl s;
    founded = f;
    kept = tt;
  }
  visit_each-Settles call visiting promise (p ∷ todo) s known same f =
      Settles-followed_by (Visited limit graph p s) (Toured (p ∷ todo) s) (call p s)
        (λ (d, s'). visit_each call todo s') (promise p s known.0 same f)
        (λ (d, t) v.
          Settles-weaken (Toured todo t) (Toured (p ∷ todo) s) (visit_each call todo t)
            (λ u w. record {
              extends = Extends-trans v.extends w.extends;
              founded = w.founded;
              kept = ((d, w.extends.old p d v.kept), w.kept);
            })
            (visit_each-Settles call visiting promise todo t known.1 (v.extends.visiting ∙ same)
              v.founded))
