-- ===== src/Planning/Depths.antt =====
-- The search (agent_company_os/domain/plan_validation.py, `visit`) ends, and the depths that it
-- keeps are above those of the dependencies.
use nebula_os.Prelude.{
  ℕ, suc, ◌+◌, ◌≤◌, String, true, false, ◌≡◌, refl, subst, sym, ap, ◌∙◌, List, ◌∷◌, inl, inr,
  Bool-cases, none, some, All, mem_text, str_eq, eq_iff, eq_refl, arith, Dict, lookup, insert,
  lookup-insert, ltb,
}
use nebula_os.Planning.Search.{returns, remove, Search, Graph, conclude}
use nebula_os.Planning.Settling.{Settles, All-map, remove-enter}

-- Each key of the ids is in the graph, with parents among the ids.
abbrev pub IsClosed : Graph → List String → Type 0
IsClosed graph ids =
    (k : String)
    → mem_text k ids ≡ true
    → (parents : List String) × (lookup k graph ≡ some parents)
      × All (λ p. mem_text p ids ≡ true) parents

-- A depth is kept for `p`, and it is at most `m`.
abbrev pub KeptWithin : Dict ℕ → ℕ → String → Type 0
KeptWithin depths m p = (e : ℕ) × (lookup p depths ≡ some e) × (e ≤ m)

pub record IsFounded (limit : ℕ) (graph : Graph) (depths : Dict ℕ) : Type 0 where
  pub lower : (k : String) (d : ℕ) → lookup k depths ≡ some d → 1 ≤ d
  pub upper : (k : String) (d : ℕ) → lookup k depths ≡ some d → d ≤ limit
  pub above :
      (k : String) (d : ℕ) (parents : List String)
      → lookup k depths ≡ some (suc d)
      → lookup k graph ≡ some parents
      → All (KeptWithin depths d) parents

-- What a call leaves alone: the set, the depths that were there, and those of the set.
pub record Extends (s s' : Search) : Type 0 where
  pub visiting : s'.visiting ≡ s.visiting
  pub old : (k : String) (d : ℕ) → lookup k s.depths ≡ some d → lookup k s'.depths ≡ some d
  pub entered : (k : String) → mem_text k s.visiting ≡ true → lookup k s'.depths ≡ lookup k s.depths

pub Extends-refl : (s : Search) → Extends s s
Extends-refl s = record { visiting = refl; old = λ k d h. h; entered = λ k h. refl }

pub Extends-trans : {s t u : Search} → Extends s t → Extends t u → Extends s u
Extends-trans a b = record {
  visiting = b.visiting ∙ a.visiting;
  old = λ k d h. b.old k d (a.old k d h);
  entered =
      λ k h. b.entered k (subst (λ v. mem_text k v ≡ true) (sym a.visiting) h) ∙ a.entered k h;
}

module _ (limit : ℕ) (graph : Graph) where
  -- What a call of `visit` returns.
  pub record Visited (node : String) (s : Search) (r : ℕ × Search) : Type 0 where
    pub extends : Extends s r.1
    pub founded : IsFounded limit graph r.1.depths
    pub kept : lookup node r.1.depths ≡ some r.0

  pub record Surveyed (parents : List String) (s : Search) (r : ℕ × Search) : Type 0 where
    pub extends : Extends s r.1
    pub founded : IsFounded limit graph r.1.depths
    pub within : All (KeptWithin r.1.depths r.0) parents

  module _ (node : String) (parents : List String) (s : Search)
      (here : lookup node graph ≡ some parents) (fresh : mem_text node s.visiting ≡ false)
      (unknown : lookup node s.depths ≡ none) (m : ℕ) (t : Search)
      (survey : Surveyed parents (record s { visiting = node ∷ s.visiting }) (m, t)) where
    -- The dictionary had no depth for the node while the parents were visited.
    kept_none : lookup node t.depths ≡ none
    kept_none = survey.extends.entered node (ground (arith, eq_refl node)) ∙ unknown

    lookup-other :
        (k : String) (d e : ℕ)
        → lookup k t.depths ≡ some e
        → lookup k (insert node d t.depths) ≡ some e
    lookup-other k d e h = ground (arith, kept_none, lookup-insert node k d t.depths, eq_iff node k)

    settled : ℕ × Search
    settled =
        (1 + m, record { visiting = remove node t.visiting; depths = insert node (1 + m) t.depths })

    settled-Extends : Extends s settled.1
    unfolding settled
    settled-Extends = record {
      visiting = ap (remove node) survey.extends.visiting ∙ remove-enter node s.visiting fresh;
      old = λ k d h. lookup-other k (1 + m) d (survey.extends.old k d h);
      entered = λ k h. ground (
        arith,
        fresh,
        lookup-insert node k (1 + m) t.depths,
        eq_iff node k,
        survey.extends.entered k,
      );
    }

    same_parents :
        (k : String) (ps : List String)
        → str_eq node k ≡ true
        → lookup k graph ≡ some ps
        → parents ≡ ps
    same_parents k ps same g = ground (arith, here, eq_iff node k)

    settled-IsFounded : 1 + m ≤ limit → IsFounded limit graph settled.1.depths
    unfolding settled
    settled-IsFounded h = record {
      lower =
          λ k d e. ground (arith, lookup-insert node k (1 + m) t.depths, survey.founded.lower k d);
      upper =
          λ k d e. ground (arith, lookup-insert node k (1 + m) t.depths, survey.founded.upper k d);
      above = λ k d ps e g. elim (Bool-cases (str_eq node k)) [
        | inl same ↦
            subst (λ qs. All (KeptWithin (insert node (1 + m) t.depths) d) qs)
              (same_parents k ps same g)
              (subst (λ n. All (KeptWithin (insert node (1 + m) t.depths) n) parents)
                (ground (arith, lookup-insert node k (1 + m) t.depths))
                (All-map (KeptWithin t.depths m) (KeptWithin (insert node (1 + m) t.depths) m)
                  parents (λ p w. (w.0, lookup-other p (1 + m) w.0 w.1, w.2)) survey.within))
        | inr differs ↦
            All-map (KeptWithin t.depths d) (KeptWithin (insert node (1 + m) t.depths) d) ps
              (λ p w. (w.0, lookup-other p (1 + m) w.0 w.1, w.2))
              (survey.founded.above k d ps (ground (arith, lookup-insert node k (1 + m) t.depths))
                g)
      ];
    }

    -- Leaving a node keeps what the calls promise.
    pub conclude-Settles : Settles (Visited node s) (conclude limit node (returns (m, t)))
    unfolding conclude settled
    conclude-Settles = elim (Bool-cases (ltb limit (1 + m))) [
      | inl deep ↦ rw deep tt
      | inr fine ↦ rw fine (record {
        extends = settled-Extends;
        founded = settled-IsFounded (ground arith);
        kept = ground (arith, lookup-insert node node (1 + m) t.depths, eq_refl node);
      })
    ]
