-- ===== src/Planning/Branches.antt =====
-- The branches of `visit` (agent_company_os/domain/plan_validation.py), as equations.
use nebula_os.Prelude.{
  ℕ, suc, String, true, false, ◌≡◌, List, ◌∷◌, none, some, lookup, mem_text, arith,
}
use nebula_os.Domain.Errors.{invariant_violation}
use nebula_os.Planning.Search.{returns, raises, Search, Graph, deepest, conclude, visit}

module _ (fuel limit : ℕ) (graph : Graph) (node : String) (s : Search) where
  pub visit_entered :
      mem_text node s.visiting ≡ true
      → visit (suc fuel) limit graph node s ≡ raises (invariant_violation "plan_cycle")
  unfolding visit
  visit_entered h = ground arith

  pub visit_known :
      (d : ℕ)
      → mem_text node s.visiting ≡ false
      → lookup node s.depths ≡ some d
      → visit (suc fuel) limit graph node s ≡ returns (d, s)
  unfolding visit
  visit_known d h k = ground arith

  pub visit_below :
      (parents : List String)
      → mem_text node s.visiting ≡ false
      → lookup node s.depths ≡ none
      → lookup node graph ≡ some parents
      → visit (suc fuel) limit graph node s
        ≡ conclude limit node
            (deepest (visit fuel limit graph) parents (record s { visiting = node ∷ s.visiting }))
  unfolding visit
  visit_below parents h k g = ground arith
