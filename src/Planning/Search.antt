-- ===== src/Planning/Search.antt =====
-- The depth-first search of `validate_plan` (agent_company_os/domain/plan_validation.py, `visit`).
-- The set and the dictionary that the closure changes are passed on; an error ends the whole
-- validation, so what they hold then is never read. The recursion has fuel, one unit for each
-- level, since Python's may in principle go on for ever.
use nebula_os.Prelude.{
  ℕ, zero, suc, ◌+◌, String, true, false, none, some, List, [], ◌∷◌, Dict, lookup, insert, keep,
  ltb, leb, str_eq, mem_text, if◌then◌else◌,
}
use nebula_os.Domain.Errors.{DomainError, invariant_violation}

-- What a call does: it returns, raises a domain error or a `KeyError`, or needs more fuel.
pub data Outcome (T : Type 0) : Type 0 where
  returns : T → Outcome T
  raises : (error : DomainError) → Outcome T
  key_error : (key : String) → Outcome T
  out_of_fuel : Outcome T

-- The rest of the caller's body, which anything but a return skips.
abbrev pub followed_by : {T U : Type 0} → Outcome T → (T → Outcome U) → Outcome U
followed_by (returns value) rest = rest value
followed_by (raises error) rest = raises error
followed_by (key_error key) rest = key_error key
followed_by out_of_fuel rest = out_of_fuel

pub record Search : Type 0 where
  pub visiting : List String
  pub depths : Dict ℕ

abbrev pub Graph : Type 0
Graph = Dict (List String)

abbrev pub max : ℕ → ℕ → ℕ
max a b = if leb a b then b else a

-- `visiting.remove(node)`
abbrev pub remove : String → List String → List String
remove node visiting = keep (λ v. if str_eq node v then false else true) visiting

-- `max((visit(parent) for parent in parents), default=0)`
unfoldable pub deepest :
    (visit : String → Search → Outcome (ℕ × Search)) → List String → Search → Outcome (ℕ × Search)
deepest visit [] s = returns (0, s)
deepest visit (parent ∷ parents) s =
    followed_by (visit parent s)
      λ (d, s'). followed_by (deepest visit parents s') λ (e, s''). returns (max d e, s'')

-- `visit` from the recursive calls on: the depth is kept, then compared with the bound.
unfoldable pub conclude : (limit : ℕ) (node : String) → Outcome (ℕ × Search) → Outcome (ℕ × Search)
conclude limit node below = followed_by below λ (deepest_parent, s).
    let depth = 1 + deepest_parent in
    if ltb limit depth
    then raises (invariant_violation "plan_dependency_depth")
    else returns
        (depth, record { visiting = remove node s.visiting; depths = insert node depth s.depths })

unfoldable pub visit : (fuel limit : ℕ) → Graph → (node : String) → Search → Outcome (ℕ × Search)
unfolding deepest conclude
visit zero limit graph node s = out_of_fuel
visit (suc fuel) limit graph node s = elim (mem_text node s.visiting) [
  | true ↦ raises (invariant_violation "plan_cycle")
  | false ↦ elim (lookup node s.depths) [
    | some depth ↦ returns (depth, s)
    | none ↦ elim (lookup node graph) [
      | none ↦ key_error node
      | some parents ↦
          conclude limit node
            (deepest (visit fuel limit graph) parents (record s { visiting = node ∷ s.visiting }))
    ]
  ]
]

-- `for task_id in ids: visit(task_id)`
unfoldable pub visit_each :
    (visit : String → Search → Outcome (ℕ × Search)) → List String → Search → Outcome Search
visit_each visit [] s = returns s
visit_each visit (id ∷ ids) s = followed_by (visit id s) λ (d, s'). visit_each visit ids s'
