-- ===== src/Planning/Tour.antt =====
-- The search of `validate_plan` over all tasks (agent_company_os/domain/plan_validation.py).
use nebula_os.Prelude.{
  ℕ, suc, String, true, ◌≡◌, refl, sym, List, [], ◌∷◌, inl, inr, Bool-cases, All, is_subset, length,
  mem_text, str_eq, eq_iff, eq_refl, arith, count_if, lookup,
}
use nebula_os.Planning.Plan.{PlannedTask}
use nebula_os.Planning.Search.{Graph, visit}
use nebula_os.Planning.Validate.{task_ids, search_plan, unvisited}
use nebula_os.Planning.Settling.{Settles, Accepts, room-le}
use nebula_os.Planning.Depths.{IsClosed, IsFounded}
use nebula_os.Planning.Visits.{Toured, visit-Settles, visit_each-Settles}
use nebula_os.Planning.Bounds.{IsRanked, visit_each-Accepts}

pub is_subset-All : (a b : List String) → is_subset a b ≡ true → All (λ p. mem_text p b ≡ true) a
is_subset-All [] b h = tt
is_subset-All (x ∷ a) b h = (ground arith, is_subset-All a b (ground arith))

pub mem-task_ids :
    (P : PlannedTask → Type 0) (k : String) (ts : List PlannedTask)
    → All P ts
    → mem_text k (task_ids ts) ≡ true
    → (t : PlannedTask) × (t.id ≡ k) × P t
mem-task_ids P k [] h m = absurd (cc)
mem-task_ids P k (t ∷ ts) h m = elim (Bool-cases (str_eq k t.id)) [
  | inl same ↦ (t, sym ((eq_iff k t.id).0 same), h.0)
  | inr other ↦ mem-task_ids P k ts h.1 (ground arith)
]

pub All-both :
    {A : Type 0} (P Q : A → Type 0) (xs : List A) → All P xs → All Q xs → All (λ x. P x × Q x) xs
All-both P Q [] p q = tt
All-both P Q (x ∷ xs) p q = ((p.0, q.0), All-both P Q xs p.1 q.1)

mem-cons_self : (ids : List String) → All (λ p. mem_text p ids ≡ true) ids
mem-cons_self ids = is_subset-All ids ids (subset_self ids ids (λ k h. h))
  where
    subset_self :
        (a b : List String)
        → ((k : String) → mem_text k a ≡ true → mem_text k b ≡ true)
        → is_subset a b ≡ true
    subset_self [] b h = refl
    subset_self (x ∷ a) b h =
        ground (arith, h x, eq_refl x, subset_self a b (λ k m. h k (ground arith)))

none-IsFounded : (limit : ℕ) (graph : Graph) → IsFounded limit graph []
unfolding lookup
none-IsFounded limit graph = record {
  lower = λ k d h. absurd (cc);
  upper = λ k d h. absurd (cc);
  above = λ k d ps h g. absurd (cc);
}

length-count : (ids : List String) → count_if (λ i. true) ids ≡ length ids
length-count [] = refl
length-count (i ∷ ids) = omega (arith, length-count ids)

-- The search over a closed graph returns depths for all ids, or raises a domain error.
pub search_plan-Settles :
    (limit : ℕ) (graph : Graph) (ids : List String)
    → IsClosed graph ids
    → Settles (Toured limit graph ids ids unvisited) (search_plan limit graph ids)
unfolding search_plan
search_plan-Settles limit graph ids closed =
    visit_each-Settles limit graph ids (visit (suc (length ids)) limit graph) []
      (λ node s known empty f.
        visit-Settles limit graph ids closed (suc (length ids)) node s
          (omega (arith, room-le s.visiting ids, length-count ids)) known f)
      ids unvisited (mem-cons_self ids) refl (none-IsFounded limit graph)

pub search_plan-Accepts :
    (limit : ℕ) (graph : Graph) (ids : List String) (rank : String → ℕ)
    → IsRanked limit graph ids rank
    → Accepts (λ t. Unit {0}) (search_plan limit graph ids)
unfolding search_plan lookup
search_plan-Accepts limit graph ids rank ranked =
    visit_each-Accepts limit graph ids rank ranked (suc (length ids)) ids unvisited
      (mem-cons_self ids) refl (λ k d h. absurd (cc))
