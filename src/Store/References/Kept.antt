-- ===== src/Store/References/Kept.antt =====
-- Every accepted write keeps the references of the in-memory store.
use nebula_os.Prelude.{
  String, ◌≡◌, ap, sym, subst, inl, inr, Bool-cases, Option-cases, ◌≢◌, ◌⊎◌, lookup-insert_cases,
  some, lookup, lookup-insert, eq_iff, str_eq, ◌∙◌,
}
use nebula_os.Domain.Events.{Event}
use nebula_os.Store.Ops.{Store, empty_store}
use nebula_os.Store.Steps.{
  Sort, of_workspace, of_goal, of_task, of_attempt, of_execution, Entity, kind, table, Reachable,
  start, step, Changed, Write-Changed, Sort-discrete,
}
use nebula_os.Store.References.{HasParents, Serves, Serves-refl, Serves-same_definition, Extends}
use nebula_os.Store.References.Checked.{
  references-HasParents, HasParents-same_definition, HasParents-Extends,
}

-- Every entity lies under its own identifier, and its parents are there.
pub record IsConnected (s : Store) : Type 0 where
  pub keyed :
      (a : Sort) (id : String) (e : Entity a) → lookup id (table a s) ≡ some e → (kind a).id e ≡ id
  pub parents :
      (a : Sort) (id : String) (e : Entity a) → lookup id (table a s) ≡ some e → HasParents a s e

module _ (a : Sort) (e : Entity a) (event : Event) (s s' : Store) (c : Changed a e event s s') where
  -- What is found in the table of the class that changed.
  found_own :
      (id : String) (f : Entity a)
      → lookup id (table a s') ≡ some f
      → (((kind a).id e ≡ id) × (f ≡ e)) ⊎ (lookup id (table a s) ≡ some f)
  found_own id f h =
      lookup-insert_cases ((kind a).id e) id e f (table a s)
        (subst (λ d. lookup id d ≡ some f) c.own_table h)

  extends_own :
      (id : String) (f : Entity a)
      → lookup id (table a s) ≡ some f
      → (g : Entity a) × (lookup id (table a s') ≡ some g) × Serves a f g
  extends_own id f h = elim (Bool-cases (str_eq ((kind a).id e) id)) [
    | inl same ↦
        let there = subst (λ i. lookup i (table a s) ≡ some f) (sym ((eq_iff _ _).0 same)) h in
        (
          e,
          rw (c.own_table, lookup-insert, same),
          Serves-same_definition a f e (c.replaced f there).1,
        )
    | inr other ↦ (f, rw (c.own_table, lookup-insert, other) h, Serves-refl a f)
  ]

  pub Changed-Extends : Extends s s'
  Changed-Extends b = elim (Sort-discrete a b) [
    | yes p ↦
        subst
          (λ z.
            (id : String) (f : Entity z)
            → lookup id (table z s) ≡ some f
            → (g : Entity z) × (lookup id (table z s') ≡ some g) × Serves z f g)
          p extends_own
    | no n ↦ λ id f h. (f, rw (c.other_tables b n) h, Serves-refl b f)
  ]

  -- The parents of the entity that changed were there: they were checked when it was created, and
  -- are those of its earlier version when it was replaced.
  parents_before : IsConnected s → HasParents a s e
  parents_before h = elim (Option-cases (lookup ((kind a).id e) (table a s))) [
    | inl absent ↦ references-HasParents a s e (c.created absent)
    | inr (current, stored) ↦
        HasParents-same_definition a s current e (c.replaced current stored).1
          (h.parents a ((kind a).id e) current stored)
  ]

  connected_own :
      IsConnected s
      → (id : String) (f : Entity a) → lookup id (table a s') ≡ some f
      → ((kind a).id f ≡ id) × HasParents a s f
  connected_own h id f there = elim (found_own id f there) [
    | inl (same, new) ↦
        (ap (kind a).id new ∙ same, subst (HasParents a s) (sym new) (parents_before h))
    | inr old ↦ (h.keyed a id f old, h.parents a id f old)
  ]

  connected_at :
      IsConnected s
      → (b : Sort) (id : String) (f : Entity b) → lookup id (table b s') ≡ some f
      → ((kind b).id f ≡ id) × HasParents b s f
  connected_at h b = elim (Sort-discrete a b) [
    | yes p ↦
        subst
          (λ z.
            (id : String) (f : Entity z)
            → lookup id (table z s') ≡ some f
            → ((kind z).id f ≡ id) × HasParents z s f)
          p (connected_own h)
    | no n ↦ λ id f there.
        let old = subst (λ d. lookup id d ≡ some f) (c.other_tables b n) there in
        (h.keyed b id f old, h.parents b id f old)
  ]

  Changed-IsConnected : IsConnected s → IsConnected s'
  Changed-IsConnected h = record {
    keyed = λ b id f there. (connected_at h b id f there).0;
    parents =
        λ b id f there. HasParents-Extends s s' Changed-Extends b f (connected_at h b id f there).1;
  }

empty-IsConnected : IsConnected empty_store
unfolding lookup
empty-IsConnected = record {
  keyed = λ a id e h. absurd (absent a id e h);
  parents = λ a id e h. absurd (absent a id e h);
}
  where
    absent : (a : Sort) (id : String) (e : Entity a) → lookup id (table a empty_store) ≢ some e
    absent of_workspace id e h = cc
    absent of_goal id e h = cc
    absent of_task id e h = cc
    absent of_attempt id e h = cc
    absent of_execution id e h = cc

-- In every store that accepted writes lead to, each entity lies under its own identifier, and its
-- parents are stored: its workspace; the goal of a task or an execution, in the same workspace; the
-- task and the execution of an attempt, in the same workspace and for one goal.
pub Reachable-IsConnected : (s : Store) → Reachable s → IsConnected s
Reachable-IsConnected s start = empty-IsConnected
Reachable-IsConnected s (step {s = r} reached w) =
    let (b, e, event, c) = Write-Changed r s w in
    Changed-IsConnected b e event r s c (Reachable-IsConnected r reached)
