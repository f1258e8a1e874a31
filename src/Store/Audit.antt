-- ===== src/Store/Audit.antt =====
-- The event log of the in-memory store (agent_company_os/adapters/in_memory.py) is complete and exact.
use nebula_os.Prelude.{
  ◌+◌, String, ◌≡◌, refl, ap, subst, inl, inr, Bool-cases, ◌≢◌, Bool, false, ◌&&◌, [], ◌∷◌, lookup,
  lookup-insert, arith, count_if, count_if-append, eq_iff, str_eq, if◌then◌else◌, ◌∙◌,
}
use nebula_os.Domain.Transitions.{subject_value}
use nebula_os.Domain.Events.{Event}
use nebula_os.Store.Ops.{Store, empty_store, append_event}
use nebula_os.Store.Writes.{Describes}
use nebula_os.Store.Steps.{
  Sort, of_workspace, of_goal, of_task, of_attempt, of_execution, Entity, kind, table, Reachable,
  start, step, version_of, Changed, Write-Changed, Sort-discrete, subject_type-ne,
}

-- The event is about the entity of that class and identifier.
abbrev pub about : Sort → String → Event → Bool
about a id event =
    str_eq (subject_value event.subject_type) (kind a).subject_type && str_eq event.subject_id id

-- Every entity has as many events as its version says, and an identifier not in use has none.
pub record IsAudited (s : Store) : Type 0 where
  pub exact :
      (a : Sort) (id : String)
      → count_if (about a id) s.log.events ≡ version_of a (lookup id (table a s))

-- The event of a change is about the entity that changed.
about-changed :
    (a : Sort) (e : Entity a) (event : Event) (id : String)
    → Describes (kind a) e event
    → about a id event ≡ str_eq ((kind a).id e) id
about-changed a e event id d =
    ground (arith, eq_iff (subject_value event.subject_type) (kind a).subject_type)

about-other :
    (a b : Sort) (e : Entity a) (event : Event) (id : String)
    → Describes (kind a) e event
    → a ≢ b
    → about b id event ≡ false
about-other a b e event id d h =
    let n = subject_type-ne a b h in
    ground (arith, eq_iff (subject_value event.subject_type) (kind b).subject_type)

module _ (a : Sort) (e : Entity a) (event : Event) (s s' : Store) (c : Changed a e event s s')
    (h : IsAudited s) where
  count_events :
      (p : Event → Bool)
      → count_if p s'.log.events ≡ count_if p s.log.events + (if p event then 1 else 0)
  unfolding append_event
  count_events p =
      rw (c.events, append_event) (count_if-append p s.log.events (event ∷ []) ∙ omega arith)

  audited_own :
      (id : String) → count_if (about a id) s'.log.events ≡ version_of a (lookup id (table a s'))
  audited_own id =
      rw (c.own_table, lookup-insert)
        (elim (Bool-cases (str_eq ((kind a).id e) id)) [
          | inl same ↦ rw same (
              ground (
                arith,
                count_events (about a id),
                about-changed a e event id c.describes,
                h.exact a id,
                c.version,
                ap (λ i. version_of a (lookup i (table a s))) ((eq_iff _ _).0 same),
              ))
          | inr other ↦ rw other (
              ground (
                arith,
                count_events (about a id),
                about-changed a e event id c.describes,
                h.exact a id,
              ))
        ])

  audited_other :
      (b : Sort)
      → a ≢ b
      → (id : String) → count_if (about b id) s'.log.events ≡ version_of b (lookup id (table b s'))
  audited_other b n id = rw (c.other_tables b n) (
      ground
        (arith, count_events (about b id), about-other a b e event id c.describes n, h.exact b id))

  Changed-IsAudited : IsAudited s'
  Changed-IsAudited = record {
    exact = λ b. elim (Sort-discrete a b) [
      | yes p ↦
          subst
            (λ z.
              (i : String)
              → count_if (about z i) s'.log.events ≡ version_of z (lookup i (table z s')))
            p audited_own
      | no n ↦ audited_other b n
    ];
  }

empty-exact :
    (a : Sort) (id : String)
    → count_if (about a id) empty_store.log.events ≡ version_of a (lookup id (table a empty_store))
unfolding lookup
empty-exact of_workspace id = refl
empty-exact of_goal id = refl
empty-exact of_task id = refl
empty-exact of_attempt id = refl
empty-exact of_execution id = refl

-- In every store that accepted writes lead to, each entity has exactly as many events as its
-- version says, and no event names an entity that is not there.
pub Reachable-IsAudited : (s : Store) → Reachable s → IsAudited s
Reachable-IsAudited s start = record { exact = empty-exact }
Reachable-IsAudited s (step {s = r} reached w) =
    let (b, e, event, c) = Write-Changed r s w in
    Changed-IsAudited b e event r s c (Reachable-IsAudited r reached)
