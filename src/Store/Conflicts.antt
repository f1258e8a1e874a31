-- ===== src/Store/Conflicts.antt =====
-- Optimistic concurrency in the in-memory store (agent_company_os/adapters/in_memory.py, `_save`).
use nebula_os.Prelude.{
  ◌+◌, ◌≡◌, ap, sym, subst, ◌∙◌, ◌≢◌, some, lookup, lookup-insert, arith, eq_refl,
}
use nebula_os.Domain.Errors.{ok, err, version_conflict}
use nebula_os.Domain.Validation.{Version}
use nebula_os.Domain.Transitions.{StateTransition}
use nebula_os.Domain.Events.{Event}
use nebula_os.Store.Ops.{Store, save, check_save, check_versions}
use nebula_os.Store.Writes.{save-Saved}
use nebula_os.Store.Steps.{Sort, Entity, kind, table, Saved-Changed}

module _ (a : Sort) (e : Entity a) (expected : Version) (t : StateTransition) (event : Event)
    (s : Store) where
  -- A save is refused as a conflict exactly if another version is stored.
  pub save-conflict :
      (current : Entity a)
      → lookup ((kind a).id e) (table a s) ≡ some current
      → (kind a).version current ≢ expected
      → save (kind a) e expected t event s
        ≡ err (
            version_conflict
              (kind a).entity_type
              ((kind a).id e)
              expected
              ((kind a).version current))
  unfolding save check_save check_versions
  save-conflict current stored n = ground arith

  -- An accepted save is what is found afterwards.
  pub lookup-save :
      (s' : Store)
      → save (kind a) e expected t event s ≡ ok s'
      → lookup ((kind a).id e) (table a s') ≡ some e
  lookup-save s' h =
      let c =
        Saved-Changed a e expected t event s s' (save-Saved (kind a) e expected t event s s' h) in
      rw (c.own_table, lookup-insert, eq_refl)

-- Of two saves from the same version of an entity, the second is refused as a conflict with the
-- version that the first has stored: no update is lost.
pub save-save :
    (a : Sort) (e f : Entity a) (expected : Version) (t u : StateTransition) (event event' : Event)
    (s s' : Store)
    → save (kind a) e expected t event s ≡ ok s'
    → (kind a).id f ≡ (kind a).id e
    → save (kind a) f expected u event' s'
      ≡ err (version_conflict (kind a).entity_type ((kind a).id f) expected (expected + 1))
save-save a e f expected t u event event' s s' h same =
    let w = save-Saved (kind a) e expected t event s s' h in
    let next = w.permitted.version in
    save-conflict a f expected u event' s' e
      (subst (λ i. lookup i (table a s') ≡ some e) (sym same)
        (lookup-save a e expected t event s s' h))
      (omega arith)
    ∙ ap (λ v. err (version_conflict (kind a).entity_type ((kind a).id f) expected v)) next
