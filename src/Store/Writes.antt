-- ===== src/Store/Writes.antt =====
-- What a write that the store accepts has checked, and what it changes
-- (agent_company_os/adapters/in_memory.py, `_add` and `_save`).
use nebula_os.Prelude.{
  refl, ◌||◌, inl, inr, Option-cases, ◌+◌, String, ◌≡◌, Bool, true, false, none, some, lookup,
  insert, mem_text, eq_iff, arith,
}
use nebula_os.Domain.Errors.{ok}
use nebula_os.Domain.Validation.{Version}
use nebula_os.Domain.Transitions.{StateTransition, subject_value}
use nebula_os.Domain.Events.{Event}
use nebula_os.Store.Kinds.{Kind}
use nebula_os.Store.Ops.{
  Store, AuditLog, add, save, append_event, append_transition, differs, mismatched, check_save,
  check_versions, check_step, validate_event, validate_transition, audit_matches,
}

or-false : (a b : Bool) → (a || b) ≡ false → (a ≡ false) × (b ≡ false)
or-false true b h = absurd (cc)
or-false false b h = (refl, h)

differs-false : (a b : String) → differs a b ≡ false → a ≡ b
differs-false a b h = ground (arith, eq_iff a b)

module _ {E : Type 0} (k : Kind E) where
  -- The event describes the entity.
  pub record Describes (e : E) (event : Event) : Type 0 where
    pub workspace : event.workspace_id ≡ k.workspace e
    pub subject : event.subject_id ≡ k.id e
    pub version : event.entity_version ≡ k.version e
    pub subject_type : subject_value event.subject_type ≡ k.subject_type

  pub record Added (e : E) (event : Event) (s s' : Store) : Type 0 where
    pub fresh : lookup (k.id e) (k.table s.tables) ≡ none
    pub fresh_event : mem_text event.id s.log.event_ids ≡ false
    pub describes : Describes e event
    pub references : k.references s.tables e ≡ ok tt
    pub version : k.version e ≡ 1
    pub tables : s'.tables ≡ k.with_table s.tables (insert (k.id e) e (k.table s.tables))
    pub log : s'.log ≡ append_event event s.log

  -- The transition describes the step from the stored entity to the new one.
  pub record Records (current e : E) (expected : Version) (t : StateTransition) : Type 0 where
    pub subject : t.subject_id ≡ k.id e
    pub workspace : t.workspace_id ≡ k.workspace e
    pub previous : t.previous_status ≡ k.status_value current
    pub new : t.new_status ≡ k.status_value e
    pub from_version : t.from_version ≡ expected
    pub to_version : t.to_version ≡ k.version e

  -- What `check_save` has established when it returns.
  pub record Permitted (current e : E) (expected : Version) (t : StateTransition) (event : Event)
      (l : AuditLog) : Type 0 where
    pub held : k.version current ≡ expected
    pub version : k.version e ≡ expected + 1
    pub legal : k.legal current e ≡ true
    pub immutable : k.same_definition current e ≡ true
    pub fresh_event : mem_text event.id l.event_ids ≡ false
    pub fresh_transition : mem_text t.id l.transition_ids ≡ false
    pub describes : Describes e event
    pub recorded : Records current e expected t

  -- What `check_versions` has established when it returns.
  record Aligned (current e : E) (expected : Version) (t : StateTransition) : Type 0 where
    held : k.version current ≡ expected
    version : k.version e ≡ expected + 1
    subject : t.subject_id ≡ k.id e
    from_version : t.from_version ≡ expected
    to_version : t.to_version ≡ k.version e

  check_versions-Aligned :
      (current e : E) (expected : Version) (t : StateTransition) (event : Event)
      → check_versions k current e expected t event ≡ ok tt
      → Aligned current e expected t
  unfolding check_versions
  check_versions-Aligned current e expected t event h =
      ground (arith, eq_iff t.subject_id (k.id e), eq_iff event.subject_id (k.id e))

  -- What `check_step` has established when it returns.
  record Stepped (current e : E) (t : StateTransition) : Type 0 where
    legal : k.legal current e ≡ true
    immutable : k.same_definition current e ≡ true
    workspace : t.workspace_id ≡ k.workspace e
    previous : t.previous_status ≡ k.status_value current
    new : t.new_status ≡ k.status_value e

  mismatched-Matching :
      (current e : E) (t : StateTransition) (event : Event)
      → mismatched k current e t event ≡ false
      → (t.workspace_id ≡ k.workspace e)
        × (t.previous_status ≡ k.status_value current)
        × (t.new_status ≡ k.status_value e)
  unfolding mismatched
  mismatched-Matching current e t event h =
      let a = or-false _ _ h in
      let b = or-false _ _ a.0 in
      let c = or-false _ _ b.0 in
      let d = or-false _ _ c.0 in
      (differs-false _ _ d.0, differs-false _ _ c.1, differs-false _ _ b.1)

  check_step-Stepped :
      (current e : E) (t : StateTransition) (event : Event)
      → check_step k current e t event ≡ ok tt
      → Stepped current e t
  unfolding check_step
  check_step-Stepped current e t event h = ground (arith, mismatched-Matching current e t event)

  audit_matches-Describes :
      (e : E) (event : Event) → audit_matches k e event ≡ ok tt → Describes e event
  unfolding audit_matches
  audit_matches-Describes e event h = ground (
    arith,
    eq_iff event.subject_id (k.id e),
    eq_iff (k.workspace e) event.workspace_id,
    eq_iff (subject_value event.subject_type) k.subject_type,
  )

  check_save-Permitted :
      (current e : E) (expected : Version) (t : StateTransition) (event : Event) (l : AuditLog)
      → check_save k current e expected t event l ≡ ok tt
      → Permitted current e expected t event l
  unfolding check_save validate_event validate_transition
  check_save-Permitted current e expected t event l h = ground (
    arith,
    check_versions-Aligned current e expected t event,
    check_step-Stepped current e t event,
    audit_matches-Describes e event,
  )

  pub add-Added :
      (e : E) (event : Event) (s s' : Store) → add k e event s ≡ ok s' → Added e event s s'
  unfolding add validate_event
  add-Added e event s s' h = ground (arith, audit_matches-Describes e event)

  -- What a save that is accepted has found, checked and changed.
  pub record Saved (e : E) (expected : Version) (t : StateTransition) (event : Event) (s s' : Store)
      : Type 0 where
    pub current : E
    pub stored : lookup (k.id e) (k.table s.tables) ≡ some current
    pub permitted : Permitted current e expected t event s.log
    pub tables : s'.tables ≡ k.with_table s.tables (insert (k.id e) e (k.table s.tables))
    pub log : s'.log ≡ append_event event (append_transition t s.log)

  pub save-Saved :
      (e : E) (expected : Version) (t : StateTransition) (event : Event) (s s' : Store)
      → save k e expected t event s ≡ ok s'
      → Saved e expected t event s s'
  unfolding save
  save-Saved e expected t event s s' h = elim (Option-cases (lookup (k.id e) (k.table s.tables))) [
    | inl absent ↦ absurd (ground arith)
    | inr (current, stored) ↦ record {
      current = current;
      stored = stored;
      permitted = check_save-Permitted current e expected t event s.log (ground arith);
      tables = ground arith;
      log = ground arith;
    }
  ]
