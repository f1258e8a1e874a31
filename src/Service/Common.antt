-- ===== src/Service/Common.antt =====
-- The shared methods of `DomainService` (agent_company_os/application/service.py): audit events, the
-- version guard, and saving the result of a transition.
use nebula_os.Prelude.{String, []}
use nebula_os.Domain.Errors.{Result, version_conflict, raise_if}
use nebula_os.Domain.Validation.{DateTime, Version}
use nebula_os.Domain.Transitions.{SubjectType, TransitionResult}
use nebula_os.Domain.Events.{Event, EventType, check_event}
use nebula_os.Store.Kinds.{Kind}
use nebula_os.Store.Ops.{add, save, Store, differs_version}
use nebula_os.Service.Session.{
  Ports, Command, pure, lift, query, write, read_clock, draw, ◌>>=◌, ◌>>◌,
}

unfoldable pub expect_version :
    (entity_type entity_id : String) (expected actual : Version) → Result (Unit {0})
expect_version entity_type entity_id expected actual =
    raise_if (differs_version expected actual)
      (version_conflict entity_type entity_id expected actual)

module _ (p : Ports) where
  -- `_event`
  unfoldable pub audit_event :
      (workspace_id : String)
      → EventType
      → SubjectType
      → (subject_id : String) → Version
      → Command Event
  audit_event workspace_id event_type subject_type subject_id version = do
    id ← draw p.event_id
    at ← read_clock p
    lift (
        check_event (record {
          id = id;
          workspace_id = workspace_id;
          event_type = event_type;
          subject_type = subject_type;
          subject_id = subject_id;
          entity_version = version;
          occurred_at = at;
          metadata = [];
          schema_version = 1;
        }))

  module _ {E : Type 0} (k : Kind E) where
    -- The end of every `create_…`: the event, and `self.store.add_…(entity, event)`.
    unfoldable pub add_entity : E → EventType → SubjectType → Command E
    add_entity e event_type subject_type = do
      event ← audit_event (k.workspace e) event_type subject_type (k.id e) (k.version e)
      write (add k e event)
      pure e

    -- `_save_goal`, `_save_task`, `_save_attempt` and `_save_execution`, with
    -- `_event_for_transition`.
    unfoldable pub save_result :
        TransitionResult E → (expected_version : Version) → EventType → Command E
    save_result r expected_version event_type = do
      event ←
          audit_event r.transition.workspace_id event_type r.transition.subject_type
            r.transition.subject_id r.transition.to_version
      write (save k r.entity expected_version r.transition event)
      pure r.entity

    -- `_change_execution`, `_change_attempt`, and the same steps written out in the other commands:
    -- the entity, its version, an identifier and a time for the transition, and the save.
    -- `guard` is what the command checks between the version and the transition.
    unfoldable pub change :
        (get : Store → String → Result E)
        → (guard : Store → E → Result (Unit {0}))
        → (operation : E → String → DateTime → Result (TransitionResult E))
        → (event_type : E → EventType) → (id : String) → (expected_version : Version) → Command E
    change get guard operation event_type id expected_version = do
      e ← query (λ s. get s id)
      lift (expect_version k.entity_type (k.id e) expected_version (k.version e))
      query (λ s. guard s e)
      transition_id ← draw p.state_transition_id
      at ← read_clock p
      result ← lift (operation e transition_id at)
      save_result result expected_version (event_type e)
