-- ===== src/Service/Accepted.antt =====
-- The store accepts what a legal operation on a goal gives, and its event passes the check
-- (agent_company_os/application/service.py, adapters/in_memory.py).
use nebula_os.Prelude.{
  String, true, false, ◌≡◌, refl, some, List, [], ◌∷◌, lookup, mem_text, eq_iff, texts_eq, arith,
}
use nebula_os.Domain.Errors.{Result, ok, is_ok}
use nebula_os.Domain.Validation.{DateTime, Version, same_time, opaque_id, require_utc, next}
use nebula_os.Domain.Validation.Cleaning.{opaque_id-clean}
use nebula_os.Domain.Transitions.{StateTransition, TransitionResult, SubjectType}
use nebula_os.Domain.Events.{Event, EventType, check_event}
use nebula_os.Domain.Goal
use nebula_os.Domain.Goal.{Goal}
use nebula_os.Domain.Lifecycle.Goals.{
  GoalOp, activate, satisfy, close_unsatisfied, cancel, apply, target_of, Transitioned,
  transition-Transitioned,
}
use nebula_os.Store.Kinds.{goal_kind}
use nebula_os.Store.Ops.{
  Store, save, check_save, check_versions, check_step, validate_event, validate_transition,
  audit_matches, mismatched,
}
use nebula_os.Service.Session.{Ports, Command}
use nebula_os.Service.Guards.{no_guard, satisfaction_guard}
use nebula_os.Service.Changes.{activate_goal, satisfy_goal, close_goal_unsatisfied, cancel_goal}

-- The command of each operation, with its guard and its event.
abbrev pub goal_command : Ports → GoalOp → String → Version → Command Goal
goal_command p activate = activate_goal p
goal_command p satisfy = satisfy_goal p
goal_command p close_unsatisfied = close_goal_unsatisfied p
goal_command p cancel = cancel_goal p

abbrev pub guard_of : GoalOp → Store → Goal → Result (Unit {0})
guard_of satisfy = satisfaction_guard
guard_of _ = no_guard

abbrev pub event_of : GoalOp → EventType
event_of activate = EventType.goal_activated
event_of satisfy = EventType.goal_satisfied
event_of close_unsatisfied = EventType.goal_closed_unsatisfied
event_of cancel = EventType.goal_cancelled

texts_eq_refl : (ts : List String) → texts_eq ts ts ≡ true
texts_eq_refl [] = refl
texts_eq_refl (t ∷ ts) = ground (arith, texts_eq_refl ts, eq_iff t t)

same_time_refl : (t : DateTime) → same_time t t ≡ true
same_time_refl t = ground arith

-- The goal after the operation.
abbrev pub moved : GoalOp → Goal → DateTime → Goal
moved op g at = record g { status = target_of op; version = next g.version; updated_at = at }

module _ (op : GoalOp) (g : Goal) (id : String) (at : DateTime) where
  -- The definition of a goal is the same before and after.
  moved-same : goal_kind.same_definition g (moved op g at) ≡ true
  moved-same = ground (
    arith,
    eq_iff g.id g.id,
    eq_iff g.workspace_id g.workspace_id,
    eq_iff g.objective g.objective,
    texts_eq_refl g.constraints,
    texts_eq_refl g.acceptance_criteria,
    same_time_refl g.created_at,
  )

  abbrev pub step_of : (reason : String) → StateTransition
  step_of reason = record {
    id = id;
    workspace_id = g.workspace_id;
    subject_type = SubjectType.goal;
    subject_id = g.id;
    previous_status = Goal.status_value g.status;
    new_status = Goal.status_value (target_of op);
    reason = reason;
    from_version = g.version;
    to_version = next g.version;
    occurred_at = at;
  }

  abbrev pub event_for : (event_id : String) → DateTime → Event
  event_for event_id at' = record {
    id = event_id;
    workspace_id = g.workspace_id;
    event_type = event_of op;
    subject_type = SubjectType.goal;
    subject_id = g.id;
    entity_version = next g.version;
    occurred_at = at';
    metadata = [];
    schema_version = 1;
  }

  module _ (reason event_id : String) (at' : DateTime) where
    versions-pass :
        check_versions goal_kind g
          (moved op g at)
          g.version
          (step_of reason)
          (event_for event_id at')
        ≡ ok tt
    unfolding check_versions
    versions-pass = ground (arith, eq_iff g.id g.id)

    matches-pass : audit_matches goal_kind (moved op g at) (event_for event_id at') ≡ ok tt
    unfolding audit_matches
    matches-pass = ground (arith, eq_iff g.id g.id, eq_iff g.workspace_id g.workspace_id)

    step-pass :
        Goal.allowed g.status (target_of op) ≡ true
        → check_step goal_kind g (moved op g at) (step_of reason) (event_for event_id at') ≡ ok tt
    unfolding check_step mismatched
    step-pass legal =
        let same = moved-same in
        ground (
          arith,
          eq_iff g.workspace_id g.workspace_id,
          eq_iff (Goal.status_value g.status) (Goal.status_value g.status),
          eq_iff (Goal.status_value (target_of op)) (Goal.status_value (target_of op)),
          same_time_refl at,
        )

    -- The store accepts what the operation gives, with its event.
    pub save-pass :
        (s : Store)
        → lookup g.id s.tables.goals ≡ some g
        → Goal.allowed g.status (target_of op) ≡ true
        → mem_text event_id s.log.event_ids ≡ false
        → mem_text id s.log.transition_ids ≡ false
        → is_ok
            (save goal_kind (moved op g at) g.version (step_of reason) (event_for event_id at') s)
          ≡ true
    unfolding save check_save validate_event validate_transition
    save-pass s stored legal fresh fresh' =
        let versions = versions-pass in
        let matches = matches-pass in let step = step-pass legal in ground arith

abbrev pub reason_of : GoalOp → String
reason_of activate = "activate"
reason_of satisfy = "accept_outcome"
reason_of close_unsatisfied = "close_without_satisfaction"
reason_of cancel = "cancel"

pub apply-Transitioned :
    (op : GoalOp) (g : Goal) (id : String) (at : DateTime) (r : TransitionResult Goal)
    → apply op g id at ≡ ok r
    → Transitioned g (target_of op) id at (reason_of op) r
unfolding apply Goal.activate Goal.satisfy Goal.close_unsatisfied Goal.cancel
apply-Transitioned activate g id at r h = transition-Transitioned g _ id at _ r h
apply-Transitioned satisfy g id at r h = transition-Transitioned g _ id at _ r h
apply-Transitioned close_unsatisfied g id at r h = transition-Transitioned g _ id at _ r h
apply-Transitioned cancel g id at r h = transition-Transitioned g _ id at _ r h

pub event-pass :
    (op : GoalOp) (g : Goal) (id event_id : String) (at at' : DateTime)
    → opaque_id g.id ≡ ok g.id
    → require_utc at' ≡ ok tt
    → check_event (event_for op g id at event_id at') ≡ ok (event_for op g id at event_id at')
unfolding check_event
event-pass op g id event_id at at' named utc = ground (arith, opaque_id-clean g.id named)
